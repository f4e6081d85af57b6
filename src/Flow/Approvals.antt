-- ===== src/Flow/Approvals.antt =====
-- Where an approval that a gate reads comes from: the updates that clients have sent.
use local_dafa.Base.{
  ℕ, ◌+◌, ◌<◌, ◌≤◌, Bool, true, false, Option, none, some, List, [], ◌∷◌, ◌≡◌, ◌⊎◌, inl, inr, arith,
  any, refl,
}
use local_dafa.State.Records.{GateDecision}
use local_dafa.Flow.Machine.{
  Workflow, Update, Service, approve_brief, revise_brief, reject_brief, approve_merge, reject_merge,
  trigger_fix, trigger_rebuild, approve_gate, Gate, brief_gate, merge_gate,
}
use local_dafa.Flow.Signals.{deliver, handle, route_gate}
use local_dafa.Flow.Keeps.{Inbox, inbox, ticked}

-- An update that approves the brief, or whichever gate is open.
abbrev pub approves_brief : Update → Bool
approves_brief (approve_brief _) = true
approves_brief (approve_gate d) = d.approved
approves_brief _ = false

abbrev pub approves_merge : Update → Bool
approves_merge (approve_merge _) = true
approves_merge (approve_gate d) = d.approved
approves_merge _ = false

abbrev pub is_approved : Option GateDecision → Bool
is_approved none = false
is_approved (some d) = d.approved

-- One of the first turns has delivered such an update.
abbrev pub Sent : Service → (Update → Bool) → ℕ → Type 0
Sent env p n = (k : ℕ) × (k < n) × (any p (env.updates k) ≡ true)

pub Sent-le : (env : Service) (p : Update → Bool) (n m : ℕ) → n ≤ m → Sent env p n → Sent env p m
Sent-le env p n m h (k, below, sent) = (k, omega (arith, h, below), sent)

-- Each approving decision of the inbox was sent.
abbrev pub InboxSent : Service → Inbox → Type 0
InboxSent env x =
    (is_approved x.brief ≡ true → Sent env approves_brief x.turns)
    × (is_approved x.merging ≡ true → Sent env approves_merge x.turns)

route_gate-brief :
    (g : Option Gate) (b : Option GateDecision) (d : GateDecision) (w : Workflow)
    → is_approved (route_gate g b d w).brief ≡ true
    → (is_approved w.brief ≡ true) ⊎ (d.approved ≡ true)
unfolding route_gate
route_gate-brief (some merge_gate) b d w h = inl h
route_gate-brief (some brief_gate) b d w h = inr h
route_gate-brief none none d w h = inr h
route_gate-brief none (some x) d w h = inl h

route_gate-merging :
    (g : Option Gate) (b : Option GateDecision) (d : GateDecision) (w : Workflow)
    → is_approved (route_gate g b d w).merging ≡ true
    → (is_approved w.merging ≡ true) ⊎ (d.approved ≡ true)
unfolding route_gate
route_gate-merging (some merge_gate) b d w h = inr h
route_gate-merging (some brief_gate) b d w h = inl h
route_gate-merging none none d w h = inl h
route_gate-merging none (some x) d w h = inr h

handle-brief :
    (u : Update) (w : Workflow)
    → is_approved (handle u w).brief ≡ true
    → (is_approved w.brief ≡ true) ⊎ (approves_brief u ≡ true)
unfolding handle
handle-brief (approve_brief d) w h = inr refl
handle-brief (revise_brief d) w h = inl h
handle-brief (reject_brief d) w h = cc
handle-brief (approve_merge d) w h = inl h
handle-brief (reject_merge d) w h = inl h
handle-brief (trigger_fix d) w h = inl h
handle-brief (trigger_rebuild d) w h = inl h
handle-brief (approve_gate d) w h = route_gate-brief w.pending w.brief d w h

handle-merging :
    (u : Update) (w : Workflow)
    → is_approved (handle u w).merging ≡ true
    → (is_approved w.merging ≡ true) ⊎ (approves_merge u ≡ true)
unfolding handle
handle-merging (approve_brief d) w h = inl h
handle-merging (revise_brief d) w h = inl h
handle-merging (reject_brief d) w h = inl h
handle-merging (approve_merge d) w h = inr refl
handle-merging (reject_merge d) w h = cc
handle-merging (trigger_fix d) w h = inl h
handle-merging (trigger_rebuild d) w h = inl h
handle-merging (approve_gate d) w h = route_gate-merging w.pending w.brief d w h

deliver-brief :
    (us : List Update) (w : Workflow)
    → is_approved (deliver us w).brief ≡ true
    → (is_approved w.brief ≡ true) ⊎ (any approves_brief us ≡ true)
unfolding deliver
deliver-brief [] w h = inl h
deliver-brief (u ∷ us) w h = elim (deliver-brief us (handle u w) h) [
  | inr s ↦ inr (ground (arith, s))
  | inl q ↦ elim (handle-brief u w q) [ inl e ↦ inl e | inr s ↦ inr (rw s) ]
]

deliver-merging :
    (us : List Update) (w : Workflow)
    → is_approved (deliver us w).merging ≡ true
    → (is_approved w.merging ≡ true) ⊎ (any approves_merge us ≡ true)
unfolding deliver
deliver-merging [] w h = inl h
deliver-merging (u ∷ us) w h = elim (deliver-merging us (handle u w) h) [
  | inr s ↦ inr (ground (arith, s))
  | inl q ↦ elim (handle-merging u w q) [ inl e ↦ inl e | inr s ↦ inr (rw s) ]
]

-- The updates of a turn keep that, the turn counted.
pub ticked-InboxSent :
    (env : Service) (w : Workflow) → InboxSent env (inbox w) → InboxSent env (inbox (ticked env w))
ticked-InboxSent env w (b, m) = (
  (λ h. elim (deliver-brief (env.updates w.clock) w h) [
    | inl e ↦ Sent-le env approves_brief w.clock (w.clock + 1) (omega arith) (b e)
    | inr s ↦ (w.clock, omega arith, s)
  ]),
  λ h. elim (deliver-merging (env.updates w.clock) w h) [
    | inl e ↦ Sent-le env approves_merge w.clock (w.clock + 1) (omega arith) (m e)
    | inr s ↦ (w.clock, omega arith, s)
  ],
)
