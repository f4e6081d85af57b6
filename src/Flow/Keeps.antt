-- ===== src/Flow/Keeps.antt =====
-- Invariants of the coroutine of `DarkFactoryWorkflow`: a property of the trace, of the state's
-- approvals and of the decisions that wait, which each step keeps, whatever updates arrive and
-- however the step ends.
use local_dafa.Base.{
  ℕ, zero, suc, ◌+◌, Bool, Option, none, some, List, [], ◌∷◌, ◌≡◌, refl, inl, inr, ◌∙◌, Bool-cases,
}
use local_dafa.State.Records.{GateDecision}
use local_dafa.State.Channels.{State, Delta, brief_gate_approved, merge_gate_approved}
use local_dafa.State.Merge.{merge, reducer}
use local_dafa.Flow.Machine.{
  Activity, setup_worker, teardown_worker, merge_branch, Workflow, Update, Service, Reply, returned,
  failed, Result, ok, raised, pending_still, Flow, ◌>>=◌, continue_with, Exit, or_return, set_state,
  approve_brief, revise_brief, reject_brief, approve_merge, reject_merge, trigger_fix,
  trigger_rebuild, approve_gate, Gate, brief_gate, merge_gate,
}
use local_dafa.Flow.Signals.{deliver, handle, route_gate}
use local_dafa.Flow.Stages.{call, absorb, stage, wait_for, producer_stage, reply_result}
use local_dafa.Flow.Stale.{drop_stale_findings, snapshot_findings_counts}
use local_dafa.Flow.Logic.{deliver-state, Leads}

-- The decisions that wait to be read, and how many turns have delivered their updates.
pub record Inbox : Type 0 where
  pub brief : Option GateDecision
  pub merging : Option GateDecision
  pub turns : ℕ

abbrev pub inbox : Workflow → Inbox
inbox w = record { brief = w.brief; merging = w.merging; turns = w.clock }

-- The workflow after the updates of a turn.
abbrev pub ticked : Service → Workflow → Workflow
ticked env w = record (deliver (env.updates w.clock) w) { clock = w.clock + 1 }

-- A property of the trace, of the two approvals that the state records, and of the inbox.
abbrev pub Guard : Type 1
Guard = List Activity → Option Bool → Option Bool → Inbox → Type 0

abbrev pub Holds : Guard → Workflow → Type 0
Holds P w = P w.trace (w.state brief_gate_approved) (w.state merge_gate_approved) (inbox w)

abbrev pub Keeps : {A : Type 0} → Guard → Flow A → Type 0
Keeps P m = (w : Workflow) → Holds P w → Holds P (m w).1

route_gate-trace :
    (g : Option Gate) (b : Option GateDecision) (d : GateDecision) (w : Workflow)
    → (route_gate g b d w).trace ≡ w.trace
unfolding route_gate
route_gate-trace (some merge_gate) b d w = refl
route_gate-trace (some brief_gate) b d w = refl
route_gate-trace none none d w = refl
route_gate-trace none (some x) d w = refl

handle-trace : (u : Update) (w : Workflow) → (handle u w).trace ≡ w.trace
unfolding handle
handle-trace (approve_brief d) w = refl
handle-trace (revise_brief d) w = refl
handle-trace (reject_brief d) w = refl
handle-trace (approve_merge d) w = refl
handle-trace (reject_merge d) w = refl
handle-trace (trigger_fix d) w = refl
handle-trace (trigger_rebuild d) w = refl
handle-trace (approve_gate d) w = route_gate-trace w.pending w.brief d w

pub deliver-trace : (us : List Update) (w : Workflow) → (deliver us w).trace ≡ w.trace
unfolding deliver
deliver-trace [] w = refl
deliver-trace (u ∷ us) w = deliver-trace us (handle u w) ∙ handle-trace u w

module _ (P : Guard) where
  pub >>=-Keeps :
      {A B : Type 0} (m : Flow A) (f : A → Flow B)
      → Keeps P m
      → ((a : A) → Keeps P (f a))
      → Keeps P (m >>= f)
  >>=-Keeps {A} {B} m f h k w p = go (m w).0 (m w).1 (h w p)
    where
      go : (r : Result A) (v : Workflow) → Holds P v → Holds P (continue_with r f v).1
      go (ok a) v q = k a v q
      go (raised e) v q = q
      go pending_still v q = q

  pub or_return-Keeps : (e : Exit) (m : Flow Exit) → Keeps P m → Keeps P (or_return e m)
  or_return-Keeps none m h w p = h w p
  or_return-Keeps (some r) m h w p = p

-- The activities that produce or check the change.
abbrev pub IsWork : Activity → Type 0
IsWork setup_worker = ⊥
IsWork teardown_worker = ⊥
IsWork merge_branch = ⊥
IsWork _ = Unit {0}

-- A delta that leaves the two approvals alone.
abbrev pub LeavesGates : Delta → Type 0
LeavesGates d = (d brief_gate_approved ≡ none) × (d merge_gate_approved ≡ none)

-- A guard that work, the replies to it, the updates, and a decision that is read keep.
pub record IsStable (P : Guard) (env : Service) : Type 0 where
  pub works :
      (a : Activity)
      → IsWork a
      → (t : List Activity) (b m : Option Bool) (x : Inbox) → P t b m x
      → P (a ∷ t) b m x
  pub replies :
      (n : ℕ) (a : Activity) (s s' : State) (d : Delta)
      → env.reply n a s ≡ returned d
      → (t : List Activity) (x : Inbox) → P t (s' brief_gate_approved) (s' merge_gate_approved) x
      → P t (merge env.caps s' d brief_gate_approved) (merge env.caps s' d merge_gate_approved) x
  pub ticks :
      (w : Workflow) (t : List Activity) (b m : Option Bool)
      → P t b m (inbox w)
      → P t b m (inbox (ticked env w))
  pub clears_brief :
      (t : List Activity) (b m : Option Bool) (x : Inbox)
      → P t b m x
      → P t b m (record x { brief = none })
  pub clears_merging :
      (t : List Activity) (b m : Option Bool) (x : Inbox)
      → P t b m x
      → P t b m (record x { merging = none })

module _ (P : Guard) (env : Service) (stable : IsStable P env) where
  pub absorb-Keeps : (d : Delta) → LeavesGates d → Keeps P (absorb env d)
  unfolding absorb merge reducer
  absorb-Keeps d h w p = rw (h.0, h.1) p

  ticked-Holds : (w : Workflow) → Holds P w → Holds P (ticked env w)
  ticked-Holds w p =
      rw (deliver-trace (env.updates w.clock) w, deliver-state (env.updates w.clock) w)
        (stable.ticks w w.trace (w.state brief_gate_approved) (w.state merge_gate_approved) p)

  pub wait_for-Keeps : (n : ℕ) (p : Workflow → Bool) → Keeps P (wait_for env n p)
  unfolding wait_for
  wait_for-Keeps zero p w h = h
  wait_for-Keeps (suc n) p w h = elim (Bool-cases (p w)) [
    | inl e ↦ rw e h
    | inr e ↦ rw e (wait_for-Keeps n p (ticked env w) (ticked-Holds w h))
  ]

  pub reply-Keeps :
      (n : ℕ) (a : Activity) (s : State) (d : Delta)
      → env.reply n a s ≡ returned d
      → Keeps P (absorb env d)
  unfolding absorb
  reply-Keeps n a s d e w p = stable.replies n a s w.state d e w.trace (inbox w) p

  -- A stage that leads from one guard to another when its activity is called.
  pub stage-Moves :
      (Q : Guard) (a : Activity)
      → ((t : List Activity) (b m : Option Bool) (x : Inbox) → Q t b m x → P (a ∷ t) b m x)
      → (w : Workflow) → Holds Q w
      → Holds P (stage env a w).1
  unfolding stage call
  stage-Moves Q a h w p = go (env.reply w.clock a w.state) refl
    where
      v : Workflow
      v = record (deliver (env.updates w.clock) w) { clock = w.clock + 1; trace = a ∷ w.trace }

      held : Holds P v
      held = rw (deliver-state (env.updates w.clock) w) (
          stable.ticks w (a ∷ w.trace) (w.state brief_gate_approved) (w.state merge_gate_approved)
            (h w.trace (w.state brief_gate_approved) (w.state merge_gate_approved) (inbox w) p))

      go :
          (r : Reply)
          → env.reply w.clock a w.state ≡ r
          → Holds P (continue_with (reply_result r) (absorb env) v).1
      go (returned d) e = reply-Keeps w.clock a w.state d e v held
      go (failed x) e = held

  pub stage-Keeps :
      (a : Activity)
      → ((t : List Activity) (b m : Option Bool) (x : Inbox) → P t b m x → P (a ∷ t) b m x)
      → Keeps P (stage env a)
  stage-Keeps a h = stage-Moves P a h

  pub work-Keeps : (a : Activity) → IsWork a → Keeps P (stage env a)
  work-Keeps a h = stage-Keeps a (stable.works a h)

  pub producer-Keeps : (a : Activity) → IsWork a → Keeps P (producer_stage env a)
  unfolding producer_stage drop_stale_findings
  producer-Keeps a h w p =
      >>=-Keeps P (stage env a)
        (λ _. set_state (λ s. drop_stale_findings s (snapshot_findings_counts w.state)))
        (work-Keeps a h) (λ _ v q. q) w p

-- A guard of the outcome holds however the step ended.
pub Holds-Leads :
    {A : Type 0} (P : Guard) (r : Result A × Workflow)
    → Holds P r.1
    → Leads (Holds P) (Holds P) (λ _. Holds P) r
Holds-Leads P (ok a, v) q = q
Holds-Leads P (raised e, v) q = q
Holds-Leads P (pending_still, v) q = q

pub Keeps-Leads :
    {A : Type 0} (P : Guard) (m : Flow A) (w : Workflow)
    → Keeps P m
    → Holds P w
    → Leads (Holds P) (Holds P) (λ _. Holds P) (m w)
Keeps-Leads P m w h p = Holds-Leads P (m w) (h w p)
