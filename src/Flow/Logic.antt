-- ===== src/Flow/Logic.antt =====
-- How a coroutine of `DarkFactoryWorkflow` ends: a postcondition for each outcome, with rules for
-- the sequence, for a call and for a stage.
use local_dafa.Base.{ℕ, ◌+◌, Option, none, some, List, [], ◌∷◌, ◌≡◌, refl, ◌∙◌}
use local_dafa.State.Channels.{State, Delta}
use local_dafa.State.Merge.{merge}
use local_dafa.Flow.Machine.{
  Activity, Workflow, Update, Service, Reply, returned, failed, Result, ok, raised, pending_still,
  Flow, ◌>>=◌, continue_with,
}
use local_dafa.Flow.Machine.{
  approve_brief, revise_brief, reject_brief, approve_merge, reject_merge, trigger_fix,
  trigger_rebuild, approve_gate, Gate, brief_gate, merge_gate,
}
use local_dafa.State.Records.{GateDecision}
use local_dafa.Flow.Signals.{deliver, handle, route_gate}
use local_dafa.Flow.Stages.{call, absorb, stage, reply_result}

-- `E` where it raised, `S` where the fuel was spent, `Q` where it returned.
abbrev pub Leads :
    {A : Type 0}
    → (E S : Workflow → Type 0) (Q : A → Workflow → Type 0) → Result A × Workflow
    → Type 0
Leads E S Q (ok a, w) = Q a w
Leads E S Q (raised _, w) = E w
Leads E S Q (pending_still, w) = S w

continue_with-Leads :
    {A B : Type 0} (E S : Workflow → Type 0) (Q : A → Workflow → Type 0) (R : B → Workflow → Type 0)
    (f : A → Flow B) (r : Result A) (v : Workflow)
    → Leads E S Q (r, v)
    → ((a : A) (u : Workflow) → Q a u → Leads E S R (f a u))
    → Leads E S R (continue_with r f v)
continue_with-Leads E S Q R f (ok a) v q k = k a v q
continue_with-Leads E S Q R f (raised e) v q k = q
continue_with-Leads E S Q R f pending_still v q k = q

pub >>=-Leads :
    {A B : Type 0} (E S : Workflow → Type 0) (Q : A → Workflow → Type 0) (R : B → Workflow → Type 0)
    (m : Flow A) (f : A → Flow B) (w : Workflow)
    → Leads E S Q (m w)
    → ((a : A) (v : Workflow) → Q a v → Leads E S R (f a v))
    → Leads E S R ((m >>= f) w)
>>=-Leads E S Q R m f w h k = continue_with-Leads E S Q R f (m w).0 (m w).1 h k

route_gate-state :
    (g : Option Gate) (b : Option GateDecision) (d : GateDecision) (w : Workflow)
    → (route_gate g b d w).state ≡ w.state
unfolding route_gate
route_gate-state (some merge_gate) b d w = refl
route_gate-state (some brief_gate) b d w = refl
route_gate-state none none d w = refl
route_gate-state none (some x) d w = refl

handle-state : (u : Update) (w : Workflow) → (handle u w).state ≡ w.state
unfolding handle
handle-state (approve_brief d) w = refl
handle-state (revise_brief d) w = refl
handle-state (reject_brief d) w = refl
handle-state (approve_merge d) w = refl
handle-state (reject_merge d) w = refl
handle-state (trigger_fix d) w = refl
handle-state (trigger_rebuild d) w = refl
handle-state (approve_gate d) w = route_gate-state w.pending w.brief d w

-- Update handlers never touch the pipeline state.
pub deliver-state : (us : List Update) (w : Workflow) → (deliver us w).state ≡ w.state
unfolding deliver
deliver-state [] w = refl
deliver-state (u ∷ us) w = deliver-state us (handle u w) ∙ handle-state u w

module _ (env : Service) where
  -- A call that replies with a delta leaves the state to the caller; one that fails raises.
  pub call-Leads :
      (E S : State → Type 0) (Q : Delta → State → Type 0) (a : Activity) (w : Workflow)
      → ((e : List ℕ) → env.reply w.clock a w.state ≡ failed e → E w.state)
      → ((d : Delta) → env.reply w.clock a w.state ≡ returned d → Q d w.state)
      → Leads (λ v. E v.state) (λ v. S v.state) (λ d v. Q d v.state) (call env a w)
  unfolding call
  call-Leads E S Q a w he hq = go (env.reply w.clock a w.state) refl
    where
      go :
          (r : Reply)
          → env.reply w.clock a w.state ≡ r
          → Leads
              (λ v. E v.state)
              (λ v. S v.state)
              (λ d v. Q d v.state)
              (
                reply_result r,
                record (deliver (env.updates w.clock) w) {
                  clock = w.clock + 1;
                  trace = a ∷ w.trace;
                },
              )
      go (returned d) e = rw (deliver-state (env.updates w.clock) w) (hq d e)
      go (failed x) e = rw (deliver-state (env.updates w.clock) w) (he x e)

  -- A stage merges what the activity returned.
  pub stage-Leads :
      (E S Q : State → Type 0) (a : Activity) (w : Workflow)
      → E w.state
      → ((d : Delta) → env.reply w.clock a w.state ≡ returned d → Q (merge env.caps w.state d))
      → Leads (λ v. E v.state) (λ v. S v.state) (λ _ v. Q v.state) (stage env a w)
  unfolding stage absorb
  stage-Leads E S Q a w he hq =
      >>=-Leads (λ v. E v.state) (λ v. S v.state) (λ d v. Q (merge env.caps v.state d))
        (λ _ v. Q v.state) (call env a) (absorb env) w
        (call-Leads E S (λ d s. Q (merge env.caps s d)) a w (λ _ _. he) hq) (λ d v q. q)

-- Weaker postconditions.
pub Leads-map :
    {A : Type 0} (E S E' S' : Workflow → Type 0) (Q Q' : A → Workflow → Type 0)
    (r : Result A × Workflow)
    → ((w : Workflow) → E w → E' w)
    → ((w : Workflow) → S w → S' w)
    → ((a : A) (w : Workflow) → Q a w → Q' a w)
    → Leads E S Q r
    → Leads E' S' Q' r
Leads-map E S E' S' Q Q' (ok a, w) e s q h = q a w h
Leads-map E S E' S' Q Q' (raised x, w) e s q h = e w h
Leads-map E S E' S' Q Q' (pending_still, w) e s q h = s w h

-- Two postconditions at once, the second one of the value alone.
pub Leads-and :
    {A : Type 0} (E S : Workflow → Type 0) (Q : A → Workflow → Type 0) (V : A → Type 0)
    (r : Result A × Workflow)
    → Leads E S Q r
    → Leads (λ _. Unit {0}) (λ _. Unit {0}) (λ a _. V a) r
    → Leads E S (λ a w. Q a w × V a) r
Leads-and E S Q V (ok a, w) h k = (h, k)
Leads-and E S Q V (raised x, w) h k = h
Leads-and E S Q V (pending_still, w) h k = h

pub Leads-any :
    {A : Type 0} (r : Result A × Workflow)
    → Leads (λ _. Unit {0}) (λ _. Unit {0}) (λ _ _. Unit {0}) r
Leads-any (ok a, w) = tt
Leads-any (raised x, w) = tt
Leads-any (pending_still, w) = tt
