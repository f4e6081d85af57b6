-- ===== src/Flow/Machine.antt =====
-- The workflow object of src/darkfactory/runtime/workflow.py, the service that runs its activities
-- and delivers its updates, and the monad of its coroutine.
use local_dafa.Base.{ℕ, Option, none, some, List, Text}
use local_dafa.State.Records.{GateDecision}
use local_dafa.State.Channels.{State, Delta}
use local_dafa.State.Merge.{Caps}

pub data Activity : Type 0 where
  setup_worker hydrate discovery build verify fixer pr_creator reviewer : Activity
  merge_branch teardown_worker : Activity

pub data MergeAction : Type 0 where
  fix rebuild : MergeAction

pub data Gate : Type 0 where
  brief_gate merge_gate : Gate

-- The fields of `DarkFactoryWorkflow`. `clock` counts the turns of the event loop that the
-- coroutine has waited for, and `trace` lists the activities that it called, the last one first.
pub record Workflow : Type 0 where
  pub brief : Option GateDecision
  pub revise : Option GateDecision
  pub merging : Option GateDecision
  pub action : Option MergeAction
  pub payload : Option GateDecision
  pub pending : Option Gate
  pub state : State
  pub clock : ℕ
  pub trace : List Activity

-- The update handlers that a client can call.
pub data Update : Type 0 where
  approve_brief revise_brief reject_brief approve_merge reject_merge : GateDecision → Update
  trigger_fix trigger_rebuild approve_gate : GateDecision → Update

-- How an activity ended, after Temporal's retries.
pub data Reply : Type 0 where
  returned : Delta → Reply
  failed : Text → Reply

-- The service: what the activity called at a turn replies, and which updates a turn delivers.
pub record Service : Type 0 where
  pub caps : Caps
  pub reply : ℕ → Activity → State → Reply
  pub updates : ℕ → List Update

pub data Status : Type 0 where
  merged rejected needs_human : Status

pub record RunResult : Type 0 where
  pub status : Status
  pub state : State
  pub reason : Option Text

-- A coroutine returns, raises, or has not ended when the fuel is spent.
pub data Result (A : Type 0) : Type 0 where
  ok : A → Result A
  raised : Text → Result A
  pending_still : Result A

abbrev pub Flow : Type 0 → Type 0
Flow A = Workflow → Result A × Workflow

infixl 5 ◌>>=◌ ◌>>◌
abbrev pub continue_with : {A B : Type 0} → Result A → (A → Flow B) → Flow B
continue_with (ok a) f w = f a w
continue_with (raised e) f w = (raised e, w)
continue_with pending_still f w = (pending_still, w)

abbrev pub ◌>>=◌ : {A B : Type 0} → Flow A → (A → Flow B) → Flow B
◌>>=◌ m f w = let (r, w') = m w in continue_with r f w'

abbrev pub ◌>>◌ : {A B : Type 0} → Flow A → Flow B → Flow B
m >> k = m >>= λ _. k

abbrev pub pure : {A : Type 0} → A → Flow A
pure a w = (ok a, w)

abbrev pub gets : {A : Type 0} → (Workflow → A) → Flow A
gets f w = (ok (f w), w)

abbrev pub modify : (Workflow → Workflow) → Flow (Unit {0})
modify f w = (ok tt, f w)

-- `none` goes on; `some r` is `return r`.
abbrev pub Exit : Type 0
Exit = Option RunResult

-- The next phase, unless this one returned.
abbrev pub or_return : Exit → Flow Exit → Flow Exit
or_return none k w = k w
or_return (some r) k w = (ok (some r), w)

-- `return RunResult(...)`
abbrev pub finish : Status → Option Text → Flow Exit
finish status reason w =
    (ok (some (record { status = status; state = w.state; reason = reason })), w)

abbrev pub set_state : (State → State) → Flow (Unit {0})
set_state f = modify (λ w. record w { state = f w.state })
