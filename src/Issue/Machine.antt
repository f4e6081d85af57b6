-- ===== src/Issue/Machine.antt =====
-- The workflow object of src/darkfactory/runtime/issue_workflow.py, the service that runs its
-- activities and delivers its updates, and the monad of its coroutine.
use local_dafa.Base.{ℕ, Option, none, some, List, Text, Dict}
use local_dafa.State.Records.{
  GateDecision, IssueComment, UserStory, WorkPackageDict, ReviewDecision, Label,
}
use local_dafa.State.Channels.{State, Delta}
use local_dafa.State.Merge.{Caps}
use local_dafa.Approval.Commands.{ApprovalSignal}
use local_dafa.Flow.Machine.{Result, ok, raised, pending_still}

pub data Phase : Type 0 where
  triage design build verify pr review merge : Phase

pub data PhaseStatus : Type 0 where
  running done failed : PhaseStatus

-- The activities, with the arguments that the workflow chooses besides its state. The comment of a
-- phase carries the marker and the status; the rest of its body is for people to read.
pub data Activity : Type 0 where
  setup_worker hydrate triage_stage discovery build_stage verify_stage fixer : Activity
  pr_creator reviewer merge_branch mark_issue_done teardown_worker : Activity
  swap_label : List Label → Label → Activity
  upsert_phase_comment : Text → PhaseStatus → Activity
  post_questions : List Text → ℕ → Activity
  post_abandoned : List Text → ℕ → Activity
  quarantine : Text → ℕ → Text → Activity

-- The fields of `DarkFactoryIssueWorkflow`. `clock` counts the turns of the event loop that the
-- coroutine has waited for and stands for `workflow.now()`, and `trace` lists the activities that it
-- called, the last one first.
pub record IssueWorkflow : Type 0 where
  pub approval : Option ApprovalSignal
  pub new_comments : List IssueComment
  pub state : State
  pub phase_started_at : Dict Text ℕ
  pub pending_gate : Option Text
  pub clock : ℕ
  pub trace : List Activity

-- The update handlers that a client can call.
pub data Update : Type 0 where
  signal_approval : ApprovalSignal → Update
  approve_gate approve_brief revise_brief reject_brief : GateDecision → Update
  approve_merge reject_merge trigger_fix trigger_rebuild : GateDecision → Update
  post_new_comments : List IssueComment → Update

-- How an activity ended, after Temporal's retries.
pub data Reply : Type 0 where
  returned : Delta → Reply
  failed : Text → Reply

-- The service: what the activity called at a turn replies, the id of the comment that an upsert
-- wrote, which updates a turn delivers, the clock as `isoformat` writes it, and the specification
-- as the Jinja2 template renders it.
pub record Service : Type 0 where
  pub caps : Caps
  pub reply : ℕ → Activity → State → Reply
  pub comment_id : ℕ → Option ℕ
  pub updates : ℕ → List Update
  pub isoformat : ℕ → Text
  pub spec_markdown : List UserStory → List WorkPackageDict → Option ReviewDecision → Text

pub data Status : Type 0 where
  merged rejected canceled abandoned needs_human : Status

pub record RunResult : Type 0 where
  pub status : Status
  pub state : State
  pub reason : Option Text

abbrev pub Flow : Type 0 → Type 0
Flow A = IssueWorkflow → Result A × IssueWorkflow

infixl 5 ◌>>=◌ ◌>>◌
abbrev pub continue_with : {A B : Type 0} → Result A → (A → Flow B) → Flow B
continue_with (ok a) f w = f a w
continue_with (raised e) f w = (raised e, w)
continue_with pending_still f w = (pending_still, w)

abbrev pub ◌>>=◌ : {A B : Type 0} → Flow A → (A → Flow B) → Flow B
◌>>=◌ m f w = let (r, w') = m w in continue_with r f w'

abbrev pub ◌>>◌ : {A B : Type 0} → Flow A → Flow B → Flow B
m >> k = m >>= λ _. k

abbrev pub pure : {A : Type 0} → A → Flow A
pure a w = (ok a, w)

abbrev pub gets : {A : Type 0} → (IssueWorkflow → A) → Flow A
gets f w = (ok (f w), w)

abbrev pub modify : (IssueWorkflow → IssueWorkflow) → Flow (Unit {0})
modify f w = (ok tt, f w)

-- `none` goes on; `some r` is `return r`.
abbrev pub Exit : Type 0
Exit = Option RunResult

-- The next phase, unless this one returned.
abbrev pub or_return : Exit → Flow Exit → Flow Exit
or_return none k w = k w
or_return (some r) k w = (ok (some r), w)

-- `return RunResult(...)`
abbrev pub finish : Status → Option Text → Flow Exit
finish status reason w =
    (ok (some (record { status = status; state = w.state; reason = reason })), w)

abbrev pub set_state : (State → State) → Flow (Unit {0})
set_state f = modify (λ w. record w { state = f w.state })
