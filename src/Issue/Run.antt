-- ===== src/Issue/Run.antt =====
-- `DarkFactoryIssueWorkflow.run` of src/darkfactory/runtime/issue_workflow.py.
use local_dafa.Base.{ℕ, none, some, [], ◌∷◌, ◌++◌, Text, codes, is_some, if◌then◌else◌}
use local_dafa.State.Records.{IssueRunRequest, Label}
use local_dafa.State.Channels.{State, wf_id, task_id, feature_branch, current_df_label, issue}
use local_dafa.State.Merge.{init_state_from_issue}
use local_dafa.Flow.Machine.{Result, ok, raised, pending_still}
use local_dafa.Issue.Machine.{
  IssueWorkflow, Service, Flow, ◌>>=◌, ◌>>◌, pure, gets, Exit, or_return, finish, Phase,
  PhaseStatus, running, merged, setup_worker, hydrate, pr_creator, merge_branch, mark_issue_done,
  teardown_worker,
}
use local_dafa.Issue.Steps.{call, stage, swap, phase}
use local_dafa.Issue.Triage.{triage_loop, triage_phase}
use local_dafa.Issue.Design.{design_loop}
use local_dafa.Issue.Building.{build_and_verify}
use local_dafa.Issue.Review.{review_loop}

-- How often each loop may go round, and how long each wait may last.
pub record Fuel : Type 0 where
  pub triages : ℕ
  pub designs : ℕ
  pub verifies : ℕ
  pub reviews : ℕ
  pub waits : ℕ

-- The keys that `run` adds to the initial state.
unfoldable pub with_ids : Text → State → State
with_ids wf s wf_id = some wf
with_ids wf s task_id = some wf
with_ids wf s feature_branch = some (codes "agent/" ++ wf)
with_ids wf s current_df_label = some Label.ready
with_ids wf s c = s c

-- The object that `__init__` makes, with the state that `run` starts from.
unfoldable pub start : Text → IssueRunRequest → IssueWorkflow
unfolding with_ids
start wf req = record {
  approval = none;
  new_comments = [];
  state = with_ids wf (init_state_from_issue req);
  phase_started_at = [];
  pending_gate = none;
  clock = 0;
  trace = [];
}

module _ (env : Service) (fuel : Fuel) where
  unfoldable pub begin_triage : Flow (Unit {0})
  begin_triage = do
    stage env hydrate
    swap env (Label.ready ∷ []) Label.triaging
    triage_phase env running

  unfoldable pub create_pr : Flow (Unit {0})
  create_pr = do
    phase env Phase.pr running none none
    stage env pr_creator
    phase env Phase.pr PhaseStatus.done none none

  -- `if self._state.get("issue")`
  unfoldable pub mark_done : Flow (Unit {0})
  mark_done = do
    there ← gets (λ w. is_some (w.state issue))
    let marking = stage env mark_issue_done
    (if there then marking else pure tt)

  unfoldable pub merge_change : Flow Exit
  unfolding mark_done
  merge_change = do
    swap env (Label.awaiting_merge ∷ []) Label.in_progress
    phase env Phase.merge running none none
    stage env merge_branch
    phase env Phase.merge PhaseStatus.done none none
    mark_done
    swap env (Label.in_progress ∷ []) Label.done
    finish merged none

  -- From the verified change on.
  unfoldable pub review_and_merge : Flow Exit
  unfolding create_pr merge_change
  review_and_merge = do
    create_pr
    e ← review_loop env fuel.reviews fuel.waits 0
    or_return e merge_change

  -- From the approved design on.
  unfoldable pub build_and_deliver : Flow Exit
  unfolding review_and_merge
  build_and_deliver = do
    swap env (Label.awaiting_approval ∷ Label.approved ∷ []) Label.building
    e ← build_and_verify env fuel.verifies
    or_return e review_and_merge

  -- From the triaged issue on.
  unfoldable pub design_and_deliver : Flow Exit
  unfolding build_and_deliver
  design_and_deliver = do
    swap env (Label.triaging ∷ []) Label.designing
    e ← design_loop env fuel.designs fuel.waits
    or_return e build_and_deliver

  -- The body of `try`.
  unfoldable pub body : Flow Exit
  unfolding design_and_deliver begin_triage
  body = do
    begin_triage
    e ← triage_loop env fuel.triages fuel.waits 0
    or_return e design_and_deliver

  -- `finally`: the worker is torn down when the body has ended, and a failure there wins.
  unfoldable pub teardown_after : {A : Type 0} → Result A → Flow A
  teardown_after (ok a) w = (call env teardown_worker >> pure a) w
  teardown_after (raised e) w = (call env teardown_worker >> λ v. (raised e, v)) w
  teardown_after pending_still w = (pending_still, w)

  unfoldable pub run : Text → IssueRunRequest → Result Exit × IssueWorkflow
  unfolding start body teardown_after
  run wf req =
      (do call env setup_worker; λ w. let (r, w') = body w in teardown_after r w') (start wf req)
