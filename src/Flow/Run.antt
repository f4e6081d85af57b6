-- ===== src/Flow/Run.antt =====
-- `DarkFactoryWorkflow.run` of src/darkfactory/runtime/workflow.py.
use local_dafa.Base.{ℕ, none, some, [], ◌++◌, Text, codes, or_else}
use local_dafa.State.Records.{RunRequest}
use local_dafa.State.Channels.{State, wf_id, task_id, feature_branch, planning_feedback}
use local_dafa.State.Merge.{init_state}
use local_dafa.Flow.Machine.{
  Workflow, Service, Result, ok, raised, pending_still, Flow, ◌>>=◌, ◌>>◌, pure, gets, Exit,
  or_return, setup_worker, hydrate, build, pr_creator, reviewer, teardown_worker,
}
use local_dafa.Flow.Stages.{call, stage}
use local_dafa.Flow.Planning.{planning_loop}
use local_dafa.Flow.Repair.{repair_loop}
use local_dafa.Flow.Merging.{merge_loop}

-- How often each unbounded loop may go round, and how long each gate may wait.
pub record Fuel : Type 0 where
  pub rounds : ℕ
  pub waits : ℕ
  pub repairs : ℕ
  pub merges : ℕ

-- The three keys that `run` adds to the initial state.
unfoldable pub with_ids : Text → State → State
with_ids wf s wf_id = some wf
with_ids wf s task_id = some wf
with_ids wf s feature_branch = some (codes "agent/" ++ wf)
with_ids wf s c = s c

-- The object that `__init__` makes, with the state that `run` starts from.
unfoldable pub start : Text → RunRequest → Workflow
unfolding with_ids
start wf req = record {
  brief = none;
  revise = none;
  merging = none;
  action = none;
  payload = none;
  pending = none;
  state = with_ids wf (init_state req);
  clock = 0;
  trace = [];
}

module _ (env : Service) (fuel : Fuel) where
  -- From the repaired change to the merge gate.
  unfoldable pub deliver_change : Flow Exit
  deliver_change = do
    stage env pr_creator
    stage env reviewer
    merge_loop env fuel.merges fuel.waits

  -- From the approved brief on.
  unfoldable pub build_and_deliver : Flow Exit
  unfolding deliver_change
  build_and_deliver = do
    stage env build
    e ← repair_loop env fuel.repairs
    or_return e deliver_change

  -- The body of `try`.
  unfoldable pub body : Flow Exit
  unfolding build_and_deliver
  body = do
    stage env hydrate
    feedback ← gets (λ w. or_else (w.state planning_feedback) [])
    e ← planning_loop env fuel.rounds fuel.waits feedback
    or_return e build_and_deliver

  -- `finally`: the worker is torn down when the body has ended, and a failure there wins.
  unfoldable pub teardown_after : {A : Type 0} → Result A → Flow A
  teardown_after (ok a) w = (call env teardown_worker >> pure a) w
  teardown_after (raised e) w = (call env teardown_worker >> λ v. (raised e, v)) w
  teardown_after pending_still w = (pending_still, w)

  unfoldable pub run : Text → RunRequest → Result Exit × Workflow
  unfolding start body teardown_after
  run wf req =
      (do call env setup_worker; λ w. let (r, w') = body w in teardown_after r w') (start wf req)
