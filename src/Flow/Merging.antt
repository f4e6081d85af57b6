-- ===== src/Flow/Merging.antt =====
-- The merge gate of `DarkFactoryWorkflow.run`.
use local_dafa.Base.{ℕ, zero, suc, true, Option, none, some, [], Text, codes, if◌then◌else◌}
use local_dafa.State.Records.{GateDecision}
use local_dafa.State.Channels.{
  Delta, human_fix_focus, human_fix_author, human_rebuild_focus, human_rebuild_author,
  gate_approved, merge_gate_approved, merge_gate_reason,
}
use local_dafa.Flow.Machine.{
  Workflow, Service, pending_still, Flow, ◌>>=◌, ◌>>◌, gets, modify, set_state, Exit, finish,
  MergeAction, fix, rebuild, build, verify, reviewer, merge_branch, merged, rejected, merge_gate,
}
use local_dafa.Flow.Signals.{merge_decided}
use local_dafa.Flow.Stages.{absorb, stage, producer_stage, wait_for, set_pending, fresh_evidence}
use local_dafa.Flow.Repair.{charge_and_fix}

abbrev pub reason_of : Option GateDecision → Text
reason_of none = []
reason_of (some d) = d.reason

unfoldable pub fix_delta : Option GateDecision → Delta
fix_delta d human_fix_focus = some (some (reason_of d))
fix_delta d human_fix_author = some (some (codes "human"))
fix_delta d _ = none

unfoldable pub rebuild_delta : Option GateDecision → Delta
rebuild_delta d human_rebuild_focus = some (some (reason_of d))
rebuild_delta d human_rebuild_author = some (some (codes "human"))
rebuild_delta d _ = none

unfoldable pub merge_delta : Text → Delta
merge_delta reason gate_approved = some (some true)
merge_delta reason merge_gate_approved = some (some true)
merge_delta reason merge_gate_reason = some (some reason)
merge_delta reason _ = none

-- `self._merge_action = self._merge_action_payload = self._merge_gate = None`
abbrev pub clear_action : Workflow → Workflow
clear_action w = record w { action = none; payload = none; merging = none }

module _ (env : Service) where
  -- The change is verified and reviewed again.
  unfoldable pub recheck : Flow (Unit {0})
  recheck = do set_state fresh_evidence; stage env verify; stage env reviewer

  unfoldable pub apply_action : MergeAction → Flow (Unit {0})
  unfolding recheck fix_delta rebuild_delta
  apply_action fix = do
    p ← gets (λ w. w.payload)
    modify clear_action
    absorb env (fix_delta p)
    charge_and_fix env
    recheck
  apply_action rebuild = do
    p ← gets (λ w. w.payload)
    modify clear_action
    absorb env (rebuild_delta p)
    producer_stage env build
    recheck

  unfoldable pub merge_verdict : Option GateDecision → Flow Exit
  unfolding merge_delta
  merge_verdict none = finish rejected (some (codes "merge gate rejected"))
  merge_verdict (some d) =
      if d.approved
      then (do absorb env (merge_delta d.reason); stage env merge_branch; finish merged none)
      else finish rejected (some d.reason)

  -- An action comes before a verdict, and the gate opens again after it.
  unfoldable pub after_gate : Option MergeAction → Option GateDecision → Flow Exit → Flow Exit
  unfolding apply_action merge_verdict
  after_gate (some a) verdict again = apply_action a >> again
  after_gate none verdict again = merge_verdict verdict

  unfoldable pub merge_loop : ℕ → ℕ → Flow Exit
  unfolding after_gate
  merge_loop zero waits w = (pending_still, w)
  merge_loop (suc rounds) waits w =
      (do
        set_pending (some merge_gate)
        wait_for env waits merge_decided
        set_pending none
        asked ← gets (λ v. v.action)
        verdict ← gets (λ v. v.merging)
        after_gate asked verdict (merge_loop rounds waits))
        w
