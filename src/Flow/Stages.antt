-- ===== src/Flow/Stages.antt =====
-- How `DarkFactoryWorkflow.run` calls an activity, merges what it returns, and waits at a gate.
use local_dafa.Base.{ℕ, zero, suc, ◌+◌, Bool, Option, some, [], ◌∷◌, if◌then◌else◌}
use local_dafa.State.Channels.{State, Delta, test_results, findings}
use local_dafa.State.Merge.{merge}
use local_dafa.Flow.Machine.{
  Activity, Workflow, Service, Reply, returned, failed, Result, ok, raised, pending_still, Flow,
  ◌>>=◌, ◌>>◌, gets, modify, set_state, Gate,
}
use local_dafa.Flow.Signals.{deliver}
use local_dafa.Flow.Stale.{snapshot_findings_counts, drop_stale_findings}

abbrev pub reply_result : Reply → Result Delta
reply_result (returned d) = ok d
reply_result (failed e) = raised e

module _ (env : Service) where
  -- One turn: the activity is logged, and the updates of the turn are handled before it replies.
  unfoldable pub call : Activity → Flow Delta
  call a w =
      let w' = deliver (env.updates w.clock) w in
      (
        reply_result (env.reply w.clock a w.state),
        record w' { clock = w.clock + 1; trace = a ∷ w.trace },
      )

  -- `self._state = merge(self._state, delta)`
  unfoldable pub absorb : Delta → Flow (Unit {0})
  absorb d = set_state (λ s. merge env.caps s d)

  -- `self._state = merge(self._state, await workflow.execute_activity(...))`
  unfoldable pub stage : Activity → Flow (Unit {0})
  unfolding call absorb
  stage a = do d ← call a; absorb d

  -- A producer stage, and the findings of before it dropped.
  unfoldable pub producer_stage : Activity → Flow (Unit {0})
  unfolding stage
  producer_stage a = do
    pre ← gets (λ w. snapshot_findings_counts w.state)
    stage a
    set_state (λ s. drop_stale_findings s pre)

  -- `workflow.wait_condition`: turns pass until the condition holds.
  unfoldable pub wait_for : ℕ → (Workflow → Bool) → Flow (Unit {0})
  wait_for zero p w = (if p w then ok tt else pending_still, w)
  wait_for (suc f) p w =
      let rest = wait_for f p (record (deliver (env.updates w.clock) w) { clock = w.clock + 1 }) in
      if p w then (ok tt, w) else rest

-- `self._state["test_results"] = []` and the same of `findings`.
unfoldable pub fresh_evidence : State → State
fresh_evidence s test_results = some []
fresh_evidence s findings = some []
fresh_evidence s c = s c

-- `self._pending_gate = gate`
abbrev pub set_pending : Option Gate → Flow (Unit {0})
set_pending g = modify (λ w. record w { pending = g })
