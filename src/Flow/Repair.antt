-- ===== src/Flow/Repair.antt =====
-- The verify and Fixer loop of `DarkFactoryWorkflow.run`.
use local_dafa.Base.{ℕ, zero, suc, Bool, true, false, Option, none, some}
use local_dafa.State.Records.{Escalation}
use local_dafa.State.Channels.{State, verify_summary}
use local_dafa.Flow.Budget.{
  fixer_budget_exhaustion, record_fixer_attempt_delta, infeasible_predicate_escalation,
  fixer_decision_escalation, fixer_escalation_delta,
}
use local_dafa.Flow.Machine.{
  Service, pending_still, Flow, ◌>>=◌, ◌>>◌, pure, gets, set_state, Exit, or_return, finish, verify,
  fixer, needs_human,
}
use local_dafa.Flow.Stages.{absorb, stage, producer_stage, fresh_evidence}

-- `summary.get("passed")` of the summary, if there is one.
abbrev pub verify_passed : State → Bool
verify_passed s = elim (s verify_summary) [ none ↦ false | some v ↦ v.passed ]

module _ (env : Service) where
  -- An escalation is logged, and the run returns for a human.
  unfoldable pub escalate : (State → Option Escalation) → Flow Exit
  escalate test = do
    found ← gets (λ w. test w.state)
    elim found [
      | none ↦ pure none
      | some e ↦ absorb env (fixer_escalation_delta e) >> finish needs_human (some e.reason)
    ]

  -- The Fixer runs, charged to the targets of the failure.
  unfoldable pub charge_and_fix : Flow (Unit {0})
  charge_and_fix = do
    s ← gets (λ w. w.state)
    absorb env (record_fixer_attempt_delta s)
    producer_stage env fixer

  -- One cycle: `true` when verification passed.
  unfoldable pub verify_cycle : Flow Bool
  verify_cycle = do set_state fresh_evidence; stage env verify; gets (λ w. verify_passed w.state)

  -- A failed verification: escalated, or fixed and tried again.
  unfoldable pub after_failure : Flow Exit → Flow Exit
  unfolding escalate charge_and_fix
  after_failure again = do
    e ← escalate infeasible_predicate_escalation
    or_return e (do
      e ← escalate fixer_budget_exhaustion
      or_return e (do charge_and_fix; e ← escalate fixer_decision_escalation; or_return e again))

  unfoldable pub after_verify : Bool → Flow Exit → Flow Exit
  unfolding after_failure
  after_verify true again = pure none
  after_verify false again = after_failure again

  unfoldable pub repair_loop : ℕ → Flow Exit
  unfolding after_verify verify_cycle
  repair_loop zero w = (pending_still, w)
  repair_loop (suc fuel) w = (verify_cycle >>= λ passed. after_verify passed (repair_loop fuel)) w
