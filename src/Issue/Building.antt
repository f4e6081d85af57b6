-- ===== src/Issue/Building.antt =====
-- `_run_build_verify` of src/darkfactory/runtime/issue_workflow.py.
use local_dafa.Base.{ℕ, zero, suc, ◌+◌, Bool, true, false, Option, none, some, [], ◌∷◌}
use local_dafa.State.Records.{Label, Escalation}
use local_dafa.State.Channels.{State}
use local_dafa.Flow.Budget.{
  fixer_budget_exhaustion, record_fixer_attempt_delta, fixer_decision_escalation,
  fixer_escalation_delta,
}
use local_dafa.Flow.Repair.{verify_passed}
use local_dafa.Flow.Machine.{pending_still}
use local_dafa.Issue.Machine.{
  Service, Flow, ◌>>=◌, ◌>>◌, pure, gets, set_state, Exit, or_return, finish, Phase, PhaseStatus,
  running, build_stage, verify_stage, fixer, needs_human,
}
use local_dafa.Issue.Steps.{absorb, stage, swap, phase, cancel_if_requested, fresh_evidence}

module _ (env : Service) where
  -- An escalation is logged, and the run returns for a human.
  unfoldable pub escalate_to_human : Escalation → Flow Exit
  escalate_to_human e = do
    absorb env (fixer_escalation_delta e)
    phase env Phase.verify PhaseStatus.failed none none
    swap env (Label.verifying ∷ []) Label.needs_human
    finish needs_human (some e.reason)

  unfoldable pub escalate_found : Option Escalation → Flow Exit
  unfolding escalate_to_human
  escalate_found none = pure none
  escalate_found (some e) = escalate_to_human e

  unfoldable pub escalate : (State → Option Escalation) → Flow Exit
  unfolding escalate_found
  escalate test = gets (λ w. test w.state) >>= escalate_found

  -- The Fixer runs, charged to the targets of the failure.
  unfoldable pub charge_and_fix : Flow (Unit {0})
  charge_and_fix = do
    s ← gets (λ w. w.state)
    absorb env (record_fixer_attempt_delta s)
    stage env fixer

  -- The change is verified on fresh evidence.
  unfoldable pub check_change : Flow (Unit {0})
  check_change = do set_state fresh_evidence; stage env verify_stage

  unfoldable pub verify_phase : PhaseStatus → ℕ → Flow (Unit {0})
  verify_phase status n = phase env Phase.verify status none (some n)

  -- One cycle: `true` when verification passed.
  unfoldable pub verify_cycle : ℕ → Flow Bool
  unfolding verify_phase check_change
  verify_cycle n = do verify_phase running n; check_change; gets (λ w. verify_passed w.state)

  unfoldable pub fix_attempt : ℕ → Flow Exit
  unfolding verify_phase charge_and_fix
  fix_attempt n = do verify_phase running n; charge_and_fix; escalate fixer_decision_escalation

  -- A failed verification: escalated, or fixed and tried again.
  unfoldable pub after_failure : ℕ → Flow Exit → Flow Exit
  unfolding escalate fix_attempt
  after_failure n again = do
    e ← escalate fixer_budget_exhaustion
    or_return e (do e ← fix_attempt n; or_return e again)

  unfoldable pub after_verify : ℕ → Bool → Flow Exit → Flow Exit
  unfolding after_failure
  after_verify n true again = phase env Phase.verify PhaseStatus.done none none >> pure none
  after_verify n false again = after_failure n again

  -- `while True`, from the attempts so far.
  unfoldable pub verify_loop : ℕ → ℕ → Flow Exit
  unfolding verify_cycle after_verify
  verify_loop zero n w = (pending_still, w)
  verify_loop (suc fuel) n w =
      (do passed ← verify_cycle (n + 1); after_verify (n + 1) passed (verify_loop fuel (n + 1))) w

  unfoldable pub build_change : Flow (Unit {0})
  build_change = do
    stage env build_stage
    phase env Phase.build PhaseStatus.done none none
    swap env (Label.building ∷ []) Label.verifying

  -- `_run_build_verify`
  unfoldable pub build_and_verify : ℕ → Flow Exit
  unfolding verify_loop build_change
  build_and_verify fuel = do
    phase env Phase.build running none (some 1)
    e ← cancel_if_requested env Label.building
    or_return e (build_change >> verify_loop fuel 0)
