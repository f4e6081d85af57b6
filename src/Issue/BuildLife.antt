-- ===== src/Issue/BuildLife.antt =====
-- How `_run_build_verify` of src/darkfactory/runtime/issue_workflow.py moves an issue.
use local_dafa.Base.{
  ℕ, zero, suc, ◌+◌, Bool, true, false, Option, none, some, [], ◌∷◌, ◌≡◌, refl, arith,
}
use local_dafa.State.Records.{Label, Escalation}
use local_dafa.State.Channels.{State}
use local_dafa.Flow.Budget.{
  fixer_budget_exhaustion, record_fixer_attempt_delta, fixer_decision_escalation,
  fixer_escalation_delta,
}
use local_dafa.Flow.Repair.{verify_passed}
use local_dafa.Issue.Machine.{
  IssueWorkflow, Service, Flow, ◌>>=◌, ◌>>◌, pure, gets, set_state, Exit, or_return, finish, Phase,
  PhaseStatus, running, build_stage, verify_stage, fixer, needs_human,
}
use local_dafa.Issue.Steps.{absorb, stage, swap, phase, cancel_if_requested, fresh_evidence}
use local_dafa.Issue.Building.{
  escalate_to_human, escalate_found, escalate, charge_and_fix, check_change, verify_phase,
  verify_cycle, fix_attempt, after_failure, after_verify, verify_loop, build_change,
  build_and_verify,
}
use local_dafa.Issue.Life.{
  Place, building, verifying, finished, label_of, step, works, moves, swap_move,
}
use local_dafa.Issue.Logic.{At, Stands-IsLawful, Spec, bind-Spec, Out, or_return-Spec}
use local_dafa.Issue.Rules.{RepliesLeaveLabel, absorb-Spec, set_state-Spec, swap-Spec}
use local_dafa.Issue.Moves.{MayComment, stage-Spec, phase-Spec, cancel_if_requested-Spec}

pub verifying-MayComment : MayComment verifying
unfolding step works
verifying-MayComment m s = refl

pub building-MayComment : MayComment building
unfolding step works
building-MayComment m s = refl

module _ (env : Service) where
  abbrev pub Verifying : IssueWorkflow → Type 0
  Verifying = At env verifying 1

  verify_note-Spec :
      (status : PhaseStatus) (attempt : Option ℕ)
      → Spec env Verifying (phase env Phase.verify status none attempt) (λ _. Verifying)
  verify_note-Spec status attempt =
      phase-Spec env Phase.verify status none attempt verifying Label.verifying 1
        verifying-MayComment

  verify_phase-Spec :
      (status : PhaseStatus) (n : ℕ)
      → Spec env Verifying (verify_phase env status n) (λ _. Verifying)
  unfolding verify_phase
  verify_phase-Spec status n = verify_note-Spec status (some n)

  escalate_to_human-Spec :
      (e : Escalation) (Q : IssueWorkflow → Type 0)
      → Spec env Verifying (escalate_to_human env e) (Out env Q)
  unfolding escalate_to_human fixer_escalation_delta step moves swap_move
  escalate_to_human-Spec e Q =
      let H = At env (finished Label.needs_human) 1 in
      let ending = λ (_ : Unit {0}). finish needs_human (some e.reason) in
      let swapping =
        λ (_ : Unit {0}). swap env (Label.verifying ∷ []) Label.needs_human >>= ending in
      bind-Spec env Verifying (λ _. Verifying) (Out env Q) (absorb env (fixer_escalation_delta e))
        (λ _. phase env Phase.verify PhaseStatus.failed none none >>= swapping)
        (absorb-Spec env (fixer_escalation_delta e) verifying Label.verifying 1 refl)
        (λ _.
          bind-Spec env Verifying (λ _. Verifying) (Out env Q)
            (phase env Phase.verify PhaseStatus.failed none none) swapping
            (verify_note-Spec PhaseStatus.failed none)
            (λ _.
              bind-Spec env Verifying (λ _. H) (Out env Q)
                (swap env (Label.verifying ∷ []) Label.needs_human) ending
                (swap-Spec env (Label.verifying ∷ []) Label.needs_human verifying
                  (finished Label.needs_human) 1 refl refl (omega arith))
                (λ _ w s. (
                  finished Label.needs_human,
                  record {
                    lives = s.lives;
                    labelled = s.labelled;
                    passed = tt;
                    enough = omega arith;
                    up = s.up;
                  },
                  refl,
                ))))

  escalate_found-Spec :
      (found : Option Escalation)
      → Spec env Verifying (escalate_found env found) (Out env Verifying)
  unfolding escalate_found
  escalate_found-Spec none w s = s
  escalate_found-Spec (some e) w s = escalate_to_human-Spec e Verifying w s

  escalate-Spec :
      (test : State → Option Escalation)
      → Spec env Verifying (escalate env test) (Out env Verifying)
  unfolding escalate
  escalate-Spec test w s = escalate_found-Spec (test w.state) w s

  -- The Fixer runs where it may.
  pub charge_and_fix-Spec :
      RepliesLeaveLabel env
      → (p : Place) (n : ℕ) → step p fixer ≡ some p
      → Spec env (At env p n) (charge_and_fix env) (λ _. At env p n)
  unfolding charge_and_fix record_fixer_attempt_delta
  charge_and_fix-Spec replies p n h w s =
      bind-Spec env (At env p n) (λ _. At env p n) (λ _. At env p n)
        (absorb env (record_fixer_attempt_delta w.state)) (λ _. stage env fixer)
        (absorb-Spec env (record_fixer_attempt_delta w.state) p (label_of p) n refl)
        (λ _. stage-Spec env replies fixer p (label_of p) n h) w s

  pub check_change-Spec :
      RepliesLeaveLabel env
      → (p : Place) (n : ℕ) → step p verify_stage ≡ some p
      → Spec env (At env p n) (check_change env) (λ _. At env p n)
  unfolding check_change fresh_evidence
  check_change-Spec replies p n h =
      bind-Spec env (At env p n) (λ _. At env p n) (λ _. At env p n) (set_state fresh_evidence)
        (λ _. stage env verify_stage)
        (set_state-Spec env fresh_evidence p (label_of p) n (λ s. refl))
        (λ _. stage-Spec env replies verify_stage p (label_of p) n h)

  module _ (replies : RepliesLeaveLabel env) where
    verify_cycle-Spec : (n : ℕ) → Spec env Verifying (verify_cycle env n) (λ _. Verifying)
    unfolding verify_cycle step works
    verify_cycle-Spec n =
        let reading = λ (_ : Unit {0}). gets (λ w. verify_passed w.state) in
        bind-Spec env Verifying (λ _. Verifying) (λ _. Verifying) (verify_phase env running n)
          (λ _. check_change env >>= reading) (verify_phase-Spec running n)
          (λ _.
            bind-Spec env Verifying (λ _. Verifying) (λ _. Verifying) (check_change env) reading
              (check_change-Spec replies verifying 1 refl) (λ _ w s. s))

    fix_attempt-Spec : (n : ℕ) → Spec env Verifying (fix_attempt env n) (Out env Verifying)
    unfolding fix_attempt step works
    fix_attempt-Spec n =
        let escalating = λ (_ : Unit {0}). escalate env fixer_decision_escalation in
        bind-Spec env Verifying (λ _. Verifying) (Out env Verifying) (verify_phase env running n)
          (λ _. charge_and_fix env >>= escalating) (verify_phase-Spec running n)
          (λ _.
            bind-Spec env Verifying (λ _. Verifying) (Out env Verifying) (charge_and_fix env)
              escalating (charge_and_fix-Spec replies verifying 1 refl)
              (λ _. escalate-Spec fixer_decision_escalation))

    after_verify-Spec :
        (n : ℕ) (passed : Bool) (again : Flow Exit)
        → Spec env Verifying again (Out env Verifying)
        → Spec env Verifying (after_verify env n passed again) (Out env Verifying)
    unfolding after_verify after_failure
    after_verify-Spec n true again next w s =
        bind-Spec env Verifying (λ _. Verifying) (Out env Verifying)
          (phase env Phase.verify PhaseStatus.done none none) (λ _. pure none)
          (verify_note-Spec PhaseStatus.done none) (λ _ v q. q) w s
    after_verify-Spec n false again next w s =
        let retrying = λ (e : Exit). or_return e again in
        let fixing = λ (e : Exit). or_return e (fix_attempt env n >>= retrying) in
        bind-Spec env Verifying (Out env Verifying) (Out env Verifying)
          (escalate env fixer_budget_exhaustion) fixing (escalate-Spec fixer_budget_exhaustion)
          (λ e. or_return-Spec env Verifying Verifying e (fix_attempt env n >>= retrying) (
            bind-Spec env Verifying (Out env Verifying) (Out env Verifying) (fix_attempt env n)
              retrying (fix_attempt-Spec n)
              (λ e. or_return-Spec env Verifying Verifying e again next)))
          w s

    verify_loop-Spec :
        (fuel n : ℕ) → Spec env Verifying (verify_loop env fuel n) (Out env Verifying)
    unfolding verify_loop
    verify_loop-Spec zero n w s = Stands-IsLawful env verifying Label.verifying 1 w s
    verify_loop-Spec (suc fuel) n w s =
        let again = verify_loop env fuel (n + 1) in
        bind-Spec env Verifying (λ _. Verifying) (Out env Verifying) (verify_cycle env (n + 1))
          (λ passed. after_verify env (n + 1) passed again) (verify_cycle-Spec (n + 1))
          (λ passed. after_verify-Spec (n + 1) passed again (verify_loop-Spec fuel (n + 1))) w s

    build_change-Spec : Spec env (At env building 1) (build_change env) (λ _. Verifying)
    unfolding build_change step works moves swap_move
    build_change-Spec =
        let B = At env building 1 in
        let swapping = λ (_ : Unit {0}). swap env (Label.building ∷ []) Label.verifying in
        bind-Spec env B (λ _. B) (λ _. Verifying) (stage env build_stage)
          (λ _. phase env Phase.build PhaseStatus.done none none >>= swapping)
          (stage-Spec env replies build_stage building Label.building 1 refl)
          (λ _.
            bind-Spec env B (λ _. B) (λ _. Verifying)
              (phase env Phase.build PhaseStatus.done none none) swapping
              (phase-Spec env Phase.build PhaseStatus.done none none building Label.building 1
                building-MayComment)
              (λ _.
                swap-Spec env (Label.building ∷ []) Label.verifying building verifying 1 refl refl
                  (omega arith)))

    -- The build ends with a verified change, or the run returns with the label of its status.
    pub build_and_verify-Spec :
        (fuel : ℕ) → Spec env (At env building 1) (build_and_verify env fuel) (Out env Verifying)
    unfolding build_and_verify step moves swap_move
    build_and_verify-Spec fuel =
        let B = At env building 1 in
        let making = build_change env >> verify_loop env fuel 0 in
        let resuming = λ (e : Exit). or_return e making in
        bind-Spec env B (λ _. B) (Out env Verifying) (phase env Phase.build running none (some 1))
          (λ _. cancel_if_requested env Label.building >>= resuming)
          (phase-Spec env Phase.build running none (some 1) building Label.building 1
            building-MayComment)
          (λ _.
            bind-Spec env B (Out env B) (Out env Verifying) (cancel_if_requested env Label.building)
              resuming (cancel_if_requested-Spec env Label.building building 1 refl)
              (λ e. or_return-Spec env B Verifying e making (
                bind-Spec env B (λ _. Verifying) (Out env Verifying) (build_change env)
                  (λ _. verify_loop env fuel 0) build_change-Spec (λ _. verify_loop-Spec fuel 0))))
