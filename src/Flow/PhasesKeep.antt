-- ===== src/Flow/PhasesKeep.antt =====
-- The phases of `DarkFactoryWorkflow.run` keep every stable guard.
use local_dafa.Base.{
  ℕ, zero, suc, ◌-◌, Bool, true, false, Option, none, List, [], ◌∷◌, ◌++◌, refl, inl, inr, Text,
  Bool-cases, Option-cases,
}
use local_dafa.State.Records.{Escalation, GateDecision, ReviewDecision}
use local_dafa.State.Channels.{State, review_decision, brief_gate_approved, merge_gate_approved}
use local_dafa.Flow.Budget.{
  record_fixer_attempt_delta, fixer_escalation_delta, infeasible_predicate_escalation,
  fixer_budget_exhaustion, fixer_decision_escalation, planning_max_attempts_cap,
}
use local_dafa.Flow.Feedback.{reset_planning_artifacts, planning_approved, human_revise_feedback}
use local_dafa.Flow.Machine.{
  discovery, verify, fixer, reviewer, build, Service, Flow, Exit, gets, fix, rebuild, MergeAction,
}
use local_dafa.Flow.Stages.{absorb, stage, producer_stage, fresh_evidence}
use local_dafa.Flow.Planning.{
  attempt_delta, reject_delta, revise_delta, feedback_of, Plan, attempt, after_critic,
  plan_attempts, revise_round,
}
use local_dafa.Flow.Repair.{
  escalate, charge_and_fix, verify_cycle, after_failure, after_verify, repair_loop, verify_passed,
}
use local_dafa.Flow.Merging.{fix_delta, rebuild_delta, recheck, apply_action, clear_action}
use local_dafa.Flow.Keeps.{
  Guard, inbox, Keeps, IsStable, >>=-Keeps, or_return-Keeps, absorb-Keeps, work-Keeps,
  producer-Keeps,
}

module _ (P : Guard) (env : Service) (stable : IsStable P env) where
  attempt-Keeps : (n : ℕ) (feedback : List Text) → Keeps P (attempt env n feedback)
  unfolding attempt reset_planning_artifacts attempt_delta
  attempt-Keeps n feedback =
      >>=-Keeps P (absorb env (attempt_delta n feedback)) _
        (absorb-Keeps P env stable (attempt_delta n feedback) (refl, refl))
        (λ _ w p.
          >>=-Keeps P (stage env discovery) (λ _. gets (λ v. v.state review_decision))
            (work-Keeps P env stable discovery tt) (λ _ v q. q)
            (record w { state = reset_planning_artifacts w.state }) p)

  after_critic-Keeps :
      (n : ℕ) (feedback : List Text) (d : Option ReviewDecision) (again : List Text → Flow Plan)
      → ((fb : List Text) → Keeps P (again fb))
      → Keeps P (after_critic env n feedback d again)
  unfolding after_critic reject_delta
  after_critic-Keeps n feedback d again h w p = elim (Bool-cases (planning_approved d)) [
    | inl e ↦ rw e p
    | inr e ↦
        let fb = feedback ++ feedback_of d ∷ [] in
        rw e (
          >>=-Keeps P (absorb env (reject_delta n fb (feedback_of d))) (λ _. again fb)
            (absorb-Keeps P env stable (reject_delta n fb (feedback_of d)) (refl, refl)) (λ _. h fb)
            w p)
  ]

  pub plan_attempts-Keeps :
      (left : ℕ) (feedback : List Text) → Keeps P (plan_attempts env left feedback)
  unfolding plan_attempts
  plan_attempts-Keeps zero feedback w p = p
  plan_attempts-Keeps (suc left) feedback w p =
      let n = planning_max_attempts_cap - left in
      >>=-Keeps P (attempt env n feedback)
        (λ d. after_critic env n feedback d (plan_attempts env left)) (attempt-Keeps n feedback)
        (λ d. after_critic-Keeps n feedback d (plan_attempts env left) (plan_attempts-Keeps left)) w
        p

  pub revise_round-Keeps : (d : GateDecision) → Keeps P (revise_round env d)
  unfolding revise_round revise_delta
  revise_round-Keeps d w p =
      >>=-Keeps P (absorb env (revise_delta _ (human_revise_feedback d))) _
        (absorb-Keeps P env stable (revise_delta _ (human_revise_feedback d)) (refl, refl))
        (λ _ v q. q) (record w { revise = none; brief = none })
        (stable.clears_brief w.trace (w.state brief_gate_approved) (w.state merge_gate_approved)
          (inbox w) p)

  escalate-Keeps : (test : State → Option Escalation) → Keeps P (escalate env test)
  unfolding escalate fixer_escalation_delta absorb
  escalate-Keeps test w p = elim (Option-cases (test w.state)) [
    | inl e ↦ rw e p
    | inr (x, e) ↦ rw e (absorb-Keeps P env stable (fixer_escalation_delta x) (refl, refl) w p)
  ]

  pub charge_and_fix-Keeps : Keeps P (charge_and_fix env)
  unfolding charge_and_fix record_fixer_attempt_delta
  charge_and_fix-Keeps w p =
      >>=-Keeps P (absorb env (record_fixer_attempt_delta w.state)) (λ _. producer_stage env fixer)
        (absorb-Keeps P env stable (record_fixer_attempt_delta w.state) (refl, refl))
        (λ _. producer-Keeps P env stable fixer tt) w p

  verify_cycle-Keeps : Keeps P (verify_cycle env)
  unfolding verify_cycle fresh_evidence
  verify_cycle-Keeps w p =
      >>=-Keeps P (stage env verify) (λ _. gets (λ v. verify_passed v.state))
        (work-Keeps P env stable verify tt) (λ _ v q. q)
        (record w { state = fresh_evidence w.state }) p

  after_failure-Keeps : (again : Flow Exit) → Keeps P again → Keeps P (after_failure env again)
  unfolding after_failure
  after_failure-Keeps again h =
      >>=-Keeps P (escalate env infeasible_predicate_escalation) _ (escalate-Keeps _) (λ e.
        or_return-Keeps P e _ (
          >>=-Keeps P (escalate env fixer_budget_exhaustion) _ (escalate-Keeps _) (λ e.
            or_return-Keeps P e _ (
              >>=-Keeps P (charge_and_fix env) _ charge_and_fix-Keeps (λ _.
                >>=-Keeps P (escalate env fixer_decision_escalation) _ (escalate-Keeps _)
                  (λ e. or_return-Keeps P e again h))))))

  after_verify-Keeps :
      (passed : Bool) (again : Flow Exit) → Keeps P again → Keeps P (after_verify env passed again)
  unfolding after_verify
  after_verify-Keeps true again h w p = p
  after_verify-Keeps false again h w p = after_failure-Keeps again h w p

  pub repair_loop-Keeps : (fuel : ℕ) → Keeps P (repair_loop env fuel)
  unfolding repair_loop
  repair_loop-Keeps zero w p = p
  repair_loop-Keeps (suc fuel) w p =
      >>=-Keeps P (verify_cycle env) (λ b. after_verify env b (repair_loop env fuel))
        verify_cycle-Keeps
        (λ b. after_verify-Keeps b (repair_loop env fuel) (repair_loop-Keeps fuel)) w p

  recheck-Keeps : Keeps P (recheck env)
  unfolding recheck fresh_evidence
  recheck-Keeps w p =
      >>=-Keeps P (stage env verify) (λ _. stage env reviewer) (work-Keeps P env stable verify tt)
        (λ _. work-Keeps P env stable reviewer tt) (record w { state = fresh_evidence w.state }) p

  pub apply_action-Keeps : (a : MergeAction) → Keeps P (apply_action env a)
  unfolding apply_action fix_delta rebuild_delta
  apply_action-Keeps fix w p =
      >>=-Keeps P (absorb env (fix_delta w.payload)) _
        (absorb-Keeps P env stable (fix_delta w.payload) (refl, refl))
        (λ _. >>=-Keeps P (charge_and_fix env) _ charge_and_fix-Keeps (λ _. recheck-Keeps))
        (clear_action w)
        (stable.clears_merging w.trace (w.state brief_gate_approved) (w.state merge_gate_approved)
          (inbox w) p)
  apply_action-Keeps rebuild w p =
      >>=-Keeps P (absorb env (rebuild_delta w.payload)) _
        (absorb-Keeps P env stable (rebuild_delta w.payload) (refl, refl))
        (λ _.
          >>=-Keeps P (producer_stage env build) _ (producer-Keeps P env stable build tt)
            (λ _. recheck-Keeps))
        (clear_action w)
        (stable.clears_merging w.trace (w.state brief_gate_approved) (w.state merge_gate_approved)
          (inbox w) p)
