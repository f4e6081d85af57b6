-- ===== src/Flow/Statuses.antt =====
-- The status with which the verify and Fixer loop of `DarkFactoryWorkflow.run` may return.
use local_dafa.Base.{
  ℕ, zero, suc, Bool, true, false, Option, none, some, ◌≡◌, refl, inl, inr, Option-cases,
}
use local_dafa.State.Records.{Escalation}
use local_dafa.State.Channels.{State}
use local_dafa.Flow.Budget.{
  infeasible_predicate_escalation, fixer_budget_exhaustion, fixer_decision_escalation,
}
use local_dafa.Flow.Machine.{Workflow, Service, Flow, ◌>>=◌, Exit, Status, merged, or_return}
use local_dafa.Flow.Stages.{absorb}
use local_dafa.Flow.Repair.{
  escalate, charge_and_fix, verify_cycle, after_failure, after_verify, repair_loop,
}
use local_dafa.Flow.Logic.{Leads, >>=-Leads, Leads-any}

abbrev pub is_merged : Status → Bool
is_merged merged = true
is_merged _ = false

-- No result yet, or one that is not "merged".
abbrev pub NotMerged : Exit → Type 0
NotMerged none = Unit {0}
NotMerged (some r) = is_merged r.status ≡ false

abbrev Quiet : Workflow → Type 0
Quiet w = Unit {0}

-- A phase that never returns "merged".
abbrev pub Declines : Flow Exit → Type 0
Declines m = (w : Workflow) → Leads Quiet Quiet (λ e _. NotMerged e) (m w)

module _ (env : Service) where
  escalate-Declines : (test : State → Option Escalation) → Declines (escalate env test)
  unfolding escalate absorb
  escalate-Declines test w = elim (Option-cases (test w.state)) [
    | inl e ↦ rw e tt
    | inr (x, e) ↦ rw e refl
  ]

  or_return-Declines :
      (m k : Flow Exit) → Declines m → Declines k → Declines (m >>= λ e. or_return e k)
  or_return-Declines m k h next w =
      >>=-Leads Quiet Quiet (λ e _. NotMerged e) (λ e _. NotMerged e) m (λ e. or_return e k) w (h w)
        go
    where
      go :
          (e : Exit) (v : Workflow)
          → NotMerged e
          → Leads Quiet Quiet (λ x _. NotMerged x) (or_return e k v)
      go none v q = next v
      go (some r) v q = q

  after_failure-Declines : (again : Flow Exit) → Declines again → Declines (after_failure env again)
  unfolding after_failure
  after_failure-Declines again h =
      or_return-Declines (escalate env infeasible_predicate_escalation) _ (escalate-Declines _) (
        or_return-Declines (escalate env fixer_budget_exhaustion) _ (escalate-Declines _) (λ w.
          >>=-Leads Quiet Quiet (λ _ _. Unit {0}) (λ e _. NotMerged e) (charge_and_fix env) _ w
            (Leads-any (charge_and_fix env w))
            (λ _ v _.
              or_return-Declines (escalate env fixer_decision_escalation) again
                (escalate-Declines _) h v)))

  after_verify-Declines :
      (passed : Bool) (again : Flow Exit)
      → Declines again
      → Declines (after_verify env passed again)
  unfolding after_verify
  after_verify-Declines true again h w = tt
  after_verify-Declines false again h w = after_failure-Declines again h w

  pub repair_loop-Declines : (fuel : ℕ) → Declines (repair_loop env fuel)
  unfolding repair_loop
  repair_loop-Declines zero w = tt
  repair_loop-Declines (suc fuel) w =
      >>=-Leads Quiet Quiet (λ _ _. Unit {0}) (λ e _. NotMerged e) (verify_cycle env) _ w
        (Leads-any (verify_cycle env w))
        (λ passed v _.
          after_verify-Declines passed (repair_loop env fuel) (repair_loop-Declines fuel) v)
