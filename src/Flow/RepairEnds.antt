-- ===== src/Flow/RepairEnds.antt =====
-- The verify and Fixer loop of `DarkFactoryWorkflow.run` ends within the budget of the packages
-- that its state names, and no package is ever charged more than the maximum.
use local_dafa.Base.{
  ℕ, zero, suc, ◌+◌, ◌*◌, ◌<◌, Bool, true, false, Option, none, some, List, ◌≡◌, ◌≢◌, refl, inl,
  inr, arith, Text, contains, nat_eq, list_eq, length, Option-cases,
}
use local_dafa.State.Records.{Escalation}
use local_dafa.State.Channels.{State, Delta, fixer_attempts_by_wp}
use local_dafa.State.Reducers.{overwrite}
use local_dafa.State.Merge.{Caps, reducer, merge, merge_value}
use local_dafa.Flow.Targets.{unknown_fixer_target, fixer_failure_targets}
use local_dafa.Flow.Budget.{
  bump_all, fixer_budget_exhaustion, record_fixer_attempt_delta, fixer_escalation_delta,
  infeasible_predicate_escalation, fixer_decision_escalation,
}
use local_dafa.Flow.Stale.{drop_stale_findings, snapshot_findings_counts}
use local_dafa.Flow.Machine.{
  Workflow, Service, returned, Result, ok, raised, pending_still, Flow, ◌>>=◌, Exit, verify, fixer,
  or_return, gets, set_state,
}
use local_dafa.Flow.Stages.{fresh_evidence, stage, producer_stage, absorb}
use local_dafa.Flow.Repair.{
  escalate, charge_and_fix, verify_cycle, after_failure, after_verify, repair_loop, verify_passed,
}
use local_dafa.Flow.TargetSets.{
  StateNames, fixer_failure_targets-IsUnique, fixer_failure_targets-IsWithin,
}
use local_dafa.Flow.NamesKept.{
  DeltaNames, merge-StateNames, fresh-StateNames, drop-StateNames, charge-StateNames,
}
use local_dafa.Flow.Charges.{
  IsWithinBudget, wp_counts, targets_have_budget, bump_all-IsWithinBudget, spent, spent-le,
  spent-charge,
}
use local_dafa.Flow.Logic.{Leads, >>=-Leads, stage-Leads}

-- The verify and the Fixer stage name packages of the set only, the Fixer also as the slice that it
-- turns to, and both leave the brief, the spec and the counts of attempts alone.
pub record RepairReplies (env : Service) (ws : List Text) : Type 0 where
  pub verifying :
      (n : ℕ) (s : State) (d : Delta) → env.reply n verify s ≡ returned d → DeltaNames ws d
  pub fixing : (n : ℕ) (s : State) (d : Delta) → env.reply n fixer s ≡ returned d → DeltaNames ws d

-- A state in which the loop may start a cycle.
abbrev pub IsReady : List Text → State → Type 0
IsReady ws s = StateNames ws s × IsWithinBudget (wp_counts s)

charge-counts :
    (k : Caps) (s : State)
    → wp_counts (merge k s (record_fixer_attempt_delta s))
      ≡ bump_all (fixer_failure_targets s).wps (wp_counts s)
unfolding merge reducer record_fixer_attempt_delta overwrite
charge-counts k s = elim (Option-cases (s fixer_attempts_by_wp)) [
  | inl e ↦ rw (e, merge_value)
  | inr (c, e) ↦ rw (e, merge_value)
]

merge-counts :
    (k : Caps) (ws : List Text) (s : State) (d : Delta)
    → DeltaNames ws d
    → wp_counts (merge k s d) ≡ wp_counts s
unfolding merge reducer
merge-counts k ws s d n = rw n.by_wp

-- Ready, with so many attempts spent.
abbrev At : List Text → ℕ → State → Type 0
At ws n s = IsReady ws s × (spent ws (wp_counts s) ≡ n)

-- Ready, with more than so many attempts spent.
abbrev Above : List Text → ℕ → State → Type 0
Above ws n s = IsReady ws s × (n < spent ws (wp_counts s))

abbrev Kept : State → Type 0
Kept s = IsWithinBudget (wp_counts s)

abbrev Never : State → Type 0
Never s = ⊥

-- A phase that goes on in `P`, or returns within the budget.
abbrev GoesOn : (State → Type 0) → Exit → Workflow → Type 0
GoesOn P none v = P v.state
GoesOn P (some r) v = Kept v.state

abbrev Phase : (State → Type 0) → Result Exit × Workflow → Type 0
Phase P = Leads (λ v. Kept v.state) (λ v. Never v.state) (GoesOn P)

module _ (env : Service) (ws : List Text) (replies : RepairReplies env ws) where
  verify_cycle-At :
      (n : ℕ) (w : Workflow)
      → At ws n w.state
      → Leads (λ v. Kept v.state) (λ v. Never v.state) (λ _ v. At ws n v.state) (verify_cycle env w)
  unfolding verify_cycle
  verify_cycle-At n w (ready, spent_n) =
      let v = record w { state = fresh_evidence w.state } in
      >>=-Leads (λ u. Kept u.state) (λ u. Never u.state) (λ _ u. At ws n u.state)
        (λ _ u. At ws n u.state) (stage env verify) (λ _. gets (λ u. verify_passed u.state)) v
        (stage-Leads env Kept Never (At ws n) verify v (unfold fresh_evidence in ready.1) (λ d e.
          let names = replies.verifying w.clock (fresh_evidence w.state) d e in
          let same = merge-counts env.caps ws (fresh_evidence w.state) d names in
          (
            (
              merge-StateNames env.caps ws _ (fresh-StateNames env.caps ws _ ready.0) d names,
              rw same (unfold fresh_evidence in ready.1),
            ),
            rw same (unfold fresh_evidence in spent_n),
          )))
        (λ _ u q. q)

  escalate-Phase :
      (P : State → Type 0) (test : State → Option Escalation) (w : Workflow)
      → Kept w.state
      → (test w.state ≡ none → P w.state)
      → Phase P (escalate env test w)
  unfolding escalate absorb merge reducer fixer_escalation_delta
  escalate-Phase P test w kept h = elim (Option-cases (test w.state)) [
    | inl e ↦ rw e (h e)
    | inr (x, e) ↦ rw e kept
  ]

  -- After a charge the state is ready and more is spent.
  charge-Above :
      (un : contains unknown_fixer_target ws ≡ true) (n : ℕ) (s : State)
      → At ws n s
      → fixer_budget_exhaustion s ≡ none
      → Above ws n (merge env.caps s (record_fixer_attempt_delta s))
  charge-Above un n s (ready, spent_n) free =
      let t = fixer_failure_targets s in
      let (some_wp, unique, _) = fixer_failure_targets-IsUnique s in
      let within = fixer_failure_targets-IsWithin ws s un ready.0 in
      let same = charge-counts env.caps s in
      (
        (
          charge-StateNames env.caps ws s ready.0,
          rw same (
              bump_all-IsWithinBudget t.wps (wp_counts s) unique (targets_have_budget s free).0
                ready.1),
        ),
        rw (same, ← spent_n) (spent-charge ws t.wps (wp_counts s) some_wp unique within),
      )

  producer-Above :
      (n : ℕ) (w : Workflow)
      → Above ws n w.state
      → Leads
          (λ v. Kept v.state)
          (λ v. Never v.state)
          (λ _ v. Above ws n v.state)
          (producer_stage env fixer w)
  unfolding producer_stage
  producer-Above n w (ready, more) =
      let pre = snapshot_findings_counts w.state in
      >>=-Leads (λ u. Kept u.state) (λ u. Never u.state) (λ _ u. Above ws n u.state)
        (λ _ u. Above ws n u.state) (stage env fixer)
        (λ _. set_state (λ s. drop_stale_findings s pre)) w
        (stage-Leads env Kept Never (Above ws n) fixer w ready.1 (λ d e.
          let names = replies.fixing w.clock w.state d e in
          let same = merge-counts env.caps ws w.state d names in
          ((merge-StateNames env.caps ws w.state ready.0 d names, rw same ready.1), rw same more)))
        (λ _ u q. (
          (drop-StateNames env.caps ws u.state q.0.0 pre, unfold drop_stale_findings in q.0.1),
          unfold drop_stale_findings in q.1,
        ))

  charge_and_fix-Above :
      (un : contains unknown_fixer_target ws ≡ true) (n : ℕ) (w : Workflow)
      → At ws n w.state
      → fixer_budget_exhaustion w.state ≡ none
      → Leads
          (λ v. Kept v.state)
          (λ v. Never v.state)
          (λ _ v. Above ws n v.state)
          (charge_and_fix env w)
  unfolding charge_and_fix absorb
  charge_and_fix-Above un n w h free =
      producer-Above n
        (record w { state = merge env.caps w.state (record_fixer_attempt_delta w.state) })
        (charge-Above un n w.state h free)

  -- A phase that may return, and the next one.
  or_return-Phase :
      (P R : State → Type 0) (m k : Flow Exit) (w : Workflow)
      → Phase P (m w)
      → ((v : Workflow) → P v.state → Phase R (k v))
      → Phase R ((m >>= λ e. or_return e k) w)
  or_return-Phase P R m k w h next =
      >>=-Leads (λ u. Kept u.state) (λ u. Never u.state) (GoesOn P) (GoesOn R) m
        (λ e. or_return e k) w h go
    where
      go : (e : Exit) (u : Workflow) → GoesOn P e u → Phase R (or_return e k u)
      go none u q = next u q
      go (some r) u q = q

  after_failure-Phase :
      (un : contains unknown_fixer_target ws ≡ true) (n : ℕ) (w : Workflow) (again : Flow Exit)
      → At ws n w.state
      → ((v : Workflow) → Above ws n v.state → Phase Kept (again v))
      → Phase Kept (after_failure env again w)
  unfolding after_failure
  after_failure-Phase un n w again at next =
      or_return-Phase (At ws n) Kept (escalate env infeasible_predicate_escalation) _ w
        (escalate-Phase (At ws n) infeasible_predicate_escalation w at.0.1 (λ _. at))
        (λ v q.
          or_return-Phase Free Kept (escalate env fixer_budget_exhaustion) _ v
            (escalate-Phase Free fixer_budget_exhaustion v q.0.1 (λ e. (q, e)))
            (λ u free.
              >>=-Leads (λ x. Kept x.state) (λ x. Never x.state) (λ _ x. Above ws n x.state)
                (GoesOn Kept) (charge_and_fix env) _ u (charge_and_fix-Above un n u free.0 free.1)
                (λ _ x above.
                  or_return-Phase (Above ws n) Kept (escalate env fixer_decision_escalation) again x
                    (escalate-Phase (Above ws n) fixer_decision_escalation x above.0.1 (λ _. above))
                    next)))
    where
      Free : State → Type 0
      Free s = At ws n s × (fixer_budget_exhaustion s ≡ none)

  after_verify-Phase :
      (un : contains unknown_fixer_target ws ≡ true) (n : ℕ) (passed : Bool) (w : Workflow)
      (again : Flow Exit)
      → At ws n w.state
      → ((v : Workflow) → Above ws n v.state → Phase Kept (again v))
      → Phase Kept (after_verify env passed again w)
  unfolding after_verify
  after_verify-Phase un n true w again at next = at.0.1
  after_verify-Phase un n false w again at next = after_failure-Phase un n w again at next

  repair-Phase :
      (un : contains unknown_fixer_target ws ≡ true) (fuel n : ℕ) (w : Workflow)
      → At ws n w.state
      → 2 * length ws < fuel + n
      → Phase Kept (repair_loop env fuel w)
  unfolding repair_loop
  repair-Phase un zero n w at h =
      absurd (omega (arith, at.1, spent-le ws (wp_counts w.state) at.0.1))
  repair-Phase un (suc fuel) n w at h =
      >>=-Leads (λ u. Kept u.state) (λ u. Never u.state) (λ _ u. At ws n u.state) (GoesOn Kept)
        (verify_cycle env) (λ passed. after_verify env passed (repair_loop env fuel)) w
        (verify_cycle-At n w at)
        (λ passed v q. after_verify-Phase un n passed v (repair_loop env fuel) q (λ u above.
          repair-Phase un fuel (spent ws (wp_counts u.state)) u (above.0, refl)
            (omega (arith, above.1))))

Leads-ended :
    (r : Result Exit × Workflow)
    → Phase Kept r
    → (r.0 ≢ pending_still) × IsWithinBudget (wp_counts r.1.state)
Leads-ended (ok none, w) h = ((λ e. cc), h)
Leads-ended (ok (some x), w) h = ((λ e. cc), h)
Leads-ended (raised x, w) h = ((λ e. cc), h)
Leads-ended (pending_still, w) h = absurd h

-- The verify and Fixer loop ends, by returning or by raising, if the replies of the two stages
-- leave the brief, the spec and the counts of attempts alone, all packages that the state and the
-- replies name (in the coverage, in the findings, as the current slice and as the first one of the
-- brief and the spec) lie in a set, which has the unknown target, and no count is above two. As
-- many rounds as twice the size of the set, and one more, are then enough, and no package is
-- charged more than two attempts, on any way out.
pub repair_loop_ends :
    (env : Service) (ws : List Text) (fuel : ℕ) (w : Workflow)
    → RepairReplies env ws
    → contains unknown_fixer_target ws ≡ true
    → StateNames ws w.state
    → IsWithinBudget (wp_counts w.state)
    → 2 * length ws < fuel
    → ((repair_loop env fuel w).0 ≢ pending_still)
      × IsWithinBudget (wp_counts (repair_loop env fuel w).1.state)
repair_loop_ends env ws fuel w replies un names budget h = Leads-ended (repair_loop env fuel w) (
    repair-Phase env ws replies un fuel (spent ws (wp_counts w.state)) w ((names, budget), refl)
      (omega arith))
