-- ===== src/Flow/PlanningGuard.antt =====
-- Planning in `DarkFactoryWorkflow.run` merges nothing, and goes on only with a brief whose
-- approval was sent.
use local_dafa.Base.{
  ℕ, zero, suc, true, false, Option, none, some, List, ◌≡◌, refl, inl, inr, Text, Bool-cases,
}
use local_dafa.State.Records.{GateDecision}
use local_dafa.State.Merge.{merge, reducer}
use local_dafa.Flow.Budget.{planning_max_attempts_cap}
use local_dafa.Flow.Machine.{Workflow, Service, Result, Flow, Exit, brief_gate}
use local_dafa.Flow.Signals.{brief_decided}
use local_dafa.Flow.Stages.{absorb, wait_for}
use local_dafa.Flow.Planning.{
  Plan, approved_plan, capped, plan_attempts, revise_round, brief_verdict, brief_delta, after_brief,
  after_plan, planning_loop,
}
use local_dafa.Flow.Statuses.{is_merged}
use local_dafa.Flow.Logic.{Leads, >>=-Leads}
use local_dafa.Flow.Keeps.{Holds, wait_for-Keeps, Keeps-Leads}
use local_dafa.Flow.PhasesKeep.{plan_attempts-Keeps, revise_round-Keeps}
use local_dafa.Flow.Approvals.{is_approved, approves_brief, Sent}
use local_dafa.Flow.Guards.{RepliesLeaveGates, Unmerged, Approved, Unmerged-IsStable}

-- How planning ends: the brief is approved, or the run returns and merged nothing.
abbrev pub AfterPlanning : Service → Exit → Workflow → Type 0
AfterPlanning env none v = Holds (Approved env) v
AfterPlanning env (some r) v = Holds (Unmerged env) v × (is_merged r.status ≡ false)

abbrev pub Planning : Service → Result Exit × Workflow → Type 0
Planning env = Leads (Holds (Unmerged env)) (Holds (Unmerged env)) (AfterPlanning env)

module _ (env : Service) (replies : RepliesLeaveGates env) where
  brief_verdict-Planning :
      (d : Option GateDecision) (w : Workflow)
      → (is_approved d ≡ true → Sent env approves_brief w.clock)
      → Holds (Unmerged env) w
      → Planning env (brief_verdict env d w)
  unfolding brief_verdict absorb merge reducer brief_delta Approved Unmerged
  brief_verdict-Planning none w sent p = (p, refl)
  brief_verdict-Planning (some d) w sent p = elim (Bool-cases d.approved) [
    | inl e ↦ rw e (p, (refl, sent e))
    | inr e ↦ rw e (p, refl)
  ]

  after_brief-Planning :
      (note verdict : Option GateDecision) (again : List Text → Flow Exit) (w : Workflow)
      → (is_approved verdict ≡ true → Sent env approves_brief w.clock)
      → Holds (Unmerged env) w
      → ((fb : List Text) (v : Workflow) → Holds (Unmerged env) v → Planning env (again fb v))
      → Planning env (after_brief env note verdict again w)
  unfolding after_brief
  after_brief-Planning none verdict again w sent p h = brief_verdict-Planning verdict w sent p
  after_brief-Planning (some d) verdict again w sent p h =
      >>=-Leads (Holds (Unmerged env)) (Holds (Unmerged env)) (λ _. Holds (Unmerged env))
        (AfterPlanning env) (revise_round env d) again w
        (Keeps-Leads (Unmerged env) (revise_round env d) w
          (revise_round-Keeps (Unmerged env) env (Unmerged-IsStable env replies) d) p)
        h

  after_plan-Planning :
      (waits : ℕ) (plan : Plan) (again : List Text → Flow Exit) (w : Workflow)
      → Holds (Unmerged env) w
      → ((fb : List Text) (v : Workflow) → Holds (Unmerged env) v → Planning env (again fb v))
      → Planning env (after_plan env waits plan again w)
  unfolding after_plan Unmerged
  after_plan-Planning waits capped again w p h = (p, refl)
  after_plan-Planning waits (approved_plan fb) again w p h =
      let u = record w { pending = some brief_gate } in
      >>=-Leads (Holds (Unmerged env)) (Holds (Unmerged env)) (λ _. Holds (Unmerged env))
        (AfterPlanning env) (wait_for env waits brief_decided) _ u
        (Keeps-Leads (Unmerged env) (wait_for env waits brief_decided) u
          (wait_for-Keeps (Unmerged env) env (Unmerged-IsStable env replies) waits brief_decided) p)
        (λ _ v q.
          after_brief-Planning v.revise v.brief again (record v { pending = none }) q.1.0 q h)

  pub planning_loop-Planning :
      (rounds waits : ℕ) (feedback : List Text) (w : Workflow)
      → Holds (Unmerged env) w
      → Planning env (planning_loop env rounds waits feedback w)
  unfolding planning_loop
  planning_loop-Planning zero waits feedback w p = p
  planning_loop-Planning (suc rounds) waits feedback w p =
      let m = plan_attempts env planning_max_attempts_cap feedback in
      >>=-Leads (Holds (Unmerged env)) (Holds (Unmerged env)) (λ _. Holds (Unmerged env))
        (AfterPlanning env) m _ w
        (Keeps-Leads (Unmerged env) m w
          (plan_attempts-Keeps (Unmerged env) env (Unmerged-IsStable env replies)
            planning_max_attempts_cap feedback)
          p)
        (λ plan v q.
          after_plan-Planning waits plan (planning_loop env rounds waits) v q
            (planning_loop-Planning rounds waits))
