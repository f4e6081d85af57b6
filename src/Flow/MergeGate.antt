-- ===== src/Flow/MergeGate.antt =====
-- The merge gate of `DarkFactoryWorkflow` calls `merge_branch` only with an approval that was sent.
use local_dafa.Base.{true, ℕ, zero, suc, Option, none, some, ◌≡◌, refl, sym, inl, inr, Bool-cases}
use local_dafa.State.Records.{GateDecision}
use local_dafa.State.Merge.{merge, reducer}
use local_dafa.Flow.Machine.{
  merge_branch, Workflow, Service, Result, Flow, ◌>>=◌, Exit, finish, merged, merge_gate,
  MergeAction,
}
use local_dafa.Flow.Signals.{merge_decided}
use local_dafa.Flow.Stages.{absorb, stage, wait_for}
use local_dafa.Flow.Merging.{merge_delta, merge_verdict, after_gate, merge_loop, apply_action}
use local_dafa.Flow.Statuses.{is_merged}
use local_dafa.Flow.Logic.{Leads, >>=-Leads, Leads-map}
use local_dafa.Flow.Keeps.{Holds, Keeps, wait_for-Keeps, stage-Moves, Holds-Leads, Keeps-Leads}
use local_dafa.Flow.PhasesKeep.{apply_action-Keeps}
use local_dafa.Flow.Guards.{
  merges, RepliesLeaveGates, Approved, BothApproved, Merged, IsGuarded, Approved-IsStable,
  Merged-IsStable,
}
use local_dafa.Flow.Approvals.{is_approved, approves_merge, Sent}

-- How the merge gate ends: the run returns, as merged exactly when the branch was merged.
abbrev pub AfterMerging : Service → Exit → Workflow → Type 0
AfterMerging env none v = ⊥
AfterMerging env (some r) v = Holds (IsGuarded env) v × (is_merged r.status ≡ merges v.trace)

abbrev pub Merging : Service → Result Exit × Workflow → Type 0
Merging env = Leads (Holds (IsGuarded env)) (Holds (IsGuarded env)) (AfterMerging env)

module _ (env : Service) (replies : RepliesLeaveGates env) where
  merge_verdict-Merging :
      (d : Option GateDecision) (w : Workflow)
      → (is_approved d ≡ true → Sent env approves_merge w.clock)
      → Holds (Approved env) w
      → Merging env (merge_verdict env d w)
  unfolding merge_verdict absorb merge reducer merge_delta Approved BothApproved Merged
  merge_verdict-Merging none w sent ((p, i), q) = (inl p, sym p)
  merge_verdict-Merging (some d) w sent ((p, i), q) = elim (Bool-cases d.approved) [
    | inr e ↦ rw e (inl p, sym p)
    | inl e ↦
        let u = record w { state = merge env.caps w.state (merge_delta d.reason) } in
        let moved =
          stage-Moves (Merged env) env (Merged-IsStable env replies) (BothApproved env) merge_branch
            (λ t b m x h. (refl, h.0, h.1)) u (q, (refl, sent e)) in
        rw e (
          >>=-Leads (Holds (IsGuarded env)) (Holds (IsGuarded env)) (λ _. Holds (Merged env))
            (AfterMerging env) (stage env merge_branch) (λ _. finish merged none) u
            (Leads-map (Holds (Merged env)) (Holds (Merged env)) (Holds (IsGuarded env))
              (Holds (IsGuarded env)) (λ _. Holds (Merged env)) (λ _. Holds (Merged env))
              (stage env merge_branch u) (λ v h. inr (h.1, h.2)) (λ v h. inr (h.1, h.2))
              (λ _ v h. h) (Holds-Leads (Merged env) (stage env merge_branch u) moved))
            (λ _ v h. (inr (h.1, h.2), sym h.0)))
  ]

  -- A step that keeps the brief approved and merges nothing, before the merge gate's outcome.
  pub approved_then :
      {A : Type 0} (m : Flow A) (f : A → Flow Exit) (w : Workflow)
      → Keeps (Approved env) m
      → Holds (Approved env) w
      → ((a : A) (v : Workflow) → Holds (Approved env) v → Merging env (f a v))
      → Merging env ((m >>= f) w)
  unfolding Approved
  approved_then m f w k p next =
      >>=-Leads (Holds (IsGuarded env)) (Holds (IsGuarded env)) (λ _. Holds (Approved env))
        (AfterMerging env) m f w
        (Leads-map (Holds (Approved env)) (Holds (Approved env)) (Holds (IsGuarded env))
          (Holds (IsGuarded env)) (λ _. Holds (Approved env)) (λ _. Holds (Approved env)) (m w)
          (λ v h. inl (h.0.0)) (λ v h. inl (h.0.0)) (λ _ v h. h)
          (Keeps-Leads (Approved env) m w k p))
        next

  after_gate-Merging :
      (asked : Option MergeAction) (verdict : Option GateDecision) (again : Flow Exit)
      (w : Workflow)
      → (is_approved verdict ≡ true → Sent env approves_merge w.clock)
      → Holds (Approved env) w
      → ((v : Workflow) → Holds (Approved env) v → Merging env (again v))
      → Merging env (after_gate env asked verdict again w)
  unfolding after_gate
  after_gate-Merging none verdict again w sent p h = merge_verdict-Merging verdict w sent p
  after_gate-Merging (some a) verdict again w sent p h =
      approved_then (apply_action env a) (λ _. again) w
        (apply_action-Keeps (Approved env) env (Approved-IsStable env replies) a) p (λ _. h)

  pub merge_loop-Merging :
      (rounds waits : ℕ) (w : Workflow)
      → Holds (Approved env) w
      → Merging env (merge_loop env rounds waits w)
  unfolding merge_loop Approved
  merge_loop-Merging zero waits w p = inl (p.0.0)
  merge_loop-Merging (suc rounds) waits w p =
      approved_then (wait_for env waits merge_decided) _ (record w { pending = some merge_gate })
        (wait_for-Keeps (Approved env) env (Approved-IsStable env replies) waits merge_decided) p
        (λ _ v q.
          after_gate-Merging v.action v.merging (merge_loop env rounds waits)
            (record v { pending = none }) q.0.1.1 q (merge_loop-Merging rounds waits))
