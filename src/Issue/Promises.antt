-- ===== src/Issue/Promises.antt =====
-- What a run of src/darkfactory/runtime/issue_workflow.py promises: approvals before the merge, one
-- state label at a time, and a bound on the clarifications.
use local_dafa.Base.{
  Bool-cases, false, ◌≤◌, none, some, List, [], ◌∷◌, ◌≡◌, refl, Text, arith, inl, inr, ◌⊎◌,
}
use local_dafa.State.Records.{IssueRunRequest, Label}
use local_dafa.Flow.Machine.{Result, ok, raised, pending_still}
use local_dafa.Issue.Machine.{IssueWorkflow, Service, Exit}
use local_dafa.Issue.Run.{Fuel, run}
use local_dafa.Issue.Life.{Place, stuck, down, life, needed, label_of}
use local_dafa.Issue.Labels.{labels_after}
use local_dafa.Issue.Logic.{Passed, Passed-fewer}
use local_dafa.Issue.Rules.{RepliesLeaveLabel}
use local_dafa.Issue.RunEnds.{RunEnds, run_refines_life}
use local_dafa.Issue.MoveFacts.{carried}
use local_dafa.Issue.LifeFacts.{merges, clarifications, IsLived, life-IsLived}

-- Somewhere in its life, with the approvals for it.
abbrev Somewhere : Service → IssueWorkflow → Type 0
Somewhere env w = (p : Place) × (life w.trace ≡ some p) × Passed env (needed p) w.clock

RunEnds-Somewhere :
    (env : Service) (r : Result Exit) (w : IssueWorkflow) → RunEnds env (r, w) → Somewhere env w
RunEnds-Somewhere env (ok none) w h = absurd h
RunEnds-Somewhere env (ok (some x)) w (p, e, l, k) = (down p, e, k)
RunEnds-Somewhere env (raised x) w (p, e, k, d) = (p, e, k)
RunEnds-Somewhere env pending_still w (p, e, k, u) = (p, e, k)

-- One state label, or the two that a refused design leaves whose approval was asked for.
abbrev pub HasFewLabels : List Label → Type 0
HasFewLabels ls =
    ((l : Label) × (ls ≡ l ∷ [])) ⊎ (ls ≡ Label.awaiting_approval ∷ Label.needs_human ∷ [])

carried-HasFewLabels : (p : Place) → HasFewLabels (carried p)
carried-HasFewLabels stuck = inr refl
carried-HasFewLabels (down p) = carried-HasFewLabels p
carried-HasFewLabels p = inl (label_of p, refl)

module _ (env : Service) (fuel : Fuel) (replies : RepliesLeaveLabel env) (wf : Text)
    (req : IssueRunRequest) where
  abbrev ended : IssueWorkflow
  ended = (run env fuel wf req).1

  ended-Somewhere : Somewhere env ended
  ended-Somewhere =
      RunEnds-Somewhere env (run env fuel wf req).0 ended (run_refines_life env fuel replies wf req)

  ended-IsLived : (p : Place) × IsLived ended.trace p
  ended-IsLived = let (p, e, k) = ended-Somewhere in (p, life-IsLived ended.trace p e)

  -- Where no activity touches the state label, a run has not called `merge_branch`, or it was sent
  -- approvals in two different turns: one approval never opens both gates.
  pub merge_takes_two_approvals : (merges ended.trace ≡ false) ⊎ Passed env 2 ended.clock
  merge_takes_two_approvals =
      let (p, e, k) = ended-Somewhere in
      let i = life-IsLived ended.trace p e in
      elim (Bool-cases (merges ended.trace)) [
        | inl h ↦ inr (Passed-fewer env (needed p) 2 ended.clock (i.behind h) k)
        | inr h ↦ inl h
      ]

  -- Where no activity touches the state label, the swaps of a run leave an issue that was ready
  -- with one state label, or with the labels of an awaited approval and of a needed human.
  pub run_keeps_few_labels : HasFewLabels (labels_after ended.trace)
  run_keeps_few_labels = let (p, i) = ended-IsLived in rw (i.labels) (carried-HasFewLabels p)

  -- Where no activity touches the state label, a run labels its issue as one that needs
  -- clarification at most three times.
  pub run_clarifies_at_most_thrice : clarifications ended.trace ≤ 3
  run_clarifies_at_most_thrice = let (p, i) = ended-IsLived in omega (arith, i.asks, i.bounded)
