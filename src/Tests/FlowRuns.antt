-- ===== src/Tests/FlowRuns.antt =====
-- Runs of `DarkFactoryWorkflow` on the sample service.
use local_dafa.Base.{
  true, false, some, List, [], ◌∷◌, ◌≡◌, ◌≢◌, refl, ap, arith, Text, codes, contains, is_space,
  list_beq, lookup, get, nat_eq, list_eq, strip, IsUnique,
}
use mathlib.Core.Path.{subst}
use local_dafa.State.Records.{uncovered}
use local_dafa.State.Channels.{Delta, tester_findings, reconciliation_findings}
use local_dafa.State.Merge.{merge, init_state}
use local_dafa.Flow.Machine.{
  Activity, setup_worker, hydrate, discovery, build, verify, fixer, pr_creator, reviewer,
  merge_branch, teardown_worker, Service, Workflow, pending_still,
}
use local_dafa.Flow.Targets.{unknown_fixer_target, fixer_failure_targets, first_brief_wp_id}
use local_dafa.Flow.Stale.{drop_stale_findings, snapshot_findings_counts}
use local_dafa.Flow.Run.{run, start, with_ids}
use local_dafa.Flow.Repair.{repair_loop}
use local_dafa.Flow.Keeps.{LeavesGates}
use local_dafa.Flow.Guards.{RepliesLeaveGates}
use local_dafa.Flow.MergeGate.{Merging}
use local_dafa.Flow.MergeGuard.{run_merges_approved}
use local_dafa.Flow.Teardown.{RunShape, run_tears_down}
use local_dafa.Flow.NamesKept.{DeltaNames, added}
use local_dafa.Flow.RepairEnds.{RepairReplies, repair_loop_ends}
use local_dafa.Flow.Charges.{IsWithinBudget, wp_counts}
use local_dafa.Flow.TargetSets.{StateNames, fixer_failure_targets-IsUnique}
use local_dafa.Flow.StaleDropped.{drop_stale_merged}
use local_dafa.Tests.Samples.{request, summary, reports, service, fuel, delta_of}

abbrev good : Service
good = service (summary true [])

abbrev bad : Service
bad = service (
    summary false (
      record { wp_id = codes "wp-1"; predicate = codes "p"; status = uncovered; evidence = [] }
      ∷ []))

reports-LeavesGates : (a : Activity) → LeavesGates (reports (summary true []) a)
reports-LeavesGates verify = (refl, refl)
reports-LeavesGates fixer = (refl, refl)
reports-LeavesGates _ = (refl, refl)

good-RepliesLeaveGates : RepliesLeaveGates good
good-RepliesLeaveGates = record {
  leaves = λ n a s d e. subst LeavesGates (ap (λ r. delta_of r d) e) (reports-LeavesGates a);
}

run_merges_approved_example : Merging good (run good fuel (codes "w") request)
run_merges_approved_example =
    run_merges_approved good fuel (codes "w") request good-RepliesLeaveGates

run_tears_down_example : RunShape (run bad fuel (codes "w") request)
run_tears_down_example = run_tears_down bad fuel (codes "w") request

abbrev named : List Text
named = codes "wp-1" ∷ unknown_fixer_target ∷ []

bad-DeltaNames :
    (a : Activity)
    → DeltaNames named (
        reports
          (summary false (
            record {
              wp_id = codes "wp-1";
              predicate = codes "p";
              status = uncovered;
              evidence = [];
            }
            ∷ []))
          a)
unfolding contains strip is_space list_beq
bad-DeltaNames verify = record {
  coverage = (refl, tt);
  tester = tt;
  recon = tt;
  slice = refl;
  brief = refl;
  spec_kept = refl;
  by_wp = refl;
  by_predicate = refl;
}
bad-DeltaNames fixer = record {
  coverage = tt;
  tester = tt;
  recon = tt;
  slice = refl;
  brief = refl;
  spec_kept = refl;
  by_wp = refl;
  by_predicate = refl;
}
bad-DeltaNames _ = record {
  coverage = tt;
  tester = tt;
  recon = tt;
  slice = refl;
  brief = refl;
  spec_kept = refl;
  by_wp = refl;
  by_predicate = refl;
}

bad-RepairReplies : RepairReplies bad named
bad-RepairReplies = record {
  verifying =
      λ n s d e. subst (DeltaNames named) (ap (λ r. delta_of r d) e) (bad-DeltaNames verify);
  fixing = λ n s d e. subst (DeltaNames named) (ap (λ r. delta_of r d) e) (bad-DeltaNames fixer);
}

begun : Workflow
begun = start (codes "w") request

abbrev no_findings : Delta
no_findings = reports (summary true []) verify

begun-names : StateNames named begun.state
unfolding begun start init_state with_ids first_brief_wp_id contains strip is_space list_beq
begun-names = record { coverage = tt; tester = tt; recon = tt; slice = refl; brief = refl }

begun-IsWithinBudget : IsWithinBudget (wp_counts begun.state)
unfolding begun start init_state with_ids get lookup
begun-IsWithinBudget t = omega arith

unknown_named : contains unknown_fixer_target named ≡ true
unfolding contains list_beq
unknown_named = refl

repair_loop_ends_example :
    ((repair_loop bad 5 begun).0 ≢ pending_still)
    × IsWithinBudget (wp_counts (repair_loop bad 5 begun).1.state)
repair_loop_ends_example =
    repair_loop_ends bad named 5 begun bad-RepairReplies unknown_named begun-names
      begun-IsWithinBudget (omega arith)

fixer_failure_targets-IsUnique_example :
    ((fixer_failure_targets begun.state).wps ≢ [])
    × IsUnique (fixer_failure_targets begun.state).wps
    × IsUnique (fixer_failure_targets begun.state).predicates
fixer_failure_targets-IsUnique_example = fixer_failure_targets-IsUnique begun.state

drop_stale_merged_example :
    let s' =
      drop_stale_findings
        (merge bad.caps begun.state no_findings)
        (snapshot_findings_counts begun.state) in
    (s' tester_findings ≡ some (added (no_findings tester_findings)))
    × (s' reconciliation_findings ≡ some (added (no_findings reconciliation_findings)))
drop_stale_merged_example = drop_stale_merged bad.caps begun.state no_findings

-- The sample run merges, through these activities in this order.
good_merges :
    (run good fuel (codes "w") request).1.trace
    ≡ teardown_worker ∷ merge_branch ∷ reviewer ∷ pr_creator ∷ verify ∷ build ∷ discovery ∷ hydrate
      ∷ setup_worker ∷ []
unfolding run local_dafa.Flow.Stages.call local_dafa.Flow.Stages.stage
    local_dafa.Flow.Planning.planning_loop local_dafa.Flow.Feedback.planning_approved merge
    local_dafa.Flow.Signals.deliver local_dafa.Flow.Feedback.reset_planning_artifacts
    local_dafa.Flow.Stages.wait_for repair_loop local_dafa.State.Merge.reducer
    local_dafa.Flow.Stages.fresh_evidence init_state local_dafa.Flow.Merging.merge_loop
good_merges = refl
