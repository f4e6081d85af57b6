-- ===== src/Flow/Targets.antt =====
-- What a failed verification counts against: `_append_unique`, `_first_brief_wp_id` and
-- `_fixer_failure_targets` of src/darkfactory/runtime/workflow.py.
use local_dafa.Base.{
  Bool, true, false, not, ◌&&◌, Option, none, some, List, [], ◌∷◌, ◌++◌, Text, codes, is_empty,
  contains, strip, if◌then◌else◌, or_else, nat_eq, list_eq,
}
use local_dafa.State.Records.{
  WorkPackage, WorkPackageDict, ImplementationBrief, PredicateCoverage, CoverageStatus, covered,
  TesterFinding, ReconciliationFinding, ReconKind, undeclared_edits, VerifySummary,
}
use local_dafa.State.Channels.{
  State, implementation_brief, spec, verify_summary, tester_findings, reconciliation_findings,
  current_slice,
}

abbrev pub unknown_fixer_target : Text
unknown_fixer_target = codes "__unknown__"

unfoldable pub append_unique : List Text → Text → List Text
append_unique values value =
    let text = strip value in
    if not (is_empty text) && not (contains text values) then values ++ text ∷ [] else values

-- `str(wp["id"] or wp["story_id"])` of a slice of the spec.
unfoldable pub slice_wp_id : WorkPackageDict → Text
slice_wp_id s = elim s.id [ none ↦ s.story_id | some i ↦ if is_empty i then s.story_id else i ]

-- The same of a package of the brief.
unfoldable pub package_wp_id : WorkPackage → Text
package_wp_id wp = if is_empty wp.id then wp.story_id else wp.id

unfoldable pub first_nonempty : List Text → Text → Text
first_nonempty [] d = d
first_nonempty (t ∷ ts) d = if is_empty t then first_nonempty ts d else t

unfoldable pub brief_wp_ids : Option ImplementationBrief → List Text
unfolding package_wp_id
brief_wp_ids none = []
brief_wp_ids (some b) = ids b.work_packages
  where
    ids : List WorkPackage → List Text
    ids [] = []
    ids (wp ∷ wps) = package_wp_id wp ∷ ids wps

unfoldable pub slice_wp_ids : List WorkPackageDict → List Text
unfolding slice_wp_id
slice_wp_ids [] = []
slice_wp_ids (s ∷ ss) = slice_wp_id s ∷ slice_wp_ids ss

unfoldable pub first_brief_wp_id : State → Text
unfolding brief_wp_ids slice_wp_ids first_nonempty
first_brief_wp_id s =
    first_nonempty (brief_wp_ids (s implementation_brief) ++ slice_wp_ids (or_else (s spec) []))
      unknown_fixer_target

-- A kind of reconciliation finding that calls for the Fixer.
unfoldable pub is_blocking_kind : ReconKind → Bool
is_blocking_kind undeclared_edits = false
is_blocking_kind _ = true

abbrev pub is_covered : CoverageStatus → Bool
is_covered covered = true
is_covered _ = false

unfoldable pub add_coverage_wps : List PredicateCoverage → List Text → List Text
add_coverage_wps [] wps = wps
add_coverage_wps (i ∷ is) wps =
    add_coverage_wps is (if is_covered i.status then wps else append_unique wps i.wp_id)

unfoldable pub add_coverage_predicates : List PredicateCoverage → List Text → List Text
add_coverage_predicates [] ps = ps
add_coverage_predicates (i ∷ is) ps =
    add_coverage_predicates is (if is_covered i.status then ps else append_unique ps i.predicate)

unfoldable pub add_tester_wps : List TesterFinding → List Text → List Text
add_tester_wps [] wps = wps
add_tester_wps (f ∷ fs) wps = add_tester_wps fs (append_unique wps f.wp_id)

unfoldable pub add_recon_wps : List ReconciliationFinding → List Text → List Text
add_recon_wps [] wps = wps
add_recon_wps (f ∷ fs) wps =
    add_recon_wps fs (if is_blocking_kind f.kind then append_unique wps f.wp_id else wps)

pub record Targets : Type 0 where
  pub wps : List Text
  pub predicates : List Text

abbrev pub summary_coverage : Option VerifySummary → List PredicateCoverage
summary_coverage none = []
summary_coverage (some v) = or_else v.predicate_coverage []

-- The packages named by the coverage, the Tester and the reconciliation, in this order.
unfoldable pub named_wps : State → List Text
named_wps s = add_recon_wps (or_else (s reconciliation_findings) []) (
    add_tester_wps (or_else (s tester_findings) [])
      (add_coverage_wps (summary_coverage (s verify_summary)) []))

-- `if not values: _append_unique(values, value)`
unfoldable pub fall_back : List Text → Text → List Text
fall_back [] value = append_unique [] value
fall_back (w ∷ ws) value = w ∷ ws

unfoldable pub nonempty_or : List Text → List Text → List Text
nonempty_or [] d = d
nonempty_or (w ∷ ws) d = w ∷ ws

unfoldable pub fixer_failure_targets : State → Targets
unfolding fall_back nonempty_or
fixer_failure_targets s =
    let found = fall_back (named_wps s) (or_else (s current_slice) []) in
    let wps = fall_back found (first_brief_wp_id s) in
    record {
      wps = nonempty_or wps (unknown_fixer_target ∷ []);
      predicates = add_coverage_predicates (summary_coverage (s verify_summary)) [];
    }
