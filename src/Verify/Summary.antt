-- ===== src/Verify/Summary.antt =====
-- The verdict of src/darkfactory/stages/verify.py: `aggregate` and the semantic coverage node.
use local_dafa.Base.{
  ℕ, ◌+◌, Bool, true, false, not, ◌&&◌, ◌||◌, Option, none, some, List, [], ◌∷◌, ◌++◌, Text, ltb,
  length, filter, any, is_empty, contains, strip, if◌then◌else◌, or_else, ◌==◌, nat_eq, list_eq,
  pair_eq, Dict, lookup, insert, ℤ, pos, negsuc,
}
use local_dafa.State.Records.{
  TestResult, Finding, Severity, error, critical, ReconciliationFinding, Predicates, one, many,
  WorkPackage, WorkPackageDict, ImplementationBrief, CoverageEntry, PredicateCoverage,
  CoverageStatus, VerifySummary,
}
use local_dafa.State.Channels.{
  State, Delta, test_results, findings, tester_findings, reconciliation_findings,
  implementation_brief, spec, coverage_entries, verify_summary, verify_retries,
}
use local_dafa.State.Merge.{Caps, merge}
use local_dafa.Flow.Targets.{is_blocking_kind, slice_wp_id, package_wp_id, is_covered}

-- A work package and one of its predicates.
abbrev pub Key : Type 0
Key = Text × Text

abbrev pub is_zero : ℤ → Bool
is_zero (pos n) = n == 0
is_zero (negsuc n) = false

-- A test result that counts as failed.
unfoldable pub is_failed : TestResult → Bool
is_failed r = ltb 0 r.failed || (not (is_zero r.returncode) || not (is_empty r.errors))

abbrev pub is_hard_severity : Severity → Bool
is_hard_severity error = true
is_hard_severity critical = true
is_hard_severity _ = false

unfoldable pub is_hard : Finding → Bool
is_hard f = is_hard_severity f.severity

unfoldable pub nonempty_stripped : List Text → List Text
nonempty_stripped [] = []
nonempty_stripped (t ∷ ts) =
    let rest = nonempty_stripped ts in if is_empty (strip t) then rest else strip t ∷ rest

unfoldable pub predicate_values : Option Predicates → List Text
unfolding nonempty_stripped
predicate_values none = []
predicate_values (some (one t)) = nonempty_stripped (t ∷ [])
predicate_values (some (many ts)) = nonempty_stripped ts

-- `add` of `_expected_predicates`; what was seen is what is expected so far.
unfoldable pub add_keys : Text → List Text → List Key → List Key
add_keys wp_id [] expected = expected
add_keys wp_id (p ∷ ps) expected =
    add_keys wp_id ps
      (if contains (wp_id, p) expected then expected else expected ++ (wp_id, p) ∷ [])

unfoldable pub add_packages : List WorkPackage → List Key → List Key
unfolding add_keys predicate_values
add_packages [] expected = expected
add_packages (wp ∷ wps) expected =
    add_packages wps
      (add_keys (package_wp_id wp) (predicate_values (some (many wp.verification))) expected)

unfoldable pub add_slices : List WorkPackageDict → List Key → List Key
unfolding add_keys predicate_values
add_slices [] expected = expected
add_slices (s ∷ ss) expected =
    add_slices ss (add_keys (slice_wp_id s) (predicate_values s.verification) expected)

abbrev pub brief_packages : Option ImplementationBrief → List WorkPackage
brief_packages none = []
brief_packages (some b) = b.work_packages

unfoldable pub expected_predicates : State → List Key
unfolding add_packages add_slices
expected_predicates s =
    add_slices (or_else (s spec) []) (add_packages (brief_packages (s implementation_brief)) [])

unfoldable pub has_verification_predicates : State → Bool
has_verification_predicates s =
    not (is_empty (expected_predicates s))
    || any (λ (e : CoverageEntry). not (is_empty (strip e.predicate)))
        (or_else (s coverage_entries) [])

unfoldable pub blocking_failures : State → ℕ
blocking_failures s =
    length (or_else (s tester_findings) [])
    + length (
        filter (λ (f : ReconciliationFinding). is_blocking_kind f.kind)
          (or_else (s reconciliation_findings) []))

-- `coverage_by_key`: of two entries for one predicate the later counts.
unfoldable pub coverage_by_key :
    List PredicateCoverage → Dict Key CoverageStatus → Dict Key CoverageStatus
coverage_by_key [] m = m
coverage_by_key (i ∷ is) m =
    coverage_by_key is
      (if is_empty (strip i.predicate) then m else insert (i.wp_id, strip i.predicate) i.status m)

-- `coverage_by_key.get(key) == "covered"`
unfoldable pub covers : Dict Key CoverageStatus → Key → Bool
covers m key = elim (lookup key m) [ none ↦ false | some status ↦ is_covered status ]

unfoldable pub uncovered_predicates : List Key → List PredicateCoverage → ℕ
unfolding coverage_by_key covers
uncovered_predicates [] coverage =
    length (filter (λ (i : PredicateCoverage). not (is_covered i.status)) coverage)
uncovered_predicates (k ∷ ks) coverage =
    length (filter (λ key. not (covers (coverage_by_key coverage []) key)) (k ∷ ks))

-- The mechanical part of `_aggregate_verify_summary`.
unfoldable pub mechanical_summary : State → VerifySummary
unfolding is_failed is_hard
mechanical_summary s =
    let failed = length (filter is_failed (or_else (s test_results) [])) in
    let hard = length (filter is_hard (or_else (s findings) [])) in
    let blocking = blocking_failures s in
    record {
      passed = (failed == 0) && ((hard == 0) && (blocking == 0));
      failed_tests = failed;
      hard_findings = hard;
      predicate_coverage = none;
      uncovered_predicates = none;
      blocking_failures = if blocking == 0 then none else some blocking;
    }

-- The same with `include_semantic`.
unfoldable pub semantic_summary : State → List PredicateCoverage → VerifySummary
unfolding mechanical_summary
semantic_summary s coverage =
    let base = mechanical_summary s in
    let uncovered = uncovered_predicates (expected_predicates s) coverage in
    record base {
      passed = base.passed && (uncovered == 0);
      predicate_coverage = some coverage;
      uncovered_predicates = some uncovered;
    }

unfoldable pub aggregate : State → Delta
aggregate s verify_summary = some (some (mechanical_summary s))
aggregate s verify_retries =
    if (mechanical_summary s).passed then none else some (some (or_else (s verify_retries) 0 + 1))
aggregate s _ = none

-- `previous_summary.get("passed", True)`
abbrev pub passed_before : Option VerifySummary → Bool
passed_before none = true
passed_before (some v) = v.passed

-- What the semantic verifier's coverage adds to the state.
unfoldable pub semantic_delta : State → List PredicateCoverage → Delta
semantic_delta s coverage verify_summary = some (some (semantic_summary s coverage))
semantic_delta s coverage verify_retries =
    if not (semantic_summary s coverage).passed && passed_before (s verify_summary)
    then some (some (or_else (s verify_retries) 0 + 1))
    else none
semantic_delta s coverage _ = none

-- `verifier` is the agent's turn.
unfoldable pub run_semantic_coverage_node : (State → List PredicateCoverage) → State → Delta
unfolding semantic_delta
run_semantic_coverage_node verifier s c =
    if has_verification_predicates s then semantic_delta s (verifier s) c else none

-- The last two nodes of the graph, each one's delta merged.
unfoldable pub verdict_nodes : Caps → (State → List PredicateCoverage) → State → State
unfolding aggregate run_semantic_coverage_node
verdict_nodes k verifier s =
    let s' = merge k s (aggregate s) in merge k s' (run_semantic_coverage_node verifier s')
