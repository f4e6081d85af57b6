-- ===== src/Verify/Verdict.antt =====
-- When the verify stage of src/darkfactory/stages/verify.py passes, and how often it counts a
-- retry.
use local_dafa.Base.{
  ℕ, ◌+◌, Bool, true, false, not, ◌&&◌, ◌||◌, Option, some, List, [], ◌∷◌, ◌≡◌, refl, sym, ◌∙◌, ap,
  inl, inr, arith, length, filter, any, is_empty, if◌then◌else◌, or_else, ◌==◌, nat_eq, list_eq,
  pair_eq, Bool-cases, Option-cases,
}
use local_dafa.State.Records.{ReconciliationFinding, PredicateCoverage, VerifySummary}
use local_dafa.State.Channels.{
  State, test_results, findings, tester_findings, reconciliation_findings, verify_summary,
  verify_retries,
}
use local_dafa.State.Reducers.{overwrite}
use local_dafa.State.Merge.{Caps, merge, merge_value, reducer}
use local_dafa.Flow.Targets.{is_blocking_kind, is_covered}
use local_dafa.Flow.Repair.{verify_passed}
use local_dafa.Verify.Summary.{
  Key, is_failed, is_hard, expected_predicates, has_verification_predicates, blocking_failures,
  coverage_by_key, covers, uncovered_predicates, mechanical_summary, semantic_summary, aggregate,
  semantic_delta, run_semantic_coverage_node, verdict_nodes,
}

-- The mechanical evidence is clean: no failed test, no hard finding, nothing from the Tester and
-- no reconciliation finding that blocks.
abbrev pub is_clean : State → Bool
is_clean s =
    not (any is_failed (or_else (s test_results) []))
    && (not (any is_hard (or_else (s findings) []))
        && (is_empty (or_else (s tester_findings) [])
            && not (
                any (λ (f : ReconciliationFinding). is_blocking_kind f.kind)
                  (or_else (s reconciliation_findings) []))))

-- Every one of these predicates is covered, or, where there are none, every reported one.
unfoldable pub are_covered : List Key → List PredicateCoverage → Bool
are_covered [] coverage = not (any (λ (i : PredicateCoverage). not (is_covered i.status)) coverage)
are_covered (k ∷ ks) coverage =
    not (any (λ key. not (covers (coverage_by_key coverage []) key)) (k ∷ ks))

none_match :
    {A : Type 0} (p : A → Bool) (xs : List A) → (length (filter p xs) == 0) ≡ not (any p xs)
none_match p [] = ground arith
none_match p (x ∷ xs) = ground (arith, none_match p xs)

no_length : {A : Type 0} (xs : List A) (n : ℕ) → (length xs + n == 0) ≡ (is_empty xs && (n == 0))
no_length [] n = ground arith
no_length (x ∷ xs) n = ground arith

mechanical_passed : (s : State) → (mechanical_summary s).passed ≡ is_clean s
unfolding mechanical_summary blocking_failures
mechanical_passed s = ground (
  arith,
  none_match is_failed (or_else (s test_results) []),
  none_match is_hard (or_else (s findings) []),
  none_match (λ (f : ReconciliationFinding). is_blocking_kind f.kind)
      (or_else (s reconciliation_findings) []),
  no_length (or_else (s tester_findings) []) (
      length (
        filter (λ (f : ReconciliationFinding). is_blocking_kind f.kind)
          (or_else (s reconciliation_findings) []))),
)

uncovered-are_covered :
    (ks : List Key) (coverage : List PredicateCoverage)
    → (uncovered_predicates ks coverage == 0) ≡ are_covered ks coverage
unfolding uncovered_predicates are_covered
uncovered-are_covered [] coverage = none_match _ coverage
uncovered-are_covered (k ∷ ks) coverage =
    none_match (λ key. not (covers (coverage_by_key coverage []) key)) (k ∷ ks)

semantic_passed :
    (s : State) (coverage : List PredicateCoverage)
    → (semantic_summary s coverage).passed
      ≡ (is_clean s && are_covered (expected_predicates s) coverage)
unfolding semantic_summary
semantic_passed s coverage =
    ground (arith, mechanical_passed s, uncovered-are_covered (expected_predicates s) coverage)

passes_as : (s : State) (v : VerifySummary) → s verify_summary ≡ some v → verify_passed s ≡ v.passed
passes_as s v e = rw (e, verify_passed)

-- The state after `aggregate`.
abbrev aggregated : Caps → State → State
aggregated k s = merge k s (aggregate s)

aggregated-summary :
    (k : Caps) (s : State) → aggregated k s verify_summary ≡ some (mechanical_summary s)
unfolding merge reducer aggregate overwrite
aggregated-summary k s = elim (Option-cases (s verify_summary)) [
  | inl e ↦ rw (e, merge_value)
  | inr (v, e) ↦ rw (e, merge_value)
]

aggregated-retries :
    (k : Caps) (s : State)
    → or_else (aggregated k s verify_retries) 0
      ≡ or_else (s verify_retries) 0 + (if is_clean s then 0 else 1)
unfolding merge reducer aggregate overwrite
aggregated-retries k s = elim (Bool-cases (is_clean s)) [
  | inl c ↦ rw (aggregate, mechanical_passed s, c) (omega arith)
  | inr c ↦ elim (Option-cases (s verify_retries)) [
    | inl e ↦ rw (aggregate, mechanical_passed s, c, e, merge_value) (omega arith)
    | inr (n, e) ↦ rw (aggregate, mechanical_passed s, c, e, merge_value) (omega arith)
  ]
]

module _ (k : Caps) (verifier : State → List PredicateCoverage) where
  -- What the semantic node makes of a state.
  abbrev judged : State → State
  judged t = merge k t (run_semantic_coverage_node verifier t)

  unasked :
      (t : State)
      → has_verification_predicates t ≡ false
      → (judged t verify_summary ≡ t verify_summary) × (judged t verify_retries ≡ t verify_retries)
  unfolding merge run_semantic_coverage_node
  unasked t e = (
    rw (run_semantic_coverage_node, e, merge_value),
    rw (run_semantic_coverage_node, e, merge_value),
  )

  judged-summary :
      (t : State) (v : VerifySummary)
      → has_verification_predicates t ≡ true
      → t verify_summary ≡ some v
      → judged t verify_summary ≡ some (semantic_summary t (verifier t))
  unfolding merge reducer run_semantic_coverage_node semantic_delta overwrite
  judged-summary t v e f = rw (run_semantic_coverage_node, e, f, merge_value)

  judged-retries :
      (t : State) (v : VerifySummary)
      → has_verification_predicates t ≡ true
      → t verify_summary ≡ some v
      → or_else (judged t verify_retries) 0
        ≡ or_else (t verify_retries) 0
          + (if not (semantic_summary t (verifier t)).passed && v.passed then 1 else 0)
  unfolding merge reducer run_semantic_coverage_node semantic_delta overwrite
  judged-retries t v e f =
      elim (Bool-cases (not (semantic_summary t (verifier t)).passed && v.passed)) [
        | inr c ↦
            rw (run_semantic_coverage_node, e, semantic_delta, f, c, merge_value) (omega arith)
        | inl c ↦ elim (Option-cases (t verify_retries)) [
          | inl g ↦
              rw (run_semantic_coverage_node, e, semantic_delta, f, c, g, merge_value) (omega arith)
          | inr (n, g) ↦
              rw (run_semantic_coverage_node, e, semantic_delta, f, c, g, merge_value) (omega arith)
        ]
      ]

  -- Verification passes exactly when the mechanical evidence is clean and, where there is any
  -- predicate to verify, the semantic verifier reports every expected one as covered, or, where
  -- none is expected, every one that it reports. The two nodes together count one retry when it
  -- fails, and none when it passes.
  pub verdict_nodes_lem :
      (s : State)
      → let s' = verdict_nodes k verifier s in
        let coverage = verifier (merge k s (aggregate s)) in
        (verify_passed s' ≡ (
          is_clean s
          && (not (has_verification_predicates s) || are_covered (expected_predicates s) coverage)))
        × (or_else (s' verify_retries) 0
            ≡ or_else (s verify_retries) 0 + (if verify_passed s' then 0 else 1))
  unfolding verdict_nodes merge has_verification_predicates expected_predicates
  verdict_nodes_lem s =
      let t = aggregated k s in
      let v = mechanical_summary s in
      let summary = aggregated-summary k s in
      let retries = aggregated-retries k s in
      let same : has_verification_predicates t ≡ has_verification_predicates s =
        unfold merge aggregate has_verification_predicates expected_predicates in refl in
      let clean : is_clean t ≡ is_clean s = unfold merge aggregate in refl in
      let expected : expected_predicates t ≡ expected_predicates s =
        unfold merge aggregate expected_predicates in refl in
      elim (Bool-cases (has_verification_predicates s)) [
        | inr e ↦
            let (a, b) = unasked t (same ∙ e) in
            let p : verify_passed (judged t) ≡ is_clean s = rw (a, summary) (mechanical_passed s) in
            (ground (arith, p, e), ground (arith, p, ap (λ (o : Option ℕ). or_else o 0) b, retries))
        | inl e ↦
            let a = judged-summary t v (same ∙ e) summary in
            let b = judged-retries t v (same ∙ e) summary in
            let p : verify_passed (judged t)
                ≡ (is_clean s && are_covered (expected_predicates s) (verifier t)) =
              passes_as (judged t) _ a ∙ (semantic_passed t (verifier t) ∙ rw (clean, expected)) in
            let q : (semantic_summary t (verifier t)).passed ≡ verify_passed (judged t) =
              sym (passes_as (judged t) _ a) in
            (ground (arith, p, e), ground (arith, p, q, b, retries, mechanical_passed s))
      ]
