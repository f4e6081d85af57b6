-- ===== src/Flow/TargetSets.antt =====
-- The failure targets of src/darkfactory/runtime/workflow.py as sets: no target comes twice, there
-- always is one, and they are among the packages that the state names.
use local_dafa.Base.{
  true, not, ◌&&◌, ◌||◌, List, [], ◌∷◌, ◌≡◌, ◌≢◌, refl, inl, inr, arith, Text, is_empty, contains,
  strip, or_else, nat_eq, list_eq, All, IsUnique, IsWithin, IsUnique-snoc, IsWithin-snoc,
  Bool-cases,
}
use local_dafa.State.Records.{PredicateCoverage, TesterFinding, ReconciliationFinding}
use local_dafa.State.Channels.{
  State, verify_summary, tester_findings, reconciliation_findings, current_slice,
}
use local_dafa.Flow.Targets.{
  append_unique, add_coverage_wps, add_coverage_predicates, add_tester_wps, add_recon_wps,
  summary_coverage, named_wps, fall_back, nonempty_or, first_brief_wp_id, fixer_failure_targets,
  unknown_fixer_target, is_covered, is_blocking_kind,
}

-- A name that is blank or belongs to the set.
abbrev pub IsKnown : List Text → Text → Type 0
IsKnown ws t = (is_empty (strip t) || contains (strip t) ws) ≡ true

append_unique-IsUnique : (xs : List Text) (t : Text) → IsUnique xs → IsUnique (append_unique xs t)
unfolding append_unique
append_unique-IsUnique xs t u =
    elim (Bool-cases (not (is_empty (strip t)) && not (contains (strip t) xs))) [
      | inl new ↦ rw new (IsUnique-snoc (strip t) xs u (ground arith))
      | inr old ↦ rw old u
    ]

append_unique-IsWithin :
    (ws xs : List Text) (t : Text)
    → IsKnown ws t
    → IsWithin ws xs
    → IsWithin ws (append_unique xs t)
unfolding append_unique
append_unique-IsWithin ws xs t k u =
    elim (Bool-cases (not (is_empty (strip t)) && not (contains (strip t) xs))) [
      | inl new ↦ rw new (IsWithin-snoc ws (strip t) xs u (ground arith))
      | inr old ↦ rw old u
    ]

add_coverage_wps-IsUnique :
    (is : List PredicateCoverage) (xs : List Text) → IsUnique xs → IsUnique (add_coverage_wps is xs)
unfolding add_coverage_wps
add_coverage_wps-IsUnique [] xs u = u
add_coverage_wps-IsUnique (i ∷ is) xs u = elim (Bool-cases (is_covered i.status)) [
  | inl e ↦ rw e (add_coverage_wps-IsUnique is xs u)
  | inr e ↦ rw e (
      add_coverage_wps-IsUnique is (append_unique xs i.wp_id) (append_unique-IsUnique xs i.wp_id u))
]

add_coverage_predicates-IsUnique :
    (is : List PredicateCoverage) (xs : List Text)
    → IsUnique xs
    → IsUnique (add_coverage_predicates is xs)
unfolding add_coverage_predicates
add_coverage_predicates-IsUnique [] xs u = u
add_coverage_predicates-IsUnique (i ∷ is) xs u = elim (Bool-cases (is_covered i.status)) [
  | inl e ↦ rw e (add_coverage_predicates-IsUnique is xs u)
  | inr e ↦ rw e (
      add_coverage_predicates-IsUnique is (append_unique xs i.predicate)
        (append_unique-IsUnique xs i.predicate u))
]

add_tester_wps-IsUnique :
    (fs : List TesterFinding) (xs : List Text) → IsUnique xs → IsUnique (add_tester_wps fs xs)
unfolding add_tester_wps
add_tester_wps-IsUnique [] xs u = u
add_tester_wps-IsUnique (f ∷ fs) xs u =
    add_tester_wps-IsUnique fs (append_unique xs f.wp_id) (append_unique-IsUnique xs f.wp_id u)

add_recon_wps-IsUnique :
    (fs : List ReconciliationFinding) (xs : List Text)
    → IsUnique xs
    → IsUnique (add_recon_wps fs xs)
unfolding add_recon_wps
add_recon_wps-IsUnique [] xs u = u
add_recon_wps-IsUnique (f ∷ fs) xs u = elim (Bool-cases (is_blocking_kind f.kind)) [
  | inl e ↦
      rw e
        (add_recon_wps-IsUnique fs (append_unique xs f.wp_id) (append_unique-IsUnique xs f.wp_id u))
  | inr e ↦ rw e (add_recon_wps-IsUnique fs xs u)
]

fall_back-IsUnique : (xs : List Text) (t : Text) → IsUnique xs → IsUnique (fall_back xs t)
unfolding fall_back
fall_back-IsUnique [] t u = append_unique-IsUnique [] t tt
fall_back-IsUnique (x ∷ xs) t u = u

nonempty_or-IsUnique :
    (xs : List Text) (t : Text) → IsUnique xs → IsUnique (nonempty_or xs (t ∷ []))
unfolding nonempty_or contains
nonempty_or-IsUnique [] t u = (refl, tt)
nonempty_or-IsUnique (x ∷ xs) t u = u

named_wps-IsUnique : (s : State) → IsUnique (named_wps s)
unfolding named_wps
named_wps-IsUnique s = add_recon_wps-IsUnique (or_else (s reconciliation_findings) []) _ (
    add_tester_wps-IsUnique (or_else (s tester_findings) []) _
      (add_coverage_wps-IsUnique (summary_coverage (s verify_summary)) [] tt))

nonempty_or-ne-nil : (xs : List Text) (t : Text) → nonempty_or xs (t ∷ []) ≢ []
unfolding nonempty_or
nonempty_or-ne-nil [] t h = cc
nonempty_or-ne-nil (x ∷ xs) t h = cc

-- A failure always has a package to charge, and no package and no predicate is charged twice for
-- one failure.
pub fixer_failure_targets-IsUnique :
    (s : State)
    → ((fixer_failure_targets s).wps ≢ [])
      × IsUnique (fixer_failure_targets s).wps
      × IsUnique (fixer_failure_targets s).predicates
unfolding fixer_failure_targets
fixer_failure_targets-IsUnique s = (
  nonempty_or-ne-nil _ unknown_fixer_target,
  nonempty_or-IsUnique _ unknown_fixer_target (
      fall_back-IsUnique _ (first_brief_wp_id s)
        (fall_back-IsUnique _ (or_else (s current_slice) []) (named_wps-IsUnique s))),
  add_coverage_predicates-IsUnique (summary_coverage (s verify_summary)) [] tt,
)

-- The names in a state that a failure can be charged to all belong to a set.
pub record StateNames (ws : List Text) (s : State) : Type 0 where
  pub coverage :
      All (λ (i : PredicateCoverage). IsKnown ws i.wp_id) (summary_coverage (s verify_summary))
  pub tester : All (λ (f : TesterFinding). IsKnown ws f.wp_id) (or_else (s tester_findings) [])
  pub recon :
      All
        (λ (f : ReconciliationFinding). IsKnown ws f.wp_id)
        (or_else (s reconciliation_findings) [])
  pub slice : IsKnown ws (or_else (s current_slice) [])
  pub brief : IsKnown ws (first_brief_wp_id s)

module _ (ws : List Text) where
  add_coverage_wps-IsWithin :
      (is : List PredicateCoverage) (xs : List Text)
      → All (λ (i : PredicateCoverage). IsKnown ws i.wp_id) is
      → IsWithin ws xs
      → IsWithin ws (add_coverage_wps is xs)
  unfolding add_coverage_wps
  add_coverage_wps-IsWithin [] xs k u = u
  add_coverage_wps-IsWithin (i ∷ is) xs k u = elim (Bool-cases (is_covered i.status)) [
    | inl e ↦ rw e (add_coverage_wps-IsWithin is xs k.1 u)
    | inr e ↦ rw e (
        add_coverage_wps-IsWithin is (append_unique xs i.wp_id) k.1
          (append_unique-IsWithin ws xs i.wp_id k.0 u))
  ]

  add_tester_wps-IsWithin :
      (fs : List TesterFinding) (xs : List Text)
      → All (λ (f : TesterFinding). IsKnown ws f.wp_id) fs
      → IsWithin ws xs
      → IsWithin ws (add_tester_wps fs xs)
  unfolding add_tester_wps
  add_tester_wps-IsWithin [] xs k u = u
  add_tester_wps-IsWithin (f ∷ fs) xs k u =
      add_tester_wps-IsWithin fs (append_unique xs f.wp_id) k.1
        (append_unique-IsWithin ws xs f.wp_id k.0 u)

  add_recon_wps-IsWithin :
      (fs : List ReconciliationFinding) (xs : List Text)
      → All (λ (f : ReconciliationFinding). IsKnown ws f.wp_id) fs
      → IsWithin ws xs
      → IsWithin ws (add_recon_wps fs xs)
  unfolding add_recon_wps
  add_recon_wps-IsWithin [] xs k u = u
  add_recon_wps-IsWithin (f ∷ fs) xs k u = elim (Bool-cases (is_blocking_kind f.kind)) [
    | inl e ↦ rw e (
        add_recon_wps-IsWithin fs (append_unique xs f.wp_id) k.1
          (append_unique-IsWithin ws xs f.wp_id k.0 u))
    | inr e ↦ rw e (add_recon_wps-IsWithin fs xs k.1 u)
  ]

  fall_back-IsWithin :
      (xs : List Text) (t : Text) → IsKnown ws t → IsWithin ws xs → IsWithin ws (fall_back xs t)
  unfolding fall_back
  fall_back-IsWithin [] t k u = append_unique-IsWithin ws [] t k tt
  fall_back-IsWithin (x ∷ xs) t k u = u

  nonempty_or-IsWithin :
      (xs : List Text) (t : Text)
      → contains t ws ≡ true
      → IsWithin ws xs
      → IsWithin ws (nonempty_or xs (t ∷ []))
  unfolding nonempty_or
  nonempty_or-IsWithin [] t k u = (k, tt)
  nonempty_or-IsWithin (x ∷ xs) t k u = u

  -- The packages that are charged belong to the set too.
  pub fixer_failure_targets-IsWithin :
      (s : State)
      → contains unknown_fixer_target ws ≡ true
      → StateNames ws s
      → IsWithin ws (fixer_failure_targets s).wps
  unfolding fixer_failure_targets named_wps
  fixer_failure_targets-IsWithin s un h = nonempty_or-IsWithin _ unknown_fixer_target un (
      fall_back-IsWithin _ (first_brief_wp_id s) h.brief (
        fall_back-IsWithin _ (or_else (s current_slice) []) h.slice (
          add_recon_wps-IsWithin (or_else (s reconciliation_findings) []) _ h.recon (
            add_tester_wps-IsWithin (or_else (s tester_findings) []) _ h.tester
              (add_coverage_wps-IsWithin (summary_coverage (s verify_summary)) [] h.coverage tt)))))
