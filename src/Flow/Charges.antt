-- ===== src/Flow/Charges.antt =====
-- Charging the Fixer's budget: what `_record_fixer_attempt_delta` does to the counts, and that
-- `_fixer_budget_exhaustion` keeps every count at the maximum or below.
use local_dafa.Base.{
  ℕ, ◌+◌, ◌*◌, ◌≤◌, ◌<◌, Bool, true, false, none, List, [], ◌∷◌, ◌≡◌, ◌≢◌, refl, inl, inr, arith,
  Text, is_empty, contains, or_else, nat_eq, list_eq, filter, length, IsUnique, IsWithin,
  Bool-cases, get, insert, get-insert, ◌==◌, eq_iff, contains_self,
}
use local_dafa.State.Channels.{State, fixer_attempts_by_wp, fixer_attempts_by_predicate}
use local_dafa.Flow.Targets.{fixer_failure_targets}
use local_dafa.Flow.Budget.{
  Counts, fixer_max_attempts, is_exhausted, fixer_budget_exhaustion, bump_all,
}

abbrev pub one_if : Bool → ℕ
one_if true = 1
one_if false = 0

-- Each charged target gains exactly one attempt, and no other count moves.
pub get-bump_all :
    (t : Text) (ts : List Text) (counts : Counts)
    → IsUnique ts
    → get t 0 (bump_all ts counts) ≡ get t 0 counts + one_if (contains t ts)
unfolding bump_all contains
get-bump_all t [] counts u = omega arith
get-bump_all t (x ∷ xs) counts u =
    let rest = get-bump_all t xs (insert x (get x 0 counts + 1) counts) u.1 in
    elim (Bool-cases (x == t)) [
      | inl same ↦
          ground (arith, rest, u.0, eq_iff x t, get-insert x t (get x 0 counts + 1) 0 counts)
      | inr other ↦ ground (arith, rest, get-insert x t (get x 0 counts + 1) 0 counts)
    ]

-- No count is above the maximum.
abbrev pub IsWithinBudget : Counts → Type 0
IsWithinBudget counts = (t : Text) → get t 0 counts ≤ fixer_max_attempts

filter-is_empty :
    (p : Text → Bool) (t : Text) (ts : List Text)
    → is_empty (filter p ts) ≡ true
    → contains t ts ≡ true
    → p t ≡ false
unfolding contains
filter-is_empty p t [] h m = cc
filter-is_empty p t (x ∷ xs) h m = elim (Bool-cases (x == t)) [
  | inl same ↦ elim (Bool-cases (p x)) [
    | inl hit ↦ absurd (ground (arith, hit))
    | inr miss ↦ cc ((eq_iff x t).0 same, miss)
  ]
  | inr other ↦ filter-is_empty p t xs (ground arith) (ground arith)
]

-- A target that is not exhausted has an attempt left.
not_exhausted-lt : (counts : Counts) (t : Text) → is_exhausted counts t ≡ false → get t 0 counts < 2
unfolding is_exhausted
not_exhausted-lt counts t h = ground arith

abbrev pub wp_counts : State → Counts
wp_counts s = or_else (s fixer_attempts_by_wp) []

abbrev pub predicate_counts : State → Counts
predicate_counts s = or_else (s fixer_attempts_by_predicate) []

-- Where the budget is not exhausted, every target of the failure has an attempt left.
pub targets_have_budget :
    (s : State)
    → fixer_budget_exhaustion s ≡ none
    → ((t : Text) → contains t (fixer_failure_targets s).wps ≡ true → get t 0 (wp_counts s) < 2)
      × ((t : Text)
          → contains t (fixer_failure_targets s).predicates ≡ true
          → get t 0 (predicate_counts s) < 2)
unfolding fixer_budget_exhaustion
targets_have_budget s h =
    let ws = (fixer_failure_targets s).wps in
    let ps = (fixer_failure_targets s).predicates in
    (
      (λ t m.
          not_exhausted-lt (wp_counts s) t
            (filter-is_empty (is_exhausted (wp_counts s)) t ws (ground arith) m)),
      λ t m.
          not_exhausted-lt (predicate_counts s) t
            (filter-is_empty (is_exhausted (predicate_counts s)) t ps (ground arith) m),
    )

module _ (ts : List Text) (counts : Counts) (u : IsUnique ts) where
  -- Charging targets that have an attempt left keeps every count within the budget.
  pub bump_all-IsWithinBudget :
      ((t : Text) → contains t ts ≡ true → get t 0 counts < 2)
      → IsWithinBudget counts
      → IsWithinBudget (bump_all ts counts)
  bump_all-IsWithinBudget free h t = elim (Bool-cases (contains t ts)) [
    | inl e ↦ rw (get-bump_all t ts counts u, e) (omega (arith, free t e))
    | inr e ↦ rw (get-bump_all t ts counts u, e) (omega (arith, h t))
  ]

-- The attempts charged so far to the packages of a set.
unfoldable pub spent : List Text → Counts → ℕ
spent [] counts = 0
spent (w ∷ ws) counts = get w 0 counts + spent ws counts

pub spent-le :
    (ws : List Text) (counts : Counts) → IsWithinBudget counts → spent ws counts ≤ 2 * length ws
unfolding spent
spent-le [] counts h = omega arith
spent-le (w ∷ ws) counts h = omega (arith, h w, spent-le ws counts h)

module _ (ts : List Text) (counts : Counts) (u : IsUnique ts) where
  spent-bump_all_le : (ws : List Text) → spent ws counts ≤ spent ws (bump_all ts counts)
  unfolding spent
  spent-bump_all_le [] = omega arith
  spent-bump_all_le (w ∷ ws) = omega (arith, get-bump_all w ts counts u, spent-bump_all_le ws)

  -- A charge to a package of the set is seen in what the set has spent.
  spent-bump_all_lt :
      (ws : List Text) (t : Text)
      → contains t ws ≡ true
      → contains t ts ≡ true
      → spent ws counts < spent ws (bump_all ts counts)
  unfolding spent contains
  spent-bump_all_lt [] t h m = cc
  spent-bump_all_lt (w ∷ ws) t h m = elim (Bool-cases (w == t)) [
    | inl same ↦
        let e : contains w ts ≡ true = cc ((eq_iff w t).0 same, m) in
        ground (arith, e, get-bump_all w ts counts u, spent-bump_all_le ws)
    | inr other ↦
        let later : contains t ws ≡ true = ground arith in
        omega (arith, get-bump_all w ts counts u, spent-bump_all_lt ws t later m)
  ]

-- Every charge to a failure whose packages lie in a set uses up some of the set's budget.
pub spent-charge :
    (ws ts : List Text) (counts : Counts)
    → ts ≢ []
    → IsUnique ts
    → IsWithin ws ts
    → spent ws counts < spent ws (bump_all ts counts)
spent-charge ws [] counts ne u h = absurd (ne refl)
spent-charge ws (t ∷ ts) counts ne u h =
    spent-bump_all_lt (t ∷ ts) counts u ws t h.0 (contains_self t ts)
