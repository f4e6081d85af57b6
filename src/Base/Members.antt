-- ===== src/Base/Members.antt =====
-- Membership in filtered lists, and how often an element occurs.
use Prim.Native.Nat.{ℕ, suc, ◌+◌, ◌<◌}
use mathlib.Core.Path.{◌≡◌, refl}
use mathlib.Core.Logic.{inl, inr}
use mathlib.Core.Bool.{Bool, true, false, ◌&&◌}
use mathlib.Core.List.{List, [], ◌∷◌, ◌++◌}
use native.Mathlib.Omega.{arith}
use local_dafa.Base.Tests.{Bool-cases, if◌then◌else◌}
use local_dafa.Base.Lists.{length, filter, is_empty, length-filter}
use local_dafa.Base.Equal.{Equality, ◌==◌, eq_iff, eq_self, contains}

module _ {ℓ} {A : Type ℓ} ⦃e : Equality A⦄ where
  -- How often an element occurs in a list.
  unfoldable pub count : A → List A → ℕ
  count a [] = 0
  count a (x ∷ xs) = let n = count a xs in if x == a then suc n else n

  pub count-append : (a : A) (xs ys : List A) → count a (xs ++ ys) ≡ count a xs + count a ys
  unfolding count
  count-append a [] ys = omega arith
  count-append a (x ∷ xs) ys = ground (arith, count-append a xs ys)

  pub contains-filter :
      (p : A → Bool) (a : A) (xs : List A) → contains a (filter p xs) ≡ (p a && contains a xs)
  unfolding contains
  contains-filter p a [] = ground arith
  contains-filter p a (x ∷ xs) = elim (Bool-cases (x == a)) [
    | inl same ↦
        let q : p x ≡ p a = cc ((eq_iff x a).0 same) in
        ground (arith, q, same, contains-filter p a xs)
    | inr other ↦ ground (arith, other, contains-filter p a xs)
  ]

  pub count-filter :
      (p : A → Bool) (a : A) (xs : List A) → count a (filter p xs) ≡ (if p a then count a xs else 0)
  unfolding count
  count-filter p a [] = ground arith
  count-filter p a (x ∷ xs) = elim (Bool-cases (x == a)) [
    | inl same ↦
        let q : p x ≡ p a = cc ((eq_iff x a).0 same) in ground (arith, q, same, count-filter p a xs)
    | inr other ↦ ground (arith, other, count-filter p a xs)
  ]

  pub count_absent : (a : A) (xs : List A) → contains a xs ≡ false → count a xs ≡ 0
  unfolding contains count
  count_absent a [] h = refl
  count_absent a (x ∷ xs) h = ground (arith, count_absent a xs)

  pub not_in_empty : (a : A) (xs : List A) → is_empty xs ≡ true → contains a xs ≡ false
  unfolding contains
  not_in_empty a [] h = refl
  not_in_empty a (x ∷ xs) h = cc

  pub some_element : (xs : List A) → is_empty xs ≡ false → (a : A) × (contains a xs ≡ true)
  unfolding contains
  some_element [] h = absurd (ground (arith, h))
  some_element (x ∷ xs) h = (x, ground (arith, eq_self x))

  pub length-filter_lt :
      (p : A → Bool) (a : A) (xs : List A)
      → contains a xs ≡ true
      → p a ≡ false
      → length (filter p xs) < length xs
  unfolding contains
  length-filter_lt p a [] h k = absurd (ground (arith, h))
  length-filter_lt p a (x ∷ xs) h k = elim (Bool-cases (x == a)) [
    | inl same ↦
        let q : p x ≡ false = cc ((eq_iff x a).0 same, k) in ground (arith, q, length-filter p xs)
    | inr other ↦ ground (arith, other, h, length-filter_lt p a xs, k)
  ]
