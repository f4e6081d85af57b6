-- ===== src/Base/Unique.antt =====
-- Lists in which no element comes twice, and sublists of a list as sets.
use mathlib.Core.Path.{◌≡◌, refl}
use mathlib.Core.Logic.{inl, inr}
use mathlib.Core.Bool.{true, false}
use mathlib.Core.List.{List, [], ◌∷◌, ◌++◌}
use native.Mathlib.Omega.{arith}
use local_dafa.Base.Tests.{Bool-cases}
use local_dafa.Base.Equal.{Equality, ◌==◌, eq_iff, eq_self, contains, contains-append}

module _ {ℓ} {A : Type ℓ} ⦃e : Equality A⦄ where
  abbrev pub IsUnique : List A → Type 0
  IsUnique [] = Unit
  IsUnique (x ∷ xs) = (contains x xs ≡ false) × IsUnique xs

  -- Every element of the first list is in the second.
  abbrev pub IsWithin : List A → List A → Type 0
  IsWithin ws [] = Unit
  IsWithin ws (x ∷ xs) = (contains x ws ≡ true) × IsWithin ws xs

  pub IsUnique-snoc :
      (x : A) (xs : List A) → IsUnique xs → contains x xs ≡ false → IsUnique (xs ++ x ∷ [])
  unfolding contains
  IsUnique-snoc x [] u h = (refl, tt)
  IsUnique-snoc x (y ∷ xs) u h = (
    ground (arith, contains-append y xs (x ∷ []), eq_iff x y, eq_iff y x),
    IsUnique-snoc x xs u.1 (ground arith),
  )

  pub IsWithin-snoc :
      (ws : List A) (x : A) (xs : List A)
      → IsWithin ws xs
      → contains x ws ≡ true
      → IsWithin ws (xs ++ x ∷ [])
  IsWithin-snoc ws x [] u h = (h, tt)
  IsWithin-snoc ws x (y ∷ xs) u h = (u.0, IsWithin-snoc ws x xs u.1 h)

  pub contains_self : (x : A) (xs : List A) → contains x (x ∷ xs) ≡ true
  unfolding contains
  contains_self x xs = ground (arith, eq_self x)

  pub contains-IsWithin :
      (ws : List A) (x : A) (xs : List A)
      → IsWithin ws xs
      → contains x xs ≡ true
      → contains x ws ≡ true
  unfolding contains
  contains-IsWithin ws x [] u h = cc
  contains-IsWithin ws x (y ∷ xs) u h = elim (Bool-cases (y == x)) [
    | inl same ↦ cc ((eq_iff y x).0 same, u.0)
    | inr other ↦ contains-IsWithin ws x xs u.1 (ground arith)
  ]
