-- ===== src/Base/Windows.antt =====
-- The last entries of a list, as a log with a cap or a history with a window keeps them.
use Prim.Native.Nat.{ℕ, zero, suc, ◌+◌, ◌-◌, ◌≤◌}
use mathlib.Core.Path.{◌≡◌, refl, sym, ap, ◌∙◌}
use mathlib.Core.List.{List, [], ◌∷◌, ◌++◌}
use native.Mathlib.Omega.{arith}
use local_dafa.Base.Lists.{length, drop, last_n, length-append, length-drop}

pub drop-drop {ℓ} :
    {A : Type ℓ} (n : ℕ) (xs ys : List A) → n ≤ length xs → drop n (xs ++ ys) ≡ drop n xs ++ ys
drop-drop zero xs ys h = refl
drop-drop (suc n) [] ys h = absurd (omega arith)
drop-drop (suc n) (x ∷ xs) ys h = drop-drop n xs ys (omega arith)

pub drop_of_nil {ℓ} : {A : Type ℓ} (n : ℕ) → drop {A = A} n [] ≡ []
drop_of_nil zero = refl
drop_of_nil (suc n) = refl

drop_add {ℓ} : {A : Type ℓ} (n m : ℕ) (xs : List A) → drop n (drop m xs) ≡ drop (m + n) xs
drop_add n zero xs = let e : 0 + n ≡ n = omega arith in rw e
drop_add n (suc m) [] = let e : suc m + n ≡ suc (m + n) = omega arith in rw e (drop_of_nil n)
drop_add n (suc m) (x ∷ xs) =
    let e : suc m + n ≡ suc (m + n) = omega arith in rw e (drop_add n m xs)

-- Forgetting all but the last entries before an append and after it is forgetting once.
pub last_n-append {ℓ} :
    {A : Type ℓ} (w : ℕ) (xs ys : List A) → last_n w (last_n w xs ++ ys) ≡ last_n w (xs ++ ys)
last_n-append w xs ys =
    let a = length xs in
    let k = a - w in
    let e = sym (drop-drop k xs ys (omega arith)) in
    let len : length (last_n w xs ++ ys) ≡ (a - k) + length ys =
      length-append (drop k xs) ys ∙ ap (λ (t : ℕ). t + length ys) (length-drop k xs) in
    let f : k + (length (last_n w xs ++ ys) - w) ≡ length (xs ++ ys) - w =
      omega (arith, len, length-append xs ys) in
    ap (drop (length (last_n w xs ++ ys) - w)) e
    ∙ (drop_add (length (last_n w xs ++ ys) - w) k (xs ++ ys) ∙ ap (λ (t : ℕ). drop t (xs ++ ys)) f)
