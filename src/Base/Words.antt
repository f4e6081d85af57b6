-- ===== src/Base/Words.antt =====
-- Text as a list of code points, and `str.strip`.
use Prim.Native.Nat.{ℕ, zero, suc, ◌+◌, ◌/◌, ◌%◌}
use Prim.Native.Char.{code}
use Prim.Native.String.{String}
use mathlib.Core.Path.{◌≡◌, refl}
use mathlib.Core.Logic.{inl, inr}
use mathlib.Core.Bool.{Bool, false, not, ◌&&◌, ◌||◌}
use mathlib.Core.Option.{Option, none, some}
use mathlib.Core.List.{List, [], ◌∷◌, ◌++◌, reverse}
use native.Mathlib.Omega.{arith}
use local_dafa.Base.Lists.{is_empty, All}
use local_dafa.Base.Tests.{Bool-cases, leb, nat_beq, if◌then◌else◌}

abbrev pub Text : Type 0
Text = List ℕ

abbrev pub codes : String → Text
codes String.[] = []
codes (String.◌∷◌ c s) = code c ∷ codes s

-- The code points that `str.isspace` accepts.
unfoldable pub is_space : ℕ → Bool
is_space c =
    (leb 9 c && leb c 13)
    || (leb 28 c && leb c 32)
    || nat_beq c 133
    || nat_beq c 160
    || nat_beq c 5760
    || (leb 8192 c && leb c 8202)
    || nat_beq c 8232
    || nat_beq c 8233
    || nat_beq c 8239
    || nat_beq c 8287
    || nat_beq c 12288

unfoldable pub lstrip : Text → Text
lstrip [] = []
lstrip (c ∷ s) = if is_space c then lstrip s else c ∷ s

unfoldable pub strip : Text → Text
unfolding lstrip
strip s = reverse (lstrip (reverse (lstrip s)))

pub lstrip_idem : (s : Text) → lstrip (lstrip s) ≡ lstrip s
unfolding lstrip
lstrip_idem [] = refl
lstrip_idem (c ∷ s) = ground (arith, lstrip_idem s)

-- `s or d`: an empty text counts as missing.
abbrev pub text_or : Option Text → Text → Text
text_or none d = d
text_or (some []) d = d
text_or (some (c ∷ s)) d = c ∷ s

-- `sep.join(parts)`
unfoldable pub join : Text → List Text → Text
join sep [] = []
join sep (s ∷ []) = s
join sep (s ∷ t ∷ rest) = s ++ (sep ++ join sep (t ∷ rest))

-- `s.lstrip(ch)`
unfoldable pub lstrip_of : ℕ → Text → Text
lstrip_of ch [] = []
lstrip_of ch (c ∷ s) = if nat_beq c ch then lstrip_of ch s else c ∷ s

-- The decimal digits of a number, the fuel being one more than the number.
show_fuel : ℕ → ℕ → Text → Text
show_fuel zero n acc = acc
show_fuel (suc f) n acc =
    let d = (48 + n % 10) ∷ acc in let rest = show_fuel f (n / 10) d in if leb n 9 then d else rest

unfoldable pub show : ℕ → Text
unfolding show_fuel
show n = show_fuel (suc n) n []

-- The integers, for exit codes.
pub data ℤ : Type 0 where
  pos negsuc : ℕ → ℤ

unfoldable pub show_int : ℤ → Text
unfolding show
show_int (pos n) = show n
show_int (negsuc n) = 45 ∷ show (suc n)

-- `s.rstrip()`
unfoldable pub rstrip : Text → Text
unfolding lstrip
rstrip s = reverse (lstrip (reverse s))

-- The characters that end a line for `str.splitlines`.
unfoldable pub is_break : ℕ → Bool
is_break c =
    (leb 10 c && leb c 13)
    || (leb 28 c && leb c 30)
    || nat_beq c 133
    || nat_beq c 8232
    || nat_beq c 8233

-- `splitlines` from within a line, after a carriage return or not.
unfoldable pub lines_from : Bool → Text → Text → List Text
unfolding is_break
lines_from cr line [] = if is_empty line then [] else line ∷ []
lines_from cr line (c ∷ s) =
    let skip = cr && nat_beq c 10 in
    let ends = not skip && is_break c in
    let rest = lines_from (ends && nat_beq c 13) (if skip || ends then [] else line ++ c ∷ []) s in
    if ends then line ∷ rest else rest

unfoldable pub splitlines : Text → List Text
unfolding lines_from
splitlines s = lines_from false [] s

show_fuel-All :
    (P : ℕ → Type 0)
    → ((n : ℕ) → P (48 + n % 10))
    → (f n : ℕ) (acc : Text) → All P acc
    → All P (show_fuel f n acc)
unfolding show_fuel
show_fuel-All P digit zero n acc h = h
show_fuel-All P digit (suc f) n acc h = elim (Bool-cases (leb n 9)) [
  | inl e ↦ rw e (digit n, h)
  | inr e ↦ rw e (show_fuel-All P digit f (n / 10) ((48 + n % 10) ∷ acc) (digit n, h))
]

-- What holds of the ten digits holds of each character of a number.
pub show-All : (P : ℕ → Type 0) → ((n : ℕ) → P (48 + n % 10)) → (n : ℕ) → All P (show n)
unfolding show
show-All P digit n = show_fuel-All P digit (suc n) n [] tt
