-- ===== src/Base/Strips.antt =====
-- What `str.strip` and `str.splitlines` do to plain text.
use Prim.Native.Nat.{ℕ}
use mathlib.Core.Path.{◌≡◌, refl, ap, ◌∙◌}
use mathlib.Core.Bool.{false}
use mathlib.Core.List.{List, [], ◌∷◌, ◌++◌, reverse, reverse-cons, append-nil, append_assoc}
use native.Mathlib.Omega.{arith}
use local_dafa.Base.Tests.{if◌then◌else◌}
use local_dafa.Base.Lists.{is_empty, any, All}
use local_dafa.Base.Words.{Text, is_space, lstrip, strip, is_break, lines_from, splitlines}

lines_from-plain :
    (acc s : Text)
    → any is_break s ≡ false
    → lines_from false acc s ≡ (if is_empty (acc ++ s) then [] else (acc ++ s) ∷ [])
unfolding lines_from
lines_from-plain acc [] h = rw (append-nil acc)
lines_from-plain acc (c ∷ s) h =
    let plain : is_break c ≡ false = ground arith in
    let rest : any is_break s ≡ false = ground arith in
    let shifted : (acc ++ c ∷ []) ++ s ≡ acc ++ c ∷ s = append_assoc acc (c ∷ []) s in
    rw plain (lines_from-plain (acc ++ c ∷ []) s rest)
    ∙ ap (λ (t : Text). if is_empty t then [] else t ∷ []) shifted

-- A text without line breaks is one line.
pub splitlines-plain :
    (c : ℕ) (s : Text) → any is_break (c ∷ s) ≡ false → splitlines (c ∷ s) ≡ (c ∷ s) ∷ []
unfolding splitlines
splitlines-plain c s h = lines_from-plain [] (c ∷ s) h

lstrip-last : (s : Text) (c : ℕ) → is_space c ≡ false → is_empty (lstrip (s ++ c ∷ [])) ≡ false
unfolding lstrip
lstrip-last [] c h = rw h
lstrip-last (d ∷ s) c h = ground (arith, lstrip-last s c h)

is_empty-append : (s t : Text) → is_empty t ≡ false → is_empty (s ++ t) ≡ false
is_empty-append [] t h = h
is_empty-append (c ∷ s) t h = refl

is_empty-reverse : (s : Text) → is_empty s ≡ false → is_empty (reverse s) ≡ false
is_empty-reverse [] h = cc
is_empty-reverse (c ∷ s) h = rw (reverse-cons c s) (is_empty-append (reverse s) (c ∷ []) refl)

-- A text that starts with a visible character is not blank.
pub strip_visible : (c : ℕ) (s : Text) → is_space c ≡ false → is_empty (strip (c ∷ s)) ≡ false
unfolding strip lstrip
strip_visible c s h = rw (h, reverse-cons c s) (is_empty-reverse _ (lstrip-last (reverse s) c h))

-- A space in front makes no difference.
pub strip-space : (s : Text) → strip (32 ∷ s) ≡ strip s
unfolding strip lstrip is_space
strip-space s = refl

-- Each line with its line feed.
abbrev pub unlines : List Text → Text
unlines [] = []
unlines (line ∷ lines) = line ++ 10 ∷ unlines lines

lines_from-line :
    (acc line s : Text)
    → any is_break line ≡ false
    → lines_from false acc (line ++ 10 ∷ s) ≡ (acc ++ line) ∷ lines_from false [] s
unfolding lines_from
lines_from-line acc [] s h = rw (append-nil acc)
lines_from-line acc (c ∷ line) s h =
    let plain : is_break c ≡ false = ground arith in
    let rest : any is_break line ≡ false = ground arith in
    let shifted : (acc ++ c ∷ []) ++ line ≡ acc ++ c ∷ line = append_assoc acc (c ∷ []) line in
    rw plain (lines_from-line (acc ++ c ∷ []) line s rest)
    ∙ ap (λ (t : Text). t ∷ lines_from false [] s) shifted

-- Plain lines are read back as they were written.
pub splitlines-unlines :
    (lines : List Text)
    → All (λ l. any is_break l ≡ false) lines
    → splitlines (unlines lines) ≡ lines
unfolding splitlines
splitlines-unlines [] h = unfold lines_from in refl
splitlines-unlines (l ∷ lines) h =
    lines_from-line [] l (unlines lines) h.0 ∙ ap (λ ls. l ∷ ls) (splitlines-unlines lines h.1)
