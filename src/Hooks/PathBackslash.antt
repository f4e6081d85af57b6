-- ===== src/Hooks/PathBackslash.antt =====
-- No backslash is left in a path of src/darkfactory/hooks/path_guard.py.
use local_dafa.Base.{
  false, ◌&&◌, Option, List, [], ◌∷◌, ◌++◌, ◌≡◌, refl, inl, inr, sym, ap, ◌∙◌, arith, Text, codes,
  is_empty, All, nat_beq, nat_eq, list_eq, ◌==◌, join, or_else, Bool-cases, Option-cases,
}
use local_dafa.Hooks.Paths.{forward, rstrip_slashes, after_prefix, drop_here, slash, relative}
use local_dafa.Hooks.PathFacts.{has, IsSegment}

pub forward-backslash : (s : Text) → has 92 (forward s) ≡ false
unfolding forward
forward-backslash [] = refl
forward-backslash (c ∷ s) = ground (arith, forward-backslash s)

pub forward-plain : (s : Text) → has 92 s ≡ false → forward s ≡ s
unfolding forward
forward-plain [] h = refl
forward-plain (c ∷ s) h =
    let plain : nat_beq c 92 ≡ false = ground arith in
    rw plain (ap (λ t. c ∷ t) (forward-plain s (ground arith)))

after_prefix-backslash :
    (p s : Text) → has 92 s ≡ false → has 92 (or_else (after_prefix p s) []) ≡ false
unfolding after_prefix
after_prefix-backslash [] s h = h
after_prefix-backslash (p ∷ ps) [] h = refl
after_prefix-backslash (p ∷ ps) (c ∷ s) h = elim (Bool-cases (nat_beq c p)) [
  | inl e ↦ rw e (after_prefix-backslash ps s (ground arith))
  | inr e ↦ rw e refl
]

after_prefix-or :
    (p s d : Text)
    → has 92 s ≡ false
    → has 92 d ≡ false
    → has 92 (or_else (after_prefix p s) d) ≡ false
after_prefix-or p s d h k = elim (Option-cases (after_prefix p s)) [
  | inl e ↦ rw e k
  | inr (r, e) ↦
      let f : has 92 r ≡ false =
        ap (λ o. has 92 (or_else o [])) (sym e) ∙ after_prefix-backslash p s h in
      rw e f
]

pub relative-backslash :
    (cwd : Option Text) (raw : Text) → has 92 raw ≡ false → has 92 (relative cwd raw) ≡ false
unfolding relative
relative-backslash cwd raw h =
    let base = rstrip_slashes (forward (or_else cwd [])) in
    let other : has 92 (or_else (after_prefix (codes "/workspace/") raw) raw) ≡ false =
      after_prefix-or (codes "/workspace/") raw raw h h in
    elim (Bool-cases (raw == base)) [
      | inl e ↦ elim (Bool-cases (is_empty base)) [
        | inl b ↦ rw (e, b) refl
        | inr b ↦ rw (e, b) (after_prefix-or (base ++ slash) raw [] h refl)
      ]
      | inr e ↦ elim (Bool-cases (is_empty base)) [
        | inl b ↦ rw (e, b) other
        | inr b ↦ rw (e, b) (after_prefix-or (base ++ slash) raw _ h other)
      ]
    ]

pub drop_here-backslash : (s : Text) → has 92 s ≡ false → has 92 (drop_here s) ≡ false
unfolding drop_here
drop_here-backslash [] h = h
drop_here-backslash (c ∷ []) h = h
drop_here-backslash (c ∷ d ∷ s) h = elim (Bool-cases (nat_beq c 46 && nat_beq d 47)) [
  | inl e ↦ rw e (drop_here-backslash s (ground arith))
  | inr e ↦ rw e h
]

pub join-backslash : (parts : List Text) → All IsSegment parts → has 92 (join slash parts) ≡ false
unfolding join
join-backslash [] h = refl
join-backslash (p ∷ []) h = h.0.no_backslash
join-backslash (p ∷ q ∷ parts) h =
    has-append p (47 ∷ join slash (q ∷ parts)) h.0.no_backslash (join-backslash (q ∷ parts) h.1)
  where
    has-append : (s t : Text) → has 92 s ≡ false → has 92 t ≡ false → has 92 (s ++ t) ≡ false
    has-append [] t h k = k
    has-append (c ∷ s) t h k = ground (arith, has-append s t, h, k)
