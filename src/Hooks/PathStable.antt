-- ===== src/Hooks/PathStable.antt =====
-- Normalising a path again: `_normalize_path` of src/darkfactory/hooks/path_guard.py, which the
-- guard runs twice.
use local_dafa.Base.{
  ℕ, Bool, true, false, not, ◌&&◌, ◌||◌, Option, none, some, List, [], ◌∷◌, ◌++◌, ◌≡◌, ◌≢◌, ◌⊎◌,
  refl, inl, inr, sym, ap, ◌∙◌, arith, Text, codes, map, filter, is_empty, any, All, nat_beq,
  nat_eq, list_eq, ◌==◌, eq_iff, eq_self, join, lstrip_of, or_else, if◌then◌else◌, Bool-cases,
  Option-cases, All-append,
}
use mathlib.Core.List.{reverse, reverse-cons}
use local_dafa.Hooks.Paths.{
  forward, rstrip_slashes, after_prefix, drop_here, split_slashes, above, slash, double_slash,
  root_of, after_slash, after_two_slashes, is_part, path_parts, push_part, push_parts, relative,
  normalize_path,
}
use local_dafa.Hooks.PathSplit.{parts_of_join, reverse-All, canonical_segments}
use local_dafa.Hooks.PathBackslash.{
  forward-backslash, forward-plain, relative-backslash, drop_here-backslash, join-backslash,
}
use local_dafa.Hooks.PathFacts.{
  has, IsSegment, IsCanonical, filter-IsSegment, push_parts-IsCanonical, split_slashes-slash,
  split_slashes-backslash,
}

-- The parts that the loop leaves are canonical, where the path has no double slash for its root.
unfoldable pub stack_of : Text → List Text
stack_of raw = push_parts [] (filter is_part (split_slashes raw))

pub stack_of-IsCanonical : (raw : Text) → has 92 raw ≡ false → IsCanonical (stack_of raw)
unfolding stack_of
stack_of-IsCanonical raw h =
    push_parts-IsCanonical _ [] tt (
      filter-IsSegment (split_slashes raw) (split_slashes-slash raw)
        (split_slashes-backslash raw h))

-- Pushed one by one, the parts of a canonical path all stay.
pub push_parts-append :
    (stack xs ys : List Text) → push_parts stack (xs ++ ys) ≡ push_parts (push_parts stack xs) ys
unfolding push_parts
push_parts-append stack [] ys = refl
push_parts-append stack (x ∷ xs) ys = push_parts-append (push_part stack x) xs ys

pub not_slash : (s : Text) → has 47 s ≡ false → (s == slash) ≡ false
unfolding local_dafa.Base.list_beq
not_slash [] h = refl
not_slash (c ∷ s) h = ground arith

push_part-canonical :
    (s : Text) (rest : List Text) → IsCanonical (s ∷ rest) → push_part rest s ≡ s ∷ rest
unfolding push_part
push_part-canonical s [] h = rw (h.0.kept, not_slash s h.0.no_slash)
push_part-canonical s (top ∷ rest) h = elim (Bool-cases (s == above)) [
  | inr e ↦ rw (h.0.kept, not_slash s h.0.no_slash, e)
  | inl e ↦ let f = (h.1 e).0 in rw (h.0.kept, not_slash s h.0.no_slash, e, f)
]

push_parts-reverse : (stack : List Text) → IsCanonical stack → push_parts [] (reverse stack) ≡ stack
push_parts-reverse [] h = unfold push_parts in refl
push_parts-reverse (s ∷ rest) h =
    rw
      (
        reverse-cons s rest,
        push_parts-append [] (reverse rest) (s ∷ []),
        push_parts-reverse rest h.2,
      )
      (unfold push_parts in push_part-canonical s rest h)

root_of-relative : (c : ℕ) (s : Text) → nat_beq c 47 ≡ false → root_of (c ∷ s) ≡ []
unfolding root_of
root_of-relative c s h = rw h

relative-relative : (c : ℕ) (s : Text) → nat_beq c 47 ≡ false → relative none (c ∷ s) ≡ c ∷ s
unfolding relative forward rstrip_slashes lstrip_of after_prefix local_dafa.Base.list_beq
relative-relative c s h = rw h

drop_here-other : (c : ℕ) (s : Text) → nat_beq c 46 ≡ false → drop_here (c ∷ s) ≡ c ∷ s
unfolding drop_here
drop_here-other c [] h = refl
drop_here-other c (d ∷ s) h = rw h

drop_here-second : (c d : ℕ) (s : Text) → nat_beq d 47 ≡ false → drop_here (c ∷ d ∷ s) ≡ c ∷ d ∷ s
unfolding drop_here
drop_here-second c d s h = ground (arith, h)

not_dot : (c : ℕ) → is_part (c ∷ []) ≡ true → nat_beq c 46 ≡ false
unfolding local_dafa.Base.list_beq
not_dot c h = ground arith

drop_here-join :
    (parts : List Text) → All IsSegment parts → drop_here (join slash parts) ≡ join slash parts
unfolding join
drop_here-join [] h = unfold drop_here in refl
drop_here-join ([] ∷ parts) h = let e = h.0.kept in cc
drop_here-join ((c ∷ []) ∷ []) h = drop_here-other c [] (not_dot c h.0.kept)
drop_here-join ((c ∷ []) ∷ q ∷ parts) h = drop_here-other c _ (not_dot c h.0.kept)
drop_here-join ((c ∷ d ∷ p) ∷ []) h = let e = h.0.no_slash in drop_here-second c d p (ground arith)
drop_here-join ((c ∷ d ∷ p) ∷ q ∷ parts) h =
    let e = h.0.no_slash in drop_here-second c d _ (ground arith)

-- The path that the root is read from.
abbrev pub below_cwd : Option Text → Text → Text
below_cwd cwd path = drop_here (relative cwd (forward path))

-- Two slashes and no third one are a root of their own.
abbrev pub HasPlainRoot : Text → Type 0
HasPlainRoot raw = root_of raw ≢ double_slash ∷ []

root_of-cases : (raw : Text) → HasPlainRoot raw → (root_of raw ≡ []) ⊎ (root_of raw ≡ slash ∷ [])
unfolding root_of after_slash after_two_slashes
root_of-cases [] h = inl refl
root_of-cases (c ∷ []) h = ground arith
root_of-cases (c ∷ d ∷ []) h = ground arith
root_of-cases (c ∷ d ∷ e ∷ s) h = ground arith

-- A single slash leaves the parts alone.
pub push_root : (raw : Text) → HasPlainRoot raw → push_parts [] (path_parts raw) ≡ stack_of raw
unfolding stack_of path_parts local_dafa.Base.list_beq
push_root raw h = elim (root_of-cases raw h) [
  | inl e ↦ rw e
  | inr e ↦ rw e (unfold push_parts push_part in refl)
]

-- Joined again, canonical parts are normalised to themselves.
stack_of-join :
    (stack : List Text) → IsCanonical stack → stack_of (join slash (reverse stack)) ≡ stack
unfolding stack_of
stack_of-join stack h =
    rw (parts_of_join (reverse stack) (reverse-All IsSegment stack (canonical_segments stack h)))
      (push_parts-reverse stack h)

-- A joined path is empty, or starts with something else than a slash.
join-relative :
    (parts : List Text)
    → All IsSegment parts
    → (relative none (join slash parts) ≡ join slash parts) × (root_of (join slash parts) ≡ [])
unfolding join local_dafa.Base.list_beq
join-relative [] h =
    (unfold relative forward rstrip_slashes lstrip_of in refl, unfold root_of in refl)
join-relative ([] ∷ parts) h = let e = h.0.kept in cc
join-relative ((c ∷ p) ∷ []) h =
    let e = h.0.no_slash in
    let f : nat_beq c 47 ≡ false = ground arith in (relative-relative c p f, root_of-relative c p f)
join-relative ((c ∷ p) ∷ q ∷ parts) h =
    let e = h.0.no_slash in
    let f : nat_beq c 47 ≡ false = ground arith in (relative-relative c _ f, root_of-relative c _ f)

pub normalize_path-join :
    (stack : List Text)
    → IsCanonical stack
    → normalize_path none (join slash (reverse stack)) ≡ join slash (reverse stack)
unfolding normalize_path
normalize_path-join stack h =
    let parts = reverse stack in
    let segments = reverse-All IsSegment stack (canonical_segments stack h) in
    let (stays, root) = join-relative parts segments in
    let plain : HasPlainRoot (join slash parts) = (λ e. let f = sym root ∙ e in cc) in
    rw (
      forward-plain (join slash parts) (join-backslash parts segments),
      stays,
      drop_here-join parts segments,
      push_root (join slash parts) plain,
      stack_of-join stack h,
    )

pub normalize_path-parts :
    (cwd : Option Text) (path : Text)
    → HasPlainRoot (below_cwd cwd path)
    → IsCanonical (stack_of (below_cwd cwd path))
      × (normalize_path cwd path ≡ join slash (reverse (stack_of (below_cwd cwd path))))
unfolding normalize_path
normalize_path-parts cwd path h =
    let raw = below_cwd cwd path in
    let clean =
      drop_here-backslash (relative cwd (forward path))
        (relative-backslash cwd (forward path) (forward-backslash path)) in
    (stack_of-IsCanonical raw clean, rw (push_root raw h))

-- A normalised path is made of canonical parts: no part is empty, a dot or holds a slash or a
-- backslash, and a `..` stands only at the front. Normalising it again, as the guard does, changes
-- nothing. Below the working directory the path may begin with any number of slashes but two.
pub normalize_path-IsCanonical :
    (cwd : Option Text) (path : Text)
    → HasPlainRoot (below_cwd cwd path)
    → (stack : List Text) × IsCanonical stack
      × (normalize_path cwd path ≡ join slash (reverse stack))
      × (normalize_path none (normalize_path cwd path) ≡ normalize_path cwd path)
normalize_path-IsCanonical cwd path h =
    let (canonical, e) = normalize_path-parts cwd path h in
    let again = normalize_path-join (stack_of (below_cwd cwd path)) canonical in
    (stack_of (below_cwd cwd path), canonical, e, ap (normalize_path none) e ∙ again ∙ sym e)
