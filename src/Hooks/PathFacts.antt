-- ===== src/Hooks/PathFacts.antt =====
-- The parts that `_normalize_path` of src/darkfactory/hooks/path_guard.py keeps.
use local_dafa.Base.{
  ℕ, Bool, true, false, not, ◌&&◌, ◌||◌, Option, none, some, List, [], ◌∷◌, ◌++◌, ◌≡◌, refl, inl,
  inr, sym, ap, ◌∙◌, arith, Text, codes, map, filter, is_empty, any, All, nat_beq, nat_eq, list_eq,
  ◌==◌, eq_iff, eq_self, join, lstrip_of, or_else, if◌then◌else◌, Bool-cases, Option-cases,
}
use local_dafa.Hooks.Paths.{with_head, split_slashes, above, slash, is_part, push_part, push_parts}

abbrev pub has : ℕ → Text → Bool
has n s = any (λ c. nat_beq c n) s

-- A part without a slash or a backslash in it, that is neither empty nor a dot.
pub record IsSegment (s : Text) : Type 0 where
  pub kept : is_part s ≡ true
  pub no_slash : has 47 s ≡ false
  pub no_backslash : has 92 s ≡ false

-- The parts of a path, the last one first: segments, and nothing but `..` above a `..`.
abbrev pub IsCanonical : List Text → Type 0
IsCanonical [] = Unit {0}
IsCanonical (s ∷ rest) =
    IsSegment s
    × ((s == above) ≡ true → All (λ (r : Text). (r == above) ≡ true) rest)
    × IsCanonical rest

with_head-has :
    (n c : ℕ) (parts : List Text)
    → nat_beq c n ≡ false
    → All (λ s. has n s ≡ false) parts
    → All (λ s. has n s ≡ false) (with_head c parts)
unfolding with_head
with_head-has n c [] h k = (rw h, tt)
with_head-has n c (s ∷ rest) h k = (rw h k.0, k.1)

pub split_slashes-slash : (s : Text) → All (λ p. has 47 p ≡ false) (split_slashes s)
unfolding split_slashes
split_slashes-slash [] = (refl, tt)
split_slashes-slash (c ∷ s) = elim (Bool-cases (nat_beq c 47)) [
  | inl e ↦ rw e (refl, split_slashes-slash s)
  | inr e ↦ rw e (with_head-has 47 c (split_slashes s) e (split_slashes-slash s))
]

pub split_slashes-backslash :
    (s : Text) → has 92 s ≡ false → All (λ p. has 92 p ≡ false) (split_slashes s)
unfolding split_slashes
split_slashes-backslash [] h = (refl, tt)
split_slashes-backslash (c ∷ s) h =
    let plain : nat_beq c 92 ≡ false = ground arith in
    let rest = split_slashes-backslash s (ground arith) in
    elim (Bool-cases (nat_beq c 47)) [
      | inl e ↦ rw e (refl, rest)
      | inr e ↦ rw e (with_head-has 92 c (split_slashes s) plain rest)
    ]

pub filter-IsSegment :
    (parts : List Text)
    → All (λ p. has 47 p ≡ false) parts
    → All (λ p. has 92 p ≡ false) parts
    → All IsSegment (filter is_part parts)
filter-IsSegment [] h k = tt
filter-IsSegment (p ∷ parts) h k = elim (Bool-cases (is_part p)) [
  | inl e ↦
      rw e (record { kept = e; no_slash = h.0; no_backslash = k.0 }, filter-IsSegment parts h.1 k.1)
  | inr e ↦ rw e (filter-IsSegment parts h.1 k.1)
]

not_slash : (s : Text) → has 47 s ≡ false → (s == slash) ≡ false
unfolding local_dafa.Base.list_beq
not_slash [] h = refl
not_slash (c ∷ s) h = ground arith

push_part-IsCanonical :
    (stack : List Text) (part : Text)
    → IsCanonical stack
    → IsSegment part
    → IsCanonical (push_part stack part)
unfolding push_part
push_part-IsCanonical [] part h seg =
    rw (seg.kept, not_slash part seg.no_slash) (seg, (λ _. tt), tt)
push_part-IsCanonical (top ∷ rest) part h seg = elim (Bool-cases (part == above)) [
  | inr e ↦ rw (seg.kept, not_slash part seg.no_slash, e) (seg, (λ f. cc), h)
  | inl e ↦ elim (Bool-cases (top == above)) [
    | inr f ↦ rw (seg.kept, not_slash part seg.no_slash, e, f) h.2
    | inl f ↦ rw (seg.kept, not_slash part seg.no_slash, e, f) (seg, (λ _. (f, h.1 f)), h)
  ]
]

pub push_parts-IsCanonical :
    (parts stack : List Text)
    → IsCanonical stack
    → All IsSegment parts
    → IsCanonical (push_parts stack parts)
unfolding push_parts
push_parts-IsCanonical [] stack h k = h
push_parts-IsCanonical (p ∷ parts) stack h k =
    push_parts-IsCanonical parts (push_part stack p) (push_part-IsCanonical stack p h k.0) k.1
