-- ===== src/Hooks/PathSplit.antt =====
-- Splitting and joining paths at slashes, for src/darkfactory/hooks/path_guard.py.
use local_dafa.Base.{
  ℕ, false, List, [], ◌∷◌, ◌++◌, ◌≡◌, refl, ap, arith, Text, filter, All, nat_beq, nat_eq, list_eq,
  join, All-append,
}
use mathlib.Core.List.{reverse, reverse-cons}
use local_dafa.Hooks.Paths.{with_head, split_slashes, slash, is_part}
use local_dafa.Hooks.PathFacts.{has, IsSegment, IsCanonical}

-- Splitting undoes joining.
with_head-join : (c : ℕ) (p : Text) (parts : List Text) → with_head c (p ∷ parts) ≡ (c ∷ p) ∷ parts
unfolding with_head
with_head-join c p parts = refl

split_slashes-append :
    (p s : Text) → has 47 p ≡ false → split_slashes (p ++ 47 ∷ s) ≡ p ∷ split_slashes s
unfolding split_slashes
split_slashes-append [] s h = refl
split_slashes-append (c ∷ p) s h =
    let plain : nat_beq c 47 ≡ false = ground arith in
    rw (plain, split_slashes-append p s (ground arith)) (with_head-join c p (split_slashes s))

split_slashes-one : (p : Text) → has 47 p ≡ false → split_slashes p ≡ p ∷ []
unfolding split_slashes
split_slashes-one [] h = refl
split_slashes-one (c ∷ p) h =
    let plain : nat_beq c 47 ≡ false = ground arith in
    rw (plain, split_slashes-one p (ground arith)) (with_head-join c p [])

pub split_slashes-join :
    (p : Text) (parts : List Text)
    → All IsSegment (p ∷ parts)
    → split_slashes (join slash (p ∷ parts)) ≡ p ∷ parts
split_slashes-join p [] h = unfold join in split_slashes-one p h.0.no_slash
split_slashes-join p (q ∷ parts) h =
    let first : join slash (p ∷ q ∷ parts) ≡ p ++ 47 ∷ join slash (q ∷ parts) =
      (unfold join in refl) in
    rw (
      first,
      split_slashes-append p (join slash (q ∷ parts)) h.0.no_slash,
      split_slashes-join q parts h.1,
    )

filter-segments : (parts : List Text) → All IsSegment parts → filter is_part parts ≡ parts
filter-segments [] h = refl
filter-segments (p ∷ parts) h = rw (h.0.kept) (ap (λ ps. p ∷ ps) (filter-segments parts h.1))

-- The parts of a joined path.
pub parts_of_join :
    (parts : List Text)
    → All IsSegment parts
    → filter is_part (split_slashes (join slash parts)) ≡ parts
parts_of_join [] h = unfold join split_slashes in refl
parts_of_join (p ∷ parts) h = rw (split_slashes-join p parts h) (filter-segments (p ∷ parts) h)

pub reverse-All : (P : Text → Type 0) (xs : List Text) → All P xs → All P (reverse xs)
reverse-All P [] h = h
reverse-All P (x ∷ xs) h =
    rw (reverse-cons x xs) (All-append P (reverse xs) (x ∷ []) (reverse-All P xs h.1) (h.0, tt))

pub canonical_segments : (stack : List Text) → IsCanonical stack → All IsSegment stack
canonical_segments [] h = tt
canonical_segments (s ∷ rest) h = (h.0, canonical_segments rest h.2)
