-- ===== src/State/CommentMerge.antt =====
-- What `merge_issue_comments` of src/darkfactory/state.py keeps.
use local_dafa.Base.{
  Bool, true, false, not, ◌||◌, List, [], ◌∷◌, ◌++◌, ◌≡◌, refl, sym, ◌∙◌, ap, inl, inr, arith, Text,
  is_empty, contains, nat_eq, list_eq, eq_self, All, Bool-cases, append-nil, filter, map, IsUnique,
  ◌==◌, eq_iff,
}
use mathlib.Core.Path.{subst}
use local_dafa.State.Records.{IssueComment}
use local_dafa.State.Reducers.{
  id_key, body_key, note_key, is_seen, dedup_comments, merge_issue_comments,
}

-- The comment repeats a known id or a known body.
abbrev repeats : List Text → List Text → IssueComment → Bool
repeats ids bodies c = is_seen (id_key c) ids || is_seen (body_key c) bodies

-- No comment repeats the id or the body of one before it, or a known one.
abbrev IsFresh : List Text → List Text → List IssueComment → Type 0
IsFresh ids bodies [] = Unit
IsFresh ids bodies (c ∷ cs) =
    (repeats ids bodies c ≡ false)
    × IsFresh (note_key (id_key c) ids) (note_key (body_key c) bodies) cs

-- The ids, or the bodies, of these comments noted too.
noted : (IssueComment → Text) → List Text → List IssueComment → List Text
noted key seen [] = seen
noted key seen (c ∷ cs) = noted key (note_key (key c) seen) cs

abbrev pub has_key : IssueComment → Bool
has_key c = not (is_empty (id_key c)) || not (is_empty (body_key c))

dedup-IsFresh :
    (ids bodies : List Text) (cs : List IssueComment)
    → IsFresh ids bodies (dedup_comments ids bodies cs)
unfolding dedup_comments
dedup-IsFresh ids bodies [] = tt
dedup-IsFresh ids bodies (c ∷ cs) = elim (Bool-cases (repeats ids bodies c)) [
  | inl old ↦ rw old (dedup-IsFresh ids bodies cs)
  | inr new ↦
      rw new (new, dedup-IsFresh (note_key (id_key c) ids) (note_key (body_key c) bodies) cs)
]

-- Fresh comments are kept as they are.
dedup_fresh :
    (ids bodies : List Text) (cs ds : List IssueComment)
    → IsFresh ids bodies cs
    → dedup_comments ids bodies (cs ++ ds)
      ≡ cs ++ dedup_comments (noted id_key ids cs) (noted body_key bodies cs) ds
unfolding dedup_comments noted
dedup_fresh ids bodies [] ds h = refl
dedup_fresh ids bodies (c ∷ cs) ds h = rw h.0 (
    ap (λ t. c ∷ t)
      (dedup_fresh (note_key (id_key c) ids) (note_key (body_key c) bodies) cs ds h.1))

-- Repeats are dropped.
dedup_repeats :
    (ids bodies : List Text) (cs : List IssueComment)
    → All (λ c. repeats ids bodies c ≡ true) cs
    → dedup_comments ids bodies cs ≡ []
unfolding dedup_comments
dedup_repeats ids bodies [] h = refl
dedup_repeats ids bodies (c ∷ cs) h = rw h.0 (dedup_repeats ids bodies cs h.1)

is_seen-note_key :
    (k j : Text) (seen : List Text) → is_seen k seen ≡ true → is_seen k (note_key j seen) ≡ true
unfolding is_seen note_key contains
is_seen-note_key k j seen h = ground arith

is_seen-noted :
    (key : IssueComment → Text) (k : Text) (seen : List Text) (cs : List IssueComment)
    → is_seen k seen ≡ true
    → is_seen k (noted key seen cs) ≡ true
unfolding noted
is_seen-noted key k seen [] h = h
is_seen-noted key k seen (c ∷ cs) h =
    is_seen-noted key k (note_key (key c) seen) cs (is_seen-note_key k (key c) seen h)

repeats-noted :
    (ids bodies : List Text) (c : IssueComment) (cs : List IssueComment)
    → repeats ids bodies c ≡ true
    → repeats (noted id_key ids cs) (noted body_key bodies cs) c ≡ true
repeats-noted ids bodies c cs h =
    ground
      (arith, is_seen-noted id_key (id_key c) ids cs, is_seen-noted body_key (body_key c) bodies cs)

-- A comment with a key is a repeat once it is noted.
noted_repeats :
    (ids bodies : List Text) (c : IssueComment)
    → has_key c ≡ true
    → repeats (note_key (id_key c) ids) (note_key (body_key c) bodies) c ≡ true
unfolding is_seen note_key contains
noted_repeats ids bodies c h = ground (arith, eq_self (id_key c), eq_self (body_key c))

keyed_covered :
    (ids bodies : List Text) (c : IssueComment) (out : List IssueComment)
    → (has_key c ≡ true → repeats ids bodies c ≡ true)
    → (not (has_key c) || repeats (noted id_key ids out) (noted body_key bodies out) c) ≡ true
keyed_covered ids bodies c out h = elim (Bool-cases (has_key c)) [
  | inl e ↦ ground (arith, e, repeats-noted ids bodies c out (h e))
  | inr e ↦ ground (arith, e)
]

dedup_old :
    (ids bodies : List Text) (c : IssueComment) (cs : List IssueComment)
    → repeats ids bodies c ≡ true
    → dedup_comments ids bodies (c ∷ cs) ≡ dedup_comments ids bodies cs
unfolding dedup_comments
dedup_old ids bodies c cs old = rw old

dedup_new :
    (ids bodies : List Text) (c : IssueComment) (cs : List IssueComment)
    → repeats ids bodies c ≡ false
    → dedup_comments ids bodies (c ∷ cs)
      ≡ c ∷ dedup_comments (note_key (id_key c) ids) (note_key (body_key c) bodies) cs
unfolding dedup_comments
dedup_new ids bodies c cs new = rw new

-- What was read and has a key is known by what was kept.
abbrev Covered : List Text → List Text → List IssueComment → List IssueComment → Type 0
Covered ids bodies cs out =
    All
      (λ c.
        (not (has_key c) || repeats (noted id_key ids out) (noted body_key bodies out) c) ≡ true)
      cs

dedup_covers :
    (ids bodies : List Text) (cs : List IssueComment)
    → Covered ids bodies cs (dedup_comments ids bodies cs)
unfolding noted
dedup_covers ids bodies [] = tt
dedup_covers ids bodies (c ∷ cs) = elim (Bool-cases (repeats ids bodies c)) [
  | inl old ↦ subst (Covered ids bodies (c ∷ cs)) (sym (dedup_old ids bodies c cs old)) (
    ground (arith, repeats-noted ids bodies c (dedup_comments ids bodies cs) old),
    dedup_covers ids bodies cs,
  )
  | inr new ↦
      let i = note_key (id_key c) ids in
      let b = note_key (body_key c) bodies in
      subst (Covered ids bodies (c ∷ cs)) (sym (dedup_new ids bodies c cs new)) (
        keyed_covered i b c (dedup_comments i b cs) (noted_repeats ids bodies c),
        dedup_covers i b cs,
      )
]

keyed_repeats :
    (ids bodies : List Text) (cs out : List IssueComment)
    → All (λ c. has_key c ≡ true) cs
    → Covered ids bodies cs out
    → All (λ c. repeats (noted id_key ids out) (noted body_key bodies out) c ≡ true) cs
keyed_repeats ids bodies [] out h k = tt
keyed_repeats ids bodies (c ∷ cs) out h k =
    (ground (arith, h.0, k.0), keyed_repeats ids bodies cs out h.1 k.1)

All-right : (P : IssueComment → Type 0) (xs ys : List IssueComment) → All P (xs ++ ys) → All P ys
All-right P [] ys h = h
All-right P (x ∷ xs) ys h = All-right P xs ys h.1

-- The keys of the comments that have one.
abbrev pub kept : (IssueComment → Text) → List IssueComment → List Text
kept key cs = filter (λ k. not (is_empty k)) (map key cs)

-- The comment has an id or a body in common with one of the list.
abbrev pub is_known : List IssueComment → IssueComment → Bool
is_known cs c = contains (id_key c) (kept id_key cs) || contains (body_key c) (kept body_key cs)

-- No key is seen before.
abbrev IsApart : (IssueComment → Text) → List Text → List IssueComment → Type 0
IsApart key seen [] = Unit
IsApart key seen (c ∷ cs) = (is_seen (key c) seen ≡ false) × IsApart key (note_key (key c) seen) cs

fresh-IsApart :
    (ids bodies : List Text) (cs : List IssueComment)
    → IsFresh ids bodies cs
    → IsApart id_key ids cs × IsApart body_key bodies cs
fresh-IsApart ids bodies [] h = (tt, tt)
fresh-IsApart ids bodies (c ∷ cs) h =
    let rest = fresh-IsApart (note_key (id_key c) ids) (note_key (body_key c) bodies) cs h.1 in
    ((ground (arith, h.0), rest.0), (ground (arith, h.0), rest.1))

module _ (key : IssueComment → Text) where
  -- A key that is seen comes no more.
  apart_absent :
      (k : Text) (seen : List Text) (cs : List IssueComment)
      → is_seen k seen ≡ true
      → IsApart key seen cs
      → contains k (kept key cs) ≡ false
  unfolding contains
  apart_absent k seen [] h a = refl
  apart_absent k seen (c ∷ cs) h a =
      let rest =
        apart_absent k (note_key (key c) seen) cs (is_seen-note_key k (key c) seen h) a.1 in
      elim (Bool-cases (key c == k)) [
        | inl same ↦
            let e : key c ≡ k = (eq_iff (key c) k).0 same in
            absurd (let f : is_seen k seen ≡ false = rw e at a.0 in ground (arith, f, h))
        | inr other ↦ ground (arith, rest, other)
      ]

  apart-IsUnique :
      (seen : List Text) (cs : List IssueComment) → IsApart key seen cs → IsUnique (kept key cs)
  unfolding contains
  apart-IsUnique seen [] a = tt
  apart-IsUnique seen (c ∷ cs) a = elim (Bool-cases (is_empty (key c))) [
    | inl e ↦ rw e (apart-IsUnique (note_key (key c) seen) cs a.1)
    | inr e ↦ rw e (
      apart_absent (key c) (note_key (key c) seen) cs
          (unfold is_seen note_key in ground (arith, e, eq_self (key c))) a.1,
      apart-IsUnique (note_key (key c) seen) cs a.1,
    )
  ]

  -- What was noted is a key that was kept.
  noted-kept :
      (k : Text) (seen : List Text) (cs : List IssueComment)
      → is_seen k (noted key seen cs) ≡ true
      → (contains k seen || contains k (kept key cs)) ≡ true
  unfolding noted is_seen note_key contains
  noted-kept k seen [] h = ground (arith, h)
  noted-kept k seen (c ∷ cs) h =
      let rest = noted-kept k (note_key (key c) seen) cs h in ground (arith, rest)

Covered-known :
    (cs out : List IssueComment)
    → Covered [] [] cs out
    → All (λ c. (not (has_key c) || is_known out c) ≡ true) cs
unfolding contains
Covered-known [] out h = tt
Covered-known (c ∷ cs) out h = (
  ground (arith, h.0, noted-kept id_key (id_key c) [] out, noted-kept body_key (body_key c) [] out),
  Covered-known cs out h.1,
)

-- The merged comments have distinct ids and distinct bodies, where they have any, and of each
-- comment that was merged and has an id or a body, a comment with that id or that body is kept.
pub merge_issue_comments-IsUnique :
    (left right : List IssueComment)
    → let out = merge_issue_comments left right in
      IsUnique (kept id_key out)
      × IsUnique (kept body_key out)
      × All (λ c. (not (has_key c) || is_known out c) ≡ true) (left ++ right)
unfolding merge_issue_comments
merge_issue_comments-IsUnique left right =
    let all = left ++ right in
    let apart = fresh-IsApart [] [] (dedup_comments [] [] all) (dedup-IsFresh [] [] all) in
    (
      apart-IsUnique id_key [] _ apart.0,
      apart-IsUnique body_key [] _ apart.1,
      Covered-known all _ (dedup_covers [] [] all),
    )

-- Merging the same comments again changes nothing, if each comment has an id or a body; so the two
-- feeds of one issue's comments can be merged any number of times.
pub merge_issue_comments_idem :
    (left right : List IssueComment)
    → All (λ c. has_key c ≡ true) (left ++ right)
    → merge_issue_comments (merge_issue_comments left right) right ≡ merge_issue_comments left right
unfolding merge_issue_comments
merge_issue_comments_idem left right h =
    let all = left ++ right in
    let out = dedup_comments [] [] all in
    dedup_fresh [] [] out right (dedup-IsFresh [] [] all)
    ∙ (ap (λ t. out ++ t)
          (dedup_repeats (noted id_key [] out) (noted body_key [] out) right
            (All-right _ left right (keyed_repeats [] [] all out h (dedup_covers [] [] all))))
        ∙ append-nil out)
