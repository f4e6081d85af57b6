-- ===== src/Hooks/PathRefusals.antt =====
-- What the path guard of src/darkfactory/hooks/path_guard.py refuses, however a path is spelled.
use local_dafa.Base.{
  is_some, ℕ, Bool, true, false, not, ◌||◌, Option, none, some, List, [], ◌∷◌, ◌++◌, ◌≡◌, ◌≢◌, refl,
  inl, inr, sym, ap, ◌∙◌, arith, Text, map, filter, is_empty, All, nat_beq, nat_eq, list_eq, ◌==◌,
  join, contains, Bool-cases, filter-append,
}
use mathlib.Core.Path.{subst}
use mathlib.Core.List.{reverse, reverse-cons}
use local_dafa.Hooks.Paths.{
  with_head, split_slashes, above, slash, is_part, push_part, push_parts, normalize_path,
}
use local_dafa.Hooks.PathGuard.{
  lower_char, lower_text, ToolInput, extract_path, is_file_mutation_tool, is_environment,
  is_private_key, sensitive_basenames, Reason, reason_for, last_or, lower_parts,
  protected_path_reason, GuardVerdict, no_objection, missing_path, blocked, path_guard_hook,
}
use local_dafa.Hooks.PathFacts.{IsSegment, IsCanonical}
use local_dafa.Hooks.PathSplit.{split_slashes-join, reverse-All, canonical_segments}
use local_dafa.Hooks.PathStable.{
  stack_of, push_parts-append, not_slash, below_cwd, HasPlainRoot, normalize_path-join,
  normalize_path-parts,
}

-- A list by its last element.
last_split :
    (x : Text) (xs : List Text) (d : Text)
    → (init : List Text) × (x ∷ xs ≡ init ++ last_or d (x ∷ xs) ∷ [])
last_split x [] d = ([], refl)
last_split x (y ∷ xs) d = let (init, e) = last_split y xs x in (x ∷ init, ap (λ l. x ∷ l) e)

last_or-append : (xs : List Text) (x d : Text) → last_or d (xs ++ x ∷ []) ≡ x
last_or-append [] x d = refl
last_or-append (y ∷ xs) x d = last_or-append xs x y

push_part-name :
    (stack : List Text) (name : Text)
    → IsSegment name
    → (name == above) ≡ false
    → push_part stack name ≡ name ∷ stack
unfolding push_part
push_part-name [] name h k = rw (h.kept, not_slash name h.no_slash)
push_part-name (top ∷ rest) name h k = rw (h.kept, not_slash name h.no_slash, k)

-- A last part that is a name ends up on top.
stack_of-last :
    (raw name : Text)
    → last_or [] (split_slashes raw) ≡ name
    → IsSegment name
    → (name == above) ≡ false
    → (rest : List Text) × (stack_of raw ≡ name ∷ rest)
unfolding stack_of
stack_of-last raw name e h k = go (split_slashes raw) e
  where
    go :
        (parts : List Text)
        → last_or [] parts ≡ name
        → (rest : List Text) × (push_parts [] (filter is_part parts) ≡ name ∷ rest)
    go [] e = let f : is_part [] ≡ true = ap is_part e ∙ h.kept in cc
    go (x ∷ xs) e =
        let (init, s) = last_split x xs [] in
        let stack = push_parts [] (filter is_part init) in
        let split : x ∷ xs ≡ init ++ name ∷ [] = s ∙ ap (λ n. init ++ n ∷ []) e in
        let kept : filter is_part (name ∷ []) ≡ name ∷ [] = rw (h.kept) in
        (
          stack,
          ap (λ l. push_parts [] (filter is_part l)) split
              ∙ ap (push_parts [])
                  (filter-append is_part init (name ∷ []) ∙ ap (λ l. filter is_part init ++ l) kept)
              ∙ push_parts-append [] (filter is_part init) (name ∷ [])
              ∙ (unfold push_parts in push_part-name stack name h k),
        )

lower_char-slash : (c : ℕ) → nat_beq (lower_char c) 47 ≡ nat_beq c 47
unfolding lower_char
lower_char-slash c = ground arith

with_head-lower :
    (c : ℕ) (parts : List Text)
    → map lower_text (with_head c parts) ≡ with_head (lower_char c) (map lower_text parts)
unfolding with_head lower_text
with_head-lower c [] = refl
with_head-lower c (p ∷ parts) = refl

-- Lower case moves no slash.
split_slashes-lower_text :
    (s : Text) → split_slashes (lower_text s) ≡ map lower_text (split_slashes s)
unfolding split_slashes lower_text
split_slashes-lower_text [] = refl
split_slashes-lower_text (c ∷ s) = elim (Bool-cases (nat_beq c 47)) [
  | inl e ↦
      let f = lower_char-slash c ∙ e in rw (e, f) (ap (λ ps. [] ∷ ps) (split_slashes-lower_text s))
  | inr e ↦
      let f = lower_char-slash c ∙ e in
      rw (e, f)
        (ap (with_head (lower_char c)) (split_slashes-lower_text s)
          ∙ sym (with_head-lower c (split_slashes s)))
]

filter-lower_text :
    (parts : List Text)
    → filter (λ p. not (is_empty p)) (map lower_text parts)
      ≡ map lower_text (filter (λ p. not (is_empty p)) parts)
unfolding lower_text
filter-lower_text [] = refl
filter-lower_text ([] ∷ parts) = filter-lower_text parts
filter-lower_text ((c ∷ p) ∷ parts) = ap (λ ps. lower_text (c ∷ p) ∷ ps) (filter-lower_text parts)

filter-nonempty :
    (parts : List Text) → All IsSegment parts → filter (λ p. not (is_empty p)) parts ≡ parts
filter-nonempty [] h = refl
filter-nonempty ([] ∷ parts) h = let e = h.0.kept in cc
filter-nonempty ((c ∷ p) ∷ parts) h = ap (λ ps. (c ∷ p) ∷ ps) (filter-nonempty parts h.1)

-- The lower-case parts of joined segments are those segments in lower case.
lower_parts-join :
    (p : Text) (parts : List Text)
    → All IsSegment (p ∷ parts)
    → lower_parts (join slash (p ∷ parts)) ≡ map lower_text (p ∷ parts)
unfolding lower_parts
lower_parts-join p parts h = rw (
  split_slashes-lower_text (join slash (p ∷ parts)),
  split_slashes-join p parts h,
  filter-lower_text (p ∷ parts),
  filter-nonempty (p ∷ parts) h,
)

map-append :
    (xs ys : List Text) → map lower_text (xs ++ ys) ≡ map lower_text xs ++ map lower_text ys
map-append [] ys = refl
map-append (x ∷ xs) ys = ap (λ l. lower_text x ∷ l) (map-append xs ys)

not_nil : (xs : List Text) (x : Text) → xs ++ x ∷ [] ≢ []
not_nil [] x e = cc
not_nil (y ∷ xs) x e = cc

-- The basename of a normalised path.
lower_parts-last :
    (stack : List Text) (name d : Text)
    → IsCanonical (name ∷ stack)
    → last_or d (lower_parts (join slash (reverse (name ∷ stack)))) ≡ lower_text name
lower_parts-last stack name d h =
    go (reverse (name ∷ stack)) refl
      (reverse-All IsSegment (name ∷ stack) (canonical_segments (name ∷ stack) h))
  where
    go :
        (parts : List Text)
        → reverse (name ∷ stack) ≡ parts
        → All IsSegment parts
        → last_or d (lower_parts (join slash parts)) ≡ lower_text name
    go [] e k = absurd (not_nil (reverse stack) name (sym (reverse-cons name stack) ∙ e))
    go (p ∷ parts) e k =
        ap (last_or d) (
          lower_parts-join p parts k
          ∙ ap (map lower_text) (sym e ∙ reverse-cons name stack)
          ∙ map-append (reverse stack) (name ∷ []))
        ∙ last_or-append (map lower_text (reverse stack)) (lower_text name) d

-- A basename that no state authorizes.
abbrev pub is_protected : Text → Bool
is_protected name = is_environment name || contains name sensitive_basenames || is_private_key name

reason_for-protected :
    (authorized : Bool) (parts : List Text) (basename : Text)
    → is_protected basename ≡ true
    → is_some (reason_for authorized parts basename) ≡ true
unfolding reason_for
reason_for-protected authorized parts basename h = ground arith

-- The second normalisation of a path changes nothing, and its basename decides.
protected_path_reason-name :
    (authorized : Bool) (cwd : Option Text) (path name : Text) (rest : List Text)
    → IsCanonical (name ∷ rest)
    → normalize_path cwd path ≡ join slash (reverse (name ∷ rest))
    → is_protected (lower_text name) ≡ true
    → is_some (protected_path_reason (normalize_path cwd path) authorized) ≡ true
unfolding protected_path_reason
protected_path_reason-name authorized cwd path name rest h e k =
    let norm = join slash (reverse (name ∷ rest)) in
    let again = normalize_path-join (name ∷ rest) h in
    let base = lower_parts-last rest name (lower_text norm) h in
    rw (e, again, base) (reason_for-protected authorized (lower_parts norm) (lower_text name) k)

abbrev pub is_blocked : GuardVerdict → Bool
is_blocked no_objection = false
is_blocked missing_path = true
is_blocked (blocked _ _) = true

refused_reason :
    (r : Option Reason) (normalized : Text)
    → is_some r ≡ true
    → is_blocked (elim r [ none ↦ no_objection | some reason ↦ blocked normalized reason ]) ≡ true
refused_reason none normalized h = cc
refused_reason (some r) normalized h = refl

-- A protected file cannot be edited, whatever the path to it looks like, the lockfiles' permission
-- and the working directory: a file tool is denied every path whose last part, below the working
-- directory and in lower case, names an environment file, a sensitive file or a private key. The
-- last part must be a name, so no dots, and the path may not begin with exactly two slashes.
pub path_guard_hook-refuses_protected :
    (authorized : Bool) (cwd : Option Text) (tool path name : Text) (input : ToolInput)
    → is_file_mutation_tool tool ≡ true
    → extract_path input ≡ some path
    → HasPlainRoot (below_cwd cwd path)
    → last_or [] (split_slashes (below_cwd cwd path)) ≡ name
    → IsSegment name
    → (name == above) ≡ false
    → is_protected (lower_text name) ≡ true
    → is_blocked (path_guard_hook authorized tool input cwd) ≡ true
unfolding path_guard_hook
path_guard_hook-refuses_protected authorized cwd tool path name input t x plain l seg up k =
    let (canonical, e) = normalize_path-parts cwd path plain in
    let (rest, s) = stack_of-last (below_cwd cwd path) name l seg up in
    let named : normalize_path cwd path ≡ join slash (reverse (name ∷ rest)) =
      e ∙ ap (λ st. join slash (reverse st)) s in
    let reason =
      protected_path_reason-name authorized cwd path name rest (subst IsCanonical s canonical) named
        k in
    rw (t, x)
      (refused_reason (protected_path_reason (normalize_path cwd path) authorized)
        (normalize_path cwd path) reason)
