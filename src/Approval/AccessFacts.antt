-- ===== src/Approval/AccessFacts.antt =====
-- Whom `is_authorized` of src/darkfactory/runtime/approval.py lets in, and for how long.
use local_dafa.Base.{
  Bool, true, false, Option, none, some, List, [], ◌∷◌, Text, ◌≡◌, ◌⊎◌, refl, inl, inr, sym, ap,
  ◌∙◌, arith, contains, map, list_beq, nat_eq, list_eq, pair_eq, ◌==◌, eq_iff, lookup,
  lookup-insert, strip, Bool-cases, Option-cases,
}
use mathlib.Core.Path.{subst}
use local_dafa.Approval.Commands.{lower}
use local_dafa.Approval.Access.{
  Answer, failed, not_object, object, authorized_permissions, Cache, allowed_by, permission_path,
  cleaned_author, is_askable, remember_answer, is_authorized, checks_after,
}

abbrev pub Check : Type 0
Check = (Text → Answer) × Text × Text

abbrev pub key_of : Text → Text → Text × Text
key_of author repo = (strip repo, cleaned_author author)

-- `gh` names a permission to write, or a greater one, for the author and the repository of a key.
abbrev pub Grants : (Text → Answer) → Text × Text → Type 0
Grants gh (owner, name) =
    (p : Text) × (gh (permission_path owner name) ≡ object (some p))
    × (contains (map lower p) authorized_permissions ≡ true)

allowed_by-permission :
    (a : Answer)
    → allowed_by a ≡ some true
    → (p : Text) × (a ≡ object (some p)) × (contains (map lower p) authorized_permissions ≡ true)
unfolding allowed_by
allowed_by-permission failed e = cc
allowed_by-permission not_object e = cc
allowed_by-permission (object none) e = unfold contains list_beq in cc
allowed_by-permission (object (some p)) e = (p, refl, cc e)

-- `gh` granted it at one of the checks.
abbrev pub GrantedIn : List Check → Text × Text → Type 0
GrantedIn [] k = ⊥
GrantedIn ((gh, _, _) ∷ rest) k = Grants gh k ⊎ GrantedIn rest k

remember-keeps :
    (key k : Text × Text) (answer : Option Bool) (cache : Cache) (b : Bool)
    → lookup key cache ≡ none
    → lookup k cache ≡ some b
    → lookup k (remember_answer key answer cache).1 ≡ some b
unfolding remember_answer
remember-keeps key k none cache b h e = e
remember-keeps key k (some x) cache b h e =
    ground (arith, lookup-insert key k x cache, eq_iff key k)

-- A check never changes an answer that the cache has.
is_authorized-keeps :
    (gh : Text → Answer) (author repo : Text) (cache : Cache) (k : Text × Text) (b : Bool)
    → lookup k cache ≡ some b
    → lookup k (is_authorized gh author repo cache).1 ≡ some b
unfolding is_authorized
is_authorized-keeps gh author repo cache k b e =
    elim (Bool-cases (is_askable (cleaned_author author) (strip repo))) [
      | inr no_ask ↦ rw no_ask e
      | inl ask ↦ elim (Option-cases (lookup (key_of author repo) cache)) [
        | inr (x, hit) ↦ rw (ask, hit) e
        | inl miss ↦ rw (ask, miss) (remember-keeps (key_of author repo) k _ cache b miss e)
      ]
    ]

checks_after-keeps :
    (checks : List Check) (cache : Cache) (k : Text × Text) (b : Bool)
    → lookup k cache ≡ some b
    → lookup k (checks_after checks cache) ≡ some b
unfolding checks_after
checks_after-keeps [] cache k b e = e
checks_after-keeps ((gh, author, repo) ∷ rest) cache k b e =
    checks_after-keeps rest (is_authorized gh author repo cache).1 k b
      (is_authorized-keeps gh author repo cache k b e)

-- What was answered is what the cache has, if it was asked for at all.
remember-stored :
    (key : Text × Text) (answer : Option Bool) (cache : Cache) (b : Bool)
    → (remember_answer key answer cache).0 ≡ some b
    → lookup key (remember_answer key answer cache).1 ≡ some b
unfolding remember_answer
remember-stored key none cache b e = cc
remember-stored key (some x) cache b e =
    ground (arith, lookup-insert key key x cache, eq_iff key key)

is_authorized-stored :
    (gh : Text → Answer) (author repo : Text) (cache : Cache) (b : Bool)
    → is_askable (cleaned_author author) (strip repo) ≡ true
    → (is_authorized gh author repo cache).0 ≡ some b
    → lookup (key_of author repo) (is_authorized gh author repo cache).1 ≡ some b
unfolding is_authorized
is_authorized-stored gh author repo cache b ask =
    elim (Option-cases (lookup (key_of author repo) cache)) [
      | inr (x, hit) ↦ rw (ask, hit) (λ e. rw hit e)
      | inl miss ↦ rw (ask, miss) (remember-stored (key_of author repo) _ cache b)
    ]

is_authorized-hit :
    (gh : Text → Answer) (author repo : Text) (cache : Cache) (b : Bool)
    → is_askable (cleaned_author author) (strip repo) ≡ true
    → lookup (key_of author repo) cache ≡ some b
    → is_authorized gh author repo cache ≡ (some b, cache)
unfolding is_authorized
is_authorized-hit gh author repo cache b ask e = rw (ask, e)

is_authorized-unasked :
    (gh : Text → Answer) (author repo : Text) (cache : Cache)
    → is_askable (cleaned_author author) (strip repo) ≡ false
    → is_authorized gh author repo cache ≡ (some false, cache)
unfolding is_authorized
is_authorized-unasked gh author repo cache no_ask = rw no_ask

-- An answer stands for the rest of the process: after it, and after any other checks, the same
-- author gets the same answer for the same repository, whatever `gh` would say by then, and the
-- cache is not written.
pub is_authorized-stays :
    (gh later : Text → Answer) (author repo : Text) (cache : Cache) (b : Bool)
    (between : List Check)
    → (is_authorized gh author repo cache).0 ≡ some b
    → let after = checks_after between (is_authorized gh author repo cache).1 in
      is_authorized later author repo after ≡ (some b, after)
is_authorized-stays gh later author repo cache b between e =
    elim (Bool-cases (is_askable (cleaned_author author) (strip repo))) [
      | inr no_ask ↦
          let f : some false ≡ some b =
            sym (ap (λ x. x.0) (is_authorized-unasked gh author repo cache no_ask)) ∙ e in
          let after = checks_after between (is_authorized gh author repo cache).1 in
          is_authorized-unasked later author repo after no_ask ∙ ap (λ x. (x, after)) f
      | inl ask ↦ is_authorized-hit later author repo _ b ask (
          checks_after-keeps between (is_authorized gh author repo cache).1 (key_of author repo) b
            (is_authorized-stored gh author repo cache b ask e))
    ]

-- What a check adds to the cache, `gh` has said.
remember-granted :
    (gh : Text → Answer) (key k : Text × Text) (cache : Cache)
    → lookup k (remember_answer key (allowed_by (gh (permission_path key.0 key.1))) cache).1
      ≡ some true
    → (lookup k cache ≡ some true) ⊎ Grants gh k
unfolding remember_answer
remember-granted gh key k cache = go (allowed_by (gh (permission_path key.0 key.1))) refl
  where
    go :
        (r : Option Bool)
        → allowed_by (gh (permission_path key.0 key.1)) ≡ r
        → lookup k (remember_answer key r cache).1 ≡ some true
        → (lookup k cache ≡ some true) ⊎ Grants gh k
    go none e h = inl h
    go (some x) e h = elim (Bool-cases (key == k)) [
      | inr f ↦ inl (ground (arith, lookup-insert key k x cache))
      | inl f ↦
          let same : key ≡ k = (eq_iff key k).0 f in
          let found : x ≡ true = ground (arith, lookup-insert key k x cache) in
          inr (subst (λ j. Grants gh j) same (allowed_by-permission _ (e ∙ ap (λ y. some y) found)))
    ]

is_authorized-granted_step :
    (gh : Text → Answer) (author repo : Text) (cache : Cache) (k : Text × Text)
    → lookup k (is_authorized gh author repo cache).1 ≡ some true
    → (lookup k cache ≡ some true) ⊎ Grants gh k
unfolding is_authorized
is_authorized-granted_step gh author repo cache k =
    elim (Bool-cases (is_askable (cleaned_author author) (strip repo))) [
      | inr no_ask ↦ rw no_ask (λ h. inl h)
      | inl ask ↦ elim (Option-cases (lookup (key_of author repo) cache)) [
        | inr (x, hit) ↦ rw (ask, hit) (λ h. inl h)
        | inl miss ↦ rw (ask, miss) (remember-granted gh (key_of author repo) k cache)
      ]
    ]

checks_after-granted :
    (checks : List Check) (cache : Cache) (k : Text × Text)
    → lookup k (checks_after checks cache) ≡ some true
    → (lookup k cache ≡ some true) ⊎ GrantedIn checks k
unfolding checks_after
checks_after-granted [] cache k h = inl h
checks_after-granted ((gh, author, repo) ∷ rest) cache k h =
    elim (checks_after-granted rest (is_authorized gh author repo cache).1 k h) [
      | inr later ↦ inr (inr later)
      | inl now ↦ elim (is_authorized-granted_step gh author repo cache k now) [
        | inl before ↦ inl before
        | inr g ↦ inr (inl g)
      ]
    ]

-- Whoever is let in, `gh` named as an administrator, a maintainer or a writer of that very
-- repository, at this check or at an earlier one of the process.
pub is_authorized-granted :
    (checks : List Check) (gh : Text → Answer) (author repo : Text)
    → (is_authorized gh author repo (checks_after checks [])).0 ≡ some true
    → GrantedIn ((gh, author, repo) ∷ checks) (key_of author repo)
is_authorized-granted checks gh author repo e =
    elim (Bool-cases (is_askable (cleaned_author author) (strip repo))) [
      | inr no_ask ↦
          let f : some false ≡ some true =
            sym (ap (λ x. x.0) (is_authorized-unasked gh author repo _ no_ask)) ∙ e in
          cc
      | inl ask ↦
          let k = key_of author repo in
          let stored = is_authorized-stored gh author repo (checks_after checks []) true ask e in
          elim (is_authorized-granted_step gh author repo (checks_after checks []) k stored) [
            | inr now ↦ inl now
            | inl before ↦ elim (checks_after-granted checks [] k before) [
              | inr g ↦ inr g
              | inl none_yet ↦ unfold lookup in cc
            ]
          ]
    ]
