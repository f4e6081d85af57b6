-- ===== src/Hooks/PermissionFacts.antt =====
-- What the permission gate of src/darkfactory/hooks/permission_gate.py grants.
use local_dafa.Base.{
  Bool, true, false, not, ◌&&◌, ◌||◌, Option, none, some, List, [], ◌∷◌, ◌≡◌, refl, sym, ap, ◌∙◌,
  inl, inr, arith, Text, codes, is_empty, any, contains, strip, nat_eq, list_eq, list_beq,
  Bool-cases, Option-cases, is_some,
}
use local_dafa.Hooks.Permission.{
  Permission, granted, refused, Policy, argv_has_prefix, first_where, is_infix, owned_by_others,
  forbidden_tokens, denied_argv_prefixes, check_allowlist, check_owned, check_prefixes, check_argv,
  text, check_bash, permission_gate, match_tool,
}

abbrev pub is_granted : Permission → Bool
is_granted granted = true
is_granted (refused _) = false

first_where-any : {A : Type 0} (p : A → Bool) (xs : List A) → is_some (first_where p xs) ≡ any p xs
unfolding first_where
first_where-any p [] = refl
first_where-any p (x ∷ xs) = elim (Bool-cases (p x)) [
  | inl e ↦ rw e
  | inr e ↦ rw e (first_where-any p xs)
]

first_where_split :
    {A : Type 0} (p : A → Bool) (xs : List A) (found : A → Permission) (rest : Permission)
    → ((x : A) → is_granted (found x) ≡ false)
    → is_granted (elim (first_where p xs) [ some x ↦ found x | none ↦ rest ])
      ≡ (not (any p xs) && is_granted rest)
first_where_split p xs found rest h = elim (Option-cases (first_where p xs)) [
  | inl e ↦ let a : any p xs ≡ false = sym (first_where-any p xs) ∙ rw e in rw (e, a)
  | inr (x, e) ↦ let a : any p xs ≡ true = sym (first_where-any p xs) ∙ rw e in rw (e, a) (h x)
]

-- The policy as one condition.
abbrev pub permits : Policy → List Text → Text → Bool
permits p [] joined = false
permits p (command ∷ args) joined =
    let argv = command ∷ args in
    not (any (λ tok. is_infix tok joined) forbidden_tokens)
    && (not (any (argv_has_prefix argv) denied_argv_prefixes)
        && (not (any (argv_has_prefix argv) p.denylist)
            && (not (any (owned_by_others p.role argv) p.owned)
                && (is_empty p.allowlist || contains command p.allowlist))))

check_allowlist_lem :
    (p : Policy) (command : Text)
    → is_granted (check_allowlist p command)
      ≡ (is_empty p.allowlist || contains command p.allowlist)
unfolding check_allowlist
check_allowlist_lem p command = ground arith

check_owned_lem :
    (p : Policy) (command : Text) (argv : List Text)
    → is_granted (check_owned p command argv) ≡ (
        not (any (owned_by_others p.role argv) p.owned)
        && (is_empty p.allowlist || contains command p.allowlist))
unfolding check_owned
check_owned_lem p command argv =
    first_where_split (owned_by_others p.role argv) p.owned _ _ (λ _. refl)
    ∙ ap (λ (b : Bool). not (any (owned_by_others p.role argv) p.owned) && b)
        (check_allowlist_lem p command)

check_prefixes_lem :
    (p : Policy) (command : Text) (argv : List Text)
    → is_granted (check_prefixes p command argv) ≡ (
        not (any (argv_has_prefix argv) denied_argv_prefixes)
        && (not (any (argv_has_prefix argv) p.denylist) && is_granted (check_owned p command argv)))
unfolding check_prefixes
check_prefixes_lem p command argv =
    first_where_split (argv_has_prefix argv) denied_argv_prefixes _ _ (λ _. refl)
    ∙ ap (λ (b : Bool). not (any (argv_has_prefix argv) denied_argv_prefixes) && b)
        (first_where_split (argv_has_prefix argv) p.denylist _ _ (λ _. refl))

-- An argv is granted exactly when it is not empty, the raw command holds no forbidden token, the
-- argv has no globally denied prefix, no prefix that the role is denied and no prefix that only
-- other roles own, and its first element is in the allowlist, if there is one.
pub check_argv_lem :
    (p : Policy) (argv : List Text) (joined : Text)
    → is_granted (check_argv p argv joined) ≡ permits p argv joined
unfolding check_argv
check_argv_lem p [] joined = refl
check_argv_lem p (command ∷ args) joined =
    let argv = command ∷ args in
    first_where_split (λ tok. is_infix tok joined) forbidden_tokens _ _ (λ _. refl)
    ∙ ap (λ (b : Bool). not (any (λ tok. is_infix tok joined) forbidden_tokens) && b)
        (check_prefixes_lem p command argv
          ∙ ap
              (λ (b : Bool).
                not (any (argv_has_prefix argv) denied_argv_prefixes)
                && (not (any (argv_has_prefix argv) p.denylist) && b))
              (check_owned_lem p command argv))

gh_pr_merge_prefix :
    (rest : List Text)
    → argv_has_prefix
        (codes "gh" ∷ codes "pr" ∷ codes "merge" ∷ rest)
        (codes "gh" ∷ codes "pr" ∷ codes "merge" ∷ [])
      ≡ true
unfolding argv_has_prefix list_beq
gh_pr_merge_prefix rest = refl

refused_if_denied :
    (p : Policy) (command : Text) (argv : List Text)
    → any (argv_has_prefix argv) denied_argv_prefixes ≡ true
    → permits p argv command ≡ false
refused_if_denied p command [] h = refl
refused_if_denied p command (a ∷ argv) h = rw h (ground arith)

-- Whatever the role and the lists of its manifest, a command of a Bash tool that splits into words
-- of which the first three are `gh`, `pr` and `merge` is refused, whatever follows.
pub permission_gate-refuses_merge :
    (split : Text → Option (List Text)) (p : Policy) (tool_name command : Text) (rest : List Text)
    → match_tool tool_name (codes "Bash") ≡ true
    → split command ≡ some (codes "gh" ∷ codes "pr" ∷ codes "merge" ∷ rest)
    → is_granted (permission_gate split p tool_name (text command)) ≡ false
unfolding permission_gate check_bash
permission_gate-refuses_merge split p tool_name command rest bash e =
    elim (Bool-cases (is_empty (strip command))) [
      | inl blank ↦ rw (bash, blank)
      | inr more ↦
          let argv = codes "gh" ∷ codes "pr" ∷ codes "merge" ∷ rest in
          let denied : any (argv_has_prefix argv) denied_argv_prefixes ≡ true =
            rw (gh_pr_merge_prefix rest) in
          rw (bash, more, e)
            (check_argv_lem p argv command ∙ refused_if_denied p command argv denied)
    ]
