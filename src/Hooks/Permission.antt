-- ===== src/Hooks/Permission.antt =====
-- src/darkfactory/hooks/permission_gate.py: which tool calls an agent may make.
use local_dafa.Base.{
  Bool, true, false, not, ◌&&◌, ◌||◌, Option, none, some, List, [], ◌∷◌, ◌++◌, Text, codes,
  is_empty, filter, contains, strip, if◌then◌else◌, ◌==◌, nat_eq, list_eq, drop, length, ◌-◌, Dict,
}

-- Why a call is denied; the wording of the message is left out.
pub data Denial : Type 0 where
  empty_argv empty_command unparseable merge_tool : Denial
  forbidden_token argv_not_allowed : Text → Denial
  denied_prefix role_denied_prefix owned_prefix : List Text → Denial

pub data Permission : Type 0 where
  granted : Permission
  refused : Denial → Permission

-- `s.startswith(p)` on lists.
unfoldable pub is_prefix : Text → Text → Bool
is_prefix [] s = true
is_prefix (a ∷ p) [] = false
is_prefix (a ∷ p) (c ∷ s) = (a == c) && is_prefix p s

-- `tok in s`
unfoldable pub is_infix : Text → Text → Bool
unfolding is_prefix
is_infix tok [] = is_empty tok
is_infix tok (c ∷ s) = is_prefix tok (c ∷ s) || is_infix tok s

-- `s.endswith(t)`
unfoldable pub is_suffix : Text → Text → Bool
is_suffix t s = t == drop (length s - length t) s

unfoldable pub match_tool : Text → Text → Bool
unfolding is_suffix
match_tool tool_name target = (tool_name == target) || is_suffix (codes "__" ++ target) tool_name

unfoldable pub is_merge_tool : Text → Bool
unfolding match_tool
is_merge_tool tool_name = match_tool tool_name (codes "gh_pr_merge")

-- The metacharacters of src/darkfactory/tools/shell.py.
abbrev pub forbidden_tokens : List Text
forbidden_tokens =
    codes "&&"
    ∷ codes "||"
    ∷ codes ";"
    ∷ codes "|"
    ∷ codes "$("
    ∷ codes "`"
    ∷ codes ">"
    ∷ codes "<"
    ∷ []

abbrev pub denied_argv_prefixes : List (List Text)
denied_argv_prefixes = (codes "gh" ∷ codes "pr" ∷ codes "merge" ∷ []) ∷ []

unfoldable pub argv_has_prefix : List Text → List Text → Bool
argv_has_prefix argv [] = true
argv_has_prefix [] (p ∷ prefix) = false
argv_has_prefix (a ∷ argv) (p ∷ prefix) = (a == p) && argv_has_prefix argv prefix

-- The first element that a test accepts: the loops `for x in xs: if test(x): return ...`.
unfoldable pub first_where : {A : Type 0} → (A → Bool) → List A → Option A
first_where p [] = none
first_where p (x ∷ xs) = if p x then some x else first_where p xs

-- What the gate of one session closes over.
pub record Policy : Type 0 where
  pub role : Text
  pub allowlist : List Text
  pub denylist : List (List Text)
  pub owned : Dict (List Text) (List Text)

abbrev pub owned_by_others : Text → List Text → List Text × List Text → Bool
owned_by_others role argv entry = argv_has_prefix argv entry.0 && not (contains role entry.1)

-- `allowlist and argv[0] not in allowlist`
unfoldable pub check_allowlist : Policy → Text → Permission
check_allowlist p command =
    if not (is_empty p.allowlist) && not (contains command p.allowlist)
    then refused (argv_not_allowed command)
    else granted

unfoldable pub check_owned : Policy → Text → List Text → Permission
unfolding check_allowlist
check_owned p command argv = elim (first_where (owned_by_others p.role argv) p.owned) [
  | some entry ↦ refused (owned_prefix entry.0)
  | none ↦ check_allowlist p command
]

unfoldable pub check_prefixes : Policy → Text → List Text → Permission
unfolding check_owned
check_prefixes p command argv = elim (first_where (argv_has_prefix argv) denied_argv_prefixes) [
  | some prefix ↦ refused (denied_prefix prefix)
  | none ↦ elim (first_where (argv_has_prefix argv) p.denylist) [
    | some prefix ↦ refused (role_denied_prefix prefix)
    | none ↦ check_owned p command argv
  ]
]

unfoldable pub check_argv : Policy → List Text → Text → Permission
unfolding check_prefixes
check_argv p [] joined = refused empty_argv
check_argv p (command ∷ args) joined =
    elim (first_where (λ tok. is_infix tok joined) forbidden_tokens) [
      | some tok ↦ refused (forbidden_token tok)
      | none ↦ check_prefixes p command (command ∷ args)
    ]

-- `make_permission_gate`: empty prefixes of the denylist are dropped.
unfoldable pub make_policy :
    Text → List Text → List (List Text) → Dict (List Text) (List Text) → Policy
make_policy role allowlist denylist owned = record {
  role = role;
  allowlist = allowlist;
  denylist = filter (λ prefix. not (is_empty prefix)) denylist;
  owned = owned;
}

-- The value of `command` in the tool's input.
pub data CommandArg : Type 0 where
  text : Text → CommandArg
  not_text : CommandArg

-- `split` is `shlex.split`, with `none` for its ValueError.
module _ (split : Text → Option (List Text)) where
  unfoldable pub check_bash : Policy → CommandArg → Permission
  unfolding check_argv
  check_bash p not_text = refused empty_command
  check_bash p (text command) =
      if is_empty (strip command) then refused empty_command else elim (split command) [
        | none ↦ refused unparseable
        | some argv ↦ check_argv p argv command
      ]

  unfoldable pub permission_gate : Policy → Text → CommandArg → Permission
  unfolding check_bash
  permission_gate p tool_name command =
      if match_tool tool_name (codes "Bash")
      then check_bash p command
      else if is_merge_tool tool_name
      then refused merge_tool
      else granted
