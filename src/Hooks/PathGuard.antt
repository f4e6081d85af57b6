-- ===== src/Hooks/PathGuard.antt =====
-- The path guard of src/darkfactory/hooks/path_guard.py: which edits are denied before a file tool
-- runs.
use local_dafa.Base.{
  ℕ, ◌+◌, map, leb, nat_beq, ◌+◌, Bool, false, not, ◌&&◌, ◌||◌, Option, none, some, List, [], ◌∷◌,
  Text, codes, map, filter, is_empty, any, contains, leb, nat_beq, if◌then◌else◌, ◌==◌, nat_eq,
  list_eq, is_some, String,
}
use local_dafa.Hooks.Permission.{match_tool, is_suffix, is_prefix, is_infix}
use local_dafa.Hooks.Paths.{normalize_path, split_slashes}

-- `str.lower` as far as the protected names can tell; the Kelvin sign becomes a k.
unfoldable pub lower_char : ℕ → ℕ
lower_char c = if leb 65 c && leb c 90 then c + 32 else (if nat_beq c 8490 then 107 else c)

unfoldable pub lower_text : Text → Text
lower_text s = map lower_char s

abbrev pub texts : List String → List Text
texts [] = []
texts (s ∷ rest) = codes s ∷ texts rest

abbrev pub lockfile_names : List Text
lockfile_names = texts (
    "bun.lock" ∷ "bun.lockb" ∷ "cargo.lock" ∷ "composer.lock" ∷ "deno.lock" ∷ "flake.lock"
    ∷ "gemfile.lock" ∷ "go.sum" ∷ "npm-shrinkwrap.json" ∷ "package-lock.json" ∷ "packages.lock.json"
    ∷ "pipfile.lock" ∷ "pnpm-lock.yaml" ∷ "poetry.lock" ∷ "pubspec.lock" ∷ "uv.lock" ∷ "yarn.lock"
    ∷ [])

abbrev pub private_key_names : List Text
private_key_names = texts ("id_dsa" ∷ "id_ecdsa" ∷ "id_ed25519" ∷ "id_rsa" ∷ [])

abbrev pub private_key_suffixes : List Text
private_key_suffixes = texts (".key" ∷ ".pem" ∷ ".p12" ∷ ".pfx" ∷ [])

abbrev pub sensitive_basenames : List Text
sensitive_basenames = texts (
    "secrets" ∷ "secrets.json" ∷ "secrets.yaml" ∷ "secrets.yml" ∷ ".secrets" ∷ "credentials"
    ∷ "credentials.json" ∷ "credentials.yaml" ∷ "credentials.yml" ∷ ".credentials" ∷ "token"
    ∷ "tokens" ∷ "tokens.json" ∷ ".token" ∷ ".tokens" ∷ ".npmrc" ∷ ".netrc" ∷ [])

abbrev pub sensitive_toplevel_dirs : List Text
sensitive_toplevel_dirs =
    texts ("secrets" ∷ "credentials" ∷ "private" ∷ ".secrets" ∷ ".credentials" ∷ [])

abbrev pub file_mutation_tools : List Text
file_mutation_tools = texts ("Edit" ∷ "Write" ∷ [])

unfoldable pub is_file_mutation_tool : Text → Bool
is_file_mutation_tool tool_name = any (match_tool tool_name) file_mutation_tools

-- The input of a file tool, as far as its values are texts.
pub record ToolInput : Type 0 where
  pub file_path : Option Text
  pub path : Option Text
  pub notebook_path : Option Text

abbrev pub first_text : List (Option Text) → Option Text
first_text [] = none
first_text (none ∷ rest) = first_text rest
first_text (some [] ∷ rest) = first_text rest
first_text (some (c ∷ s) ∷ rest) = some (c ∷ s)

unfoldable pub extract_path : ToolInput → Option Text
extract_path i = first_text (i.file_path ∷ i.path ∷ i.notebook_path ∷ [])

-- Why a path is protected.
pub data Reason : Type 0 where
  workflow_file environment_file private_key lockfile : Reason
  protected_directory protected_filename : Text → Reason

-- A `.github` with `workflows` right below it.
unfoldable pub has_workflows : List Text → Bool
has_workflows [] = false
has_workflows (a ∷ []) = false
has_workflows (a ∷ b ∷ rest) =
    (a == codes ".github" && b == codes "workflows") || has_workflows (b ∷ rest)

abbrev pub last_or : Text → List Text → Text
last_or d [] = d
last_or d (a ∷ rest) = last_or a rest

abbrev pub head_or : Text → List Text → Text
head_or d [] = d
head_or d (a ∷ rest) = a

abbrev pub head_in : List Text → List Text → Bool
head_in [] dirs = false
head_in (a ∷ rest) dirs = contains a dirs

unfoldable pub is_private_key : Text → Bool
is_private_key basename =
    contains basename private_key_names
    || any (λ suffix. is_suffix suffix basename) private_key_suffixes
    || is_infix (codes "private_key") basename
    || is_infix (codes "private-key") basename

unfoldable pub is_lockfile : Text → Bool
is_lockfile basename =
    contains basename lockfile_names
    || is_suffix (codes ".lock") basename
    || is_suffix (codes ".lockfile") basename

unfoldable pub is_environment : Text → Bool
is_environment basename = (basename == codes ".env") || is_prefix (codes ".env.") basename

-- The reason for the lower-case parts of a path and its basename.
unfoldable pub reason_for : Bool → List Text → Text → Option Reason
reason_for authorized parts basename =
    if has_workflows parts
    then some workflow_file
    else if is_environment basename
    then some environment_file
    else if head_in parts sensitive_toplevel_dirs
    then some (protected_directory (head_or [] parts))
    else if contains basename sensitive_basenames
    then some (protected_filename basename)
    else if is_private_key basename
    then some private_key
    else if is_lockfile basename && not authorized
    then some lockfile
    else none

unfoldable pub lower_parts : Text → List Text
lower_parts normalized = filter (λ p. not (is_empty p)) (split_slashes (lower_text normalized))

unfoldable pub protected_path_reason : Text → Bool → Option Reason
protected_path_reason path authorized =
    let normalized = normalize_path none path in
    let parts = lower_parts normalized in
    reason_for authorized parts (last_or (lower_text normalized) parts)

unfoldable pub is_path_allowed : Text → Bool → Option Text → Bool
unfolding protected_path_reason
is_path_allowed path authorized cwd =
    not (is_some (protected_path_reason (normalize_path cwd path) authorized))

-- `{}`, or a denial.
pub data GuardVerdict : Type 0 where
  no_objection missing_path : GuardVerdict
  blocked : Text → Reason → GuardVerdict

-- `authorized` is whether the state authorizes dependency changes.
unfoldable pub path_guard_hook : Bool → Text → ToolInput → Option Text → GuardVerdict
path_guard_hook authorized tool_name input cwd =
    if not (is_file_mutation_tool tool_name) then no_objection else elim (extract_path input) [
      | none ↦ missing_path
      | some path ↦
          let normalized = normalize_path cwd path in
          elim (protected_path_reason normalized authorized) [
            | none ↦ no_objection
            | some reason ↦ blocked normalized reason
          ]
    ]
