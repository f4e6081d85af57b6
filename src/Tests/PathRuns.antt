-- ===== src/Tests/PathRuns.antt =====
-- The path guard on a few spellings of a path.
use local_dafa.Base.{
  join, ℕ, ◌-◌, ◌+◌, ◌/◌, ◌≤◌, Bool, true, false, Option, none, some, List, [], ◌∷◌, ◌++◌, ◌≡◌, ◌⊎◌,
  refl, arith, Text, codes, min, replicate, length, last_n, nat_eq, list_eq,
}
use mathlib.Core.List.{reverse}
use local_dafa.Hooks.Paths.{normalize_path}
use local_dafa.Hooks.PathGuard.{ToolInput, is_path_allowed, path_guard_hook}
use local_dafa.Hooks.PathFacts.{IsSegment, IsCanonical}
use local_dafa.Hooks.PathStable.{HasPlainRoot, below_cwd, normalize_path-IsCanonical}
use local_dafa.Hooks.PathRefusals.{is_blocked, path_guard_hook-refuses_protected}
use local_dafa.Hooks.Permission.{Policy, check_argv, permission_gate, match_tool, text}

abbrev edit_of : Text → ToolInput
edit_of path = record { file_path = some path; path = none; notebook_path = none }

abbrev hidden_env : Text
hidden_env = codes "./a//b/..\\.ENV"

hidden_env_name : IsSegment (codes ".ENV")
unfolding local_dafa.Base.list_beq
hidden_env_name = record { kept = refl; no_slash = refl; no_backslash = refl }

hidden_env_root : HasPlainRoot (below_cwd none hidden_env)
unfolding local_dafa.Hooks.Paths.root_of local_dafa.Hooks.Paths.relative
    local_dafa.Hooks.Paths.rstrip_slashes local_dafa.Hooks.Paths.forward local_dafa.Base.list_beq
    local_dafa.Hooks.Paths.after_prefix local_dafa.Base.lstrip_of local_dafa.Hooks.Paths.after_slash
    local_dafa.Hooks.Paths.after_two_slashes local_dafa.Hooks.Paths.drop_here
hidden_env_root e = cc

path_guard_hook-refuses_protected_example :
    is_blocked (path_guard_hook true (codes "mcp__fs__Edit") (edit_of hidden_env) none) ≡ true
unfolding local_dafa.Hooks.PathGuard.is_file_mutation_tool match_tool local_dafa.Base.list_beq
    local_dafa.Hooks.PathGuard.extract_path local_dafa.Hooks.Paths.split_slashes
    local_dafa.Hooks.Paths.drop_here local_dafa.Hooks.Paths.relative
    local_dafa.Hooks.Paths.rstrip_slashes local_dafa.Hooks.Paths.forward
    local_dafa.Hooks.Paths.after_prefix local_dafa.Hooks.PathGuard.is_environment
    local_dafa.Hooks.PathGuard.lower_text local_dafa.Hooks.PathGuard.lower_char
path_guard_hook-refuses_protected_example =
    path_guard_hook-refuses_protected true none (codes "mcp__fs__Edit") hidden_env (codes ".ENV")
      (edit_of hidden_env) refl refl hidden_env_root refl hidden_env_name refl refl

normalize_path-IsCanonical_example :
    (stack : List Text) × IsCanonical stack
    × (normalize_path none hidden_env ≡ join (codes "/") (reverse stack))
    × (normalize_path none (normalize_path none hidden_env) ≡ normalize_path none hidden_env)
normalize_path-IsCanonical_example = normalize_path-IsCanonical none hidden_env hidden_env_root

-- The protected directories are recognised by the first part only.
outside_path_allowed :
    is_path_allowed
      (codes "/workspace/../workspace/secrets/key.txt")
      false
      (some (codes "/workspace"))
    ≡ true
unfolding is_path_allowed local_dafa.Hooks.Paths.root_of local_dafa.Hooks.Paths.relative
    local_dafa.Hooks.Paths.rstrip_slashes local_dafa.Hooks.Paths.forward local_dafa.Base.list_beq
    local_dafa.Hooks.Paths.after_prefix local_dafa.Base.lstrip_of local_dafa.Hooks.Paths.after_slash
    local_dafa.Hooks.Paths.after_two_slashes local_dafa.Hooks.Paths.drop_here
    local_dafa.Hooks.PathGuard.reason_for local_dafa.Hooks.PathGuard.has_workflows
    local_dafa.Hooks.PathGuard.lower_parts local_dafa.Hooks.Paths.split_slashes
    local_dafa.Hooks.PathGuard.lower_text local_dafa.Base.join local_dafa.Hooks.PathGuard.lower_char
    local_dafa.Hooks.PathGuard.is_environment local_dafa.Hooks.Permission.is_prefix
    local_dafa.Base.contains local_dafa.Hooks.PathGuard.is_lockfile
    local_dafa.Hooks.PathGuard.is_private_key local_dafa.Hooks.PathGuard.protected_path_reason
    local_dafa.Hooks.Paths.path_parts local_dafa.Hooks.Paths.push_part
    local_dafa.Hooks.Paths.push_parts local_dafa.Hooks.Paths.with_head
    local_dafa.Hooks.Permission.is_infix local_dafa.Hooks.Permission.is_suffix
    local_dafa.Hooks.Paths.normalize_path
outside_path_allowed = refl

-- Two slashes for a root make a path that is normalised otherwise the second time.
double_root : normalize_path none (codes "//a") ≡ codes "///a"
unfolding normalize_path join local_dafa.Hooks.Paths.root_of local_dafa.Hooks.Paths.relative
    local_dafa.Hooks.Paths.rstrip_slashes local_dafa.Hooks.Paths.forward local_dafa.Base.list_beq
    local_dafa.Hooks.Paths.after_prefix local_dafa.Hooks.Paths.split_slashes
double_root = refl
