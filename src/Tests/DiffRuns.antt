-- ===== src/Tests/DiffRuns.antt =====
-- The diff of a turn against a git that answers the same each time.
use local_dafa.Base.{
  ℕ, Bool, true, not, ◌||◌, Option, none, some, List, [], ◌∷◌, ◌++◌, ◌≡◌, refl, Text, codes, ℤ, pos,
  is_empty, All, map, unlines, contains, nat_eq, list_eq, if◌then◌else◌,
}
use local_dafa.State.Records.{Patch}
use local_dafa.Build.Diff.{ExecResult, compute_wp_diff, parse_name_status}
use local_dafa.Build.NameStatus.{Change, IsPlain, change_line, parse_name_status-changes}

abbrev file_diff : Text
file_diff = codes "--- a/x" ++ (10 ∷ codes "@@ -1 +1 @@")

abbrev listing : Text
listing = codes "M" ++ 9 ∷ codes "x.py"

-- What git prints where one file has changed.
abbrev stdout_of : List Text → Text
stdout_of argv =
    if contains (codes "--name-status") argv
    then listing
    else if contains (codes "--") argv
    then file_diff
    else if contains (codes "rev-parse") argv
    then codes "f00d"
    else []

-- The sandbox records the commands that it has run.
abbrev git : List Text → List (List Text) → ExecResult × List (List Text)
git argv ran = (record { returncode = some (pos 0); stdout = some (stdout_of argv) }, argv ∷ ran)

-- The run of the witness has a patch, of the file that is listed.
one_patch :
    map {B = Text × Option Text}
      (λ (p : Patch). (p.path, p.edit_kind))
      (compute_wp_diff git true (codes "abc") (codes "builder") (codes "s1") []).0
    ≡ (codes "x.py", some (codes "modify")) ∷ []
unfolding compute_wp_diff local_dafa.Base.list_beq contains local_dafa.Build.Diff.listed_patches
    parse_name_status local_dafa.Build.Diff.parse_lines local_dafa.Base.splitlines
    local_dafa.Base.rstrip local_dafa.Base.is_space local_dafa.Build.Diff.line_entry
    local_dafa.Build.Diff.split_tabs local_dafa.Build.Diff.cons_head local_dafa.Base.strip
    local_dafa.Build.Diff.file_patches local_dafa.Build.Diff.diff_patch
    local_dafa.Build.Diff.apply_unified_diff local_dafa.Build.Diff.has_header
    local_dafa.Hooks.Permission.is_prefix local_dafa.Build.Diff.operation_for_status
    local_dafa.Build.Diff.operation_of
one_patch = refl

abbrev renamed : Change
renamed = record { status = codes "R90"; sources = codes "old.py" ∷ []; path = codes "new.py" }

renamed-IsPlain : IsPlain renamed
unfolding local_dafa.Base.strip local_dafa.Base.is_space local_dafa.Base.rstrip
    local_dafa.Base.is_break
renamed-IsPlain = record {
  status_tab = refl;
  sources_plain = (refl, tt);
  path_plain = refl;
  status_strip = refl;
  path_strip = refl;
  named = refl;
  line_rstrip = refl;
  one_line = refl;
}

parse_name_status-changes_example :
    parse_name_status (unlines (map change_line (renamed ∷ [])))
    ≡ map (λ c. (c.status, c.path)) (renamed ∷ [])
parse_name_status-changes_example = parse_name_status-changes (renamed ∷ []) (renamed-IsPlain, tt)
