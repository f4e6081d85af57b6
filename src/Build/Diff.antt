-- ===== src/Build/Diff.antt =====
-- src/darkfactory/tools/git_diff.py and src/darkfactory/tools/patch_helpers.py: the diff of a
-- worker's turn, against a sandbox that runs git.
use local_dafa.Base.{
  ℕ, Bool, true, not, ◌&&◌, ◌||◌, Option, none, some, List, [], ◌∷◌, Text, codes, ℤ, pos, is_empty,
  any, take, nat_beq, leb, ◌-◌, if◌then◌else◌, or_else, strip, rstrip, splitlines,
}
use local_dafa.State.Records.{Patch}
use local_dafa.Hooks.Permission.{is_prefix}

-- What the sandbox's `exec` returns.
pub record ExecResult : Type 0 where
  pub returncode : Option ℤ
  pub stdout : Option Text

-- `result.get("returncode") != 0`
abbrev pub has_failed : ExecResult → Bool
has_failed r = elim r.returncode [ some (pos n) ↦ not (nat_beq n 0) | _ ↦ true ]

unfoldable pub has_header : List Text → Bool
has_header lines =
    any
      (λ line.
        is_prefix (codes "diff --git ") line
        || is_prefix (codes "--- ") line
        || is_prefix (codes "Index: ") line)
      (take 20 lines)

-- Whether a diff has a header among its first lines and a hunk.
unfoldable pub apply_unified_diff : Text → Bool
apply_unified_diff diff =
    not (is_empty (strip diff))
    && (has_header (splitlines diff) && any (is_prefix (codes "@@")) (splitlines diff))

unfoldable pub cons_head : ℕ → List Text → List Text
cons_head c [] = (c ∷ []) ∷ []
cons_head c (s ∷ rest) = (c ∷ s) ∷ rest

-- `line.split("\t")`
unfoldable pub split_tabs : Text → List Text
split_tabs [] = [] ∷ []
split_tabs (c ∷ s) = let rest = split_tabs s in if nat_beq c 9 then [] ∷ rest else cons_head c rest

abbrev pub last_text : Text → List Text → Text
last_text d [] = d
last_text d (s ∷ rest) = last_text s rest

-- The status and the path of one line; of a renamed file the new path.
unfoldable pub line_entry : List Text → Option (Text × Text)
line_entry [] = none
line_entry (status ∷ []) = none
line_entry (status ∷ s ∷ rest) =
    let path = strip (last_text s rest) in if is_empty path then none else some (strip status, path)

abbrev pub cons_some {ℓ} : {A : Type ℓ} → Option A → List A → List A
cons_some none xs = xs
cons_some (some x) xs = x ∷ xs

unfoldable pub parse_lines : List Text → List (Text × Text)
parse_lines [] = []
parse_lines (raw ∷ lines) =
    let rest = parse_lines lines in
    let line = rstrip raw in
    if is_empty line then rest else cons_some (line_entry (split_tabs line)) rest

-- `git diff --name-status`, parsed.
unfoldable pub parse_name_status : Text → List (Text × Text)
parse_name_status stdout = parse_lines (splitlines stdout)

-- What a status says of a file, by its first letter in upper case.
unfoldable pub operation_of : ℕ → Text
operation_of c =
    if nat_beq c 65 || nat_beq c 67
    then codes "create"
    else if nat_beq c 68
    then codes "delete"
    else codes "modify"

unfoldable pub operation_for_status : Text → Text
operation_for_status [] = codes "modify"
operation_for_status (c ∷ s) = operation_of (if leb 97 c && leb c 122 then c - 32 else c)

-- The patch of one file, unless git failed or the diff is none.
unfoldable pub diff_patch : Text → Text → Text → Text × Text → ExecResult → Option Patch
diff_patch role slice head (status, path) r =
    let diff = or_else r.stdout [] in
    if has_failed r
    then none
    else if apply_unified_diff diff
    then some (record {
      path = path;
      diff = diff;
      author_agent = role;
      slice_id = slice;
      sha = if is_empty head then none else some head;
      edit_kind = some (operation_for_status status);
      justification = none;
    })
    else none

-- `exec` runs a command in a sandbox, which is the state.
module _ {W : Type 0} (exec : List Text → W → ExecResult × W) where
  unfoldable pub head_sha : W → Text × W
  head_sha w =
      let (r, w') = exec (codes "git" ∷ codes "rev-parse" ∷ codes "HEAD" ∷ []) w in
      (if has_failed r then [] else strip (or_else r.stdout []), w')

  -- `none` where there is no sandbox.
  unfoldable pub snapshot_head : Bool → W → Text × W
  snapshot_head has_sandbox w = let head = head_sha w in if has_sandbox then head else ([], w)

  -- The loop over the changed files.
  unfoldable pub file_patches : Text → Text → Text → Text → List (Text × Text) → W → List Patch × W
  file_patches pre_sha role slice head [] w = ([], w)
  file_patches pre_sha role slice head (entry ∷ entries) w =
      let (r, w') = exec (codes "git" ∷ codes "diff" ∷ pre_sha ∷ codes "--" ∷ entry.1 ∷ []) w in
      let (rest, w'') = file_patches pre_sha role slice head entries w' in
      (cons_some (diff_patch role slice head entry r) rest, w'')

  -- The diffs of the listed files, unless nothing is listed.
  unfoldable pub listed_patches : Text → Text → Text → List (Text × Text) → W → List Patch × W
  listed_patches pre_sha role slice [] w = ([], w)
  listed_patches pre_sha role slice (entry ∷ entries) w =
      let (head, w') = head_sha w in file_patches pre_sha role slice head (entry ∷ entries) w'

  unfoldable pub compute_wp_diff : Bool → Text → Text → Text → W → List Patch × W
  compute_wp_diff has_sandbox pre_sha role slice w =
      let (_, w1) = exec (codes "git" ∷ codes "add" ∷ codes "-N" ∷ codes "-A" ∷ []) w in
      let (r, w2) = exec (codes "git" ∷ codes "diff" ∷ codes "--name-status" ∷ pre_sha ∷ []) w1 in
      let listed = listed_patches pre_sha role slice (parse_name_status (or_else r.stdout [])) w2 in
      if not has_sandbox || is_empty pre_sha
      then ([], w)
      else if has_failed r
      then ([], w2)
      else listed
