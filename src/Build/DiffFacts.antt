-- ===== src/Build/DiffFacts.antt =====
-- What the diff of a worker's turn is made of: src/darkfactory/tools/git_diff.py.
use local_dafa.Base.{
  Bool, true, not, ◌||◌, some, List, [], ◌∷◌, ◌≡◌, ◌⊎◌, Text, codes, is_empty, or_else,
  if◌then◌else◌,
}
use local_dafa.State.Records.{Patch}
use local_dafa.Build.Diff.{ExecResult, has_failed, apply_unified_diff, parse_name_status}

-- A patch as the consumers of a turn rely on it.
pub record IsStamped (role slice : Text) (p : Patch) : Type 0 where
  pub author : p.author_agent ≡ role
  pub of_slice : p.slice_id ≡ slice
  pub sane : apply_unified_diff p.diff ≡ true
  pub kind :
      (p.edit_kind ≡ some (codes "create"))
      ⊎ ((p.edit_kind ≡ some (codes "modify")) ⊎ (p.edit_kind ≡ some (codes "delete")))

-- What is listed, if there is a sandbox and a baseline and git does not fail.
abbrev pub listed : Bool → Text → ExecResult → List (Text × Text)
listed has_sandbox pre_sha r =
    if not has_sandbox || (is_empty pre_sha || has_failed r)
    then []
    else parse_name_status (or_else r.stdout [])

module _ {W : Type 0} (exec : List Text → W → ExecResult × W) (role slice : Text) where
  -- The patches are those of the listed files, in order: of each file either git failed or gave no
  -- diff with a header and a hunk, or there is a patch of it with the diff that git gave.
  abbrev pub IsCaptured : Text → List (Text × Text) → W → List Patch → Type 0
  IsCaptured pre_sha [] w patches = patches ≡ []
  IsCaptured pre_sha (entry ∷ entries) w patches =
      let (r, w') = exec (codes "git" ∷ codes "diff" ∷ pre_sha ∷ codes "--" ∷ entry.1 ∷ []) w in
      let diff = or_else r.stdout [] in
      (((has_failed r || not (apply_unified_diff diff)) ≡ true)
        × IsCaptured pre_sha entries w' patches)
      ⊎ ((p : Patch) × (rest : List Patch) × (patches ≡ p ∷ rest)
          × (p.path ≡ entry.1)
          × (p.diff ≡ diff)
          × IsStamped role slice p
          × IsCaptured pre_sha entries w' rest)
