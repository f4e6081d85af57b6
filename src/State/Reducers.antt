-- ===== src/State/Reducers.antt =====
-- The reducers of src/darkfactory/state.py.
use local_dafa.Base.{
  ℕ, Bool, not, ◌&&◌, ◌||◌, List, [], ◌∷◌, ◌++◌, Text, Dict, codes, ltb, length, is_empty, last_n,
  max, insert, contains, strip, if◌then◌else◌, ◌==◌, nat_eq, list_eq,
}
use local_dafa.State.Records.{WorkPackageDict, IssueComment}

-- What `os.environ` holds for a cap.
pub data EnvValue : Type 0 where
  unset malformed negative : EnvValue
  number : ℕ → EnvValue

-- `max(1, int(os.environ.get(env_var, default)))`, and `default` where that raises.
unfoldable pub resolve_cap : EnvValue → ℕ → ℕ
resolve_cap unset default = max 1 default
resolve_cap malformed default = default
resolve_cap negative default = 1
resolve_cap (number n) default = max 1 n

module _ {A : Type 0} where
  unfoldable pub add : List A → List A → List A
  add left right = left ++ right

  unfoldable pub bounded_add : ℕ → List A → List A → List A
  bounded_add cap left right =
      let combined = left ++ right in
      if ltb cap (length combined) then last_n cap combined else combined

  unfoldable pub overwrite : A → A → A
  overwrite _ new = new

-- `dict.values()`
abbrev pub values : {A : Type 0} → Dict Text A → List A
values [] = []
values ((_, v) ∷ m) = v ∷ values m

-- `for s in slices: by_id[s["story_id"]] = s`
unfoldable pub write_slices :
    List WorkPackageDict → Dict Text WorkPackageDict → Dict Text WorkPackageDict
write_slices [] by_id = by_id
write_slices (s ∷ rest) by_id = write_slices rest (insert s.story_id s by_id)

unfoldable pub merge_work_packages :
    List WorkPackageDict → List WorkPackageDict → List WorkPackageDict
unfolding write_slices
merge_work_packages left right = values (write_slices right (write_slices left []))

-- A missing id and a 0 have no key.
unfoldable pub id_key : IssueComment → Text
id_key c = if is_empty c.id || c.id == codes "0" then [] else strip c.id

unfoldable pub body_key : IssueComment → Text
body_key c = strip c.body

-- `if key: seen.add(key)`
unfoldable pub note_key : Text → List Text → List Text
note_key k seen = if is_empty k then seen else k ∷ seen

-- `key and key in seen`
unfoldable pub is_seen : Text → List Text → Bool
is_seen k seen = not (is_empty k) && contains k seen

unfoldable pub dedup_comments : List Text → List Text → List IssueComment → List IssueComment
unfolding id_key body_key note_key is_seen
dedup_comments seen_ids seen_bodies [] = []
dedup_comments seen_ids seen_bodies (c ∷ cs) =
    let skipped = is_seen (id_key c) seen_ids || is_seen (body_key c) seen_bodies in
    let rest =
      dedup_comments (if skipped then seen_ids else note_key (id_key c) seen_ids)
        (if skipped then seen_bodies else note_key (body_key c) seen_bodies) cs in
    if skipped then rest else c ∷ rest

unfoldable pub merge_issue_comments : List IssueComment → List IssueComment → List IssueComment
unfolding dedup_comments
merge_issue_comments left right = dedup_comments [] [] (left ++ right)
