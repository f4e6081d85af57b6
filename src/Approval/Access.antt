-- ===== src/Approval/Access.antt =====
-- `is_authorized` of src/darkfactory/runtime/approval.py: who may give a command, with the cache
-- of its answers.
use local_dafa.Base.{
  Bool, false, not, ◌&&◌, Option, none, some, List, [], ◌∷◌, ◌++◌, map, Text, codes, is_empty,
  contains, if◌then◌else◌, nat_eq, list_eq, pair_eq, Dict, lookup, insert, strip, lstrip_of,
  or_else,
}
use local_dafa.Approval.Commands.{lower}

-- What `gh api` answered: an object with a permission or without, or something else that parses.
-- A call that fails, and an answer that is no JSON, is `failed`.
pub data Answer : Type 0 where
  failed : Answer
  object : Option Text → Answer
  not_object : Answer

abbrev pub Cache : Type 0
Cache = Dict (Text × Text) Bool

-- The path that `gh api` is asked for.
unfoldable pub permission_path : Text → Text → Text
permission_path repo author =
    codes "repos/" ++ (repo ++ (codes "/collaborators/" ++ (author ++ codes "/permission")))

abbrev pub authorized_permissions : List Text
authorized_permissions = codes "admin" ∷ codes "maintain" ∷ codes "write" ∷ []

-- `none` is the AttributeError of an answer that is no object.
unfoldable pub allowed_by : Answer → Option Bool
unfolding lower
allowed_by failed = some false
allowed_by (object permission) =
    some (contains (map lower (or_else permission [])) authorized_permissions)
allowed_by not_object = none

unfoldable pub cleaned_author : Text → Text
unfolding strip lstrip_of
cleaned_author author = lstrip_of 64 (strip author)

-- A request without an author, or for a repository without an owner, is never asked.
unfoldable pub is_askable : Text → Text → Bool
is_askable author repo = not (is_empty author) && (not (is_empty repo) && contains 47 repo)

-- The answer is remembered, whatever it was; where it raises nothing is.
unfoldable pub remember_answer : Text × Text → Option Bool → Cache → Option Bool × Cache
remember_answer key none cache = (none, cache)
remember_answer key (some b) cache = (some b, insert key b cache)

-- Without a runner: `gh` is asked unless the cache has the answer.
unfoldable pub is_authorized : (Text → Answer) → Text → Text → Cache → Option Bool × Cache
unfolding cleaned_author is_askable permission_path allowed_by remember_answer
is_authorized gh author repo cache =
    let name = cleaned_author author in
    let owner = strip repo in
    let asked =
      remember_answer (owner, name) (allowed_by (gh (permission_path owner name))) cache in
    if is_askable name owner
    then elim (lookup (owner, name) cache) [ some b ↦ (some b, cache) | none ↦ asked ]
    else (some false, cache)

-- With a runner, which tests pass in: no cache.
unfoldable pub is_authorized_by : (Text → Answer) → Text → Text → Option Bool
unfolding cleaned_author is_askable permission_path allowed_by
is_authorized_by runner author repo =
    let name = cleaned_author author in
    let owner = strip repo in
    if is_askable name owner then allowed_by (runner (permission_path owner name)) else some false

-- The cache after a sequence of checks, each with what `gh` answers at its time.
unfoldable pub checks_after : List ((Text → Answer) × Text × Text) → Cache → Cache
unfolding is_authorized
checks_after [] cache = cache
checks_after ((gh, author, repo) ∷ rest) cache =
    checks_after rest (is_authorized gh author repo cache).1
