-- ===== src/Issue/Comments.antt =====
-- src/darkfactory/runtime/issue_comments.py: the comments that Dark Factory itself wrote, by their
-- markers; and the comment ids of src/darkfactory/runtime/issue_workflow.py.
use local_dafa.Base.{
  ℕ, ◌+◌, ◌*◌, ◌-◌, max, Bool, false, not, ◌&&◌, ◌||◌, Option, none, some, List, [], ◌∷◌, ◌++◌,
  Text, codes, is_empty, lstrip, leb, nat_beq, if◌then◌else◌, any, filter,
}
use local_dafa.State.Records.{IssueComment}

-- What follows a given word at the head of a text.
unfoldable pub after_word : Text → Text → Option Text
after_word [] s = some s
after_word (p ∷ ps) [] = none
after_word (p ∷ ps) (c ∷ s) = let rest = after_word ps s in if nat_beq p c then rest else none

-- `[^>]*-->`: the first `>` comes right after two dashes, the last two characters read before it.
unfoldable pub closes_from : ℕ → ℕ → Text → Bool
closes_from a b [] = false
closes_from a b (c ∷ s) =
    let rest = closes_from b c s in
    if nat_beq c b'>' then nat_beq a b'-' && nat_beq b b'-' else rest

abbrev pub closes : Text → Bool
closes s = closes_from 0 0 s

-- `word:` and then `[^>]*-->`.
unfoldable pub marked_with : Text → Text → Bool
unfolding after_word closes_from
marked_with word s = elim (after_word (word ++ codes ":") s) [ none ↦ false | some t ↦ closes t ]

-- `df-(?:...):[^>]*-->`, for the words of the alternation.
unfoldable pub names_marker : List Text → Text → Bool
unfolding marked_with
names_marker words s = elim (after_word (codes "df-") s) [
  | none ↦ false
  | some t ↦ any (λ w. marked_with w t) words
]

-- The pattern at the head of a text. No word of it begins with a space, so that `\s*` takes all.
unfoldable pub marker_here : List Text → Text → Bool
unfolding names_marker
marker_here words s = elim (after_word (codes "<!--") s) [
  | none ↦ false
  | some t ↦ names_marker words (lstrip t)
]

-- `re.search`
unfoldable pub marker_in : List Text → Text → Bool
unfolding marker_here
marker_in words [] = false
marker_in words (c ∷ s) = marker_here words (c ∷ s) || marker_in words s

abbrev pub clarify_words : List Text
clarify_words = codes "clarify" ∷ []

abbrev pub marker_words : List Text
marker_words = codes "phase" ∷ codes "clarify" ∷ codes "quarantine" ∷ []

unfoldable pub has_dark_factory_clarify_marker : IssueComment → Bool
has_dark_factory_clarify_marker c = marker_in clarify_words c.body

unfoldable pub has_dark_factory_marker : IssueComment → Bool
has_dark_factory_marker c = marker_in marker_words c.body

unfoldable pub filter_dark_factory_marker_comments : List IssueComment → List IssueComment
filter_dark_factory_marker_comments cs = filter (λ c. not (has_dark_factory_marker c)) cs

-- The number that decimal digits write; anything else, such as a GraphQL node id, is none.
unfoldable pub digits_value : ℕ → Text → Option ℕ
digits_value n [] = some n
digits_value n (c ∷ s) =
    let rest = digits_value (n * 10 + (c - 48)) s in if leb 48 c && leb c 57 then rest else none

unfoldable pub comment_number : IssueComment → Option ℕ
unfolding digits_value
comment_number c = if is_empty c.id then none else digits_value 0 c.id

-- The greater of an id seen so far and the id of a comment, where it has one.
unfoldable pub greater_id : Option ℕ → Option ℕ → Option ℕ
greater_id a none = a
greater_id none (some n) = some n
greater_id (some m) (some n) = some (max m n)

-- `_last_comment_id`
unfoldable pub last_comment_id : List IssueComment → Option ℕ
unfolding comment_number greater_id
last_comment_id [] = none
last_comment_id (c ∷ cs) = greater_id (last_comment_id cs) (comment_number c)
