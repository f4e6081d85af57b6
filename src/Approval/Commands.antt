-- ===== src/Approval/Commands.antt =====
-- `parse_command` and `_normalise_kind` of src/darkfactory/runtime/approval.py.
use local_dafa.Base.{
  ℕ, ◌+◌, Bool, true, false, not, ◌&&◌, ◌||◌, Option, none, some, List, [], ◌∷◌, map, Text, codes,
  is_empty, leb, nat_beq, if◌then◌else◌, nat_eq, list_eq, Dict, lookup, is_space, lstrip, strip,
  splitlines, join, filter,
}

pub data ApprovalKind : Type 0 where
  approve revise reject cancel fix rebuild : ApprovalKind

pub record ApprovalSignal : Type 0 where
  pub kind : ApprovalKind
  pub author : Text
  pub comment_id : ℕ
  pub text : Text
  pub created_at : Text

-- `None`, a signal, or the KeyError of the lookup of the command.
pub data Parsed : Type 0 where
  no_command : Parsed
  signal : ApprovalSignal → Parsed
  key_error : Text → Parsed

-- `str.lower` as far as the names below can tell: no other character becomes one of their letters.
unfoldable pub lower : ℕ → ℕ
lower c = if leb 65 c && leb c 90 then c + 32 else c

-- A letter of the pattern against a character, with `re.IGNORECASE`: the long s, and the i with
-- and without its dot, count as s and i.
unfoldable pub same_letter : ℕ → ℕ → Bool
unfolding lower
same_letter p c =
    nat_beq (lower c) p
    || (nat_beq p 115 && nat_beq c 383)
    || (nat_beq p 105 && (nat_beq c 304 || nat_beq c 305))

-- A word of the pattern at the head of a text: what it matched, and what follows.
unfoldable pub match_word : Text → Text → Option (Text × Text)
unfolding same_letter
match_word [] s = some ([], s)
match_word (p ∷ ps) [] = none
match_word (p ∷ ps) (c ∷ s) =
    let rest = match_word ps s in
    if same_letter p c
    then elim rest [ none ↦ none | some (word, s') ↦ some (c ∷ word, s') ]
    else none

-- Where `(?:@\S+\s+)*` stands: between two mentions, after an @, in a name, or after a name.
pub data Place : Type 0 where
  between at_sign in_name gap : Place

-- The text after the mentions. The pattern has no other way to match: a name and a gap each end
-- where the next character is of the other kind.
unfoldable pub after_mentions : Place → Text → Option Text
after_mentions between [] = some []
after_mentions between (c ∷ s) = if nat_beq c 64 then after_mentions at_sign s else some (c ∷ s)
after_mentions at_sign [] = none
after_mentions at_sign (c ∷ s) = if is_space c then none else after_mentions in_name s
after_mentions in_name [] = none
after_mentions in_name (c ∷ s) = after_mentions (if is_space c then gap else in_name) s
after_mentions gap [] = some []
after_mentions gap (c ∷ s) =
    let named = after_mentions at_sign s in
    let more = after_mentions gap s in
    if is_space c then more else (if nat_beq c 64 then named else some (c ∷ s))

-- `\s+`
unfoldable pub some_space : Text → Option Text
unfolding lstrip
some_space [] = none
some_space (c ∷ s) = if is_space c then some (lstrip s) else none

abbrev pub command_words : List Text
command_words = codes "approve" ∷ codes "revise" ∷ codes "reject" ∷ codes "cancel" ∷ []

abbrev pub command_kinds : Dict Text ApprovalKind
command_kinds =
    (codes "approve", approve)
    ∷ (codes "revise", revise)
    ∷ (codes "reject", reject)
    ∷ (codes "cancel", cancel)
    ∷ []

-- The names that a signal's kind may have.
abbrev pub kind_names : Dict Text ApprovalKind
kind_names =
    (codes "approve", approve)
    ∷ (codes "approved", approve)
    ∷ (codes "revise", revise)
    ∷ (codes "reject", reject)
    ∷ (codes "rejected", reject)
    ∷ (codes "cancel", cancel)
    ∷ (codes "canceled", cancel)
    ∷ (codes "cancelled", cancel)
    ∷ (codes "fix", fix)
    ∷ (codes "rebuild", rebuild)
    ∷ []

-- `none` is the ValueError.
unfoldable pub normalise_kind : Text → Option ApprovalKind
unfolding strip lookup
normalise_kind raw = lookup (map lower (strip raw)) kind_names

unfoldable pub needs_text : ApprovalKind → Bool
needs_text revise = true
needs_text reject = true
needs_text _ = false

-- The first line that is not blank, and the lines after it.
unfoldable pub first_line : List Text → Option (Text × List Text)
unfolding strip
first_line [] = none
first_line (line ∷ lines) = if is_empty (strip line) then first_line lines else some (line, lines)

-- What a comment's text says, its surrounding whitespace removed.
unfoldable pub command_text : Text → List Text → Text
command_text rest lines = strip (
    join (10 ∷ [])
      (filter (λ part. not (is_empty part)) (strip rest ∷ strip (join (10 ∷ []) lines) ∷ [])))

-- The signal of a command, unless it needs a text and has none.
unfoldable pub signal_of : Text → ℕ → Text → Text → Text → Parsed
signal_of author comment_id created_at word text = elim (lookup (map lower word) command_kinds) [
  | none ↦ key_error (map lower word)
  | some kind ↦
      if needs_text kind && is_empty text
      then no_command
      else signal (record {
        kind = kind;
        author = author;
        comment_id = comment_id;
        text = text;
        created_at = created_at;
      })
]

-- `is_word` says which characters `\b` takes as part of a word.
module _ (is_word : ℕ → Bool) where
  -- `\b` after a letter.
  unfoldable pub word_ends : Text → Bool
  word_ends [] = true
  word_ends (c ∷ s) = not (is_word c)

  -- One of the command words, with its end.
  unfoldable pub match_command : List Text → Text → Option (Text × Text)
  match_command [] s = none
  match_command (w ∷ ws) s =
      let other = match_command ws s in
      elim (match_word w s) [
        | none ↦ other
        | some (word, rest) ↦ if word_ends rest then some (word, rest) else other
      ]

  -- `_COMMAND_RE.match`: the command and the text after it.
  unfoldable pub command_match : Text → Option (Text × Text)
  command_match line = elim (after_mentions between (lstrip line)) [
    | none ↦ none
    | some s ↦ elim (match_word (codes "/df") s) [
      | none ↦ none
      | some (_, s') ↦ elim (some_space s') [ none ↦ none | some t ↦ match_command command_words t ]
    ]
  ]

  unfoldable pub parse_command : Text → Text → ℕ → Text → Parsed
  parse_command body author comment_id created_at = elim (first_line (splitlines body)) [
    | none ↦ no_command
    | some (line, lines) ↦ elim (command_match line) [
      | none ↦ no_command
      | some (word, rest) ↦ signal_of author comment_id created_at word (command_text rest lines)
    ]
  ]
