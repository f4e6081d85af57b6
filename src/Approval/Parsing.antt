-- ===== src/Approval/Parsing.antt =====
-- What `parse_command` of src/darkfactory/runtime/approval.py makes of a comment.
use local_dafa.Base.{
  ℕ, Bool, true, false, not, ◌&&◌, ◌||◌, Option, none, some, List, [], ◌∷◌, ◌++◌, ◌≡◌, ◌⊎◌, refl,
  inl, inr, sym, ap, ◌∙◌, arith, Text, codes, is_empty, any, All, nat_beq, nat_eq, list_eq, ◌==◌,
  eq_iff, lookup, is_space, is_break, lstrip, strip, splitlines, join, filter, map, Bool-cases,
  Option-cases, if◌then◌else◌, splitlines-plain, strip_visible, strip-space,
}
use local_dafa.Approval.Commands.{
  ApprovalKind, approve, revise, reject, cancel, fix, rebuild, signal, match_word, between, at_sign,
  in_name, gap, after_mentions, some_space, command_words, command_kinds, needs_text, first_line,
  command_text, word_ends, match_command, command_match, signal_of, parse_command, lower,
}

abbrev pub is_command : ApprovalKind → Bool
is_command fix = false
is_command rebuild = false
is_command _ = true

abbrev pub word_of : ApprovalKind → Text
word_of approve = codes "approve"
word_of revise = codes "revise"
word_of reject = codes "reject"
word_of cancel = codes "cancel"
word_of fix = codes "fix"
word_of rebuild = codes "rebuild"

-- A name without whitespace.
abbrev pub IsName : Text → Type 0
IsName n = (is_empty n ≡ false) × (any is_space n ≡ false)

-- `@name ` for each name, before a text.
abbrev pub mentions : List Text → Text → Text
mentions [] s = s
mentions (n ∷ ns) s = 64 ∷ (n ++ 32 ∷ mentions ns s)

-- `@name ... /df word text`
abbrev pub command_line : List Text → ApprovalKind → Text → Text
command_line names kind text = mentions names (codes "/df " ++ (word_of kind ++ 32 ∷ text))

is_space_32 : is_space 32 ≡ true
unfolding is_space
is_space_32 = refl

not_space_47 : is_space 47 ≡ false
unfolding is_space
not_space_47 = refl

not_space_64 : is_space 64 ≡ false
unfolding is_space
not_space_64 = refl

after_mentions-in_name :
    (n s : Text)
    → any is_space n ≡ false
    → after_mentions in_name (n ++ 32 ∷ s) ≡ after_mentions gap s
unfolding after_mentions
after_mentions-in_name [] s h = ap (λ b. after_mentions (if b then gap else in_name) s) is_space_32
after_mentions-in_name (c ∷ n) s h =
    let seen : is_space c ≡ false = ground arith in
    let rest : any is_space n ≡ false = ground arith in
    ap (λ b. after_mentions (if b then gap else in_name) (n ++ 32 ∷ s)) seen
    ∙ after_mentions-in_name n s rest

after_mentions-name :
    (n s : Text) → IsName n → after_mentions at_sign (n ++ 32 ∷ s) ≡ after_mentions gap s
unfolding after_mentions
after_mentions-name [] s h = cc
after_mentions-name (c ∷ n) s (_, h) =
    let seen : is_space c ≡ false = ground arith in
    let rest : any is_space n ≡ false = ground arith in rw seen (after_mentions-in_name n s rest)

after_mentions-gap :
    (names : List Text) (s : Text)
    → All IsName names
    → after_mentions gap (mentions names (47 ∷ s)) ≡ some (47 ∷ s)
unfolding after_mentions
after_mentions-gap [] s h = rw not_space_47
after_mentions-gap (n ∷ names) s h =
    rw not_space_64
      (after_mentions-name n (mentions names (47 ∷ s)) h.0 ∙ after_mentions-gap names s h.1)

after_mentions-mentions :
    (names : List Text) (s : Text)
    → All IsName names
    → after_mentions between (mentions names (47 ∷ s)) ≡ some (47 ∷ s)
unfolding after_mentions
after_mentions-mentions [] s h = refl
after_mentions-mentions (n ∷ names) s h =
    after_mentions-name n (mentions names (47 ∷ s)) h.0 ∙ after_mentions-gap names s h.1

lstrip-line :
    (names : List Text) (s : Text) → lstrip (mentions names (47 ∷ s)) ≡ mentions names (47 ∷ s)
unfolding lstrip
lstrip-line [] s = rw not_space_47
lstrip-line (n ∷ names) s = rw not_space_64

module _ (is_word : ℕ → Bool) (gap_ends : is_word 32 ≡ false) where
  match_command-word :
      (kind : ApprovalKind) (text : Text)
      → is_command kind ≡ true
      → match_command is_word command_words (word_of kind ++ 32 ∷ text)
        ≡ some (word_of kind, 32 ∷ text)
  unfolding match_command match_word word_ends
  match_command-word approve text h = rw gap_ends
  match_command-word revise text h = rw gap_ends
  match_command-word reject text h = rw gap_ends
  match_command-word cancel text h = rw gap_ends
  match_command-word fix text h = cc
  match_command-word rebuild text h = cc

  some_space-word :
      (kind : ApprovalKind) (text : Text)
      → some_space (32 ∷ (word_of kind ++ text)) ≡ some (word_of kind ++ text)
  unfolding some_space is_space
  some_space-word approve text = refl
  some_space-word revise text = refl
  some_space-word reject text = refl
  some_space-word cancel text = refl
  some_space-word fix text = refl
  some_space-word rebuild text = refl

  match_word-df :
      (s : Text) → match_word (codes "/df") (47 ∷ (codes "df " ++ s)) ≡ some (codes "/df", 32 ∷ s)
  unfolding match_word
  match_word-df s = refl

  command_match-line :
      (names : List Text) (kind : ApprovalKind) (text : Text)
      → All IsName names
      → is_command kind ≡ true
      → command_match is_word (command_line names kind text) ≡ some (word_of kind, 32 ∷ text)
  unfolding command_match
  command_match-line names kind text h k =
      let tail = codes "df " ++ (word_of kind ++ 32 ∷ text) in
      rw
        (
          lstrip-line names tail,
          command_match,
          after_mentions-mentions names tail h,
          match_word-df (word_of kind ++ 32 ∷ text),
          some_space-word kind (32 ∷ text),
        )
        (match_command-word kind text k)

  -- The text after a command: `strip` and `join` leave a stripped line as it is.
  command_text-line : (text : Text) → strip text ≡ text → command_text (32 ∷ text) [] ≡ text
  command_text-line [] h = unfold command_text strip lstrip join is_space in refl
  command_text-line (c ∷ s) h =
      let none_left : strip (join (10 ∷ []) []) ≡ [] = (unfold strip lstrip join in refl) in
      let first : strip (32 ∷ c ∷ s) ≡ c ∷ s = strip-space (c ∷ s) ∙ h in
      unfold command_text join in rw (none_left, first) h

  lookup-word :
      (kind : ApprovalKind)
      → is_command kind ≡ true
      → lookup (map lower (word_of kind)) command_kinds ≡ some kind
  unfolding lookup lower local_dafa.Base.list_beq
  lookup-word approve k = refl
  lookup-word revise k = refl
  lookup-word reject k = refl
  lookup-word cancel k = refl
  lookup-word fix k = cc
  lookup-word rebuild k = cc

  signal_of-word :
      (author created_at text : Text) (comment_id : ℕ) (kind : ApprovalKind)
      → is_command kind ≡ true
      → (needs_text kind && is_empty text) ≡ false
      → signal_of author comment_id created_at (word_of kind) text
        ≡ signal (record {
          kind = kind;
          author = author;
          comment_id = comment_id;
          text = text;
          created_at = created_at;
        })
  unfolding signal_of
  signal_of-word author created_at text comment_id kind k h = rw (signal_of, lookup-word kind k, h)

  first_line-line :
      (names : List Text) (s : Text)
      → first_line (mentions names (47 ∷ s) ∷ []) ≡ some (mentions names (47 ∷ s), [])
  unfolding first_line
  first_line-line [] s = rw (strip_visible 47 s not_space_47)
  first_line-line (n ∷ names) s = rw (strip_visible 64 _ not_space_64)

  splitlines-line :
      (names : List Text) (s : Text)
      → any is_break (mentions names (47 ∷ s)) ≡ false
      → splitlines (mentions names (47 ∷ s)) ≡ mentions names (47 ∷ s) ∷ []
  splitlines-line [] s h = splitlines-plain 47 s h
  splitlines-line (n ∷ names) s h = splitlines-plain 64 _ h

  -- A command is read as it was written: one line, after any mentions, with its word and a text
  -- without whitespace around it, which `revise` and `reject` need, is parsed as the signal of
  -- that kind and text, for the comment that carried it.
  pub parse_command-command_line :
      (names : List Text) (kind : ApprovalKind) (text author created_at : Text) (comment_id : ℕ)
      → All IsName names
      → is_command kind ≡ true
      → (needs_text kind && is_empty text) ≡ false
      → strip text ≡ text
      → any is_break (command_line names kind text) ≡ false
      → parse_command is_word (command_line names kind text) author comment_id created_at
        ≡ signal (record {
          kind = kind;
          author = author;
          comment_id = comment_id;
          text = text;
          created_at = created_at;
        })
  unfolding parse_command
  parse_command-command_line names kind text author created_at comment_id h k needed stripped
        plain =
      let s = codes "df " ++ (word_of kind ++ 32 ∷ text) in
      rw
        (
          parse_command,
          splitlines-line names s plain,
          first_line-line names s,
          command_match-line names kind text h k,
          command_text-line text stripped,
        )
        (signal_of-word author created_at text comment_id kind k needed)
