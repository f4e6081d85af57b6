-- ===== src/Tests/ApprovalRuns.antt =====
-- Commands in comments, and checks of their authors, on small inputs.
use local_dafa.Base.{
  ℕ, Bool, true, false, ◌||◌, ◌&&◌, Option, none, some, List, [], ◌∷◌, ◌++◌, ◌≡◌, refl, inl, inr,
  Text, codes, leb, nat_beq, nat_eq, list_eq,
}
use local_dafa.Approval.Commands.{
  ApprovalKind, approve, revise, ApprovalSignal, Parsed, no_command, signal, key_error,
  parse_command,
}
use local_dafa.Approval.Parsing.{command_line, parse_command-command_line}
use local_dafa.Approval.Access.{Answer, failed, object, is_authorized, checks_after}
use local_dafa.Approval.AccessFacts.{GrantedIn, key_of, is_authorized-stays, is_authorized-granted}

-- The word characters of ASCII.
abbrev ascii_word : ℕ → Bool
ascii_word c =
    (leb 48 c && leb c 57) || (leb 65 c && leb c 90) || nat_beq c 95 || (leb 97 c && leb c 122)

abbrev note : Text
note = codes "use the cache"

parse_command-command_line_example :
    parse_command ascii_word
      (command_line (codes "bot" ∷ []) revise note)
      (codes "ann")
      7
      (codes "t")
    ≡ signal (record {
      kind = revise;
      author = codes "ann";
      comment_id = 7;
      text = note;
      created_at = codes "t";
    })
unfolding local_dafa.Approval.Commands.needs_text local_dafa.Base.is_space local_dafa.Base.strip
    local_dafa.Base.is_break
parse_command-command_line_example =
    parse_command-command_line ascii_word refl (codes "bot" ∷ []) revise note (codes "ann")
      (codes "t") 7 ((refl, refl), tt) refl refl refl refl

-- A dotless i in the word is matched and then not found.
dotless_key_error :
    parse_command ascii_word (codes "/df rev" ++ 305 ∷ codes "se now") [] 0 []
    ≡ key_error (codes "rev" ++ 305 ∷ codes "se")
unfolding parse_command local_dafa.Approval.Commands.first_line local_dafa.Base.splitlines
    local_dafa.Base.is_space local_dafa.Approval.Commands.command_match
    local_dafa.Approval.Commands.after_mentions local_dafa.Approval.Commands.match_word
    local_dafa.Approval.Commands.some_space local_dafa.Approval.Commands.match_command
    local_dafa.Approval.Commands.word_ends local_dafa.Approval.Commands.signal_of
    local_dafa.Base.lookup local_dafa.Base.list_beq
dotless_key_error = refl

abbrev gh_down : Text → Answer
gh_down _ = failed

abbrev gh_admin : Text → Answer
gh_admin _ = object (some (codes "Admin"))

denied_for_good : (is_authorized gh_down (codes "@ann") (codes "o/r") []).0 ≡ some false
unfolding is_authorized local_dafa.Base.is_space local_dafa.Base.contains local_dafa.Base.lookup
denied_for_good = refl

is_authorized-stays_example :
    let after =
      checks_after
        ((gh_admin, codes "bob", codes "o/r") ∷ [])
        (is_authorized gh_down (codes "@ann") (codes "o/r") []).1 in
    is_authorized gh_admin (codes "@ann") (codes "o/r") after ≡ (some false, after)
is_authorized-stays_example =
    is_authorized-stays gh_down gh_admin (codes "@ann") (codes "o/r") [] false
      ((gh_admin, codes "bob", codes "o/r") ∷ []) denied_for_good

ann_is_admin :
    (is_authorized gh_admin
      (codes "ann")
      (codes "o/r")
      (checks_after ((gh_down, codes "bob", codes "o/r") ∷ []) [])).0
    ≡ some true
unfolding is_authorized checks_after local_dafa.Base.is_space local_dafa.Base.contains
    local_dafa.Base.lookup local_dafa.Base.insert local_dafa.Base.pair_beq local_dafa.Base.list_beq
ann_is_admin = refl

is_authorized-granted_example :
    GrantedIn
      ((gh_admin, codes "ann", codes "o/r") ∷ (gh_down, codes "bob", codes "o/r") ∷ [])
      (key_of (codes "ann") (codes "o/r"))
is_authorized-granted_example =
    is_authorized-granted ((gh_down, codes "bob", codes "o/r") ∷ []) gh_admin (codes "ann")
      (codes "o/r") ann_is_admin
