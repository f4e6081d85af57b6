-- ===== src/Approval/Signals.antt =====
-- What a signal parsed by `parse_command` of src/darkfactory/runtime/approval.py can say.
use local_dafa.Base.{none, ℕ, true, false, ◌&&◌, ◌≡◌, Text, is_empty, nat_eq, list_eq, lookup}
use local_dafa.Approval.Commands.{
  ApprovalSignal, Parsed, no_command, signal, key_error, command_kinds, needs_text,
}
use local_dafa.Approval.Parsing.{is_command}

-- What a parsed signal says, for the comment that it was parsed from.
pub record IsSignalOf (author created_at : Text) (comment_id : ℕ) (s : ApprovalSignal)
    : Type 0 where
  pub command : is_command s.kind ≡ true
  pub texted : (needs_text s.kind && is_empty s.text) ≡ false
  pub author_kept : s.author ≡ author
  pub created_kept : s.created_at ≡ created_at
  pub id_kept : s.comment_id ≡ comment_id

abbrev pub Answers : Text → Text → ℕ → Parsed → Type 0
Answers author created_at comment_id no_command = Unit {0}
Answers author created_at comment_id (key_error word) = lookup word command_kinds ≡ none
Answers author created_at comment_id (signal s) = IsSignalOf author created_at comment_id s
