-- ===== src/Issue/Signals.antt =====
-- The update handlers and the gate part of the query of src/darkfactory/runtime/issue_workflow.py.
use local_dafa.Base.{
  ℕ, max, Bool, true, false, not, ◌&&◌, ◌||◌, Option, none, some, List, [], ◌∷◌, ◌++◌, codes,
  is_some, or_else, if◌then◌else◌, nat_beq,
}
use local_dafa.State.Records.{GateDecision, Label, awaiting_approval, awaiting_merge}
use local_dafa.State.Channels.{State, Delta, last_seen_comment_id, current_df_label, issue_comments}
use local_dafa.State.Merge.{Caps, merge}
use local_dafa.Approval.Commands.{
  ApprovalKind, ApprovalSignal, approve, revise, reject, cancel, fix, rebuild,
}
use local_dafa.Issue.Comments.{last_comment_id, filter_dark_factory_marker_comments}
use local_dafa.Issue.Machine.{
  IssueWorkflow, Update, signal_approval, approve_gate, approve_brief, revise_brief, reject_brief,
  approve_merge, reject_merge, trigger_fix, trigger_rebuild, post_new_comments,
}

unfoldable pub seen_delta : ℕ → Delta
seen_delta n last_seen_comment_id = some (some n)
seen_delta n _ = none

-- `_record_last_seen`, where a missing id counts as 0.
unfoldable pub record_last_seen : Caps → ℕ → State → State
record_last_seen caps n s =
    let current = or_else (s last_seen_comment_id) 0 in
    if nat_beq n 0 then s else merge caps s (seen_delta (max current n))

-- `_signal_from_gate`
unfoldable pub signal_from_gate : ApprovalKind → GateDecision → ApprovalSignal
signal_from_gate k d = record {
  kind = k;
  author = codes "temporal";
  comment_id = 0;
  text = d.reason;
  created_at = [];
}

-- A signal replaces the one that waits, and its comment counts as seen.
unfoldable pub receive : Caps → ApprovalSignal → IssueWorkflow → IssueWorkflow
unfolding record_last_seen
receive caps x w = record w {
  approval = some x;
  state = record_last_seen caps x.comment_id w.state;
}

unfoldable pub handle : Caps → Update → IssueWorkflow → IssueWorkflow
unfolding receive signal_from_gate
handle caps (signal_approval x) w = receive caps x w
handle caps (approve_gate d) w = record w {
  approval = some (signal_from_gate (if d.approved then approve else reject) d);
}
handle caps (approve_brief d) w = receive caps (signal_from_gate approve d) w
handle caps (revise_brief d) w = receive caps (signal_from_gate revise d) w
handle caps (reject_brief d) w = receive caps (signal_from_gate reject d) w
handle caps (approve_merge d) w = receive caps (signal_from_gate approve d) w
handle caps (reject_merge d) w = receive caps (signal_from_gate reject d) w
handle caps (trigger_fix d) w = receive caps (signal_from_gate fix d) w
handle caps (trigger_rebuild d) w = receive caps (signal_from_gate rebuild d) w
handle caps (post_new_comments cs) w = record w {
  state = record_last_seen caps (or_else (last_comment_id cs) 0) w.state;
  new_comments = w.new_comments ++ filter_dark_factory_marker_comments cs;
}

-- The updates of one turn, in order.
unfoldable pub deliver : Caps → List Update → IssueWorkflow → IssueWorkflow
unfolding handle
deliver caps [] w = w
deliver caps (u ∷ us) w = deliver caps us (handle caps u w)

abbrev pub is_cancel : ApprovalKind → Bool
is_cancel cancel = true
is_cancel _ = false

abbrev pub is_approve : ApprovalKind → Bool
is_approve approve = true
is_approve _ = false

-- `_cancel_signal`
unfoldable pub cancel_signal : IssueWorkflow → Option ApprovalSignal
cancel_signal w = elim w.approval [
  | none ↦ none
  | some x ↦ if is_cancel x.kind then some x else none
]

abbrev pub awaits_approval : Option Label → Bool
awaits_approval (some awaiting_approval) = true
awaits_approval _ = false

abbrev pub awaits_merge : Option Label → Bool
awaits_merge (some awaiting_merge) = true
awaits_merge _ = false

pub data OpenGate : Type 0 where
  design_gate merge_gate : OpenGate

-- What `current_state_summary` says of the gates and of the comments.
pub record GateSummary : Type 0 where
  pub gate_pending : Bool
  pub pending_gate : Option OpenGate
  pub design_gate_pending : Bool
  pub merge_gate_pending : Bool
  pub approval_signal_pending : Bool
  pub last_seen : ℕ

unfoldable pub gate_summary : IssueWorkflow → GateSummary
gate_summary w =
    let label = w.state current_df_label in
    let a = awaits_approval label && not (is_some w.approval) in
    let m = awaits_merge label && not (is_some w.approval) in
    let seen = or_else (w.state last_seen_comment_id) 0 in
    let comments = or_else (w.state issue_comments) [] ++ w.new_comments in
    record {
      gate_pending = a || m;
      pending_gate = if a then some design_gate else if m then some merge_gate else none;
      design_gate_pending = a;
      merge_gate_pending = m;
      approval_signal_pending = is_some w.approval;
      last_seen = max seen (or_else (last_comment_id comments) 0);
    }
