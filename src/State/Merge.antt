-- ===== src/State/Merge.antt =====
-- `merge`, the reducer table and the initial states of src/darkfactory/state.py.
use local_dafa.Base.{ℕ, false, Option, none, some, [], codes, text_or}
use local_dafa.State.Records.{RunRequest, IssueRunRequest}
use local_dafa.State.Channels.{
  Channel, Content, State, Delta, user_request, repo_path, repo_url, model_profile, wf_id, task_id,
  feature_branch, stories, spec, patches, coverage_entries, tester_findings, builder_outputs,
  tester_outputs, reconciliation_findings, test_results, findings, attempt_log,
  planning_attempt_log, issue, issue_comments, verify_retries, fixer_attempts_by_predicate,
  fixer_attempts_by_wp, planning_attempts, planning_feedback, gate_approved, phase_comment_ids,
  latest_spec_rev, last_seen_comment_id, planning_max_attempts, brief_gate_approved,
  brief_gate_reason, merge_gate_approved, merge_gate_reason, human_fix_focus, human_fix_author,
  human_rebuild_focus, human_rebuild_author, current_df_label, clarification_rounds,
  abandoned_reason, revision_feedback, latest_spec_markdown, merge_gate_author,
}
use local_dafa.State.Reducers.{
  add, bounded_add, overwrite, merge_work_packages, merge_issue_comments,
}

-- The two caps, resolved once when the module is loaded.
pub record Caps : Type 0 where
  pub attempts : ℕ
  pub planning : ℕ

-- `_PIPELINE_REDUCERS.get(key)`: `none` for a channel with no annotation and for an added key.
unfoldable pub reducer : Caps → (c : Channel) → Option (Content c → Content c → Content c)
reducer k issue_comments = some merge_issue_comments
reducer k stories = some add
reducer k spec = some merge_work_packages
reducer k patches = some add
reducer k coverage_entries = some add
reducer k tester_findings = some add
reducer k builder_outputs = some add
reducer k tester_outputs = some add
reducer k reconciliation_findings = some add
reducer k test_results = some add
reducer k findings = some add
reducer k attempt_log = some (bounded_add k.attempts)
reducer k planning_attempt_log = some (bounded_add k.planning)
reducer k user_request = none
reducer k repo_path = none
reducer k repo_url = none
reducer k model_profile = none
reducer k wf_id = none
reducer k task_id = none
reducer k feature_branch = none
reducer k gate_approved = none
reducer k planning_max_attempts = none
reducer k brief_gate_approved = none
reducer k brief_gate_reason = none
reducer k merge_gate_approved = none
reducer k merge_gate_reason = none
reducer k human_fix_focus = none
reducer k human_fix_author = none
reducer k human_rebuild_focus = none
reducer k human_rebuild_author = none
reducer k current_df_label = none
reducer k clarification_rounds = none
reducer k abandoned_reason = none
reducer k revision_feedback = none
reducer k latest_spec_markdown = none
reducer k merge_gate_author = none
reducer k c = some overwrite

-- One turn of the loop of `merge`, for a key that the delta may lack.
abbrev pub merge_value : {A : Type 0} → Option (A → A → A) → Option A → Option (Option A) → Option A
merge_value r existing none = existing
merge_value r existing (some none) = none
merge_value none existing (some (some v)) = some v
merge_value (some f) none (some (some v)) = some v
merge_value (some f) (some old) (some (some v)) = some (f old v)

unfoldable pub merge : Caps → State → Delta → State
merge k s d c = merge_value (reducer k c) (s c) (d c)

unfoldable pub init_state : RunRequest → State
init_state req user_request = some req.user_request
init_state req repo_path = some req.repo_path
init_state req repo_url = some req.repo_url
init_state req model_profile = some (text_or req.model_profile (codes "claude"))
init_state req verify_retries = some 0
init_state req fixer_attempts_by_predicate = some []
init_state req fixer_attempts_by_wp = some []
init_state req attempt_log = some []
init_state req planning_attempts = some 0
init_state req planning_feedback = some []
init_state req planning_attempt_log = some []
init_state req gate_approved = some false
init_state req phase_comment_ids = some []
init_state req latest_spec_rev = some 1
init_state req last_seen_comment_id = some 0
init_state req _ = none

unfoldable pub init_state_from_issue : IssueRunRequest → State
init_state_from_issue req issue = some req.issue
init_state_from_issue req issue_comments = some []
init_state_from_issue req repo_path = some req.repo_path
init_state_from_issue req repo_url = some req.repo_url
init_state_from_issue req model_profile = some (text_or req.model_profile (codes "claude"))
init_state_from_issue req verify_retries = some 0
init_state_from_issue req fixer_attempts_by_predicate = some []
init_state_from_issue req fixer_attempts_by_wp = some []
init_state_from_issue req attempt_log = some []
init_state_from_issue req planning_attempts = some 0
init_state_from_issue req planning_feedback = some []
init_state_from_issue req planning_attempt_log = some []
init_state_from_issue req gate_approved = some false
init_state_from_issue req phase_comment_ids = some []
init_state_from_issue req latest_spec_rev = some 1
init_state_from_issue req last_seen_comment_id = some 0
init_state_from_issue req _ = none
