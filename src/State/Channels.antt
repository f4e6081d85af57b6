-- ===== src/State/Channels.antt =====
-- The channels of `PipelineState` (src/darkfactory/state.py) with the keys that the workflows add,
-- and a state as what each channel holds. `none` stands for a missing key and for None, which no
-- reader and no reducer tells apart.
use local_dafa.Base.{ℕ, Bool, Option, List, Text, Dict}
use local_dafa.State.Records.{
  IssueRef, IssueComment, UserStory, ImplementationBrief, WorkPackageDict, WorkPackage, Patch,
  CoverageEntry, TesterFinding, BuilderOutputRecord, TesterOutputRecord, ReconciliationFinding,
  TestResult, Finding, VerificationPlan, VerifySummary, FixerDecision, AttemptEntry, PlanningEntry,
  ReviewDecision, ApprovalRecord, Label,
}

pub data Channel : Type 0 where
  user_request repo_path repo_url model_profile wf_id task_id feature_branch issue : Channel
  issue_comments ready_to_build clarification_questions derived_user_request : Channel
  confidence rationale stories implementation_brief spec work_packages build_order : Channel
  current_slice builder_summary patches coverage_entries tester_findings : Channel
  builder_outputs tester_outputs reconciliation_findings test_results findings : Channel
  verification_plan verification_plan_rev verify_summary verify_retries : Channel
  fixer_attempts_by_predicate fixer_attempts_by_wp fixer_decision attempt_log : Channel
  planning_attempts planning_max_attempts planning_feedback planning_attempt_log : Channel
  review_decision pr_url changelog_entry phase_comment_ids latest_spec_rev : Channel
  approval_record approved_spec_rev approved_spec_markdown last_seen_comment_id : Channel
  gate_approved brief_gate_approved brief_gate_reason merge_gate_approved : Channel
  merge_gate_reason human_fix_focus human_fix_author human_rebuild_focus : Channel
  human_rebuild_author : Channel
  current_df_label clarification_rounds abandoned_reason revision_feedback : Channel
  latest_spec_markdown merge_gate_author : Channel

abbrev pub Content : Channel → Type 0
Content user_request = Text
Content repo_path = Text
Content repo_url = Text
Content model_profile = Text
Content wf_id = Text
Content task_id = Text
Content feature_branch = Text
Content issue = IssueRef
Content issue_comments = List IssueComment
Content ready_to_build = Bool
Content clarification_questions = List Text
Content derived_user_request = Text
Content confidence = Text
Content rationale = Text
Content stories = List UserStory
Content implementation_brief = ImplementationBrief
Content spec = List WorkPackageDict
Content work_packages = List WorkPackage
Content build_order = List Text
Content current_slice = Text
Content builder_summary = Text
Content patches = List Patch
Content coverage_entries = List CoverageEntry
Content tester_findings = List TesterFinding
Content builder_outputs = List BuilderOutputRecord
Content tester_outputs = List TesterOutputRecord
Content reconciliation_findings = List ReconciliationFinding
Content test_results = List TestResult
Content findings = List Finding
Content verification_plan = VerificationPlan
Content verification_plan_rev = ℕ
Content verify_summary = VerifySummary
Content verify_retries = ℕ
Content fixer_attempts_by_predicate = Dict Text ℕ
Content fixer_attempts_by_wp = Dict Text ℕ
Content fixer_decision = FixerDecision
Content attempt_log = List AttemptEntry
Content planning_attempts = ℕ
Content planning_max_attempts = ℕ
Content planning_feedback = List Text
Content planning_attempt_log = List PlanningEntry
Content review_decision = ReviewDecision
Content pr_url = Text
Content changelog_entry = Text
Content phase_comment_ids = Dict Text ℕ
Content latest_spec_rev = ℕ
Content approval_record = ApprovalRecord
Content approved_spec_rev = ℕ
Content approved_spec_markdown = Text
Content last_seen_comment_id = ℕ
Content gate_approved = Bool
Content brief_gate_approved = Bool
Content brief_gate_reason = Text
Content merge_gate_approved = Bool
Content merge_gate_reason = Text
Content human_fix_focus = Text
Content human_fix_author = Text
Content human_rebuild_focus = Text
Content human_rebuild_author = Text
Content current_df_label = Label
Content clarification_rounds = ℕ
Content abandoned_reason = Text
Content revision_feedback = Text
Content latest_spec_markdown = Text
Content merge_gate_author = Text

abbrev pub State : Type 0
State = (c : Channel) → Option (Content c)

-- What an activity returns: a channel is left alone, or set to None or to a value.
abbrev pub Delta : Type 0
Delta = (c : Channel) → Option (Option (Content c))
