-- ===== src/State/Records.antt =====
-- src/darkfactory/state.py: the domain records and the Temporal inputs and outputs.
use local_dafa.Base.{ℤ, ℕ, Bool, Option, List, Text}

pub record IssueRef : Type 0 where
  pub repo : Text
  pub number : ℕ
  pub url : Text
  pub title : Text
  pub body : Text
  pub labels : List Text

-- The id is a REST number or a GraphQL node id, so it is kept as text.
pub record IssueComment : Type 0 where
  pub id : Text
  pub author : Text
  pub body : Text
  pub created_at : Text

pub record RunRequest : Type 0 where
  pub repo_url : Text
  pub repo_path : Text
  pub user_request : Text
  pub model_profile : Option Text

pub record IssueRunRequest : Type 0 where
  pub repo_url : Text
  pub repo_path : Text
  pub issue : IssueRef
  pub model_profile : Option Text

-- `edits` is a free-form dictionary that no modelled code reads.
pub record GateDecision : Type 0 where
  pub approved : Bool
  pub reason : Text
  pub edits : Option (List (Text × Text))

pub record ApprovalRecord : Type 0 where
  pub author : Text
  pub approved_at : Text
  pub spec_rev : ℕ
  pub comment_id : ℕ
  pub text : Text

-- The state labels `df:...` of src/darkfactory/runtime/issue_workflow.py.
pub data Label : Type 0 where
  ready triaging needs_clarification designing awaiting_approval approved building : Label
  verifying reviewing awaiting_merge fixing in_progress done needs_human cancel : Label
  canceled : Label

pub record WorkPackage : Type 0 where
  pub id : Text
  pub story_id : Text
  pub title : Text
  pub intent : Text
  pub verification : List Text
  pub repo_areas : List Text
  pub candidate_files : List Text
  pub dependencies : List Text
  pub estimated_scope : Text
  pub notes : List Text

pub record ContractChanges : Type 0 where
  pub api : List Text
  pub stored : List Text  -- the key `data`
  pub events : List Text

pub record ImplementationBrief : Type 0 where
  pub rev : ℕ
  pub problem : Text
  pub expected_behavior : List Text
  pub current_understanding : Text
  pub proposed_design : Text
  pub contract_changes : ContractChanges
  pub compatibility_risks : List Text
  pub open_assumptions : List Text
  pub test_strategy : Text
  pub work_packages : List WorkPackage

-- `str | list[str]`
pub data Predicates : Type 0 where
  one : Text → Predicates
  many : List Text → Predicates

-- The keys that are `NotRequired` are options.
pub record WorkPackageDict : Type 0 where
  pub story_id : Text
  pub approach : Text
  pub affected_files : List Text
  pub new_files : List Text
  pub test_files : List Text
  pub risks : List Text
  pub depends_on : List Text
  pub id : Option Text
  pub title : Option Text
  pub intent : Option Text
  pub verification : Option Predicates
  pub repo_areas : Option (List Text)
  pub candidate_files : Option (List Text)
  pub dependencies : Option (List Text)
  pub estimated_scope : Option Text
  pub notes : Option (List Text)

pub record TestResult : Type 0 where
  pub runner : Text
  pub returncode : ℤ
  pub passed : ℕ
  pub failed : ℕ
  pub errors : List Text
  pub executed_tests : List Text

pub data ReportKind : Type 0 where
  junit_xml checkstyle_xml sarif : ReportKind

-- A key that the planner left out is `none`.
pub record CommandStep : Type 0 where
  pub name : Option Text
  pub argv : List Text
  pub report_paths : List Text
  pub report_kind : Option ReportKind
  pub required : Option Bool
  pub timeout_s : Option ℕ

pub record VerificationPlan : Type 0 where
  pub test : Option CommandStep
  pub compile : Option CommandStep
  pub lint : List CommandStep
  pub notes : Text

pub data Severity : Type 0 where
  info warn error critical : Severity

pub record Finding : Type 0 where
  pub tool : Text
  pub severity : Severity
  pub file : Text
  pub line : ℕ
  pub rule : Text
  pub message : Text

pub record CoverageEntry : Type 0 where
  pub wp_id : Text
  pub predicate : Text
  pub test_names : List Text

pub data TesterKind : Type 0 where
  behavior_mismatch naming_mismatch unclear_predicate infeasible_predicate : TesterKind

pub record TesterFinding : Type 0 where
  pub kind : TesterKind
  pub wp_id : Text
  pub detail : Text

pub data EditOperation : Type 0 where
  create modify delete : EditOperation

pub record BuilderEditRecord : Type 0 where
  pub path : Text
  pub operation : EditOperation
  pub intent : Text

pub data BuilderStatus : Type 0 where
  done no_changes_needed blocked : BuilderStatus

pub record BuilderOutputRecord : Type 0 where
  pub wp_id : Text
  pub status : BuilderStatus
  pub edits : List BuilderEditRecord
  pub blockers : List Text
  pub summary : Text

pub record TesterOutputRecord : Type 0 where
  pub wp_id : Text
  pub summary : Text
  pub coverage : List CoverageEntry
  pub findings : List TesterFinding
  pub parse_failure : Bool

pub data ReconKind : Type 0 where
  builder_blocked builder_no_action claimed_edits_not_applied undeclared_edits : ReconKind
  tester_parse_failure fixer_blocked : ReconKind

pub record ReconciliationFinding : Type 0 where
  pub kind : ReconKind
  pub wp_id : Text
  pub producer : Text
  pub detail : Text
  pub claimed_paths : List Text
  pub actual_paths : List Text
  pub blockers : List Text

pub data CoverageStatus : Type 0 where
  covered uncovered weakly_covered : CoverageStatus

pub record PredicateCoverage : Type 0 where
  pub wp_id : Text
  pub predicate : Text
  pub status : CoverageStatus
  pub evidence : Text

-- One requested edit: a list, a dictionary or a plain value, each leaf as it is written out.
pub data ChangeValue : Type 0 where
  items : List Text → ChangeValue
  fields : List (Text × Text) → ChangeValue
  plain : Text → ChangeValue

-- What the Plan Critic asks of one work package: a dictionary, or anything else written out.
pub data Changes : Type 0 where
  by_field : List (Text × ChangeValue) → Changes
  whole : Text → Changes

-- `approved` is missing from a Reviewer's summary, and may be null.
pub record ReviewDecision : Type 0 where
  pub approved : Option Bool
  pub reason : Text
  pub edits : List (Text × Changes)
  pub notes : List Text

pub record VerifySummary : Type 0 where
  pub passed : Bool
  pub failed_tests : ℕ
  pub hard_findings : ℕ
  pub predicate_coverage : Option (List PredicateCoverage)
  pub uncovered_predicates : Option ℕ
  pub blocking_failures : Option ℕ

pub data FixerVerdict : Type 0 where
  fixed needs_brief_change cannot_fix : FixerVerdict

pub record FixerDecision : Type 0 where
  pub decision : FixerVerdict
  pub target_wp : Text
  pub target_predicates : List Text

pub record Escalation : Type 0 where
  pub reason : Text
  pub decision : Option Text
  pub target_wp : Option Text
  pub target_wps : Option (List Text)
  pub target_predicates : List Text
  pub summary : Option Text
  pub details : Option (List Text)

-- The entries of `attempt_log`, by their key `source`.
pub data AttemptEntry : Type 0 where
  fixer_attempt : ℕ → List Text → List Text → AttemptEntry
  fixer_escalation : Escalation → AttemptEntry

-- The optional keys are left out when empty.
pub record PlanningEntry : Type 0 where
  pub source : Text
  pub attempt : ℕ
  pub feedback : Option Text
  pub rev : Option ℕ
  pub next_rev : Option ℕ
  pub author : Option Text
  pub comment_id : Option ℕ

pub record UserStory : Type 0 where
  pub id : Text
  pub title : Text
  pub as_a : Text
  pub i_want : Text
  pub so_that : Text
  pub acceptance_criteria : List Text

pub record Patch : Type 0 where
  pub path : Text
  pub diff : Text
  pub author_agent : Text
  pub slice_id : Text
  pub sha : Option Text
  pub edit_kind : Option Text
  pub justification : Option Text
