-- ===== src/Verify/Steps.antt =====
-- The execution of a verification plan in src/darkfactory/stages/verify.py, against a sandbox and the
-- report readers.
use local_dafa.Base.{
  ℕ, zero, suc, Bool, true, false, not, ◌&&◌, Option, none, some, List, [], ◌∷◌, ◌++◌, Text, codes,
  is_empty, last_n, strip, rstrip, join, splitlines, show_int, if◌then◌else◌, or_else, ℤ, negsuc,
}
use local_dafa.State.Records.{
  CommandStep, VerificationPlan, TestResult, Finding, warn, error, ReportKind, junit_xml,
  checkstyle_xml, sarif,
}
use local_dafa.State.Channels.{State, Delta, verification_plan, findings, test_results}
use local_dafa.Verify.Summary.{is_zero}
use local_dafa.Verify.Plan.{has_argv, plan_is_empty, no_delta}

-- What the sandbox's `exec` returns for a step.
pub record StepResult : Type 0 where
  pub returncode : Option ℤ
  pub stdout : Option Text
  pub stderr : Option Text
  pub timed_out : Bool

-- What the JUnit reports of a step say.
pub record JunitSummary : Type 0 where
  pub parsed_files : Bool
  pub passed : ℕ
  pub failed : ℕ
  pub parse_errors : List Text
  pub executed_tests : List Text

-- The sandbox and the readers of report files.
pub record Runner (W : Type 0) : Type 0 where
  pub exec : List Text → ℕ → W → StepResult × W
  pub read_junit_xml : List Text → W → JunitSummary
  pub read_checkstyle_xml : List Text → Text → W → List Finding
  pub read_sarif : List Text → Text → W → List Finding
  pub any_report_file_exists : List Text → W → Bool

-- `int(result.get("returncode", -1))`
abbrev pub code_of : StepResult → ℤ
code_of r = or_else r.returncode (negsuc 0)

-- The last lines of the error output, or of the output.
unfoldable pub stderr_tail : StepResult → Text
stderr_tail r =
    let err = strip (or_else r.stderr []) in
    let out = strip (or_else r.stdout []) in
    join (10 ∷ []) (last_n 20 (splitlines (if is_empty err then out else err)))

unfoldable pub timeout_of : Option ℕ → ℕ
timeout_of none = 600
timeout_of (some zero) = 600
timeout_of (some (suc n)) = suc n

abbrev pub name_or : Text → Option Text → Text
name_or d none = d
name_or d (some []) = d
name_or d (some (c ∷ s)) = c ∷ s

abbrev pub kind_name : ReportKind → Text
kind_name junit_xml = codes "junit-xml"
kind_name checkstyle_xml = codes "checkstyle-xml"
kind_name sarif = codes "sarif"

abbrev pub unless_blank : Text → List Text
unless_blank [] = []
unless_blank (c ∷ s) = (c ∷ s) ∷ []

abbrev pub timeout_errors : StepResult → List Text
timeout_errors r = if r.timed_out then codes "timed_out" ∷ [] else []

-- A step whose JUnit reports are read.
abbrev pub has_junit : CommandStep → Bool
has_junit step = elim step.report_kind [
  | some junit_xml ↦ not (is_empty step.report_paths)
  | _ ↦ false
]

-- Without a report the exit code decides.
unfoldable pub exit_errors : StepResult → List Text
exit_errors r =
    let tail = stderr_tail r in
    if is_zero (code_of r)
    then []
    else (if is_empty tail
        then codes "test step exited non-zero (" ++ (show_int (code_of r) ++ codes ")")
        else tail)
      ∷ []

unfoldable pub junit_errors : StepResult → JunitSummary → List Text
junit_errors r summary =
    (if not summary.parsed_files && not (is_zero (code_of r))
      then unless_blank (stderr_tail r)
        ++ codes "junit-xml report files declared but none were emitted by the test step" ∷ []
      else [])
    ++ summary.parse_errors

unfoldable pub test_result : CommandStep → StepResult → JunitSummary → TestResult
test_result step r summary =
    let name = name_or (codes "test") step.name in
    if has_junit step
    then record {
      runner = name;
      returncode = code_of r;
      passed = summary.passed;
      failed = summary.failed;
      errors = timeout_errors r ++ junit_errors r summary;
      executed_tests = summary.executed_tests;
    }
    else record {
      runner = name;
      returncode = code_of r;
      passed = 0;
      failed = 0;
      errors = timeout_errors r ++ exit_errors r;
      executed_tests = [];
    }

-- The finding of a step that failed and has no report.
unfoldable pub exit_findings : CommandStep → Text → StepResult → List Finding
exit_findings step default_rule r =
    let name = name_or default_rule step.name in
    let tail = stderr_tail r in
    let message =
      if is_empty tail
      then name ++ (codes " exited non-zero (" ++ (show_int (code_of r) ++ codes ")"))
      else tail in
    if is_zero (code_of r) && not r.timed_out
    then []
    else record {
      tool = name;
      severity = if or_else step.required true then error else warn;
      file = codes "(" ++ (name ++ codes ")");
      line = 0;
      rule = default_rule;
      message =
          if r.timed_out then rstrip (name ++ (codes ": timed_out" ++ 10 ∷ message)) else message;
    }
      ∷ []

module _ {W : Type 0} (runner : Runner W) where
  unfoldable pub parse_step_findings : CommandStep → W → List Finding × Bool
  parse_step_findings step w =
      let exists = runner.any_report_file_exists step.report_paths w in
      if is_empty step.report_paths then ([], false) else elim step.report_kind [
        | none ↦ ([], false)
        | some checkstyle_xml ↦ (
          runner.read_checkstyle_xml step.report_paths
              (name_or (kind_name checkstyle_xml) step.name) w,
          exists,
        )
        | some sarif ↦
            (runner.read_sarif step.report_paths (name_or (kind_name sarif) step.name) w, exists)
        | some junit_xml ↦ ([], exists)
      ]

  unfoldable pub execute_step : CommandStep → W → StepResult × W
  execute_step step w = runner.exec step.argv (timeout_of step.timeout_s) w

  unfoldable pub run_test_step : CommandStep → W → TestResult × W
  run_test_step step w =
      let (r, w') = execute_step step w in
      (test_result step r (runner.read_junit_xml step.report_paths w'), w')

  unfoldable pub run_finding_step : Text → CommandStep → W → List Finding × W
  run_finding_step default_rule step w =
      let (r, w') = execute_step step w in
      let (found, parsed_any) = parse_step_findings step w' in
      (if parsed_any then found else exit_findings step default_rule r, w')

  unfoldable pub run_tests : Option CommandStep → W → List TestResult × W
  run_tests none w = ([], w)
  run_tests (some step) w =
      let (r, w') = run_test_step step w in if has_argv step then (r ∷ [], w') else ([], w)

  unfoldable pub run_compile : Option CommandStep → W → List Finding × W
  run_compile none w = ([], w)
  run_compile (some step) w =
      let ran = run_finding_step (codes "compile") step w in if has_argv step then ran else ([], w)

  unfoldable pub run_lint : List CommandStep → W → List Finding × W
  run_lint [] w = ([], w)
  run_lint (step ∷ steps) w =
      let skipped = run_lint steps w in
      let (found, w') = run_finding_step (codes "lint") step w in
      let (rest, w'') = run_lint steps w' in if has_argv step then (found ++ rest, w'') else skipped

  -- What the steps add to the state; nothing where they found nothing.
  unfoldable pub evidence_delta : List TestResult → List Finding → Delta
  evidence_delta results found test_results = if is_empty results then none else some (some results)
  evidence_delta results found findings = if is_empty found then none else some (some found)
  evidence_delta results found _ = none

  unfoldable pub run_steps : VerificationPlan → W → Delta × W
  run_steps plan w =
      let (results, w1) = run_tests plan.test w in
      let (compiled, w2) = run_compile plan.compile w1 in
      let (linted, w3) = run_lint plan.lint w2 in (evidence_delta results (compiled ++ linted), w3)

  -- `ready` is whether there are a context and a sandbox.
  unfoldable pub run_plan_node : Bool → State → W → Delta × W
  run_plan_node ready s w =
      let plan = s verification_plan in
      elim plan [
        | none ↦ (no_delta, w)
        | some p ↦
            let ran = run_steps p w in
            if ready && not (plan_is_empty (some p)) then ran else (no_delta, w)
      ]
