-- ===== src/Tests/PlanRuns.antt =====
-- The plan stages with a planner, a sandbox and reports that always answer the same.
use local_dafa.Base.{
  ℕ, true, false, not, ◌&&◌, ◌||◌, none, some, [], ◌∷◌, ◌≡◌, ◌⊎◌, codes, pos, is_empty, any, ltb,
  or_else, if◌then◌else◌,
}
use local_dafa.State.Records.{CommandStep, junit_xml}
use local_dafa.State.Channels.{State, verification_plan}
use local_dafa.State.Merge.{Caps, merge, init_state}
use local_dafa.Verify.Summary.{is_zero, is_failed, is_hard, mechanical_summary}
use local_dafa.Verify.Plan.{plan_is_empty, Planned, unparsed, ensure_plan_node}
use local_dafa.Verify.Steps.{
  Runner, code_of, has_junit, parse_step_findings, execute_step, run_test_step, run_finding_step,
}
use local_dafa.Verify.PlanFacts.{
  ensure_plan_node-fails_closed, run_test_step_lem, run_finding_step_lem,
}
use local_dafa.Tests.Samples.{request, service, summary}

abbrev caps : Caps
caps = (service (summary true [])).caps

abbrev lost : State → Planned
lost _ = unparsed (codes "no output")

ensure_plan_node-fails_closed_example :
    (plan_is_empty (
        merge caps
          (init_state request)
          (ensure_plan_node lost (init_state request))
          verification_plan)
      ≡ false)
    ⊎ ((mechanical_summary
          (merge caps (init_state request) (ensure_plan_node lost (init_state request)))).passed
        ≡ false)
ensure_plan_node-fails_closed_example = ensure_plan_node-fails_closed caps lost (init_state request)

abbrev runner : Runner ℕ
runner = record {
  exec = λ argv timeout w. (
    record {
      returncode = some (pos 1);
      stdout = none;
      stderr = some (codes "boom");
      timed_out = false;
    },
    w,
  );
  read_junit_xml = λ paths w. record {
    parsed_files = false;
    passed = 0;
    failed = 0;
    parse_errors = [];
    executed_tests = [];
  };
  read_checkstyle_xml = λ paths tool w. [];
  read_sarif = λ paths tool w. [];
  any_report_file_exists = λ paths w. false;
}

abbrev step : CommandStep
step = record {
  name = some (codes "unit");
  argv = codes "make" ∷ codes "test" ∷ [];
  report_paths = codes "out.xml" ∷ [];
  report_kind = some junit_xml;
  required = none;
  timeout_s = none;
}

run_test_step_lem_example :
    let r = (execute_step runner step 0).0 in
    let report = runner.read_junit_xml step.report_paths (execute_step runner step 0).1 in
    is_failed (run_test_step runner step 0).0 ≡ (
      not (is_zero (code_of r))
      || (r.timed_out
          || (has_junit step && (ltb 0 report.failed || not (is_empty report.parse_errors)))))
run_test_step_lem_example = run_test_step_lem runner step 0

run_finding_step_lem_example :
    let r = (execute_step runner step 0).0 in
    let parsed = parse_step_findings runner step (execute_step runner step 0).1 in
    any is_hard (run_finding_step runner (codes "compile") step 0).0 ≡ (
      if parsed.1
      then any is_hard parsed.0
      else or_else step.required true && (not (is_zero (code_of r)) || r.timed_out))
run_finding_step_lem_example = run_finding_step_lem runner (codes "compile") step 0
