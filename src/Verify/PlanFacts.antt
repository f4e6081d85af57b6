-- ===== src/Verify/PlanFacts.antt =====
-- What fails in the plan stages of src/darkfactory/stages/verify.py.
use local_dafa.Base.{
  Option, none, true, false, not, ◌&&◌, ◌||◌, some, List, [], ◌∷◌, ◌++◌, ◌≡◌, ◌⊎◌, refl, inl, inr,
  ap, ◌∙◌, arith, Text, codes, is_empty, any, filter, length, filter-append, length-append, ltb,
  or_else, if◌then◌else◌, Bool-cases, Option-cases, ◌==◌, nat_eq,
}
use local_dafa.State.Records.{VerificationPlan, CommandStep, Finding}
use local_dafa.State.Channels.{State, Delta, verification_plan, findings}
use local_dafa.State.Merge.{Caps, merge, reducer}
use local_dafa.Verify.Summary.{is_zero, is_failed, is_hard, mechanical_summary}
use local_dafa.Verify.Plan.{
  plan_is_empty, Planned, planned, unparsed, planner_finding, plan_notes, empty_plan_message,
  no_delta, unparsed_delta, plan_delta, planned_delta, ensure_plan_node,
}
use local_dafa.Verify.Steps.{
  StepResult, JunitSummary, Runner, code_of, stderr_tail, has_junit, timeout_errors, exit_errors,
  junit_errors, unless_blank, test_result, exit_findings, parse_step_findings, execute_step,
  run_test_step, run_finding_step,
}

hard_counts :
    (fs : List Finding) (f : Finding)
    → is_hard f ≡ true
    → (length (filter is_hard (fs ++ f ∷ [])) == 0) ≡ false
hard_counts fs f h =
    let one : filter is_hard (f ∷ []) ≡ f ∷ [] = rw h in
    rw (filter-append is_hard fs (f ∷ []), one, length-append (filter is_hard fs) (f ∷ []))
      (ground arith)

merged_findings :
    (k : Caps) (s : State) (d : Delta) (f : Finding)
    → d findings ≡ some (some (f ∷ []))
    → or_else (merge k s d findings) [] ≡ or_else (s findings) [] ++ f ∷ []
unfolding merge reducer local_dafa.State.Reducers.add
merged_findings k s d f h = elim (Option-cases (s findings)) [
  | inl e ↦ rw (h, e)
  | inr (fs, e) ↦ rw (h, e)
]

-- A state whose findings end with a hard one does not pass.
hard_fails :
    (s : State) (fs : List Finding) (f : Finding)
    → or_else (s findings) [] ≡ fs ++ f ∷ []
    → is_hard f ≡ true
    → (mechanical_summary s).passed ≡ false
unfolding mechanical_summary
hard_fails s fs f e h =
    let counted : (length (filter is_hard (or_else (s findings) [])) == 0) ≡ false =
      ap (λ l. length (filter is_hard l) == 0) e ∙ hard_counts fs f h in
    ground (arith, counted)

empty_plan_fails :
    (k : Caps) (s : State) (plan : Option VerificationPlan)
    → plan_is_empty plan ≡ true
    → (mechanical_summary (merge k s (plan_delta s plan))).passed ≡ false
empty_plan_fails k s plan e =
    let f = planner_finding (codes "empty_plan") (empty_plan_message (plan_notes plan)) in
    let added : plan_delta s plan findings ≡ some (some (f ∷ [])) = (unfold plan_delta in rw e) in
    hard_fails (merge k s (plan_delta s plan)) (or_else (s findings) []) f
      (merged_findings k s (plan_delta s plan) f added) (unfold is_hard planner_finding in refl)

merged_plan :
    (k : Caps) (s : State) (plan : VerificationPlan)
    → merge k s (plan_delta s (some plan)) verification_plan ≡ some plan
unfolding merge reducer plan_delta local_dafa.State.Reducers.overwrite
merged_plan k s plan = elim (Option-cases (s verification_plan)) [
  | inl e ↦ rw e
  | inr (p, e) ↦ rw e
]

planned-fails_closed :
    (k : Caps) (s : State) (p : Planned)
    → (plan_is_empty (merge k s (planned_delta s p) verification_plan) ≡ false)
      ⊎ ((mechanical_summary (merge k s (planned_delta s p))).passed ≡ false)
unfolding planned_delta
planned-fails_closed k s (unparsed m) =
    let f = planner_finding (codes "discovery_failed") m in
    let added : unparsed_delta m findings ≡ some (some (f ∷ [])) =
      (unfold unparsed_delta in refl) in
    inr (
      hard_fails (merge k s (unparsed_delta m)) (or_else (s findings) []) f
        (merged_findings k s (unparsed_delta m) f added) (unfold is_hard planner_finding in refl))
planned-fails_closed k s (planned none) =
    inr (empty_plan_fails k s none (unfold plan_is_empty in refl))
planned-fails_closed k s (planned (some plan)) = elim (Bool-cases (plan_is_empty (some plan))) [
  | inr e ↦ inl (ap plan_is_empty (merged_plan k s plan) ∙ e)
  | inl e ↦ inr (empty_plan_fails k s (some plan) e)
]

-- Verification does not pass while there is no plan to run: after the planner's turn and the merge
-- of what it returned, the state has a plan with a step to run, or the mechanical verdict fails.
pub ensure_plan_node-fails_closed :
    (k : Caps) (planner : State → Planned) (s : State)
    → (plan_is_empty (merge k s (ensure_plan_node planner s) verification_plan) ≡ false)
      ⊎ ((mechanical_summary (merge k s (ensure_plan_node planner s))).passed ≡ false)
unfolding ensure_plan_node
ensure_plan_node-fails_closed k planner s =
    elim (Bool-cases (plan_is_empty (s verification_plan))) [
      | inr e ↦ inl (rw e (unfold merge reducer no_delta in e))
      | inl e ↦ rw e (planned-fails_closed k s (planner s))
    ]

exit_errors-nonempty : (r : StepResult) → is_empty (exit_errors r) ≡ is_zero (code_of r)
unfolding exit_errors
exit_errors-nonempty r = ground arith

timeout_errors-nonempty :
    (r : StepResult) (xs : List Text)
    → is_empty (timeout_errors r ++ xs) ≡ (not r.timed_out && is_empty xs)
timeout_errors-nonempty r xs = ground arith

is_empty-append : (xs ys : List Text) → is_empty (xs ++ ys) ≡ (is_empty xs && is_empty ys)
is_empty-append [] ys = refl
is_empty-append (x ∷ xs) ys = refl

junit_errors-nonempty :
    (r : StepResult) (report : JunitSummary)
    → is_empty (junit_errors r report)
      ≡ ((report.parsed_files || is_zero (code_of r)) && is_empty report.parse_errors)
unfolding junit_errors
junit_errors-nonempty r report =
    elim (Bool-cases (not report.parsed_files && not (is_zero (code_of r)))) [
      | inr e ↦ rw e (ground (arith, e))
      | inl e ↦
          let gone = is_empty-append (unless_blank (stderr_tail r)) in
          rw e (ground (arith, e, is_empty-append (unless_blank (stderr_tail r))))
    ]

test_result-is_failed :
    (step : CommandStep) (r : StepResult) (report : JunitSummary)
    → is_failed (test_result step r report) ≡ (
        not (is_zero (code_of r))
        || (r.timed_out
            || (has_junit step && (ltb 0 report.failed || not (is_empty report.parse_errors)))))
unfolding test_result is_failed
test_result-is_failed step r report = elim (Bool-cases (has_junit step)) [
  | inl e ↦
      rw (e, timeout_errors-nonempty r (junit_errors r report), junit_errors-nonempty r report)
        (ground arith)
  | inr e ↦ rw (e, timeout_errors-nonempty r (exit_errors r), exit_errors-nonempty r) (ground arith)
]

exit_findings-hard :
    (step : CommandStep) (default_rule : Text) (r : StepResult)
    → any is_hard (exit_findings step default_rule r)
      ≡ (or_else step.required true && (not (is_zero (code_of r)) || r.timed_out))
unfolding exit_findings is_hard
exit_findings-hard step default_rule r = elim (Bool-cases (or_else step.required true)) [
  | inl e ↦ rw e (ground arith)
  | inr e ↦ rw e (ground arith)
]

-- A test step, required or not, counts as failed exactly when its exit code is not zero, it timed
-- out, or its JUnit reports, where the step declares any, have a failed test or could not be parsed.
pub run_test_step_lem :
    {W : Type 0} (runner : Runner W) (step : CommandStep) (w : W)
    → let r = (execute_step runner step w).0 in
      let report = runner.read_junit_xml step.report_paths (execute_step runner step w).1 in
      is_failed (run_test_step runner step w).0 ≡ (
        not (is_zero (code_of r))
        || (r.timed_out
            || (has_junit step && (ltb 0 report.failed || not (is_empty report.parse_errors)))))
unfolding run_test_step
run_test_step_lem runner step w =
    test_result-is_failed step (execute_step runner step w).0
      (runner.read_junit_xml step.report_paths (execute_step runner step w).1)

-- A compile or lint step without a report has a hard finding exactly when it is required and
-- failed or timed out; with a report, exactly when the report has one.
pub run_finding_step_lem :
    {W : Type 0} (runner : Runner W) (default_rule : Text) (step : CommandStep) (w : W)
    → let r = (execute_step runner step w).0 in
      let parsed = parse_step_findings runner step (execute_step runner step w).1 in
      any is_hard (run_finding_step runner default_rule step w).0 ≡ (
        if parsed.1
        then any is_hard parsed.0
        else or_else step.required true && (not (is_zero (code_of r)) || r.timed_out))
unfolding run_finding_step
run_finding_step_lem runner default_rule step w =
    let parsed = parse_step_findings runner step (execute_step runner step w).1 in
    elim (Bool-cases parsed.1) [
      | inl e ↦ rw e
      | inr e ↦ rw e (exit_findings-hard step default_rule (execute_step runner step w).0)
    ]
