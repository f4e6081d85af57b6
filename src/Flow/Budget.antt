-- ===== src/Flow/Budget.antt =====
-- The Fixer's budget: `_fixer_budget_exhaustion`, `_record_fixer_attempt_delta`, the escalations
-- and the build timeout of src/darkfactory/runtime/workflow.py.
use local_dafa.Base.{
  ℕ, ◌+◌, ◌*◌, min, max, Bool, true, false, ◌&&◌, Option, none, some, List, [], ◌∷◌, ◌++◌, Text,
  codes, is_empty, leb, length, filter, if◌then◌else◌, or_else, nat_eq, list_eq, Dict, get, insert,
}
use local_dafa.State.Records.{
  TesterFinding, infeasible_predicate, FixerDecision, FixerVerdict, needs_brief_change, cannot_fix,
  fixed, Escalation, fixer_attempt, fixer_escalation,
}
use local_dafa.State.Channels.{
  State, Delta, build_order, spec, tester_findings, fixer_attempts_by_wp,
  fixer_attempts_by_predicate, fixer_decision, attempt_log,
}
use local_dafa.Flow.Targets.{append_unique, fixer_failure_targets, unknown_fixer_target}

abbrev pub planning_max_attempts_cap : ℕ
planning_max_attempts_cap = 5

abbrev pub fixer_max_attempts : ℕ
fixer_max_attempts = 2

abbrev pub build_stage_base_minutes : ℕ
build_stage_base_minutes = 5

abbrev pub build_stage_per_wp_minutes : ℕ
build_stage_per_wp_minutes = 8

abbrev pub build_stage_max_minutes : ℕ
build_stage_max_minutes = 90

-- `a or b` for two counts.
abbrev pub or_count : ℕ → ℕ → ℕ
or_count a b = if leb a 0 then b else a

-- The start-to-close timeout of the build stage, in minutes.
unfoldable pub build_stage_timeout : State → ℕ
build_stage_timeout s =
    let n = or_count (length (or_else (s build_order) [])) (length (or_else (s spec) [])) in
    let wp_count = max 1 n in
    min build_stage_max_minutes (build_stage_base_minutes + build_stage_per_wp_minutes * wp_count)

abbrev pub Counts : Type 0
Counts = Dict Text ℕ

-- A target whose count has reached the maximum.
unfoldable pub is_exhausted : Counts → Text → Bool
is_exhausted counts t = leb fixer_max_attempts (get t 0 counts)

unfoldable pub fixer_budget_exhaustion : State → Option Escalation
unfolding is_exhausted
fixer_budget_exhaustion s =
    let targets = fixer_failure_targets s in
    let wps = filter (is_exhausted (or_else (s fixer_attempts_by_wp) [])) targets.wps in
    let predicates =
      filter (is_exhausted (or_else (s fixer_attempts_by_predicate) [])) targets.predicates in
    if is_empty wps && is_empty predicates
    then none
    else some (record {
      reason = codes "fixer_budget_exhausted";
      decision = none;
      target_wp = none;
      target_wps = some wps;
      target_predicates = predicates;
      summary = none;
      details = none;
    })

-- `for t in targets: counts[t] = counts.get(t, 0) + 1`
unfoldable pub bump_all : List Text → Counts → Counts
bump_all [] counts = counts
bump_all (t ∷ ts) counts = bump_all ts (insert t (get t 0 counts + 1) counts)

-- The numbers that the loop appends to `attempt_numbers`.
unfoldable pub attempt_numbers : List Text → Counts → List ℕ
attempt_numbers [] counts = []
attempt_numbers (t ∷ ts) counts =
    (get t 0 counts + 1) ∷ attempt_numbers ts (insert t (get t 0 counts + 1) counts)

unfoldable pub max_of : ℕ → List ℕ → ℕ
max_of m [] = m
max_of m (n ∷ ns) = max_of (max m n) ns

-- `max(numbers or [1])`
unfoldable pub max_attempt : List ℕ → ℕ
unfolding max_of
max_attempt [] = 1
max_attempt (n ∷ ns) = max_of n ns

unfoldable pub record_fixer_attempt_delta : State → Delta
record_fixer_attempt_delta s fixer_attempts_by_wp =
    some (some (bump_all (fixer_failure_targets s).wps (or_else (s fixer_attempts_by_wp) [])))
record_fixer_attempt_delta s fixer_attempts_by_predicate = some (
    some
      (bump_all (fixer_failure_targets s).predicates (or_else (s fixer_attempts_by_predicate) [])))
record_fixer_attempt_delta s attempt_log =
    let targets = fixer_failure_targets s in
    let numbers =
      attempt_numbers targets.wps (or_else (s fixer_attempts_by_wp) [])
      ++ attempt_numbers targets.predicates (or_else (s fixer_attempts_by_predicate) []) in
    some (some (fixer_attempt (max_attempt numbers) targets.wps targets.predicates ∷ []))
record_fixer_attempt_delta s _ = none

abbrev pub is_infeasible : TesterFinding → Bool
is_infeasible f = elim f.kind [ infeasible_predicate ↦ true | _ ↦ false ]

unfoldable pub infeasible_wps : List TesterFinding → List Text → List Text
infeasible_wps [] wps = wps
infeasible_wps (f ∷ fs) wps = infeasible_wps fs (append_unique wps f.wp_id)

unfoldable pub infeasible_details : List TesterFinding → List Text → List Text
infeasible_details [] details = details
infeasible_details (f ∷ fs) details = infeasible_details fs (append_unique details f.detail)

abbrev pub first_or : List Text → Text → Text
first_or [] d = d
first_or (t ∷ ts) d = t

unfoldable pub infeasible_predicate_escalation : State → Option Escalation
infeasible_predicate_escalation s =
    let infeasible = filter is_infeasible (or_else (s tester_findings) []) in
    let wps = infeasible_wps infeasible [] in
    if is_empty infeasible
    then none
    else some (record {
      reason = codes "needs_brief_change";
      decision = some (codes "infeasible_predicate");
      target_wp = some (first_or wps unknown_fixer_target);
      target_wps = some (if is_empty wps then unknown_fixer_target ∷ [] else wps);
      target_predicates = [];
      summary = some (
          codes
            "Tester reported infeasible_predicate; brief revision required before Build can proceed.");
      details = some (infeasible_details infeasible []);
    })

-- An escalation that repeats what the Fixer decided.
unfoldable pub verdict_escalation : Text → Text → FixerDecision → Escalation
verdict_escalation reason verdict d = record {
  reason = reason;
  decision = some verdict;
  target_wp = some d.target_wp;
  target_wps = none;
  target_predicates = d.target_predicates;
  summary = none;
  details = none;
}

unfoldable pub decision_escalation : FixerDecision → FixerVerdict → Option Escalation
unfolding verdict_escalation
decision_escalation d needs_brief_change =
    some (verdict_escalation (codes "needs_brief_change") (codes "needs_brief_change") d)
decision_escalation d cannot_fix =
    some (verdict_escalation (codes "fixer_cannot_fix") (codes "cannot_fix") d)
decision_escalation d fixed = none

unfoldable pub fixer_decision_escalation : State → Option Escalation
unfolding decision_escalation
fixer_decision_escalation s = elim (s fixer_decision) [
  | none ↦ none
  | some d ↦ decision_escalation d d.decision
]

unfoldable pub fixer_escalation_delta : Escalation → Delta
fixer_escalation_delta e attempt_log = some (some (fixer_escalation e ∷ []))
fixer_escalation_delta e _ = none
