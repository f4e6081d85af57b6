-- ===== src/Verify/Plan.antt =====
-- The discovery of a verification plan in src/darkfactory/stages/verify.py, against a planner.
use local_dafa.Base.{
  ◌+◌, Bool, true, false, not, ◌||◌, Option, none, some, [], ◌∷◌, ◌++◌, Text, codes, is_empty, any,
  strip, if◌then◌else◌, or_else,
}
use local_dafa.State.Records.{CommandStep, VerificationPlan, Finding, error}
use local_dafa.State.Channels.{State, Delta, verification_plan, verification_plan_rev, findings}

abbrev pub has_argv : CommandStep → Bool
has_argv step = not (is_empty step.argv)

abbrev pub option_has_argv : Option CommandStep → Bool
option_has_argv none = false
option_has_argv (some step) = has_argv step

-- A plan without a step to run.
unfoldable pub plan_is_empty : Option VerificationPlan → Bool
plan_is_empty none = true
plan_is_empty (some plan) =
    not (option_has_argv plan.test || (option_has_argv plan.compile || any has_argv plan.lint))

-- The planner's plan, or its ParseError.
pub data Planned : Type 0 where
  planned : Option VerificationPlan → Planned
  unparsed : Text → Planned

unfoldable pub planner_finding : Text → Text → Finding
planner_finding rule message = record {
  tool = codes "verify_planner";
  severity = error;
  file = codes "(verify_planner)";
  line = 0;
  rule = rule;
  message = message;
}

unfoldable pub plan_notes : Option VerificationPlan → Text
plan_notes none = []
plan_notes (some plan) = strip plan.notes

unfoldable pub empty_plan_message : Text → Text
empty_plan_message notes =
    codes "verify_planner emitted no executable steps"
    ++ (if is_empty notes then [] else codes "; notes: " ++ notes)

unfoldable pub no_delta : Delta
no_delta c = none

unfoldable pub unparsed_delta : Text → Delta
unparsed_delta message findings =
    some (some (planner_finding (codes "discovery_failed") message ∷ []))
unparsed_delta message _ = none

unfoldable pub plan_delta : State → Option VerificationPlan → Delta
plan_delta s plan verification_plan = some plan
plan_delta s plan verification_plan_rev = some (some (or_else (s verification_plan_rev) 0 + 1))
plan_delta s plan findings =
    if plan_is_empty plan
    then some
        (some (planner_finding (codes "empty_plan") (empty_plan_message (plan_notes plan)) ∷ []))
    else none
plan_delta s plan _ = none

unfoldable pub planned_delta : State → Planned → Delta
planned_delta s (unparsed message) = unparsed_delta message
planned_delta s (planned plan) = plan_delta s plan

-- `planner` is the agent's turn.
unfoldable pub ensure_plan_node : (State → Planned) → State → Delta
ensure_plan_node planner s =
    if plan_is_empty (s verification_plan) then planned_delta s (planner s) else no_delta
