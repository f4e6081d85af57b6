-- ===== src/Tests/Samples.antt =====
-- A service for `DarkFactoryWorkflow` and the requests and packages of the sample runs.
use local_dafa.Base.{Bool, true, none, some, List, [], ◌∷◌, Text, codes}
use local_dafa.State.Records.{
  GateDecision, RunRequest, VerifySummary, PredicateCoverage, WorkPackageDict, fixed,
}
use local_dafa.State.Channels.{Delta, verify_summary, current_slice, fixer_decision}
use local_dafa.Flow.Machine.{
  Activity, verify, fixer, Service, returned, failed, Reply, approve_brief, approve_merge,
}
use local_dafa.Flow.Run.{Fuel}

abbrev pub yes_please : GateDecision
yes_please = record { approved = true; reason = codes "fine"; edits = none }

abbrev pub request : RunRequest
request = record {
  repo_url = codes "https://example.org/r";
  repo_path = codes "/workspace";
  user_request = codes "add a button";
  model_profile = none;
}

abbrev pub summary : Bool → List PredicateCoverage → VerifySummary
summary passed coverage = record {
  passed = passed;
  failed_tests = 0;
  hard_findings = 0;
  predicate_coverage = some coverage;
  uncovered_predicates = none;
  blocking_failures = none;
}

-- Verification reports this summary, the Fixer turns to a slice and says that it fixed it, and no
-- other activity reports anything.
abbrev pub reports : VerifySummary → Activity → Delta
reports v verify verify_summary = some (some v)
reports v verify _ = none
reports v fixer current_slice = some (some (codes "wp-1"))
reports v fixer fixer_decision =
    some (some (record { decision = fixed; target_wp = codes "wp-1"; target_predicates = [] }))
reports v fixer _ = none
reports v _ c = none

-- Every activity succeeds, and both gates are approved at once.
abbrev pub service : VerifySummary → Service
service v = record {
  caps = record { attempts = 50; planning = 50 };
  reply = λ n a s. returned (reports v a);
  updates = λ n. approve_brief yes_please ∷ approve_merge yes_please ∷ [];
}

abbrev pub fuel : Fuel
fuel = record { rounds = 2; waits = 3; repairs = 3; merges = 2 }

abbrev pub delta_of : Reply → Delta → Delta
delta_of (returned d) e = d
delta_of (failed x) e = e

abbrev pub slice : Text → List Text → WorkPackageDict
slice id deps = record {
  story_id = id;
  approach = [];
  affected_files = [];
  new_files = [];
  test_files = [];
  risks = [];
  depends_on = deps;
  id = none;
  title = none;
  intent = none;
  verification = none;
  repo_areas = none;
  candidate_files = none;
  dependencies = none;
  estimated_scope = none;
  notes = none;
}
