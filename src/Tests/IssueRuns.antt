-- ===== src/Tests/IssueRuns.antt =====
-- Runs of `DarkFactoryIssueWorkflow` on a service that approves both gates.
use local_dafa.Base.{
  ℕ, ◌≤◌, true, false, none, some, List, [], ◌∷◌, ◌++◌, ◌≡◌, ◌⊎◌, refl, ap, codes, nat_beq, show,
  if◌then◌else◌,
}
use mathlib.Core.Path.{subst}
use local_dafa.State.Records.{GateDecision, IssueComment, IssueRunRequest, Label}
use local_dafa.State.Channels.{Delta, ready_to_build, verify_summary, current_df_label}
use local_dafa.Flow.Machine.{ok}
use local_dafa.Approval.Commands.{ApprovalSignal, approve}
use local_dafa.Issue.Machine.{
  Activity, Service, Reply, returned, failed, Update, approve_brief, approve_merge, signal_approval,
  triage_stage, verify_stage, hydrate, IssueWorkflow, Phase,
}
use local_dafa.Issue.Steps.{stage, swap}
use local_dafa.Issue.Run.{Fuel, run, start}
use local_dafa.Issue.Design
use local_dafa.Issue.Review
use local_dafa.Issue.Triage.{triage_loop}
use local_dafa.Issue.Markers.{marker_for}
use local_dafa.Issue.Comments.{filter_dark_factory_marker_comments}
use local_dafa.Issue.Signals.{design_gate, merge_gate}
use local_dafa.Issue.Logic.{Passed}
use local_dafa.Issue.Rules.{RepliesLeaveLabel}
use local_dafa.Issue.RunEnds.{RunEnds, run_refines_life}
use local_dafa.Issue.LifeFacts.{merges, clarifications}
use local_dafa.Issue.Labels.{labels_after}
use local_dafa.Issue.Promises.{
  HasFewLabels, merge_takes_two_approvals, run_keeps_few_labels, run_clarifies_at_most_thrice,
}
use local_dafa.Issue.TriageEnds.{triage_needs_four_rounds}
use local_dafa.Issue.MarkerFacts.{phase_comments_are_dropped}
use local_dafa.Issue.SeenFacts.{last_seen, newest, swap_keeps_ids_stage_loses_them}
use local_dafa.Issue.GateShown.{Shows, open_gates_are_shown}
use local_dafa.Tests.Samples.{summary}

abbrev nothing : Delta
nothing _ = none

-- Triage finds the issue ready, verification passes, and no other activity reports anything.
abbrev ready_delta : Delta
ready_delta ready_to_build = some (some true)
ready_delta _ = none

abbrev passed_delta : Delta
passed_delta verify_summary = some (some (summary true []))
passed_delta _ = none

abbrev reports : Activity → Delta
reports triage_stage = ready_delta
reports verify_stage = passed_delta
reports _ = nothing

abbrev yes_decision : GateDecision
yes_decision = record { approved = true; reason = codes "ok"; edits = none }

-- An approval that comes before any gate is open.
abbrev early : ApprovalSignal
early = record { kind = approve; author = codes "ann"; comment_id = 41; text = []; created_at = [] }

abbrev said : ℕ → List Update
said n =
    if nat_beq n 0
    then signal_approval early ∷ []
    else if nat_beq n 11
    then approve_brief yes_decision ∷ []
    else if nat_beq n 29
    then approve_merge yes_decision ∷ []
    else []

abbrev good : Service
good = record {
  caps = record { attempts = 5; planning = 5 };
  reply = λ n a s. returned (reports a);
  comment_id = λ n. none;
  updates = said;
  isoformat = λ n. [];
  spec_markdown = λ a b c. [];
}

abbrev request : IssueRunRequest
request = record {
  repo_url = codes "u";
  repo_path = codes "/workspace";
  issue = record {
    repo = codes "o/r";
    number = 7;
    url = codes "u";
    title = codes "t";
    body = [];
    labels = [];
  };
  model_profile = none;
}

abbrev fuel : Fuel
fuel = record { triages = 4; designs = 2; verifies = 2; reviews = 2; waits = 3 }

reports-label : (a : Activity) → reports a current_df_label ≡ none
reports-label triage_stage = refl
reports-label verify_stage = refl
reports-label _ = refl

delta_of : Reply → Delta
delta_of (returned d) = d
delta_of (failed e) = nothing

good-RepliesLeaveLabel : RepliesLeaveLabel good
unfolding delta_of
good-RepliesLeaveLabel = record {
  leaves = λ n a s d e.
      subst (λ (x : Delta). x current_df_label ≡ none) (ap delta_of e) (reports-label a);
}

run_refines_life_example : RunEnds good (run good fuel (codes "w") request)
run_refines_life_example = run_refines_life good fuel good-RepliesLeaveLabel (codes "w") request

run_keeps_few_labels_example :
    HasFewLabels (labels_after (run good fuel (codes "w") request).1.trace)
run_keeps_few_labels_example =
    run_keeps_few_labels good fuel good-RepliesLeaveLabel (codes "w") request

run_clarifies_at_most_thrice_example :
    clarifications (run good fuel (codes "w") request).1.trace ≤ 3
run_clarifies_at_most_thrice_example =
    run_clarifies_at_most_thrice good fuel good-RepliesLeaveLabel (codes "w") request

triage_needs_four_rounds_example : triage_loop good 9 2 0 ≡ triage_loop good 4 2 0
triage_needs_four_rounds_example = triage_needs_four_rounds good 2 5

abbrev ours : IssueComment
ours = record {
  id = codes "12";
  author = codes "bot";
  body = codes "<!-- df-phase:w-1:design:2 -->\n## Design";
  created_at = [];
}

abbrev theirs : IssueComment
theirs = record { id = codes "13"; author = codes "eve"; body = codes "hello"; created_at = [] }

design_marker :
    marker_for (codes "w-1") Phase.design (some 2) none
    ≡ ok (codes "<!-- df-phase:w-1:design:2 -->")
unfolding marker_for show
design_marker = refl

phase_comments_are_dropped_example :
    filter_dark_factory_marker_comments ((theirs ∷ []) ++ ours ∷ theirs ∷ [])
    ≡ filter_dark_factory_marker_comments ((theirs ∷ []) ++ theirs ∷ [])
phase_comments_are_dropped_example =
    phase_comments_are_dropped (codes "w-1") (codes "\n## Design")
      (codes "<!-- df-phase:w-1:design:2 -->") Phase.design (some 2) none ours (theirs ∷ [])
      (theirs ∷ []) (refl, (refl, (refl, tt))) design_marker refl

abbrev begun : IssueWorkflow
begun = start (codes "w") request

swap_keeps_ids_stage_loses_them_example :
    (last_seen (swap good (Label.ready ∷ []) Label.triaging begun).1.state
      ≡ newest (last_seen begun.state) (good.updates 0))
    × (last_seen (stage good hydrate begun).1.state ≡ last_seen begun.state)
unfolding start
swap_keeps_ids_stage_loses_them_example =
    swap_keeps_ids_stage_loses_them good begun (Label.ready ∷ []) Label.triaging hydrate nothing
      nothing refl refl refl

open_gates_are_shown_example :
    Shows merge_gate (Review.open_gate good 3 begun)
    × Shows design_gate (Design.open_gate good 3 1 begun)
open_gates_are_shown_example = open_gates_are_shown good 3 1 begun

merge_takes_two_approvals_example :
    (merges (run good fuel (codes "w") request).1.trace ≡ false)
    ⊎ Passed good 2 (run good fuel (codes "w") request).1.clock
merge_takes_two_approvals_example =
    merge_takes_two_approvals good fuel good-RepliesLeaveLabel (codes "w") request
