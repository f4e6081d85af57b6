-- ===== src/Issue/Design.antt =====
-- `_run_design_gate` and `_run_planning_loop` of src/darkfactory/runtime/issue_workflow.py.
use local_dafa.Base.{
  ℕ, zero, suc, ◌+◌, ◌-◌, Bool, true, false, Option, none, some, List, [], ◌∷◌, ◌++◌, Text, codes,
  text_or, is_some, or_else, nat_beq, if◌then◌else◌,
}
use local_dafa.State.Records.{ReviewDecision, Label, ApprovalRecord}
use local_dafa.State.Channels.{
  State, Delta, planning_attempts, planning_feedback, planning_attempt_log, review_decision,
  stories, spec, latest_spec_rev, latest_spec_markdown, revision_feedback, gate_approved,
  approval_record, approved_spec_rev, approved_spec_markdown,
}
use local_dafa.Approval.Commands.{
  ApprovalKind, ApprovalSignal, approve, revise, reject, cancel, fix, rebuild,
}
use local_dafa.Flow.Budget.{planning_max_attempts_cap}
use local_dafa.Flow.Feedback.{
  planning_approved, planning_feedback_from_human_revise, planning_attempt_log_entry,
  reset_planning_artifacts,
}
use local_dafa.Flow.Planning.{feedback_of, attempt_delta}
use local_dafa.Flow.Machine.{ok, pending_still}
use local_dafa.Issue.Machine.{
  IssueWorkflow, Service, Flow, ◌>>=◌, ◌>>◌, pure, gets, modify, set_state, Exit, finish, Phase,
  PhaseStatus, running, discovery, needs_human, canceled,
}
use local_dafa.Issue.Steps.{absorb, stage, wait_for, swap, phase, quarantine_issue, seen}

-- `ApprovalSignal.kind` as text.
abbrev pub kind_name : ApprovalKind → Text
kind_name approve = codes "Approve"
kind_name revise = codes "Revise"
kind_name reject = codes "Reject"
kind_name cancel = codes "Cancel"
kind_name fix = codes "Fix"
kind_name rebuild = codes "Rebuild"

unfoldable pub spec_delta : ℕ → Text → Delta
spec_delta rev md latest_spec_rev = some (some rev)
spec_delta rev md latest_spec_markdown = some (some md)
spec_delta rev md _ = none

unfoldable pub critic_delta : ℕ → ℕ → List Text → Text → Delta
critic_delta n rev feedback item planning_feedback = some (some feedback)
critic_delta n rev feedback item planning_attempt_log = some (
    some (planning_attempt_log_entry (codes "plan_critic_reject") n item (some rev) none [] 0 ∷ []))
critic_delta n rev feedback item _ = none

unfoldable pub human_delta : ℕ → ℕ → Text → ApprovalSignal → Delta
human_delta n rev item x latest_spec_rev = some (some (rev + 1))
human_delta n rev item x revision_feedback = some (some x.text)
human_delta n rev item x planning_attempts = some (some 0)
human_delta n rev item x planning_feedback = some (some (item ∷ []))
human_delta n rev item x planning_attempt_log = some (
    some (
      planning_attempt_log_entry (codes "human_revise") n item (some rev) (some (rev + 1)) x.author
        x.comment_id
      ∷ []))
human_delta n rev item x _ = none

unfoldable pub approval_delta : ApprovalRecord → Text → Delta
approval_delta r md gate_approved = some (some true)
approval_delta r md approval_record = some (some r)
approval_delta r md approved_spec_rev = some (some r.spec_rev)
approval_delta r md approved_spec_markdown = some (some md)
approval_delta r md _ = none

-- `int(self._state.get("latest_spec_rev") or 1)`
unfoldable pub current_rev : State → ℕ
current_rev s = let n = or_else (s latest_spec_rev) 0 in if nat_beq n 0 then 1 else n

abbrev pub signaled : IssueWorkflow → Bool
signaled w = is_some w.approval

-- How a planning loop ended: with the Plan Critic's approval, and the last specification.
pub record Planned : Type 0 where
  pub critic_approved : Bool
  pub markdown : Text

module _ (env : Service) where
  abbrev pub design_phase : PhaseStatus → ℕ → Flow (Unit {0})
  design_phase status rev = phase env Phase.design status (some rev) none

  -- One attempt up to the rendered specification.
  unfoldable pub draft : ℕ → ℕ → List Text → Flow Text
  unfolding spec_delta
  draft rev n feedback = do
    phase env Phase.design running (some rev) (some n)
    absorb env (attempt_delta n feedback)
    set_state reset_planning_artifacts
    stage env discovery
    md ← gets (λ w.
        env.spec_markdown (or_else (w.state stories) []) (or_else (w.state spec) [])
          (w.state review_decision))
    absorb env (spec_delta rev md)
    pure md

  -- The Plan Critic's verdict: `return True`, or its feedback and the next attempt.
  unfoldable pub after_critic :
      ℕ
      → ℕ
      → List Text
      → Text
      → Option ReviewDecision
      → (List Text → Text → Flow Planned)
      → Flow Planned
  unfolding critic_delta
  after_critic rev n feedback md decision again =
      let item = feedback_of decision in
      let feedback' = feedback ++ item ∷ [] in
      let retry = absorb env (critic_delta n rev feedback' item) >> again feedback' md in
      if planning_approved decision
      then pure (record { critic_approved = true; markdown = md })
      else retry

  -- `for attempt in range(PLANNING_MAX_ATTEMPTS)`, by the attempts left.
  unfoldable pub plan_attempts : ℕ → ℕ → List Text → Text → Flow Planned
  unfolding draft after_critic
  plan_attempts zero rev feedback md w = (ok (record { critic_approved = false; markdown = md }), w)
  plan_attempts (suc left) rev feedback md w =
      let n = planning_max_attempts_cap - left in
      (do
        md' ← draft rev n feedback
        d ← gets (λ v. v.state review_decision)
        after_critic rev n feedback md' d (plan_attempts left rev))
        w

  -- `_run_planning_loop`
  unfoldable pub planning_loop : ℕ → Flow Planned
  unfolding plan_attempts
  planning_loop rev = do
    feedback ← gets (λ w. or_else (w.state planning_feedback) [])
    plan_attempts planning_max_attempts_cap rev feedback []

  unfoldable pub cap_planning : ℕ → Flow Exit
  cap_planning rev = do
    design_phase PhaseStatus.failed rev
    swap env (Label.designing ∷ []) Label.needs_human
    finish needs_human (some (codes "planning_retry_cap"))

  -- The gate opens: whatever signal came before is dropped, and one is waited for.
  unfoldable pub open_gate : ℕ → ℕ → Flow (Unit {0})
  open_gate waits rev = do
    design_phase PhaseStatus.done rev
    swap env (Label.designing ∷ []) Label.awaiting_approval
    modify (λ w. record w { approval = none })
    wait_for env waits signaled

  unfoldable pub revise_design : ℕ → ApprovalSignal → Flow (Unit {0})
  unfolding human_delta
  revise_design rev x = do
    let item = planning_feedback_from_human_revise x.author x.text
    design_phase PhaseStatus.done rev
    n ← gets (λ w. or_else (w.state planning_attempts) 0)
    absorb env (human_delta n rev item x)
    swap env (Label.awaiting_approval ∷ []) Label.designing
    modify (λ w. record w { approval = none })

  unfoldable pub cancel_design : ℕ → ApprovalSignal → Flow Exit
  cancel_design rev x = do
    design_phase PhaseStatus.done rev
    swap env (Label.awaiting_approval ∷ Label.cancel ∷ []) Label.canceled
    quarantine_issue env (codes "canceled")
    finish canceled (some (text_or (some x.text) (kind_name x.kind)))

  unfoldable pub approve_design : ℕ → Text → ApprovalSignal → Flow Exit
  unfolding approval_delta
  approve_design rev md x = do
    now ← gets (λ w. env.isoformat w.clock)
    let r : ApprovalRecord = record {
      author = x.author;
      approved_at = now;
      spec_rev = rev;
      comment_id = x.comment_id;
      text = x.text;
    }
    absorb env (approval_delta r md)
    design_phase PhaseStatus.done rev
    pure none

  -- The signal at the gate. A Fix or a Rebuild matches no branch, and the loop goes round.
  unfoldable pub on_signal : ℕ → Text → ApprovalSignal → ApprovalKind → Flow Exit → Flow Exit
  unfolding revise_design cancel_design approve_design
  on_signal rev md x revise again = revise_design rev x >> again
  on_signal rev md x reject again = cancel_design rev x
  on_signal rev md x cancel again = cancel_design rev x
  on_signal rev md x approve again = approve_design rev md x
  on_signal rev md x fix again = again
  on_signal rev md x rebuild again = again

  unfoldable pub read_gate : ℕ → Text → Option ApprovalSignal → Flow Exit → Flow Exit
  unfolding on_signal
  read_gate rev md none again = again
  read_gate rev md (some x) again = seen env x.comment_id >> on_signal rev md x x.kind again

  unfoldable pub after_planning : ℕ → ℕ → Planned → Flow Exit → Flow Exit
  unfolding read_gate open_gate cap_planning
  after_planning waits rev p again =
      let gate = (do
        open_gate waits rev
        x ← gets (λ w. w.approval)
        read_gate rev p.markdown x again) in
      if p.critic_approved then gate else cap_planning rev

  -- `while True`
  unfoldable pub design_loop : ℕ → ℕ → Flow Exit
  unfolding planning_loop after_planning
  design_loop zero waits w = (pending_still, w)
  design_loop (suc fuel) waits w =
      (do
        rev ← gets (λ v. current_rev v.state)
        p ← planning_loop rev
        after_planning waits rev p (design_loop fuel waits))
        w
