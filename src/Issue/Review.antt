-- ===== src/Issue/Review.antt =====
-- `_run_review_and_merge_gate` of src/darkfactory/runtime/issue_workflow.py.
use local_dafa.Base.{ℕ, zero, suc, ◌+◌, Option, true, none, some, [], ◌∷◌, Text, codes, text_or}
use local_dafa.State.Records.{Label}
use local_dafa.State.Channels.{
  Delta, human_fix_focus, human_fix_author, human_rebuild_focus, human_rebuild_author,
  gate_approved, merge_gate_approved, merge_gate_reason, merge_gate_author,
}
use local_dafa.Approval.Commands.{
  ApprovalKind, ApprovalSignal, approve, revise, reject, cancel, fix, rebuild,
}
use local_dafa.Flow.Machine.{pending_still}
use local_dafa.Issue.Machine.{
  Service, Flow, ◌>>=◌, ◌>>◌, pure, gets, modify, Exit, finish, Phase, PhaseStatus, Status, running,
  build_stage, reviewer,
}
use local_dafa.Issue.Steps.{absorb, stage, wait_for, swap, phase, quarantine_issue, seen}
use local_dafa.Issue.Design.{kind_name, signaled}
use local_dafa.Issue.Building.{charge_and_fix, check_change}

unfoldable pub fix_delta : ApprovalSignal → Delta
fix_delta x human_fix_focus = some (some x.text)
fix_delta x human_fix_author = some (some x.author)
fix_delta x _ = none

unfoldable pub rebuild_delta : ApprovalSignal → Delta
rebuild_delta x human_rebuild_focus = some (some x.text)
rebuild_delta x human_rebuild_author = some (some x.author)
rebuild_delta x _ = none

unfoldable pub merge_delta : ApprovalSignal → Delta
merge_delta x merge_gate_approved = some (some true)
merge_delta x merge_gate_reason = some (some x.text)
merge_delta x merge_gate_author = some (some x.author)
merge_delta x gate_approved = some (some true)
merge_delta x _ = none

module _ (env : Service) where
  -- The reviewer's verdict, and its comment.
  unfoldable pub review_change : ℕ → Flow (Unit {0})
  review_change n = do
    swap env (Label.verifying ∷ Label.fixing ∷ Label.building ∷ Label.awaiting_merge ∷ [])
        Label.reviewing
    phase env Phase.review running none (some n)
    stage env reviewer
    phase env Phase.review PhaseStatus.done none (some n)

  -- The gate opens: whatever signal came before is dropped, and one is waited for.
  unfoldable pub open_gate : ℕ → Flow (Unit {0})
  open_gate waits = do
    swap env (Label.reviewing ∷ []) Label.awaiting_merge
    modify (λ w. record w { approval = none; pending_gate = some (codes "merge") })
    wait_for env waits signaled

  unfoldable pub close_gate : Flow (Option ApprovalSignal)
  close_gate = do x ← gets (λ w. w.approval); modify (λ w. record w { pending_gate = none }); pure x

  -- A Reject or a Cancel ends the run.
  unfoldable pub decline : Status → Text → ApprovalSignal → Flow Exit
  decline status closure x = do
    swap env (Label.awaiting_merge ∷ Label.cancel ∷ []) Label.canceled
    quarantine_issue env closure
    finish status (some (text_or (some x.text) (kind_name x.kind)))

  unfoldable pub fix_change : ApprovalSignal → Flow (Unit {0})
  unfolding fix_delta
  fix_change x = do
    swap env (Label.awaiting_merge ∷ []) Label.fixing
    absorb env (fix_delta x)
    charge_and_fix env
    check_change env

  unfoldable pub rebuild_change : ApprovalSignal → Flow (Unit {0})
  unfolding rebuild_delta
  rebuild_change x = do
    swap env (Label.awaiting_merge ∷ []) Label.building
    absorb env (rebuild_delta x)
    stage env build_stage
    check_change env

  -- The signal at the gate. A Revise is ignored, and the change reviewed again.
  unfoldable pub on_signal : ApprovalSignal → ApprovalKind → Flow Exit → Flow Exit
  unfolding decline fix_change rebuild_change merge_delta
  on_signal x reject again = decline Status.rejected (codes "rejected") x
  on_signal x cancel again = decline Status.canceled (codes "canceled") x
  on_signal x approve again = absorb env (merge_delta x) >> pure none
  on_signal x fix again = fix_change x >> again
  on_signal x rebuild again = rebuild_change x >> again
  on_signal x revise again = again

  unfoldable pub read_gate : Option ApprovalSignal → Flow Exit → Flow Exit
  unfolding on_signal
  read_gate none again = again
  read_gate (some x) again = seen env x.comment_id >> on_signal x x.kind again

  -- `while True`, from the iterations so far.
  unfoldable pub review_loop : ℕ → ℕ → ℕ → Flow Exit
  unfolding review_change open_gate close_gate read_gate
  review_loop zero waits n w = (pending_still, w)
  review_loop (suc fuel) waits n w =
      (do
        review_change (n + 1)
        open_gate waits
        x ← close_gate
        read_gate x (review_loop fuel waits (n + 1)))
        w
