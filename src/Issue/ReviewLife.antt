-- ===== src/Issue/ReviewLife.antt =====
-- How `_run_review_and_merge_gate` of src/darkfactory/runtime/issue_workflow.py moves an issue: the
-- merge gate is passed with a second approval, which was sent after that gate had opened.
use local_dafa.Base.{
  ℕ, zero, suc, ◌+◌, true, false, Option, none, some, List, [], ◌∷◌, ◌≡◌, refl, Text, codes,
  text_or, arith, inl, inr, Bool-cases,
}
use local_dafa.State.Records.{Label}
use local_dafa.Approval.Commands.{
  ApprovalKind, ApprovalSignal, approve, revise, reject, cancel, fix, rebuild,
}
use local_dafa.Issue.Machine.{
  IssueWorkflow, Service, Flow, ◌>>=◌, ◌>>◌, pure, Exit, finish, Phase, PhaseStatus, Status,
  running, build_stage, reviewer, swap_label,
}
use local_dafa.Issue.Signals.{is_approve}
use local_dafa.Issue.Steps.{absorb, stage, wait_for, swap, phase, quarantine_issue, seen}
use local_dafa.Issue.Design.{kind_name, signaled}
use local_dafa.Issue.Building.{charge_and_fix, check_change}
use local_dafa.Issue.Review.{
  fix_delta, rebuild_delta, merge_delta, review_change, open_gate, close_gate, decline, fix_change,
  rebuild_change, on_signal, read_gate, review_loop,
}
use local_dafa.Issue.Life.{
  Place, reviewing, gated, fixing, rebuilding, finished, label_of, step, works, moves, swap_move,
  closing_label,
}
use local_dafa.Issue.Logic.{Stands-kept, At, Stands-IsLawful, Ends, Spec, bind-Spec, Out}
use local_dafa.Issue.Rules.{RepliesLeaveLabel, absorb-Spec, swap-Spec}
use local_dafa.Issue.Moves.{
  MayComment, stage-Spec, phase-Spec, seen-Spec, quarantine-Spec, close-Spec,
}
use local_dafa.Issue.Gates.{AtGate, wait_for-AtGate, read_approval}
use local_dafa.Issue.BuildLife.{charge_and_fix-Spec, check_change-Spec}

-- What a change may carry when its review begins.
abbrev pub reviewable : List Label
reviewable = Label.verifying ∷ Label.fixing ∷ Label.building ∷ Label.awaiting_merge ∷ []

-- A place from which a review may begin.
abbrev pub IsReviewable : Place → Type 0
IsReviewable p = step p (swap_label reviewable Label.reviewing) ≡ some reviewing

gated-IsReviewable : IsReviewable gated
unfolding step moves swap_move
gated-IsReviewable = refl

fixing-IsReviewable : IsReviewable fixing
unfolding step moves swap_move
fixing-IsReviewable = refl

rebuilding-IsReviewable : IsReviewable rebuilding
unfolding step moves swap_move
rebuilding-IsReviewable = refl

reviewing-MayComment : MayComment reviewing
unfolding step works
reviewing-MayComment m s = refl

module _ (env : Service) where
  abbrev Reviewing : IssueWorkflow → Type 0
  Reviewing = At env reviewing 1

  abbrev Gated : IssueWorkflow → Type 0
  Gated = At env gated 1

  -- Reviewed, with two approvals.
  abbrev pub Accepted : IssueWorkflow → Type 0
  Accepted = At env gated 2

  review_phase-Spec :
      (status : PhaseStatus) (n : ℕ)
      → Spec env Reviewing (phase env Phase.review status none (some n)) (λ _. Reviewing)
  review_phase-Spec status n =
      phase-Spec env Phase.review status none (some n) reviewing Label.reviewing 1
        reviewing-MayComment

  review_change-Spec :
      RepliesLeaveLabel env
      → (p : Place) (n : ℕ) → IsReviewable p
      → Spec env (At env p 1) (review_change env n) (λ _. Reviewing)
  unfolding review_change step works
  review_change-Spec replies p n h =
      let telling = λ (_ : Unit {0}). phase env Phase.review PhaseStatus.done none (some n) in
      let judging = λ (_ : Unit {0}). stage env reviewer >>= telling in
      bind-Spec env (At env p 1) (λ _. Reviewing) (λ _. Reviewing)
        (swap env reviewable Label.reviewing)
        (λ _. phase env Phase.review running none (some n) >>= judging)
        (swap-Spec env reviewable Label.reviewing p reviewing 1 h refl (omega arith))
        (λ _.
          bind-Spec env Reviewing (λ _. Reviewing) (λ _. Reviewing)
            (phase env Phase.review running none (some n)) judging (review_phase-Spec running n)
            (λ _.
              bind-Spec env Reviewing (λ _. Reviewing) (λ _. Reviewing) (stage env reviewer) telling
                (stage-Spec env replies reviewer reviewing Label.reviewing 1 refl)
                (λ _. review_phase-Spec PhaseStatus.done n)))

  open_gate-Spec : (waits : ℕ) → Spec env Reviewing (open_gate env waits) (λ _. AtGate env gated 1)
  unfolding open_gate step moves swap_move
  open_gate-Spec waits =
      bind-Spec env Reviewing (λ _. Gated) (λ _. AtGate env gated 1)
        (swap env (Label.reviewing ∷ []) Label.awaiting_merge)
        (λ _ w.
          wait_for env waits signaled
            (record w { approval = none; pending_gate = some (codes "merge") }))
        (swap-Spec env (Label.reviewing ∷ []) Label.awaiting_merge reviewing gated 1 refl refl
          (omega arith))
        (λ _ w s.
          wait_for-AtGate env waits signaled gated 1
            (record w { approval = none; pending_gate = some (codes "merge") })
            (Stands-kept w _ refl refl refl s, λ h. cc))

  decline-Spec :
      (status : Status) (closure : Text) (x : ApprovalSignal)
      → closing_label status ≡ Label.canceled
      → Spec env Gated (decline env status closure x) (Out env Accepted)
  unfolding decline step moves swap_move
  decline-Spec status closure x e =
      let C = At env (finished Label.canceled) 1 in
      let reason = some (text_or (some x.text) (kind_name x.kind)) in
      let ending = λ (_ : Unit {0}). finish status reason in
      let closing = λ (_ : Unit {0}). quarantine_issue env closure >>= ending in
      bind-Spec env Gated (λ _. C) (Out env Accepted)
        (swap env (Label.awaiting_merge ∷ Label.cancel ∷ []) Label.canceled) closing
        (swap-Spec env (Label.awaiting_merge ∷ Label.cancel ∷ []) Label.canceled gated
          (finished Label.canceled) 1 refl refl (omega arith))
        (λ _.
          bind-Spec env C (λ _. C) (Out env Accepted) (quarantine_issue env closure) ending
            (quarantine-Spec env closure 1) (λ _. close-Spec env status reason 1 e Accepted))

  -- The gate closes.
  closed :
      (n : ℕ) (w : IssueWorkflow)
      → At env gated n w
      → At env gated n (record w { pending_gate = none })
  closed n w s = Stands-kept w _ refl refl refl s

  accept-Spec :
      (x : ApprovalSignal)
      → Spec env Accepted (absorb env (merge_delta x) >> pure none) (Out env Accepted)
  unfolding merge_delta
  accept-Spec x =
      bind-Spec env Accepted (λ _. Accepted) (Out env Accepted) (absorb env (merge_delta x))
        (λ _. pure none) (absorb-Spec env (merge_delta x) gated Label.awaiting_merge 2 refl)
        (λ _ w s. s)

  module _ (replies : RepliesLeaveLabel env) where
    fix_change-Spec :
        (x : ApprovalSignal) → Spec env Gated (fix_change env x) (λ _. At env fixing 1)
    unfolding fix_change fix_delta step works moves swap_move
    fix_change-Spec x =
        let F = At env fixing 1 in
        let checking = λ (_ : Unit {0}). check_change env in
        let charging = λ (_ : Unit {0}). charge_and_fix env >>= checking in
        bind-Spec env Gated (λ _. F) (λ _. F) (swap env (Label.awaiting_merge ∷ []) Label.fixing)
          (λ _. absorb env (fix_delta x) >>= charging)
          (swap-Spec env (Label.awaiting_merge ∷ []) Label.fixing gated fixing 1 refl refl
            (omega arith))
          (λ _.
            bind-Spec env F (λ _. F) (λ _. F) (absorb env (fix_delta x)) charging
              (absorb-Spec env (fix_delta x) fixing Label.fixing 1 refl)
              (λ _.
                bind-Spec env F (λ _. F) (λ _. F) (charge_and_fix env) checking
                  (charge_and_fix-Spec env replies fixing 1 refl)
                  (λ _. check_change-Spec env replies fixing 1 refl)))

    rebuild_change-Spec :
        (x : ApprovalSignal) → Spec env Gated (rebuild_change env x) (λ _. At env rebuilding 1)
    unfolding rebuild_change rebuild_delta step works moves swap_move
    rebuild_change-Spec x =
        let R = At env rebuilding 1 in
        let checking = λ (_ : Unit {0}). check_change env in
        let building = λ (_ : Unit {0}). stage env build_stage >>= checking in
        bind-Spec env Gated (λ _. R) (λ _. R) (swap env (Label.awaiting_merge ∷ []) Label.building)
          (λ _. absorb env (rebuild_delta x) >>= building)
          (swap-Spec env (Label.awaiting_merge ∷ []) Label.building gated rebuilding 1 refl refl
            (omega arith))
          (λ _.
            bind-Spec env R (λ _. R) (λ _. R) (absorb env (rebuild_delta x)) building
              (absorb-Spec env (rebuild_delta x) rebuilding Label.building 1 refl)
              (λ _.
                bind-Spec env R (λ _. R) (λ _. R) (stage env build_stage) checking
                  (stage-Spec env replies build_stage rebuilding Label.building 1 refl)
                  (λ _. check_change-Spec env replies rebuilding 1 refl)))

    module _ (again : Flow Exit)
        (next : (p : Place) → IsReviewable p → Spec env (At env p 1) again (Out env Accepted)) where
      on_other-Spec :
          (x : ApprovalSignal) (k : ApprovalKind)
          → is_approve k ≡ false
          → Spec env Gated (on_signal env x k again) (Out env Accepted)
      unfolding on_signal
      on_other-Spec x approve h w s = cc
      on_other-Spec x revise h w s = next gated gated-IsReviewable w s
      on_other-Spec x reject h w s = decline-Spec Status.rejected (codes "rejected") x refl w s
      on_other-Spec x cancel h w s = decline-Spec Status.canceled (codes "canceled") x refl w s
      on_other-Spec x fix h w s =
          bind-Spec env Gated (λ _. At env fixing 1) (Out env Accepted) (fix_change env x)
            (λ _. again) (fix_change-Spec x) (λ _. next fixing fixing-IsReviewable) w s
      on_other-Spec x rebuild h w s =
          bind-Spec env Gated (λ _. At env rebuilding 1) (Out env Accepted) (rebuild_change env x)
            (λ _. again) (rebuild_change-Spec x) (λ _. next rebuilding rebuilding-IsReviewable) w s

      on_approve-Spec :
          (x : ApprovalSignal) (k : ApprovalKind)
          → is_approve k ≡ true
          → Spec env Accepted (on_signal env x k again) (Out env Accepted)
      unfolding on_signal
      on_approve-Spec x approve h w s = accept-Spec x w s
      on_approve-Spec x revise h w s = cc
      on_approve-Spec x reject h w s = cc
      on_approve-Spec x cancel h w s = cc
      on_approve-Spec x fix h w s = cc
      on_approve-Spec x rebuild h w s = cc

      -- A signal of a kind, once its comment counts as seen.
      after_seen-Spec :
          (x : ApprovalSignal) (n : ℕ)
          → Spec env (At env gated n) (on_signal env x x.kind again) (Out env Accepted)
          → Spec env (At env gated n) (read_gate env (some x) again) (Out env Accepted)
      unfolding read_gate
      after_seen-Spec x n h =
          bind-Spec env (At env gated n) (λ _. At env gated n) (Out env Accepted)
            (seen env x.comment_id) (λ _. on_signal env x x.kind again)
            (seen-Spec env x.comment_id gated Label.awaiting_merge n) (λ _. h)

      read_gate-Spec :
          (x : Option ApprovalSignal) (w : IssueWorkflow)
          → AtGate env gated 1 w
          → w.approval ≡ x
          → Ends env (Out env Accepted) (read_gate env x again (record w { pending_gate = none }))
      unfolding read_gate
      read_gate-Spec none w s e = next gated gated-IsReviewable _ (closed 1 w s.0)
      read_gate-Spec (some x) w s e = elim (Bool-cases (is_approve x.kind)) [
        | inl h ↦
            after_seen-Spec x 2 (on_approve-Spec x x.kind h) (record w { pending_gate = none })
              (closed 2 w (read_approval env gated 1 x w s e h))
        | inr h ↦
            after_seen-Spec x 1 (on_other-Spec x x.kind h) (record w { pending_gate = none })
              (closed 1 w s.0)
      ]

    -- The merge gate is left with a second approval, or the run returns with the label of its
    -- status.
    pub review_loop-Spec :
        (fuel waits n : ℕ) (p : Place)
        → IsReviewable p
        → Spec env (At env p 1) (review_loop env fuel waits n) (Out env Accepted)
    unfolding review_loop close_gate
    review_loop-Spec zero waits n p h w s = Stands-IsLawful env p (label_of p) 1 w s
    review_loop-Spec (suc fuel) waits n p h w s =
        let again = review_loop env fuel waits (n + 1) in
        let reading = λ (_ : Unit {0}) (v : IssueWorkflow).
          read_gate env v.approval again (record v { pending_gate = none }) in
        bind-Spec env (At env p 1) (λ _. Reviewing) (Out env Accepted) (review_change env (n + 1))
          (λ _. open_gate env waits >>= reading) (review_change-Spec replies p (n + 1) h)
          (λ _.
            bind-Spec env Reviewing (λ _. AtGate env gated 1) (Out env Accepted)
              (open_gate env waits) reading (open_gate-Spec waits)
              (λ _ v q.
                read_gate-Spec again (λ p h. review_loop-Spec fuel waits (n + 1) p h) v.approval v q
                  refl))
          w s
