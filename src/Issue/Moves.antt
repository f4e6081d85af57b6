-- ===== src/Issue/Moves.antt =====
-- The rules of the larger steps of src/darkfactory/runtime/issue_workflow.py: a stage, the comment
-- of a phase, a cancellation, and a gate that waits for a signal.
use local_dafa.Base.{
  ℕ, ◌||◌, Option, none, some, [], ◌∷◌, ◌≡◌, refl, ◌∙◌, Text, codes, arith, inl, inr, Bool-cases,
  Option-cases, or_else, nat_beq, lookup, Dict, insert, list_eq, nat_eq, is_empty, sym, text_or,
}
use local_dafa.State.Records.{Label}
use local_dafa.State.Channels.{current_df_label, phase_comment_ids, wf_id}
use local_dafa.State.Merge.{merge}
use local_dafa.Flow.Machine.{Result, ok, raised, pending_still}
use local_dafa.Approval.Commands.{ApprovalSignal}
use local_dafa.Issue.Machine.{
  Activity, IssueWorkflow, Service, Reply, returned, failed, pure, continue_with,
  upsert_phase_comment, quarantine, Phase, PhaseStatus, set_state, finish, swap_label, Status,
}
use local_dafa.Issue.Signals.{record_last_seen, cancel_signal}
use local_dafa.Issue.Markers.{marker_for, phase_key}
use local_dafa.Issue.Steps.{
  call, tick, stage, swap, reply_result, phase, begin_phase, checked, keep_comment_id,
  comment_ids_delta, seen, quarantine_issue, issue_repo, issue_number, cancel_run, cancel_with,
  cancel_with, cancel_if_requested,
}
use local_dafa.Issue.Life.{Place, finished, label_of, step, works, closing_label}
use local_dafa.Issue.Logic.{Stands-kept, Stands, At, Stands-IsLawful, Ends, Spec, bind-Spec, Out}
use local_dafa.Issue.Rules.{
  RepliesLeaveLabel, tick-Stands, call-Spec, set_state-Spec, merge-label, absorb-Spec, swap-Spec,
  record_last_seen-label, called-Stands,
}

-- A phase may write its comment at a place.
abbrev pub MayComment : Place → Type 0
MayComment p = (m : Text) (s : PhaseStatus) → step p (upsert_phase_comment m s) ≡ some p

module _ (env : Service) where
  -- A stage whose activity leaves the label alone.
  pub stage-Spec :
      RepliesLeaveLabel env
      → (a : Activity) (p : Place) (l : Label) (n : ℕ) → step p a ≡ some p
      → Spec env (Stands env p l n) (stage env a) (λ _. Stands env p l n)
  unfolding stage call
  stage-Spec replies a p l n e w s = go (env.reply w.clock a w.state) refl
    where
      v : IssueWorkflow
      v = tick env (record w { trace = a ∷ w.trace })

      here : Stands env p l n v
      here =
          tick-Stands env p l n (record w { trace = a ∷ w.trace })
            (called-Stands env a p p l n w e s.enough s.up s)

      go :
          (r : Reply)
          → env.reply w.clock a w.state ≡ r
          → Ends env
              (λ (_ : Unit {0}). Stands env p l n)
              (continue_with (reply_result r) (λ d. set_state (λ _. merge env.caps w.state d)) v)
      go (returned d) eq = record {
        lives = here.lives;
        labelled = merge-label env w.state d (replies.leaves w.clock a w.state d eq) ∙ s.labelled;
        passed = here.passed;
        enough = here.enough;
        up = here.up;
      }
      go (failed x) eq = Stands-IsLawful env p l n v here

  begin_phase-Stands :
      (key : Text) (p : Place) (l : Label) (n : ℕ) (w : IssueWorkflow)
      → Stands env p l n w
      → Stands env p l n (begin_phase env key w)
  unfolding begin_phase
  begin_phase-Stands key p l n w s = elim (Option-cases (lookup key w.phase_started_at)) [
    | inl e ↦ rw (begin_phase, e) (Stands-kept w _ refl refl refl s)
    | inr (t, e) ↦ rw (begin_phase, e) s
  ]

  checked-Spec :
      (r : Result Text) (p : Place) (l : Label) (n : ℕ)
      → Spec env (Stands env p l n) (checked env r) (λ _. Stands env p l n)
  unfolding checked
  checked-Spec (ok m) p l n w s = s
  checked-Spec (raised e) p l n w s = Stands-IsLawful env p l n w s
  checked-Spec pending_still p l n w s = Stands-IsLawful env p l n w s

  ids_label : (ids : Dict Text ℕ) → comment_ids_delta ids current_df_label ≡ none
  unfolding comment_ids_delta
  ids_label ids = refl

  keep_comment_id-Spec :
      (key : Text) (id : Option ℕ) (p : Place) (l : Label) (n : ℕ)
      → Spec env (Stands env p l n) (keep_comment_id env key id) (λ _. Stands env p l n)
  unfolding keep_comment_id
  keep_comment_id-Spec key id p l n w s = elim (Bool-cases (nat_beq (or_else id 0) 0)) [
    | inl e ↦ rw e s
    | inr e ↦
        let ids = insert key (or_else id 0) (or_else (w.state phase_comment_ids) []) in
        rw e (absorb-Spec env (comment_ids_delta ids) p l n (ids_label ids) w s)
  ]

  pub phase-Spec :
      (ph : Phase) (status : PhaseStatus) (rev attempt : Option ℕ) (p : Place) (l : Label) (n : ℕ)
      → MayComment p
      → Spec env (Stands env p l n) (phase env ph status rev attempt) (λ _. Stands env p l n)
  unfolding phase
  phase-Spec ph status rev attempt p l n may w s =
      let key = phase_key ph rev attempt in
      bind-Spec env (Stands env p l n) (λ _. Stands env p l n) (λ _. Stands env p l n)
        (checked env (marker_for (or_else ((begin_phase env key w).state wf_id) []) ph rev attempt))
        _
        (checked-Spec (marker_for (or_else ((begin_phase env key w).state wf_id) []) ph rev attempt)
          p l n)
        (λ m v q.
          bind-Spec env (Stands env p l n) (λ _. Stands env p l n) (λ _. Stands env p l n)
            (call env (upsert_phase_comment m status))
            (λ _. keep_comment_id env key (env.comment_id v.clock))
            (call-Spec env (upsert_phase_comment m status) p l n (may m status))
            (λ _. keep_comment_id-Spec key (env.comment_id v.clock) p l n) v q)
        (begin_phase env key w) (begin_phase-Stands key p l n w s)

  pub seen-Spec :
      (id : ℕ) (p : Place) (l : Label) (n : ℕ)
      → Spec env (Stands env p l n) (seen env id) (λ _. Stands env p l n)
  unfolding seen
  seen-Spec id p l n =
      set_state-Spec env (record_last_seen env.caps id) p l n (record_last_seen-label env.caps id)

  -- The closed issue is quarantined, or has no repository to do it in.
  pub quarantine-Spec :
      (closure : Text) (n : ℕ)
      → Spec env
          (At env (finished Label.canceled) n)
          (quarantine_issue env closure)
          (λ _. At env (finished Label.canceled) n)
  unfolding quarantine_issue step works
  quarantine-Spec closure n w s =
      let repo = issue_repo env w.state in
      let number = issue_number env w.state in
      elim (Bool-cases (is_empty repo || nat_beq number 0)) [
        | inl e ↦ rw (quarantine_issue, e) s
        | inr e ↦
            rw (quarantine_issue, e)
              (bind-Spec env (At env (finished Label.canceled) n)
                (λ _. At env (finished Label.canceled) n) (λ _. At env (finished Label.canceled) n)
                (call env (quarantine repo number closure)) (λ _. pure tt)
                (call-Spec env (quarantine repo number closure) (finished Label.canceled)
                  Label.canceled n refl)
                (λ _ v q. q) w s)
      ]

  -- A run that has closed the issue as canceled returns.
  pub close-Spec :
      (status : Status) (reason : Option Text) (n : ℕ)
      → closing_label status ≡ Label.canceled
      → (Q : IssueWorkflow → Type 0)
      → Spec env (At env (finished Label.canceled) n) (finish status reason) (Out env Q)
  close-Spec status reason n e Q w s = (
    finished Label.canceled,
    record { lives = s.lives; labelled = s.labelled; passed = tt; enough = omega arith; up = s.up },
    sym e,
  )

  cancel_run-Spec :
      (label : Label) (x : ApprovalSignal) (p : Place) (n : ℕ)
      → step p (swap_label (label ∷ Label.cancel ∷ []) Label.canceled)
        ≡ some (finished Label.canceled)
      → (Q : IssueWorkflow → Type 0) → Spec env (At env p n) (cancel_run env label x) (Out env Q)
  unfolding cancel_run
  cancel_run-Spec label x p n e Q =
      bind-Spec env (At env p n) (λ _. At env p n) (Out env Q) (seen env x.comment_id) _
        (seen-Spec x.comment_id p (label_of p) n)
        (λ _.
          bind-Spec env (At env p n) C (Out env Q)
            (swap env (label ∷ Label.cancel ∷ []) Label.canceled) _
            (swap-Spec env (label ∷ Label.cancel ∷ []) Label.canceled p (finished Label.canceled) n
              e refl (omega arith))
            (λ _.
              bind-Spec env (C tt) C (Out env Q) (quarantine_issue env (codes "canceled"))
                (λ _. finish Status.canceled (some (text_or (some x.text) (codes "canceled"))))
                (quarantine-Spec (codes "canceled") n)
                (λ _.
                  close-Spec Status.canceled (some (text_or (some x.text) (codes "canceled"))) n
                    refl Q)))
    where
      C : Unit {0} → IssueWorkflow → Type 0
      C _ = At env (finished Label.canceled) n

  cancel_with-Spec :
      (label : Label) (x : Option ApprovalSignal) (p : Place) (n : ℕ)
      → step p (swap_label (label ∷ Label.cancel ∷ []) Label.canceled)
        ≡ some (finished Label.canceled)
      → Spec env (At env p n) (cancel_with env label x) (Out env (At env p n))
  unfolding cancel_with
  cancel_with-Spec label none p n e w s = s
  cancel_with-Spec label (some x) p n e w s = cancel_run-Spec label x p n e (At env p n) w s

  pub cancel_if_requested-Spec :
      (label : Label) (p : Place) (n : ℕ)
      → step p (swap_label (label ∷ Label.cancel ∷ []) Label.canceled)
        ≡ some (finished Label.canceled)
      → Spec env (At env p n) (cancel_if_requested env label) (Out env (At env p n))
  unfolding cancel_if_requested
  cancel_if_requested-Spec label p n e w s = cancel_with-Spec label (cancel_signal w) p n e w s
