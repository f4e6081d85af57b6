-- ===== src/Issue/DesignGate.antt =====
-- How the gate of `_run_design_gate` in src/darkfactory/runtime/issue_workflow.py moves an issue: it
-- is passed with an approval that was sent after the gate had opened.
use local_dafa.Base.{
  ℕ, zero, suc, true, false, Option, none, some, [], ◌∷◌, ◌≡◌, refl, Text, codes, text_or, arith,
  inl, inr, Bool-cases, or_else,
}
use local_dafa.State.Records.{Label, ApprovalRecord}
use local_dafa.State.Channels.{planning_feedback, planning_attempts}
use local_dafa.Approval.Commands.{
  ApprovalKind, ApprovalSignal, approve, revise, reject, cancel, fix, rebuild,
}
use local_dafa.Flow.Budget.{planning_max_attempts_cap}
use local_dafa.Flow.Feedback.{planning_feedback_from_human_revise}
use local_dafa.Issue.Machine.{
  IssueWorkflow, Service, Flow, ◌>>=◌, ◌>>◌, pure, modify, Exit, finish, Phase, PhaseStatus,
  canceled,
}
use local_dafa.Issue.Signals.{is_approve}
use local_dafa.Issue.Steps.{absorb, swap, quarantine_issue, seen}
use local_dafa.Issue.Design.{
  kind_name, human_delta, approval_delta, current_rev, Planned, design_phase, plan_attempts,
  planning_loop, open_gate, revise_design, cancel_design, approve_design, on_signal, read_gate,
  after_planning, design_loop,
}
use local_dafa.Issue.Life.{Place, designing, awaiting, finished, label_of, step, moves, swap_move}
use local_dafa.Issue.Logic.{Stands-kept, At, Stands-IsLawful, Ends, Spec, bind-Spec, Out}
use local_dafa.Issue.Rules.{RepliesLeaveLabel, absorb-Spec, swap-Spec}
use local_dafa.Issue.Moves.{phase-Spec, seen-Spec, quarantine-Spec, close-Spec}
use local_dafa.Issue.Gates.{AtGate, read_approval}
use local_dafa.Issue.DesignLife.{
  IsDrafting, designing-IsDrafting, awaiting-IsDrafting, awaiting-MayComment, plan_attempts-Spec,
  cap_planning-Spec, open_gate-Spec,
}

module _ (env : Service) where
  abbrev Waiting : IssueWorkflow → Type 0
  Waiting = At env awaiting 0

  -- Designed, with one approval.
  abbrev pub Designed : IssueWorkflow → Type 0
  Designed = At env awaiting 1

  design_phase-Spec :
      (status : PhaseStatus) (rev n : ℕ)
      → Spec env (At env awaiting n) (design_phase env status rev) (λ _. At env awaiting n)
  design_phase-Spec status rev n =
      phase-Spec env Phase.design status (some rev) none awaiting Label.awaiting_approval n
        awaiting-MayComment

  redesign-Spec :
      Spec env Waiting
        (swap env (Label.awaiting_approval ∷ []) Label.designing
          >> modify (λ w. record w { approval = none }))
        (λ _. At env designing 0)
  unfolding step moves swap_move
  redesign-Spec =
      bind-Spec env Waiting (λ _. At env designing 0) (λ _. At env designing 0)
        (swap env (Label.awaiting_approval ∷ []) Label.designing)
        (λ _. modify (λ w. record w { approval = none }))
        (swap-Spec env (Label.awaiting_approval ∷ []) Label.designing awaiting designing 0 refl refl
          (omega arith))
        (λ _ w s. Stands-kept w _ refl refl refl s)

  note_revision-Spec :
      (rev n : ℕ) (item : Text) (x : ApprovalSignal)
      → Spec env Waiting
          (absorb env (human_delta n rev item x)
            >> (swap env (Label.awaiting_approval ∷ []) Label.designing
                >> modify (λ w. record w { approval = none })))
          (λ _. At env designing 0)
  unfolding human_delta
  note_revision-Spec rev n item x =
      bind-Spec env Waiting (λ _. Waiting) (λ _. At env designing 0)
        (absorb env (human_delta n rev item x)) _
        (absorb-Spec env (human_delta n rev item x) awaiting Label.awaiting_approval 0 refl)
        (λ _. redesign-Spec)

  revise_design-Spec :
      (rev : ℕ) (x : ApprovalSignal)
      → Spec env Waiting (revise_design env rev x) (λ _. At env designing 0)
  unfolding revise_design
  revise_design-Spec rev x =
      let item = planning_feedback_from_human_revise x.author x.text in
      bind-Spec env Waiting (λ _. Waiting) (λ _. At env designing 0)
        (design_phase env PhaseStatus.done rev)
        (λ _ w.
          (absorb env (human_delta (or_else (w.state planning_attempts) 0) rev item x)
              >> (swap env (Label.awaiting_approval ∷ []) Label.designing
                  >> modify (λ w. record w { approval = none })))
            w)
        (design_phase-Spec PhaseStatus.done rev 0)
        (λ _ w s. note_revision-Spec rev (or_else (w.state planning_attempts) 0) item x w s)

  cancel_design-Spec :
      (rev : ℕ) (x : ApprovalSignal) → Spec env Waiting (cancel_design env rev x) (Out env Designed)
  unfolding cancel_design step moves swap_move
  cancel_design-Spec rev x =
      let C = At env (finished Label.canceled) 0 in
      let reason = some (text_or (some x.text) (kind_name x.kind)) in
      let ending = λ (_ : Unit {0}). finish canceled reason in
      let closing = λ (_ : Unit {0}). quarantine_issue env (codes "canceled") >>= ending in
      let swapping = λ (_ : Unit {0}).
        swap env (Label.awaiting_approval ∷ Label.cancel ∷ []) Label.canceled >>= closing in
      bind-Spec env Waiting (λ _. Waiting) (Out env Designed)
        (design_phase env PhaseStatus.done rev) swapping (design_phase-Spec PhaseStatus.done rev 0)
        (λ _.
          bind-Spec env Waiting (λ _. C) (Out env Designed)
            (swap env (Label.awaiting_approval ∷ Label.cancel ∷ []) Label.canceled) closing
            (swap-Spec env (Label.awaiting_approval ∷ Label.cancel ∷ []) Label.canceled awaiting
              (finished Label.canceled) 0 refl refl (omega arith))
            (λ _.
              bind-Spec env C (λ _. C) (Out env Designed) (quarantine_issue env (codes "canceled"))
                ending (quarantine-Spec env (codes "canceled") 0)
                (λ _. close-Spec env canceled reason 0 refl Designed)))

  approve_design-Spec :
      (rev : ℕ) (md : Text) (x : ApprovalSignal)
      → Spec env Designed (approve_design env rev md x) (Out env Designed)
  unfolding approve_design approval_delta
  approve_design-Spec rev md x w s =
      let r : ApprovalRecord = record {
        author = x.author;
        approved_at = env.isoformat w.clock;
        spec_rev = rev;
        comment_id = x.comment_id;
        text = x.text;
      } in
      let showing = design_phase env PhaseStatus.done rev >> pure none in
      bind-Spec env Designed (λ _. Designed) (Out env Designed) (absorb env (approval_delta r md))
        (λ _. showing)
        (absorb-Spec env (approval_delta r md) awaiting Label.awaiting_approval 1 refl)
        (λ _.
          bind-Spec env Designed (λ _. Designed) (Out env Designed)
            (design_phase env PhaseStatus.done rev) (λ _. pure none)
            (design_phase-Spec PhaseStatus.done rev 1) (λ _ v q. q))
        w s

  module _ (again : Flow Exit)
      (from_designing : Spec env (At env designing 0) again (Out env Designed))
      (from_awaiting : Spec env Waiting again (Out env Designed)) where
    -- Every signal but an approval leaves the count of approvals.
    on_other-Spec :
        (rev : ℕ) (md : Text) (x : ApprovalSignal) (k : ApprovalKind)
        → is_approve k ≡ false
        → Spec env Waiting (on_signal env rev md x k again) (Out env Designed)
    unfolding on_signal
    on_other-Spec rev md x approve h w s = cc
    on_other-Spec rev md x revise h w s =
        bind-Spec env Waiting (λ _. At env designing 0) (Out env Designed) (revise_design env rev x)
          (λ _. again) (revise_design-Spec rev x) (λ _. from_designing) w s
    on_other-Spec rev md x reject h w s = cancel_design-Spec rev x w s
    on_other-Spec rev md x cancel h w s = cancel_design-Spec rev x w s
    on_other-Spec rev md x fix h w s = from_awaiting w s
    on_other-Spec rev md x rebuild h w s = from_awaiting w s

    on_approve-Spec :
        (rev : ℕ) (md : Text) (x : ApprovalSignal) (k : ApprovalKind)
        → is_approve k ≡ true
        → Spec env Designed (on_signal env rev md x k again) (Out env Designed)
    unfolding on_signal
    on_approve-Spec rev md x approve h w s = approve_design-Spec rev md x w s
    on_approve-Spec rev md x revise h w s = cc
    on_approve-Spec rev md x reject h w s = cc
    on_approve-Spec rev md x cancel h w s = cc
    on_approve-Spec rev md x fix h w s = cc
    on_approve-Spec rev md x rebuild h w s = cc

    -- A signal of a kind, once its comment counts as seen.
    after_seen-Spec :
        (rev : ℕ) (md : Text) (x : ApprovalSignal) (n : ℕ)
        → Spec env (At env awaiting n) (on_signal env rev md x x.kind again) (Out env Designed)
        → Spec env (At env awaiting n) (read_gate env rev md (some x) again) (Out env Designed)
    unfolding read_gate
    after_seen-Spec rev md x n next =
        bind-Spec env (At env awaiting n) (λ _. At env awaiting n) (Out env Designed)
          (seen env x.comment_id) (λ _. on_signal env rev md x x.kind again)
          (seen-Spec env x.comment_id awaiting Label.awaiting_approval n) (λ _. next)

    read_gate-Spec :
        (rev : ℕ) (md : Text) (x : Option ApprovalSignal) (w : IssueWorkflow)
        → AtGate env awaiting 0 w
        → w.approval ≡ x
        → Ends env (Out env Designed) (read_gate env rev md x again w)
    unfolding read_gate
    read_gate-Spec rev md none w s e = from_awaiting w s.0
    read_gate-Spec rev md (some x) w s e = elim (Bool-cases (is_approve x.kind)) [
      | inl h ↦
          after_seen-Spec rev md x 1 (on_approve-Spec rev md x x.kind h) w
            (read_approval env awaiting 0 x w s e h)
      | inr h ↦ after_seen-Spec rev md x 0 (on_other-Spec rev md x x.kind h) w s.0
    ]

    after_planning-Spec :
        (p : Place)
        → IsDrafting p
        → (waits rev : ℕ) (r : Planned)
        → Spec env (At env p 0) (after_planning env waits rev r again) (Out env Designed)
    unfolding after_planning
    after_planning-Spec p drafting waits rev r w s = elim (Bool-cases r.critic_approved) [
      | inl e ↦ rw e (
          bind-Spec env (At env p 0) (λ _. AtGate env awaiting 0) (Out env Designed)
            (open_gate env waits rev) (λ _ v. read_gate env rev r.markdown v.approval again v)
            (open_gate-Spec env p drafting waits rev)
            (λ _ v q. read_gate-Spec rev r.markdown v.approval v q refl) w s)
      | inr e ↦ rw e (cap_planning-Spec env p drafting rev Designed w s)
    ]

  -- The design gate is left with an approval, or the run returns with the label of its status.
  pub design_loop-Spec :
      RepliesLeaveLabel env
      → (fuel waits : ℕ) (p : Place) → IsDrafting p
      → Spec env (At env p 0) (design_loop env fuel waits) (Out env Designed)
  unfolding design_loop planning_loop
  design_loop-Spec replies zero waits p drafting w s = Stands-IsLawful env p (label_of p) 0 w s
  design_loop-Spec replies (suc fuel) waits p drafting w s =
      let rev = current_rev w.state in
      let feedback = or_else (w.state planning_feedback) [] in
      let again = design_loop env fuel waits in
      bind-Spec env (At env p 0) (λ _. At env p 0) (Out env Designed)
        (plan_attempts env planning_max_attempts_cap rev feedback [])
        (λ r. after_planning env waits rev r again)
        (plan_attempts-Spec env p drafting replies planning_max_attempts_cap rev feedback [])
        (λ r.
          after_planning-Spec again
            (design_loop-Spec replies fuel waits designing designing-IsDrafting)
            (design_loop-Spec replies fuel waits awaiting awaiting-IsDrafting) p drafting waits rev
            r)
        w s
