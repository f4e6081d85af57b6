-- ===== src/Issue/DesignLife.antt =====
-- How `_run_design_gate` and `_run_planning_loop` of src/darkfactory/runtime/issue_workflow.py move
-- an issue.
use local_dafa.Base.{
  ℕ, zero, suc, ◌-◌, Option, none, some, List, [], ◌∷◌, ◌++◌, ◌≡◌, refl, Text, codes, arith, inl,
  inr, Bool-cases, or_else,
}
use local_dafa.State.Records.{Label, ReviewDecision}
use local_dafa.State.Channels.{review_decision, stories, spec}
use local_dafa.Flow.Budget.{planning_max_attempts_cap}
use local_dafa.Flow.Feedback.{planning_approved, reset_planning_artifacts}
use local_dafa.Flow.Planning.{feedback_of, attempt_delta}
use local_dafa.Issue.Machine.{
  IssueWorkflow, Service, Flow, ◌>>=◌, ◌>>◌, pure, finish, set_state, Phase, PhaseStatus, running,
  discovery, needs_human, swap_label,
}
use local_dafa.Issue.Steps.{absorb, stage, wait_for, swap, phase}
use local_dafa.Issue.Design.{
  spec_delta, critic_delta, signaled, Planned, design_phase, draft, after_critic, plan_attempts,
  cap_planning, open_gate,
}
use local_dafa.Issue.Life.{
  Place, designing, awaiting, finished, stuck, label_of, step, works, moves, swap_move, needed,
}
use local_dafa.Issue.Logic.{Stands-kept, At, Ends, Spec, bind-Spec, Out}
use local_dafa.Issue.Rules.{RepliesLeaveLabel, absorb-Spec, set_state-Spec, swap-Spec}
use local_dafa.Issue.Moves.{MayComment, stage-Spec, phase-Spec}
use local_dafa.Issue.Gates.{AtGate, wait_for-AtGate}

-- A place where a design is drafted: the Plan Critic may refuse it, or its approval is asked for.
pub record IsDrafting (p : Place) : Type 0 where
  pub comments : MayComment p
  pub discovers : step p discovery ≡ some p
  pub free : needed p ≡ 0
  pub refused : Place
  pub refuses : step p (swap_label (Label.designing ∷ []) Label.needs_human) ≡ some refused
  pub refused_label : label_of refused ≡ Label.needs_human
  pub refused_free : needed refused ≡ 0
  pub opens : step p (swap_label (Label.designing ∷ []) Label.awaiting_approval) ≡ some awaiting

pub designing-IsDrafting : IsDrafting designing
unfolding step works moves swap_move
designing-IsDrafting = record {
  comments = λ m s. refl;
  discovers = refl;
  free = refl;
  refused = finished Label.needs_human;
  refuses = refl;
  refused_label = refl;
  refused_free = refl;
  opens = refl;
}

-- A Fix or a Rebuild at the gate drafts again while the approval is still asked for.
pub awaiting-IsDrafting : IsDrafting awaiting
unfolding step works moves swap_move
awaiting-IsDrafting = record {
  comments = λ m s. refl;
  discovers = refl;
  free = refl;
  refused = stuck;
  refuses = refl;
  refused_label = refl;
  refused_free = refl;
  opens = refl;
}

pub awaiting-MayComment : MayComment awaiting
awaiting-MayComment = awaiting-IsDrafting.comments

module _ (env : Service) where
  module _ (p : Place) (drafting : IsDrafting p) where
    draft-Spec :
        RepliesLeaveLabel env
        → (rev n : ℕ) (feedback : List Text)
        → Spec env (At env p 0) (draft env rev n feedback) (λ _. At env p 0)
    unfolding draft attempt_delta spec_delta reset_planning_artifacts
    draft-Spec replies rev n feedback =
        let P = At env p 0 in
        let closing = λ (md : Text). absorb env (spec_delta rev md) >> pure md in
        let rendering = λ (w : IssueWorkflow).
          closing
            (env.spec_markdown (or_else (w.state stories) []) (or_else (w.state spec) [])
              (w.state review_decision))
            w in
        let discovering = λ (_ : Unit {0}). stage env discovery >>= λ _. rendering in
        let resetting = λ (_ : Unit {0}). set_state reset_planning_artifacts >>= discovering in
        bind-Spec env P (λ _. P) (λ _. P) (phase env Phase.design running (some rev) (some n))
          (λ _. absorb env (attempt_delta n feedback) >>= resetting)
          (phase-Spec env Phase.design running (some rev) (some n) p (label_of p) 0
            drafting.comments)
          (λ _.
            bind-Spec env P (λ _. P) (λ _. P) (absorb env (attempt_delta n feedback)) resetting
              (absorb-Spec env (attempt_delta n feedback) p (label_of p) 0 refl)
              (λ _.
                bind-Spec env P (λ _. P) (λ _. P) (set_state reset_planning_artifacts) discovering
                  (set_state-Spec env reset_planning_artifacts p (label_of p) 0 (λ s. refl))
                  (λ _.
                    bind-Spec env P (λ _. P) (λ _. P) (stage env discovery) (λ _. rendering)
                      (stage-Spec env replies discovery p (label_of p) 0 drafting.discovers)
                      (λ _ w s. render w s))))
      where
        render :
            (w : IssueWorkflow)
            → At env p 0 w
            → Ends env
                (λ (_ : Text). At env p 0)
                ((absorb env (
                      spec_delta rev (
                        env.spec_markdown
                          (or_else (w.state stories) [])
                          (or_else (w.state spec) [])
                          (w.state review_decision)))
                    >> pure (
                        env.spec_markdown
                          (or_else (w.state stories) [])
                          (or_else (w.state spec) [])
                          (w.state review_decision)))
                  w)
        render w s =
            let md =
              env.spec_markdown (or_else (w.state stories) []) (or_else (w.state spec) [])
                (w.state review_decision) in
            bind-Spec env (At env p 0) (λ _. At env p 0) (λ _. At env p 0)
              (absorb env (spec_delta rev md)) (λ _. pure md)
              (absorb-Spec env (spec_delta rev md) p (label_of p) 0 refl) (λ _ v q. q) w s

    after_critic-Spec :
        (rev n : ℕ) (feedback : List Text) (md : Text) (d : Option ReviewDecision)
        (again : List Text → Text → Flow Planned)
        → ((fb : List Text) (m : Text) → Spec env (At env p 0) (again fb m) (λ _. At env p 0))
        → Spec env (At env p 0) (after_critic env rev n feedback md d again) (λ _. At env p 0)
    unfolding after_critic critic_delta
    after_critic-Spec rev n feedback md d again next w s =
        let item = feedback_of d in
        let fb = feedback ++ item ∷ [] in
        elim (Bool-cases (planning_approved d)) [
          | inl e ↦ rw e s
          | inr e ↦ rw e (
              bind-Spec env (At env p 0) (λ _. At env p 0) (λ _. At env p 0)
                (absorb env (critic_delta n rev fb item)) (λ _. again fb md)
                (absorb-Spec env (critic_delta n rev fb item) p (label_of p) 0 refl)
                (λ _. next fb md) w s)
        ]

    pub plan_attempts-Spec :
        RepliesLeaveLabel env
        → (left rev : ℕ) (feedback : List Text) (md : Text)
        → Spec env (At env p 0) (plan_attempts env left rev feedback md) (λ _. At env p 0)
    unfolding plan_attempts
    plan_attempts-Spec replies zero rev feedback md w s = s
    plan_attempts-Spec replies (suc left) rev feedback md w s =
        let n = planning_max_attempts_cap - left in
        bind-Spec env (At env p 0) (λ _. At env p 0) (λ _. At env p 0) (draft env rev n feedback)
          (λ md' v.
            after_critic env rev n feedback md' (v.state review_decision)
              (plan_attempts env left rev) v)
          (draft-Spec replies rev n feedback)
          (λ md' v q.
            after_critic-Spec rev n feedback md' (v.state review_decision)
              (plan_attempts env left rev) (plan_attempts-Spec replies left rev) v q)
          w s

    pub cap_planning-Spec :
        (rev : ℕ) (Q : IssueWorkflow → Type 0)
        → Spec env (At env p 0) (cap_planning env rev) (Out env Q)
    unfolding cap_planning
    cap_planning-Spec rev Q =
        let capped = finish needs_human (some (codes "planning_retry_cap")) in
        bind-Spec env (At env p 0) (λ _. At env p 0) (Out env Q)
          (design_phase env PhaseStatus.failed rev)
          (λ _. swap env (Label.designing ∷ []) Label.needs_human >> capped)
          (phase-Spec env Phase.design PhaseStatus.failed (some rev) none p (label_of p) 0
            drafting.comments)
          (λ _.
            bind-Spec env (At env p 0) (λ _. At env drafting.refused 0) (Out env Q)
              (swap env (Label.designing ∷ []) Label.needs_human) (λ _. capped)
              (swap-Spec env (Label.designing ∷ []) Label.needs_human p drafting.refused 0
                drafting.refuses drafting.refused_label (omega (arith, drafting.refused_free)))
              (λ _ w s. (
                drafting.refused,
                record {
                  lives = s.lives;
                  labelled = s.labelled;
                  passed = rw (drafting.refused_free) tt;
                  enough = omega arith;
                  up = s.up;
                },
                drafting.refused_label,
              )))

    pub open_gate-Spec :
        (waits rev : ℕ)
        → Spec env (At env p 0) (open_gate env waits rev) (λ _. AtGate env awaiting 0)
    unfolding open_gate
    open_gate-Spec waits rev =
        let waiting = λ (_ : Unit {0}) (w : IssueWorkflow).
          wait_for env waits signaled (record w { approval = none }) in
        bind-Spec env (At env p 0) (λ _. At env p 0) (λ _. AtGate env awaiting 0)
          (design_phase env PhaseStatus.done rev)
          (λ _. swap env (Label.designing ∷ []) Label.awaiting_approval >>= waiting)
          (phase-Spec env Phase.design PhaseStatus.done (some rev) none p (label_of p) 0
            drafting.comments)
          (λ _.
            bind-Spec env (At env p 0) (λ _. At env awaiting 0) (λ _. AtGate env awaiting 0)
              (swap env (Label.designing ∷ []) Label.awaiting_approval) waiting
              (swap-Spec env (Label.designing ∷ []) Label.awaiting_approval p awaiting 0
                drafting.opens refl (omega arith))
              (λ _ w s.
                wait_for-AtGate env waits signaled awaiting 0 (record w { approval = none })
                  (Stands-kept w _ refl refl refl s, λ h. cc)))
