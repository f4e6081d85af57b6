-- ===== src/Issue/RunLife.antt =====
-- How a run of src/darkfactory/runtime/issue_workflow.py moves an issue, from its setup to its
-- teardown.
use local_dafa.Base.{none, [], ◌∷◌, refl, arith, inl, inr, Bool-cases, is_some}
use local_dafa.State.Records.{Label}
use local_dafa.State.Channels.{issue}
use local_dafa.Issue.Machine.{
  IssueWorkflow, Service, ◌>>=◌, ◌>>◌, Exit, or_return, finish, Phase, PhaseStatus, running, merged,
  hydrate, pr_creator, merge_branch, mark_issue_done,
}
use local_dafa.Issue.Steps.{stage, swap, phase}
use local_dafa.Issue.Triage.{triage_phase, triage_loop}
use local_dafa.Issue.Design.{design_loop}
use local_dafa.Issue.Building.{build_and_verify}
use local_dafa.Issue.Review.{review_loop}
use local_dafa.Issue.Run.{
  Fuel, begin_triage, create_pr, mark_done, merge_change, review_and_merge, build_and_deliver,
  design_and_deliver, body,
}
use local_dafa.Issue.Life.{
  ready, triaging, designing, awaiting, building, verifying, gated, merging, finished, step, works,
  moves, swap_move,
}
use local_dafa.Issue.Logic.{At, Spec, bind-Spec, Out, or_return-Spec}
use local_dafa.Issue.Rules.{RepliesLeaveLabel, swap-Spec}
use local_dafa.Issue.Moves.{MayComment, stage-Spec, phase-Spec}
use local_dafa.Issue.TriageLife.{Triaged, triage_phase-Spec, triage_loop-Spec}
use local_dafa.Issue.DesignLife.{designing-IsDrafting}
use local_dafa.Issue.DesignGate.{Designed, design_loop-Spec}
use local_dafa.Issue.BuildLife.{Verifying, verifying-MayComment, build_and_verify-Spec}
use local_dafa.Issue.ReviewLife.{Accepted, IsReviewable, review_loop-Spec}

merging-MayComment : MayComment merging
unfolding step works
merging-MayComment m s = refl

verifying-IsReviewable : IsReviewable verifying
unfolding step moves swap_move
verifying-IsReviewable = refl

module _ (env : Service) (replies : RepliesLeaveLabel env) (fuel : Fuel) where
  -- The body never ends without a result.
  abbrev pub Closed : Exit → IssueWorkflow → Type 0
  Closed = Out env (λ _. ⊥)

  abbrev Merging : IssueWorkflow → Type 0
  Merging = At env merging 2

  merge_phase-Spec :
      (status : PhaseStatus)
      → Spec env Merging (phase env Phase.merge status none none) (λ _. Merging)
  merge_phase-Spec status =
      phase-Spec env Phase.merge status none none merging Label.in_progress 2 merging-MayComment

  mark_done-Spec : Spec env Merging (mark_done env fuel) (λ _. Merging)
  unfolding mark_done step works
  mark_done-Spec w s = elim (Bool-cases (is_some (w.state issue))) [
    | inl e ↦
        rw (mark_done, e)
          (stage-Spec env replies mark_issue_done merging Label.in_progress 2 refl w s)
    | inr e ↦ rw (mark_done, e) s
  ]

  -- The end of a merged run.
  close_merged-Spec :
      Spec env Merging
        (mark_done env fuel >> (swap env (Label.in_progress ∷ []) Label.done >> finish merged none))
        Closed
  unfolding step moves swap_move
  close_merged-Spec =
      let D = At env (finished Label.done) 2 in
      bind-Spec env Merging (λ _. Merging) Closed (mark_done env fuel)
        (λ _. swap env (Label.in_progress ∷ []) Label.done >> finish merged none) mark_done-Spec
        (λ _.
          bind-Spec env Merging (λ _. D) Closed (swap env (Label.in_progress ∷ []) Label.done)
            (λ _. finish merged none)
            (swap-Spec env (Label.in_progress ∷ []) Label.done merging (finished Label.done) 2 refl
              refl (omega arith))
            (λ _ w s. (finished Label.done, s, refl)))

  merge_change-Spec : Spec env (Accepted env) (merge_change env fuel) Closed
  unfolding merge_change step works moves swap_move
  merge_change-Spec =
      let closing = λ (_ : Unit {0}).
        mark_done env fuel
        >> (swap env (Label.in_progress ∷ []) Label.done >> finish merged none) in
      let telling =
        λ (_ : Unit {0}). phase env Phase.merge PhaseStatus.done none none >>= closing in
      let calling = λ (_ : Unit {0}). stage env merge_branch >>= telling in
      bind-Spec env (Accepted env) (λ _. Merging) Closed
        (swap env (Label.awaiting_merge ∷ []) Label.in_progress)
        (λ _. phase env Phase.merge running none none >>= calling)
        (swap-Spec env (Label.awaiting_merge ∷ []) Label.in_progress gated merging 2 refl refl
          (omega arith))
        (λ _.
          bind-Spec env Merging (λ _. Merging) Closed (phase env Phase.merge running none none)
            calling (merge_phase-Spec running)
            (λ _.
              bind-Spec env Merging (λ _. Merging) Closed (stage env merge_branch) telling
                (stage-Spec env replies merge_branch merging Label.in_progress 2 refl)
                (λ _.
                  bind-Spec env Merging (λ _. Merging) Closed
                    (phase env Phase.merge PhaseStatus.done none none) closing
                    (merge_phase-Spec PhaseStatus.done) (λ _. close_merged-Spec))))

  create_pr-Spec : Spec env (Verifying env) (create_pr env fuel) (λ _. Verifying env)
  unfolding create_pr step works
  create_pr-Spec =
      let V = Verifying env in
      let telling = λ (_ : Unit {0}). phase env Phase.pr PhaseStatus.done none none in
      bind-Spec env V (λ _. V) (λ _. V) (phase env Phase.pr running none none)
        (λ _. stage env pr_creator >>= telling)
        (phase-Spec env Phase.pr running none none verifying Label.verifying 1 verifying-MayComment)
        (λ _.
          bind-Spec env V (λ _. V) (λ _. V) (stage env pr_creator) telling
            (stage-Spec env replies pr_creator verifying Label.verifying 1 refl)
            (λ _.
              phase-Spec env Phase.pr PhaseStatus.done none none verifying Label.verifying 1
                verifying-MayComment))

  review_and_merge-Spec : Spec env (Verifying env) (review_and_merge env fuel) Closed
  unfolding review_and_merge
  review_and_merge-Spec =
      let merging = λ (e : Exit). or_return e (merge_change env fuel) in
      bind-Spec env (Verifying env) (λ _. Verifying env) Closed (create_pr env fuel)
        (λ _. review_loop env fuel.reviews fuel.waits 0 >>= merging) create_pr-Spec
        (λ _.
          bind-Spec env (Verifying env) (Out env (Accepted env)) Closed
            (review_loop env fuel.reviews fuel.waits 0) merging
            (review_loop-Spec env replies fuel.reviews fuel.waits 0 verifying
              verifying-IsReviewable)
            (λ e.
              or_return-Spec env (Accepted env) (λ _. ⊥) e (merge_change env fuel)
                merge_change-Spec))

  build_and_deliver-Spec : Spec env (Designed env) (build_and_deliver env fuel) Closed
  unfolding build_and_deliver step moves swap_move
  build_and_deliver-Spec =
      let B = At env building 1 in
      let resuming = λ (e : Exit). or_return e (review_and_merge env fuel) in
      bind-Spec env (Designed env) (λ _. B) Closed
        (swap env (Label.awaiting_approval ∷ Label.approved ∷ []) Label.building)
        (λ _. build_and_verify env fuel.verifies >>= resuming)
        (swap-Spec env (Label.awaiting_approval ∷ Label.approved ∷ []) Label.building awaiting
          building 1 refl refl (omega arith))
        (λ _.
          bind-Spec env B (Out env (Verifying env)) Closed (build_and_verify env fuel.verifies)
            resuming (build_and_verify-Spec env replies fuel.verifies)
            (λ e.
              or_return-Spec env (Verifying env) (λ _. ⊥) e (review_and_merge env fuel)
                review_and_merge-Spec))

  design_and_deliver-Spec : Spec env (Triaged env) (design_and_deliver env fuel) Closed
  unfolding design_and_deliver step moves swap_move
  design_and_deliver-Spec w (n, s) =
      let D = At env designing 0 in
      let resuming = λ (e : Exit). or_return e (build_and_deliver env fuel) in
      bind-Spec env (At env (triaging n) 0) (λ _. D) Closed
        (swap env (Label.triaging ∷ []) Label.designing)
        (λ _. design_loop env fuel.designs fuel.waits >>= resuming)
        (swap-Spec env (Label.triaging ∷ []) Label.designing (triaging n) designing 0 refl refl
          (omega arith))
        (λ _.
          bind-Spec env D (Out env (Designed env)) Closed (design_loop env fuel.designs fuel.waits)
            resuming
            (design_loop-Spec env replies fuel.designs fuel.waits designing designing-IsDrafting)
            (λ e.
              or_return-Spec env (Designed env) (λ _. ⊥) e (build_and_deliver env fuel)
                build_and_deliver-Spec))
        w s

  begin_triage-Spec : Spec env (At env ready 0) (begin_triage env fuel) (λ _. At env (triaging 0) 0)
  unfolding begin_triage step works moves swap_move
  begin_triage-Spec =
      let R = At env ready 0 in
      let T = At env (triaging 0) 0 in
      let telling = λ (_ : Unit {0}). triage_phase env running in
      bind-Spec env R (λ _. R) (λ _. T) (stage env hydrate)
        (λ _. swap env (Label.ready ∷ []) Label.triaging >>= telling)
        (stage-Spec env replies hydrate ready Label.ready 0 refl)
        (λ _.
          bind-Spec env R (λ _. T) (λ _. T) (swap env (Label.ready ∷ []) Label.triaging) telling
            (swap-Spec env (Label.ready ∷ []) Label.triaging ready (triaging 0) 0 refl refl
              (omega arith))
            (λ _. triage_phase-Spec env running 0))

  pub body-Spec : Spec env (At env ready 0) (body env fuel) Closed
  unfolding body
  body-Spec =
      let T = At env (triaging 0) 0 in
      let resuming = λ (e : Exit). or_return e (design_and_deliver env fuel) in
      bind-Spec env (At env ready 0) (λ _. T) Closed (begin_triage env fuel)
        (λ _. triage_loop env fuel.triages fuel.waits 0 >>= resuming) begin_triage-Spec
        (λ _.
          bind-Spec env T (Out env (Triaged env)) Closed (triage_loop env fuel.triages fuel.waits 0)
            resuming (triage_loop-Spec env replies fuel.triages fuel.waits 0 (omega arith))
            (λ e.
              or_return-Spec env (Triaged env) (λ _. ⊥) e (design_and_deliver env fuel)
                design_and_deliver-Spec))
