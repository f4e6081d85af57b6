-- ===== src/Flow/Planning.antt =====
-- The planning loop and the brief gate of `DarkFactoryWorkflow.run`.
use local_dafa.Base.{
  ℕ, zero, suc, ◌-◌, true, Option, none, some, List, [], ◌∷◌, ◌++◌, Text, codes, if◌then◌else◌,
  or_else,
}
use local_dafa.State.Records.{GateDecision, ReviewDecision}
use local_dafa.State.Channels.{
  Delta, planning_attempts, planning_max_attempts, planning_feedback, planning_attempt_log,
  review_decision, brief_gate_approved, brief_gate_reason,
}
use local_dafa.Flow.Budget.{planning_max_attempts_cap}
use local_dafa.Flow.Feedback.{
  planning_approved, planning_feedback_from_decision, human_revise_feedback,
  planning_attempt_log_entry, reset_planning_artifacts,
}
use local_dafa.Flow.Machine.{
  Service, ok, pending_still, Flow, ◌>>=◌, ◌>>◌, pure, gets, modify, set_state, Exit, finish,
  discovery, rejected, needs_human, brief_gate,
}
use local_dafa.Flow.Signals.{brief_decided}
use local_dafa.Flow.Stages.{absorb, stage, wait_for, set_pending}

unfoldable pub attempt_delta : ℕ → List Text → Delta
attempt_delta n feedback planning_attempts = some (some n)
attempt_delta n feedback planning_max_attempts = some (some planning_max_attempts_cap)
attempt_delta n feedback planning_feedback = some (some feedback)
attempt_delta n feedback _ = none

unfoldable pub reject_delta : ℕ → List Text → Text → Delta
reject_delta n feedback item planning_feedback = some (some feedback)
reject_delta n feedback item planning_attempt_log =
    some (some (planning_attempt_log_entry (codes "plan_critic_reject") n item none none [] 0 ∷ []))
reject_delta n feedback item _ = none

unfoldable pub revise_delta : ℕ → Text → Delta
revise_delta attempt item planning_attempts = some (some 0)
revise_delta attempt item planning_feedback = some (some (item ∷ []))
revise_delta attempt item planning_attempt_log =
    some (some (planning_attempt_log_entry (codes "human_revise") attempt item none none [] 0 ∷ []))
revise_delta attempt item _ = none

unfoldable pub brief_delta : Text → Delta
brief_delta reason brief_gate_approved = some (some true)
brief_delta reason brief_gate_reason = some (some reason)
brief_delta reason _ = none

-- What a rejected decision is told; a missing one is never rejected.
abbrev pub feedback_of : Option ReviewDecision → Text
feedback_of none = []
feedback_of (some d) = planning_feedback_from_decision d

-- How the inner `for` loop ended: with the feedback so far, or by `return`.
pub data Plan : Type 0 where
  approved_plan : List Text → Plan
  capped : Plan

module _ (env : Service) where
  -- One attempt up to the Plan Critic's verdict.
  unfoldable pub attempt : ℕ → List Text → Flow (Option ReviewDecision)
  unfolding attempt_delta
  attempt n feedback = do
    absorb env (attempt_delta n feedback)
    set_state reset_planning_artifacts
    stage env discovery
    gets (λ w. w.state review_decision)

  -- The rest of the loop's body: `break`, or the feedback of the rejection and the next attempt.
  unfoldable pub after_critic :
      ℕ → List Text → Option ReviewDecision → (List Text → Flow Plan) → Flow Plan
  unfolding reject_delta
  after_critic n feedback decision again =
      let item = feedback_of decision in
      let feedback' = feedback ++ item ∷ [] in
      let retry = absorb env (reject_delta n feedback' item) >> again feedback' in
      if planning_approved decision then pure (approved_plan feedback) else retry

  -- `for attempt in range(PLANNING_MAX_ATTEMPTS)`, by the attempts left.
  unfoldable pub plan_attempts : ℕ → List Text → Flow Plan
  unfolding attempt after_critic
  plan_attempts zero feedback w = (ok capped, w)
  plan_attempts (suc left) feedback w =
      let n = planning_max_attempts_cap - left in
      (attempt n feedback >>= λ d. after_critic n feedback d (plan_attempts left)) w

  -- What the brief gate was told: a note to revise, an approval, or anything else.
  unfoldable pub revise_round : GateDecision → Flow (List Text)
  unfolding revise_delta
  revise_round d = do
    modify (λ w. record w { revise = none; brief = none })
    let item = human_revise_feedback d
    n ← gets (λ w. or_else (w.state planning_attempts) 0)
    absorb env (revise_delta n item)
    pure (item ∷ [])

  unfoldable pub brief_verdict : Option GateDecision → Flow Exit
  unfolding brief_delta
  brief_verdict none = finish rejected (some (codes "brief gate rejected"))
  brief_verdict (some d) =
      if d.approved
      then absorb env (brief_delta d.reason) >> pure none
      else finish rejected (some d.reason)

  -- A note to revise starts another round, and any other decision ends the planning.
  unfoldable pub after_brief :
      Option GateDecision → Option GateDecision → (List Text → Flow Exit) → Flow Exit
  unfolding revise_round brief_verdict
  after_brief (some note) verdict again = revise_round note >>= again
  after_brief none verdict again = brief_verdict verdict

  unfoldable pub after_plan : ℕ → Plan → (List Text → Flow Exit) → Flow Exit
  unfolding after_brief
  after_plan waits capped again = finish needs_human (some (codes "planning_retry_cap"))
  after_plan waits (approved_plan _) again = do
    set_pending (some brief_gate)
    wait_for env waits brief_decided
    set_pending none
    note ← gets (λ v. v.revise)
    verdict ← gets (λ v. v.brief)
    after_brief note verdict again

  -- `while True`: attempts, the brief gate, and another round for each note to revise.
  unfoldable pub planning_loop : ℕ → ℕ → List Text → Flow Exit
  unfolding plan_attempts after_plan
  planning_loop zero waits feedback w = (pending_still, w)
  planning_loop (suc rounds) waits feedback w =
      (plan_attempts planning_max_attempts_cap feedback >>= λ plan.
      after_plan waits plan (planning_loop rounds waits))
        w
