-- ===== src/Issue/Triage.antt =====
-- `_run_triage` of src/darkfactory/runtime/issue_workflow.py.
use local_dafa.Base.{
  ℕ, zero, suc, ◌+◌, Bool, false, not, ◌||◌, Option, none, some, List, [], ◌∷◌, Text, codes,
  is_some, is_empty, or_else, leb, if◌then◌else◌,
}
use local_dafa.State.Records.{IssueComment, Label}
use local_dafa.State.Channels.{
  Channel, Content, Delta, ready_to_build, clarification_questions, derived_user_request,
  user_request, issue_comments, clarification_rounds, abandoned_reason,
}
use local_dafa.Flow.Machine.{pending_still}
use local_dafa.Issue.Machine.{
  IssueWorkflow, Service, Flow, ◌>>=◌, ◌>>◌, pure, gets, modify, Exit, or_return, finish, running,
  PhaseStatus, Phase, triage_stage, post_questions, post_abandoned, abandoned,
}
use local_dafa.Issue.Signals.{cancel_signal}
use local_dafa.Issue.Steps.{call, absorb, wait_for, swap, phase, cancel_if_requested}

abbrev pub max_clarification_rounds : ℕ
max_clarification_rounds = 3

-- `delta.get(key)`
abbrev pub delta_get : Delta → (c : Channel) → Option (Content c)
delta_get d c = or_else (d c) none

unfoldable pub comments_delta : List IssueComment → Delta
comments_delta cs issue_comments = some (some cs)
comments_delta cs _ = none

unfoldable pub request_delta : Text → Delta
request_delta t user_request = some (some t)
request_delta t _ = none

unfoldable pub abandoned_delta : ℕ → Delta
abandoned_delta n clarification_rounds = some (some n)
abandoned_delta n abandoned_reason = some (some (codes "max_clarification_rounds"))
abandoned_delta n _ = none

abbrev pub answered : IssueWorkflow → Bool
answered w = not (is_empty w.new_comments) || is_some (cancel_signal w)

module _ (env : Service) where
  -- The comments that wait go into the state.
  unfoldable pub take_comments : Flow (Unit {0})
  take_comments = do
    cs ← gets (λ w. w.new_comments)
    modify (λ w. record w { new_comments = [] })
    absorb env (comments_delta cs)

  -- The same before the triage, where there are any.
  unfoldable pub drain : Flow (Unit {0})
  unfolding take_comments
  drain = do cs ← gets (λ w. w.new_comments); (if is_empty cs then pure tt else take_comments)

  unfoldable pub triage_phase : PhaseStatus → Flow (Unit {0})
  triage_phase status = phase env Phase.triage status none none

  -- The triage agent is asked, and what it returned is merged.
  unfoldable pub ask_triage : Flow Delta
  ask_triage = do d ← call env triage_stage; absorb env d; pure d

  unfoldable pub accept_issue : Delta → Flow Exit
  unfolding triage_phase request_delta
  accept_issue d = do
    absorb env (request_delta (or_else (delta_get d derived_user_request) []))
    triage_phase PhaseStatus.done
    pure none

  unfoldable pub abandon : ℕ → Delta → Flow Exit
  unfolding triage_phase abandoned_delta
  abandon round d = do
    absorb env (abandoned_delta round)
    triage_phase PhaseStatus.done
    call env (post_abandoned (or_else (delta_get d clarification_questions) []) (round + 1))
    swap env (Label.triaging ∷ []) Label.needs_human
    finish abandoned (some (codes "max_clarification_rounds"))

  -- The questions are posted, and the workflow waits for a comment or a Cancel.
  unfoldable pub ask_author : ℕ → ℕ → Delta → Flow (Unit {0})
  unfolding triage_phase
  ask_author waits round d = do
    triage_phase running
    call env (post_questions (or_else (delta_get d clarification_questions) []) round)
    swap env (Label.triaging ∷ []) Label.needs_clarification
    wait_for env waits answered

  -- The answer is taken over, and the issue is triaged again.
  unfoldable pub resume_triage : Flow (Unit {0})
  unfolding take_comments triage_phase
  resume_triage = do
    take_comments
    swap env (Label.needs_clarification ∷ []) Label.triaging
    triage_phase running

  unfoldable pub clarify : ℕ → ℕ → Delta → Flow Exit → Flow Exit
  unfolding ask_author resume_triage
  clarify waits round d again = do
    ask_author waits round d
    e ← cancel_if_requested env Label.needs_clarification
    or_return e (resume_triage >> again)

  -- What follows from the verdict of the triage agent.
  unfoldable pub after_triage : ℕ → ℕ → Delta → Flow Exit → Flow Exit
  unfolding accept_issue abandon clarify
  after_triage waits round d again =
      let accept = accept_issue d in
      let give_up = abandon round d in
      let ask = clarify waits (round + 1) d again in
      if or_else (delta_get d ready_to_build) false
      then accept
      else if leb max_clarification_rounds round
      then give_up
      else ask

  -- `while True`, from the clarification rounds so far.
  unfoldable pub triage_loop : ℕ → ℕ → ℕ → Flow Exit
  unfolding drain ask_triage after_triage
  triage_loop zero waits round w = (pending_still, w)
  triage_loop (suc fuel) waits round w =
      (do
        e ← cancel_if_requested env Label.triaging
        or_return e (do
          drain
          d ← ask_triage
          after_triage waits round d (triage_loop fuel waits (round + 1))))
        w
