-- ===== src/Issue/TriageLife.antt =====
-- How `_run_triage` of src/darkfactory/runtime/issue_workflow.py moves an issue.
use local_dafa.Base.{
  ℕ, zero, suc, ◌+◌, ◌≤◌, false, none, some, List, [], ◌∷◌, ◌≡◌, refl, Text, codes, arith, inl, inr,
  Bool-cases, or_else, leb, is_empty, leb→le,
}
use local_dafa.State.Records.{Label}
use local_dafa.State.Channels.{Delta, ready_to_build, clarification_questions, derived_user_request}
use local_dafa.Issue.Machine.{
  IssueWorkflow, Service, Reply, returned, failed, Flow, ◌>>=◌, ◌>>◌, continue_with, pure, Exit,
  or_return, finish, Phase, PhaseStatus, running, triage_stage, post_questions, post_abandoned,
  abandoned, swap_label,
}
use local_dafa.Issue.Steps.{call, tick, absorb, wait_for, swap, cancel_if_requested, reply_result}
use local_dafa.Issue.Triage.{
  max_clarification_rounds, delta_get, comments_delta, request_delta, abandoned_delta, answered,
  take_comments, drain, triage_phase, ask_triage, accept_issue, abandon, ask_author, resume_triage,
  clarify, after_triage, triage_loop,
}
use local_dafa.Issue.Life.{
  Place, triaging, clarifying, finished, label_of, step, works, moves, swap_move,
}
use local_dafa.Issue.Logic.{
  Stands-kept, At, Stands-IsLawful, Ends, Spec, bind-Spec, Out, or_return-Spec,
}
use local_dafa.Issue.Rules.{
  RepliesLeaveLabel, tick-Stands, call-Spec, called-Stands, absorb-Spec, swap-Spec, wait_for-Spec,
}
use local_dafa.Issue.Moves.{MayComment, phase-Spec, cancel_if_requested-Spec}

triaging-MayComment : (n : ℕ) → MayComment (triaging n)
unfolding step works
triaging-MayComment n m s = refl

post_questions-step :
    (qs : List Text) (n : ℕ)
    → leb max_clarification_rounds n ≡ false
    → step (triaging n) (post_questions qs (n + 1)) ≡ some (triaging n)
unfolding step works
post_questions-step qs n h = ground arith

post_abandoned-step :
    (qs : List Text) (n : ℕ)
    → n ≡ 3
    → step (triaging n) (post_abandoned qs (n + 1)) ≡ some (triaging n)
unfolding step works
post_abandoned-step qs n h = rw h refl

give_up-step :
    (n : ℕ)
    → n ≡ 3
    → step (triaging n) (swap_label (Label.triaging ∷ []) Label.needs_human)
      ≡ some (finished Label.needs_human)
unfolding step moves swap_move
give_up-step n h = rw h refl

clarify-step :
    (n : ℕ)
    → leb max_clarification_rounds n ≡ false
    → step (triaging n) (swap_label (Label.triaging ∷ []) Label.needs_clarification)
      ≡ some (clarifying (suc n))
unfolding step moves swap_move
clarify-step n h = ground arith

module _ (env : Service) where
  -- In triage, with so many clarification rounds behind.
  abbrev Triaging : ℕ → IssueWorkflow → Type 0
  Triaging n = At env (triaging n) 0

  -- Triaged, and ready to design.
  abbrev pub Triaged : IssueWorkflow → Type 0
  Triaged w = (n : ℕ) × At env (triaging n) 0 w

  take_comments-Spec :
      (p : Place) (n : ℕ) → Spec env (At env p n) (take_comments env) (λ _. At env p n)
  unfolding take_comments comments_delta
  take_comments-Spec p n w s =
      absorb-Spec env (comments_delta w.new_comments) p (label_of p) n refl
        (record w { new_comments = [] }) (Stands-kept w _ refl refl refl s)

  drain-Spec : (p : Place) (n : ℕ) → Spec env (At env p n) (drain env) (λ _. At env p n)
  unfolding drain
  drain-Spec p n w s = elim (Bool-cases (is_empty w.new_comments)) [
    | inl e ↦ rw e s
    | inr e ↦ rw e (take_comments-Spec p n w s)
  ]

  pub triage_phase-Spec :
      (status : PhaseStatus) (n : ℕ)
      → Spec env (Triaging n) (triage_phase env status) (λ _. Triaging n)
  unfolding triage_phase
  triage_phase-Spec status n =
      phase-Spec env Phase.triage status none none (triaging n) Label.triaging 0
        (triaging-MayComment n)

  ask_triage-Spec :
      RepliesLeaveLabel env → (n : ℕ) → Spec env (Triaging n) (ask_triage env) (λ _. Triaging n)
  unfolding ask_triage call step works
  ask_triage-Spec replies n w s = go (env.reply w.clock triage_stage w.state) refl
    where
      v : IssueWorkflow
      v = tick env (record w { trace = triage_stage ∷ w.trace })

      here : Triaging n v
      here =
          tick-Stands env (triaging n) Label.triaging 0
            (record w { trace = triage_stage ∷ w.trace })
            (called-Stands env triage_stage (triaging n) (triaging n) Label.triaging 0 w refl
              (omega arith) refl s)

      go :
          (r : Reply)
          → env.reply w.clock triage_stage w.state ≡ r
          → Ends env
              (λ (_ : Delta). Triaging n)
              (continue_with (reply_result r) (λ d. absorb env d >> pure d) v)
      go (returned d) eq =
          bind-Spec env (Triaging n) (λ _. Triaging n) (λ _. Triaging n) (absorb env d)
            (λ _. pure d)
            (absorb-Spec env d (triaging n) Label.triaging 0
              (replies.leaves w.clock triage_stage w.state d eq))
            (λ _ u q. q) v here
      go (failed x) eq = Stands-IsLawful env (triaging n) Label.triaging 0 v here

  accept_issue-Spec :
      (d : Delta) (n : ℕ) → Spec env (Triaging n) (accept_issue env d) (Out env Triaged)
  unfolding accept_issue request_delta
  accept_issue-Spec d n =
      let t = or_else (delta_get d derived_user_request) [] in
      bind-Spec env (Triaging n) (λ _. Triaging n) (Out env Triaged) (absorb env (request_delta t))
        (λ _. triage_phase env PhaseStatus.done >> pure none)
        (absorb-Spec env (request_delta t) (triaging n) Label.triaging 0 refl)
        (λ _.
          bind-Spec env (Triaging n) (λ _. Triaging n) (Out env Triaged)
            (triage_phase env PhaseStatus.done) (λ _. pure none)
            (triage_phase-Spec PhaseStatus.done n) (λ _ u q. (n, q)))

  -- A triage that is given up closes the issue for a human.
  end_abandoned-Spec :
      (n : ℕ) (h : n ≡ 3)
      → Spec env
          (Triaging n)
          (swap env (Label.triaging ∷ []) Label.needs_human
            >> finish abandoned (some (codes "max_clarification_rounds")))
          (Out env Triaged)
  end_abandoned-Spec n h =
      bind-Spec env (Triaging n) (λ _. At env (finished Label.needs_human) 0) (Out env Triaged)
        (swap env (Label.triaging ∷ []) Label.needs_human)
        (λ _. finish abandoned (some (codes "max_clarification_rounds")))
        (swap-Spec env (Label.triaging ∷ []) Label.needs_human (triaging n)
          (finished Label.needs_human) 0 (give_up-step n h) refl (omega arith))
        (λ _ u q. (finished Label.needs_human, q, refl))

  abandon-Spec :
      (d : Delta) (n : ℕ) → n ≡ 3 → Spec env (Triaging n) (abandon env n d) (Out env Triaged)
  unfolding abandon abandoned_delta
  abandon-Spec d n h =
      let qs = or_else (delta_get d clarification_questions) [] in
      let ending =
        swap env (Label.triaging ∷ []) Label.needs_human
        >> finish abandoned (some (codes "max_clarification_rounds")) in
      let posting = λ (_ : Unit {0}). call env (post_abandoned qs (n + 1)) >> ending in
      bind-Spec env (Triaging n) (λ _. Triaging n) (Out env Triaged)
        (absorb env (abandoned_delta n)) (λ _. triage_phase env PhaseStatus.done >>= posting)
        (absorb-Spec env (abandoned_delta n) (triaging n) Label.triaging 0 refl)
        (λ _.
          bind-Spec env (Triaging n) (λ _. Triaging n) (Out env Triaged)
            (triage_phase env PhaseStatus.done) posting (triage_phase-Spec PhaseStatus.done n)
            (λ _.
              bind-Spec env (Triaging n) (λ _. Triaging n) (Out env Triaged)
                (call env (post_abandoned qs (n + 1))) (λ _. ending)
                (call-Spec env (post_abandoned qs (n + 1)) (triaging n) Label.triaging 0
                  (post_abandoned-step qs n h))
                (λ _. end_abandoned-Spec n h)))

  -- The author is asked, and the issue waits with the next round.
  ask_author-Spec :
      (waits : ℕ) (d : Delta) (n : ℕ)
      → leb max_clarification_rounds n ≡ false
      → Spec env (Triaging n) (ask_author env waits (n + 1) d) (λ _. At env (clarifying (suc n)) 0)
  unfolding ask_author
  ask_author-Spec waits d n h =
      let qs = or_else (delta_get d clarification_questions) [] in
      let waiting = λ (_ : Unit {0}). wait_for env waits answered in
      let swapping = swap env (Label.triaging ∷ []) Label.needs_clarification >>= waiting in
      let C = At env (clarifying (suc n)) 0 in
      bind-Spec env (Triaging n) (λ _. Triaging n) (λ _. C) (triage_phase env running)
        (λ _. call env (post_questions qs (n + 1)) >> swapping) (triage_phase-Spec running n)
        (λ _.
          bind-Spec env (Triaging n) (λ _. Triaging n) (λ _. C)
            (call env (post_questions qs (n + 1))) (λ _. swapping)
            (call-Spec env (post_questions qs (n + 1)) (triaging n) Label.triaging 0
              (post_questions-step qs n h))
            (λ _.
              bind-Spec env (Triaging n) (λ _. C) (λ _. C)
                (swap env (Label.triaging ∷ []) Label.needs_clarification) waiting
                (swap-Spec env (Label.triaging ∷ []) Label.needs_clarification (triaging n)
                  (clarifying (suc n)) 0 (clarify-step n h) refl (omega arith))
                (λ _.
                  wait_for-Spec env waits answered (clarifying (suc n)) Label.needs_clarification
                    0)))

  resume_triage-Spec :
      (n : ℕ) → Spec env (At env (clarifying n) 0) (resume_triage env) (λ _. Triaging n)
  unfolding resume_triage step moves swap_move
  resume_triage-Spec n =
      let C = At env (clarifying n) 0 in
      let telling = λ (_ : Unit {0}). triage_phase env running in
      bind-Spec env C (λ _. C) (λ _. Triaging n) (take_comments env)
        (λ _. swap env (Label.needs_clarification ∷ []) Label.triaging >>= telling)
        (take_comments-Spec (clarifying n) 0)
        (λ _.
          bind-Spec env C (λ _. Triaging n) (λ _. Triaging n)
            (swap env (Label.needs_clarification ∷ []) Label.triaging) telling
            (swap-Spec env (Label.needs_clarification ∷ []) Label.triaging (clarifying n)
              (triaging n) 0 refl refl (omega arith))
            (λ _. triage_phase-Spec running n))

  clarify-Spec :
      (waits : ℕ) (d : Delta) (n : ℕ) (again : Flow Exit)
      → leb max_clarification_rounds n ≡ false
      → Spec env (Triaging (suc n)) again (Out env Triaged)
      → Spec env (Triaging n) (clarify env waits (n + 1) d again) (Out env Triaged)
  unfolding clarify step moves swap_move
  clarify-Spec waits d n again h next =
      let C = At env (clarifying (suc n)) 0 in
      let resuming = λ (e : Exit). or_return e (resume_triage env >> again) in
      bind-Spec env (Triaging n) (λ _. C) (Out env Triaged) (ask_author env waits (n + 1) d)
        (λ _. cancel_if_requested env Label.needs_clarification >>= resuming)
        (ask_author-Spec waits d n h)
        (λ _.
          bind-Spec env C (Out env C) (Out env Triaged)
            (cancel_if_requested env Label.needs_clarification) resuming
            (cancel_if_requested-Spec env Label.needs_clarification (clarifying (suc n)) 0 refl)
            (λ e. or_return-Spec env C Triaged e (resume_triage env >> again) (
              bind-Spec env C (λ _. Triaging (suc n)) (Out env Triaged) (resume_triage env)
                (λ _. again) (resume_triage-Spec (suc n)) (λ _. next))))

  after_triage-Spec :
      (waits : ℕ) (d : Delta) (n : ℕ) (again : Flow Exit)
      → n ≤ 3
      → (suc n ≤ 3 → Spec env (Triaging (suc n)) again (Out env Triaged))
      → Spec env (Triaging n) (after_triage env waits n d again) (Out env Triaged)
  unfolding after_triage
  after_triage-Spec waits d n again small next w s =
      elim (Bool-cases (or_else (delta_get d ready_to_build) false)) [
        | inl e ↦ rw e (accept_issue-Spec d n w s)
        | inr e ↦ rw e (elim (Bool-cases (leb max_clarification_rounds n)) [
          | inl h ↦ rw h (abandon-Spec d n (omega (arith, small, leb→le 3 n h)) w s)
          | inr h ↦ rw h (clarify-Spec waits d n again h (next (ground (arith, h))) w s)
        ])
      ]

  -- Whatever the updates and the replies are, triage ends with the issue in triage or returns with
  -- the label of its status.
  pub triage_loop-Spec :
      RepliesLeaveLabel env
      → (fuel waits n : ℕ) → n ≤ 3
      → Spec env (Triaging n) (triage_loop env fuel waits n) (Out env Triaged)
  unfolding triage_loop step moves swap_move
  triage_loop-Spec replies zero waits n small w s =
      Stands-IsLawful env (triaging n) Label.triaging 0 w s
  triage_loop-Spec replies (suc fuel) waits n small w s =
      let again = triage_loop env fuel waits (n + 1) in
      let T = Triaging n in
      let judging = λ (d : Delta). after_triage env waits n d again in
      let asking = λ (_ : Unit {0}). ask_triage env >>= judging in
      let resuming = λ (e : Exit). or_return e (drain env >>= asking) in
      bind-Spec env T (Out env T) (Out env Triaged) (cancel_if_requested env Label.triaging)
        resuming (cancel_if_requested-Spec env Label.triaging (triaging n) 0 refl)
        (λ e. or_return-Spec env T Triaged e (drain env >>= asking) (
          bind-Spec env T (λ _. T) (Out env Triaged) (drain env) asking (drain-Spec (triaging n) 0)
            (λ _.
              bind-Spec env T (λ _. T) (Out env Triaged) (ask_triage env) judging
                (ask_triage-Spec replies n)
                (λ d. after_triage-Spec waits d n again small (λ h.
                  let e : n + 1 ≡ suc n = omega arith in
                  rw e (triage_loop-Spec replies fuel waits (suc n) h))))))
        w s
