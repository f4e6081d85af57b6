-- ===== src/Issue/RunEnds.antt =====
-- How a run of src/darkfactory/runtime/issue_workflow.py ends: it refines the life of an issue.
use local_dafa.Base.{
  ℕ, ◌+◌, true, none, some, [], ◌∷◌, ◌≡◌, refl, ◌∙◌, Text, arith, inl, inr, ◌⊎◌, ap,
}
use local_dafa.State.Records.{IssueRunRequest, Label}
use local_dafa.State.Channels.{Delta, current_df_label}
use local_dafa.Flow.Machine.{Result, ok, raised, pending_still}
use local_dafa.Issue.Machine.{
  IssueWorkflow, Service, Reply, returned, failed, Flow, continue_with, pure, Exit, setup_worker,
  teardown_worker,
}
use local_dafa.Issue.Steps.{call, tick, reply_result}
use local_dafa.Issue.Run.{Fuel, with_ids, start, body, teardown_after, run}
use local_dafa.Issue.Life.{Place, ready, down, life, step, needed, closing_label, is_up}
use local_dafa.Issue.Logic.{Passed, Passed-le, At, IsLawful, Ends, Out}
use local_dafa.Issue.Rules.{RepliesLeaveLabel, tick-Stands, deliver-trace, deliver-label}
use local_dafa.Issue.RunLife.{body-Spec}

-- Where a run leaves an issue. A result comes with the label of its status, and after it and after
-- an exception the worker is down, unless it was never set up.
abbrev pub RunEnds : Service → Result Exit × IssueWorkflow → Type 0
RunEnds env (ok none, w) = ⊥
RunEnds env (ok (some r), w) =
    (p : Place) × (life w.trace ≡ some (down p))
    × (w.state current_df_label ≡ some (closing_label r.status))
    × Passed env (needed p) w.clock
RunEnds env (raised _, w) =
    (p : Place) × (life w.trace ≡ some p)
    × Passed env (needed p) w.clock
    × (((q : Place) × (p ≡ down q)) ⊎ (w.trace ≡ setup_worker ∷ []))
RunEnds env (pending_still, w) = IsLawful env w

module _ (env : Service) where
  -- The worker is torn down.
  torn_down :
      (p : Place) (w : IssueWorkflow)
      → life w.trace ≡ some p
      → is_up p ≡ true
      → life (tick env (record w { trace = teardown_worker ∷ w.trace })).trace ≡ some (down p)
  unfolding tick life step
  torn_down p w e h =
      rw
        (deliver-trace env.caps (env.updates w.clock)
          (record w { trace = teardown_worker ∷ w.trace }))
        (rw (e, h) refl)

  torn_label :
      (w : IssueWorkflow)
      → (tick env (record w { trace = teardown_worker ∷ w.trace })).state current_df_label
        ≡ w.state current_df_label
  unfolding tick
  torn_label w =
      deliver-label env.caps (env.updates w.clock) (record w { trace = teardown_worker ∷ w.trace })

  torn-Passed :
      (n : ℕ) (w : IssueWorkflow)
      → Passed env n w.clock
      → Passed env n (tick env (record w { trace = teardown_worker ∷ w.trace })).clock
  unfolding tick
  torn-Passed n w h = Passed-le env n w.clock (w.clock + 1) (omega arith) h

  reply-RunEnds :
      (r : Reply) (f : Delta → Flow Exit) (v : IssueWorkflow) (p : Place)
      → life v.trace ≡ some (down p)
      → Passed env (needed p) v.clock
      → ((d : Delta) → RunEnds env (f d v))
      → RunEnds env (continue_with (reply_result r) f v)
  reply-RunEnds (returned d) f v p h k next = next d
  reply-RunEnds (failed e) f v p h k next = (down p, h, k, inl (p, refl))

  module _ (fuel : Fuel) where
    teardown-RunEnds :
        (r : Result Exit) (w : IssueWorkflow)
        → Ends env (Out env (λ _. ⊥)) (r, w)
        → RunEnds env (teardown_after env fuel r w)
    unfolding teardown_after call
    teardown-RunEnds (ok none) w h = absurd h
    teardown-RunEnds (ok (some x)) w (p, s, e) =
        let v = tick env (record w { trace = teardown_worker ∷ w.trace }) in
        let life_down = torn_down p w s.lives s.up in
        let kept = torn-Passed (needed p) w s.passed in
        reply-RunEnds (env.reply w.clock teardown_worker w.state) (λ _. pure (some x)) v p life_down
          kept (λ _. (p, life_down, torn_label w ∙ (s.labelled ∙ ap some e), kept))
    teardown-RunEnds (raised x) w (p, s, k, u) =
        let v = tick env (record w { trace = teardown_worker ∷ w.trace }) in
        let life_down = torn_down p w s u in
        let kept = torn-Passed (needed p) w k in
        reply-RunEnds (env.reply w.clock teardown_worker w.state) (λ _ v. (raised x, v)) v p
          life_down kept (λ _. (down p, life_down, kept, inl (p, refl)))
    teardown-RunEnds pending_still w h = h

    setup-RunEnds :
        (r : Reply) (f : Delta → Flow Exit) (v : IssueWorkflow)
        → v.trace ≡ setup_worker ∷ []
        → ((d : Delta) → RunEnds env (f d v))
        → RunEnds env (continue_with (reply_result r) f v)
    unfolding life step
    setup-RunEnds (returned d) f v h next = next d
    setup-RunEnds (failed e) f v h next = (ready, rw h refl, tt, inr h)

    started-At :
        (wf : Text) (req : IssueRunRequest)
        → At env ready 0 (tick env (record (start wf req) { trace = setup_worker ∷ [] }))
    unfolding start with_ids life step
    started-At wf req =
        tick-Stands env ready Label.ready 0 (record (start wf req) { trace = setup_worker ∷ [] })
          (record { lives = refl; labelled = refl; passed = tt; enough = omega arith; up = refl })

    -- Where no activity touches the state label, every run follows the life of an issue, however
    -- its gates are answered and whichever activities fail. A run that returns has a result, leaves
    -- the label that the status of the result stands for, and has torn its worker down; one that
    -- raises has torn its worker down too, unless the setup itself raised. In each case the issue
    -- stands behind as many approvals as were sent for it in different turns.
    pub run_refines_life :
        RepliesLeaveLabel env
        → (wf : Text) (req : IssueRunRequest) → RunEnds env (run env fuel wf req)
    unfolding run call
    run_refines_life replies wf req =
        let w = start wf req in
        let u = tick env (record w { trace = setup_worker ∷ [] }) in
        setup-RunEnds (env.reply 0 setup_worker w.state)
          (λ _ u. let (r, v) = body env fuel u in teardown_after env fuel r v) u
          (deliver-trace env.caps (env.updates 0) (record w { trace = setup_worker ∷ [] }))
          (λ _.
            teardown-RunEnds (body env fuel u).0 (body env fuel u).1
              (body-Spec env replies fuel u (started-At wf req)))
