-- ===== src/Flow/Teardown.antt =====
-- The worker of a run: it is set up first, and torn down last and once, however the run ends.
use local_dafa.Base.{
  ℕ, zero, suc, ◌+◌, Bool, true, false, ◌&&◌, Option, none, some, List, [], ◌∷◌, ◌≡◌, refl, ◌⊎◌,
  inl, inr, Text, Bool-cases,
}
use local_dafa.State.Records.{GateDecision, RunRequest}
use local_dafa.State.Channels.{Delta}
use local_dafa.Flow.Budget.{planning_max_attempts_cap}
use local_dafa.Flow.Machine.{
  Activity, setup_worker, teardown_worker, hydrate, build, pr_creator, reviewer, merge_branch,
  Workflow, Service, Reply, returned, failed, Result, ok, raised, pending_still, Flow,
  continue_with, Exit, pure, finish, merged, brief_gate, merge_gate, MergeAction,
}
use local_dafa.Flow.Signals.{deliver, brief_decided, merge_decided}
use local_dafa.Flow.Stages.{call, absorb, stage, wait_for, reply_result}
use local_dafa.Flow.Planning.{
  Plan, approved_plan, capped, plan_attempts, revise_round, brief_verdict, after_brief, after_plan,
  planning_loop,
}
use local_dafa.Flow.Repair.{repair_loop}
use local_dafa.Flow.Merging.{merge_verdict, after_gate, merge_loop, apply_action}
use local_dafa.Flow.Run.{Fuel, start, deliver_change, build_and_deliver, body, teardown_after, run}
use local_dafa.Flow.Keeps.{
  Guard, IsWork, Keeps, IsStable, >>=-Keeps, or_return-Keeps, wait_for-Keeps, stage-Keeps,
  work-Keeps,
}
use local_dafa.Flow.PhasesKeep.{
  plan_attempts-Keeps, revise_round-Keeps, repair_loop-Keeps, apply_action-Keeps,
}

-- An activity that runs on the worker.
abbrev pub is_inner : Activity → Bool
is_inner setup_worker = false
is_inner teardown_worker = false
is_inner _ = true

abbrev pub is_setup : Activity → Bool
is_setup setup_worker = true
is_setup _ = false

-- A trace, the last activity first: the worker was set up once, first, and is not torn down.
abbrev pub inside : List Activity → Bool
inside [] = false
inside (a ∷ []) = is_setup a
inside (a ∷ b ∷ t) = is_inner a && inside (b ∷ t)

-- The same with the teardown last.
abbrev pub bracketed : List Activity → Bool
bracketed [] = false
bracketed (teardown_worker ∷ t) = inside t
bracketed (_ ∷ t) = false

Inside : Guard
Inside t b m x = inside t ≡ true

inside-cons :
    (a : Activity) (t : List Activity) → is_inner a ≡ true → inside t ≡ true → inside (a ∷ t) ≡ true
inside-cons a [] i h = cc
inside-cons a (b ∷ t) i h = rw (i, h)

IsWork-is_inner : (a : Activity) → IsWork a → is_inner a ≡ true
IsWork-is_inner setup_worker h = absurd h
IsWork-is_inner teardown_worker h = absurd h
IsWork-is_inner _ h = refl

module _ (env : Service) where
  Inside-IsStable : IsStable Inside env
  unfolding Inside
  Inside-IsStable = record {
    works = λ a h t b m x p. inside-cons a t (IsWork-is_inner a h) p;
    replies = λ n a s s' d e t x p. p;
    ticks = λ w t b m p. p;
    clears_brief = λ t b m x p. p;
    clears_merging = λ t b m x p. p;
  }

  brief_verdict-Inside : (d : Option GateDecision) → Keeps Inside (brief_verdict env d)
  unfolding brief_verdict Inside absorb
  brief_verdict-Inside none w p = p
  brief_verdict-Inside (some d) w p = elim (Bool-cases d.approved) [
    | inl e ↦ rw e p
    | inr e ↦ rw e p
  ]

  after_brief-Inside :
      (note verdict : Option GateDecision) (again : List Text → Flow Exit)
      → ((fb : List Text) → Keeps Inside (again fb))
      → Keeps Inside (after_brief env note verdict again)
  unfolding after_brief
  after_brief-Inside none verdict again h = brief_verdict-Inside verdict
  after_brief-Inside (some d) verdict again h =
      >>=-Keeps Inside (revise_round env d) again (revise_round-Keeps Inside env Inside-IsStable d)
        h

  after_plan-Inside :
      (waits : ℕ) (plan : Plan) (again : List Text → Flow Exit)
      → ((fb : List Text) → Keeps Inside (again fb))
      → Keeps Inside (after_plan env waits plan again)
  unfolding after_plan
  after_plan-Inside waits capped again h w p = p
  after_plan-Inside waits (approved_plan fb) again h w p =
      >>=-Keeps Inside (wait_for env waits brief_decided) _
        (wait_for-Keeps Inside env Inside-IsStable waits brief_decided)
        (λ _ v q. after_brief-Inside v.revise v.brief again h (record v { pending = none }) q)
        (record w { pending = some brief_gate }) p

  planning_loop-Inside :
      (rounds waits : ℕ) (feedback : List Text)
      → Keeps Inside (planning_loop env rounds waits feedback)
  unfolding planning_loop
  planning_loop-Inside zero waits feedback w p = p
  planning_loop-Inside (suc rounds) waits feedback w p =
      >>=-Keeps Inside (plan_attempts env planning_max_attempts_cap feedback) _
        (plan_attempts-Keeps Inside env Inside-IsStable planning_max_attempts_cap feedback)
        (λ plan.
          after_plan-Inside waits plan (planning_loop env rounds waits)
            (planning_loop-Inside rounds waits))
        w p

  merge_verdict-Inside : (d : Option GateDecision) → Keeps Inside (merge_verdict env d)
  unfolding merge_verdict absorb Inside
  merge_verdict-Inside none w p = p
  merge_verdict-Inside (some d) w p = elim (Bool-cases d.approved) [
    | inl e ↦ rw e (
        >>=-Keeps Inside (stage env merge_branch) (λ _. finish merged none)
          (stage-Keeps Inside env Inside-IsStable merge_branch
            (λ t b m x q. inside-cons merge_branch t refl q))
          (λ _ v q. q) _ p)
    | inr e ↦ rw e p
  ]

  after_gate-Inside :
      (asked : Option MergeAction) (verdict : Option GateDecision) (again : Flow Exit)
      → Keeps Inside again
      → Keeps Inside (after_gate env asked verdict again)
  unfolding after_gate
  after_gate-Inside none verdict again h = merge_verdict-Inside verdict
  after_gate-Inside (some a) verdict again h =
      >>=-Keeps Inside (apply_action env a) (λ _. again)
        (apply_action-Keeps Inside env Inside-IsStable a) (λ _. h)

  merge_loop-Inside : (rounds waits : ℕ) → Keeps Inside (merge_loop env rounds waits)
  unfolding merge_loop
  merge_loop-Inside zero waits w p = p
  merge_loop-Inside (suc rounds) waits w p =
      >>=-Keeps Inside (wait_for env waits merge_decided) _
        (wait_for-Keeps Inside env Inside-IsStable waits merge_decided)
        (λ _ v q.
          after_gate-Inside v.action v.merging (merge_loop env rounds waits)
            (merge_loop-Inside rounds waits) (record v { pending = none }) q)
        (record w { pending = some merge_gate }) p

  work-Inside : (a : Activity) → IsWork a → Keeps Inside (stage env a)
  work-Inside = work-Keeps Inside env Inside-IsStable

  build_and_deliver-Inside : (fuel : Fuel) → Keeps Inside (build_and_deliver env fuel)
  unfolding build_and_deliver deliver_change
  build_and_deliver-Inside fuel = >>=-Keeps Inside (stage env build) _ (work-Inside build tt) (λ _.
      >>=-Keeps Inside (repair_loop env fuel.repairs) _
        (repair_loop-Keeps Inside env Inside-IsStable fuel.repairs)
        (λ e. or_return-Keeps Inside e _ (
          >>=-Keeps Inside (stage env pr_creator) _ (work-Inside pr_creator tt) (λ _.
            >>=-Keeps Inside (stage env reviewer) _ (work-Inside reviewer tt)
              (λ _. merge_loop-Inside fuel.merges fuel.waits)))))

  body-Inside : (fuel : Fuel) → Keeps Inside (body env fuel)
  unfolding body
  body-Inside fuel = >>=-Keeps Inside (stage env hydrate) _ (work-Inside hydrate tt) (λ _ w.
      >>=-Keeps Inside (planning_loop env fuel.rounds fuel.waits _) _
        (planning_loop-Inside fuel.rounds fuel.waits _)
        (λ e. or_return-Keeps Inside e (build_and_deliver env fuel) (build_and_deliver-Inside fuel))
        w)

-- How the trace of a run looks, by how it ended.
abbrev pub RunShape : Result Exit × Workflow → Type 0
RunShape (ok e, w) = bracketed w.trace ≡ true
RunShape (raised e, w) = (bracketed w.trace ≡ true) ⊎ (w.trace ≡ setup_worker ∷ [])
RunShape (pending_still, w) = inside w.trace ≡ true

reply-RunShape :
    (r : Reply) (f : Delta → Flow Exit) (v : Workflow)
    → bracketed v.trace ≡ true
    → ((d : Delta) → RunShape (f d v))
    → RunShape (continue_with (reply_result r) f v)
reply-RunShape (returned d) f v h k = k d
reply-RunShape (failed e) f v h k = inl h

setup-RunShape :
    (r : Reply) (f : Delta → Flow Exit) (v : Workflow)
    → v.trace ≡ setup_worker ∷ []
    → ((d : Delta) → RunShape (f d v))
    → RunShape (continue_with (reply_result r) f v)
setup-RunShape (returned d) f v h k = k d
setup-RunShape (failed e) f v h k = inr h

module _ (env : Service) (fuel : Fuel) where
  teardown_after-RunShape :
      (r : Result Exit) (w : Workflow)
      → inside w.trace ≡ true
      → RunShape (teardown_after env fuel r w)
  unfolding teardown_after call
  teardown_after-RunShape (ok e) w h =
      reply-RunShape (env.reply w.clock teardown_worker w.state) (λ _. pure e) _ h (λ _. h)
  teardown_after-RunShape (raised e) w h =
      reply-RunShape (env.reply w.clock teardown_worker w.state) (λ _ v. (raised e, v)) _ h
        (λ _. inl h)
  teardown_after-RunShape pending_still w h = h

  -- However the run ends, by returning or by raising, its trace begins with the setup and ends with
  -- the teardown of the worker, and neither occurs in between; only where the setup itself raised
  -- there is no teardown. A run that has not ended has not torn the worker down.
  pub run_tears_down : (wf : Text) (req : RunRequest) → RunShape (run env fuel wf req)
  unfolding run call start
  run_tears_down wf req =
      let w = start wf req in
      setup-RunShape (env.reply 0 setup_worker w.state)
        (λ _ u. let (r, v) = body env fuel u in teardown_after env fuel r v) _ refl
        (λ _.
          let u : Workflow = record (deliver (env.updates 0) w) {
            clock = 0 + 1;
            trace = setup_worker ∷ [];
          } in
          teardown_after-RunShape (body env fuel u).0 (body env fuel u).1
            (unfold Inside in body-Inside env fuel u refl))
