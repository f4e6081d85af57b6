-- ===== src/Flow/MergeGuard.antt =====
-- Nothing is merged without both approvals: the calls of `merge_branch` in a run of
-- `DarkFactoryWorkflow`, against the approvals that the state records and that clients have sent.
use local_dafa.Base.{inl, inr, ◌+◌, none, some, [], ◌∷◌, refl, sym, ◌∙◌, Text, or_else}
use local_dafa.State.Records.{RunRequest}
use local_dafa.State.Channels.{Delta, planning_feedback}
use local_dafa.Flow.Machine.{
  Activity, setup_worker, teardown_worker, hydrate, build, pr_creator, reviewer, Workflow, Service,
  Reply, returned, failed, Result, ok, raised, pending_still, Flow, ◌>>=◌, continue_with, Exit,
  or_return, pure,
}
use local_dafa.Flow.Signals.{deliver}
use local_dafa.Flow.Stages.{call, stage, reply_result}
use local_dafa.Flow.Planning.{planning_loop}
use local_dafa.Flow.Repair.{repair_loop}
use local_dafa.Flow.Statuses.{NotMerged, repair_loop-Declines}
use local_dafa.Flow.Run.{Fuel, start, deliver_change, build_and_deliver, body, teardown_after, run}
use local_dafa.Flow.Logic.{Leads, >>=-Leads, Leads-map, Leads-and, deliver-state}
use local_dafa.Flow.Keeps.{Holds, IsWork, Keeps, work-Keeps, Keeps-Leads}
use local_dafa.Flow.PhasesKeep.{repair_loop-Keeps}
use local_dafa.Flow.Guards.{
  Sent-suc, RepliesLeaveGates, Unmerged, Approved, IsGuarded, Unmerged-IsStable, Approved-IsStable,
}
use local_dafa.Flow.Approvals.{approves_brief, approves_merge, ticked-InboxSent}
use local_dafa.Flow.PlanningGuard.{AfterPlanning, planning_loop-Planning}
use local_dafa.Flow.MergeGate.{AfterMerging, Merging, approved_then, merge_loop-Merging}

module _ (env : Service) (replies : RepliesLeaveGates env) where
  -- After the repair loop: the run goes on, or returns with nothing merged.
  repaired :
      (m k : Flow Exit) (w : Workflow)
      → Keeps (Approved env) m
      → Leads (λ _. Unit {0}) (λ _. Unit {0}) (λ e _. NotMerged e) (m w)
      → Holds (Approved env) w
      → ((v : Workflow) → Holds (Approved env) v → Merging env (k v))
      → Merging env ((m >>= λ e. or_return e k) w)
  unfolding Approved
  repaired m k w keeps declines p next =
      >>=-Leads (Holds (IsGuarded env)) (Holds (IsGuarded env))
        (λ e v. Holds (Approved env) v × NotMerged e) (AfterMerging env) m (λ e. or_return e k) w
        (Leads-map (Holds (Approved env)) (Holds (Approved env)) (Holds (IsGuarded env))
          (Holds (IsGuarded env)) (λ e v. Holds (Approved env) v × NotMerged e)
          (λ e v. Holds (Approved env) v × NotMerged e) (m w) (λ v h. inl (h.0.0))
          (λ v h. inl (h.0.0)) (λ _ v h. h)
          (Leads-and (Holds (Approved env)) (Holds (Approved env)) (λ _. Holds (Approved env))
            NotMerged (m w) (Keeps-Leads (Approved env) m w keeps p) declines))
        go
    where
      go :
          (e : Exit) (v : Workflow)
          → Holds (Approved env) v × NotMerged e
          → Merging env (or_return e k v)
      go none v h = next v h.0
      go (some r) v h = (inl (h.0.0.0), h.1 ∙ sym h.0.0.0)

  deliver_change-Merging :
      (fuel : Fuel) (w : Workflow)
      → Holds (Approved env) w
      → Merging env (deliver_change env fuel w)
  unfolding deliver_change
  deliver_change-Merging fuel w p =
      approved_then env replies (stage env pr_creator) _ w (work pr_creator tt) p (λ _ v q.
        approved_then env replies (stage env reviewer) _ v (work reviewer tt) q
          (λ _. merge_loop-Merging env replies fuel.merges fuel.waits))
    where
      work : (a : Activity) → IsWork a → Keeps (Approved env) (stage env a)
      work = work-Keeps (Approved env) env (Approved-IsStable env replies)

  build_and_deliver-Merging :
      (fuel : Fuel) (w : Workflow)
      → Holds (Approved env) w
      → Merging env (build_and_deliver env fuel w)
  unfolding build_and_deliver
  build_and_deliver-Merging fuel w p =
      approved_then env replies (stage env build) _ w
        (work-Keeps (Approved env) env (Approved-IsStable env replies) build tt) p
        (λ _ v q.
          repaired (repair_loop env fuel.repairs) (deliver_change env fuel) v
            (repair_loop-Keeps (Approved env) env (Approved-IsStable env replies) fuel.repairs)
            (repair_loop-Declines env fuel.repairs v) q (deliver_change-Merging fuel))

  planned :
      (fuel : Fuel) (e : Exit) (v : Workflow)
      → AfterPlanning env e v
      → Merging env (or_return e (build_and_deliver env fuel) v)
  unfolding Unmerged
  planned fuel none v q = build_and_deliver-Merging fuel v q
  planned fuel (some r) v q = (inl (q.0.0), q.1 ∙ sym q.0.0)

  -- An outcome that has merged nothing is guarded.
  unmerged-Leads :
      {A : Type 0} (Q : A → Workflow → Type 0) (r : Result A × Workflow)
      → Leads (Holds (Unmerged env)) (Holds (Unmerged env)) Q r
      → Leads (Holds (IsGuarded env)) (Holds (IsGuarded env)) Q r
  unfolding Unmerged
  unmerged-Leads Q r =
      Leads-map (Holds (Unmerged env)) (Holds (Unmerged env)) (Holds (IsGuarded env))
        (Holds (IsGuarded env)) Q Q r (λ v h. inl (h.0)) (λ v h. inl (h.0)) (λ _ v h. h)

  body-Merging :
      (fuel : Fuel) (w : Workflow) → Holds (Unmerged env) w → Merging env (body env fuel w)
  unfolding body
  body-Merging fuel w p =
      >>=-Leads (Holds (IsGuarded env)) (Holds (IsGuarded env)) (λ _. Holds (Unmerged env))
        (AfterMerging env) (stage env hydrate) _ w
        (unmerged-Leads (λ _. Holds (Unmerged env)) (stage env hydrate w)
          (Keeps-Leads (Unmerged env) (stage env hydrate) w
            (work-Keeps (Unmerged env) env (Unmerged-IsStable env replies) hydrate tt) p))
        (λ _ v q.
          let feedback = or_else (v.state planning_feedback) [] in
          let plan = planning_loop env fuel.rounds fuel.waits feedback in
          >>=-Leads (Holds (IsGuarded env)) (Holds (IsGuarded env)) (AfterPlanning env)
            (AfterMerging env) plan (λ e. or_return e (build_and_deliver env fuel)) v
            (unmerged-Leads (AfterPlanning env) (plan v)
              (planning_loop-Planning env replies fuel.rounds fuel.waits feedback v q))
            (planned fuel))

  reply-Merging :
      (r : Reply) (f : Delta → Flow Exit) (v : Workflow)
      → Holds (IsGuarded env) v
      → ((d : Delta) → Merging env (f d v))
      → Merging env (continue_with (reply_result r) f v)
  reply-Merging (returned d) f v h k = k d
  reply-Merging (failed e) f v h k = h

  torn_down : (w : Workflow) → Workflow
  torn_down w = record (deliver (env.updates w.clock) w) {
    clock = w.clock + 1;
    trace = teardown_worker ∷ w.trace;
  }

  torn_down-IsGuarded :
      (w : Workflow) → Holds (IsGuarded env) w → Holds (IsGuarded env) (torn_down w)
  unfolding torn_down
  torn_down-IsGuarded w h = rw (deliver-state (env.updates w.clock) w) (elim h [
    | inl unmerged ↦ inl unmerged
    | inr (b, m) ↦ inr (
      (b.0, Sent-suc env approves_brief w.clock b.1),
      (m.0, Sent-suc env approves_merge w.clock m.1),
    )
  ])

  teardown_after-Merging :
      (fuel : Fuel) (r : Result Exit) (w : Workflow)
      → Merging env (r, w)
      → Merging env (teardown_after env fuel r w)
  unfolding teardown_after call torn_down
  teardown_after-Merging fuel (ok none) w h = absurd h
  teardown_after-Merging fuel (ok (some x)) w h =
      reply-Merging (env.reply w.clock teardown_worker w.state) (λ _. pure (some x)) (torn_down w)
        (torn_down-IsGuarded w h.0) (λ _. (torn_down-IsGuarded w h.0, h.1))
  teardown_after-Merging fuel (raised e) w h =
      reply-Merging (env.reply w.clock teardown_worker w.state) (λ _ v. (raised e, v)) (torn_down w)
        (torn_down-IsGuarded w h) (λ _. torn_down-IsGuarded w h)
  teardown_after-Merging fuel pending_still w h = h

-- A change is merged only with both human approvals. If no activity touches the two approvals of
-- the state, then a run that has called `merge_branch`, however it ended, has the brief and the
-- merge recorded as approved, and for each of the two one of the turns so far has delivered an
-- update that approves it, or the open gate. A run that returns always returns a result, and its
-- status is "merged" exactly when `merge_branch` was called.
pub run_merges_approved :
    (env : Service) (fuel : Fuel) (wf : Text) (req : RunRequest)
    → RepliesLeaveGates env
    → Merging env (run env fuel wf req)
unfolding run call start
run_merges_approved env fuel wf req replies =
    let w = start wf req in
    let u : Workflow = record (deliver (env.updates 0) w) {
      clock = 0 + 1;
      trace = setup_worker ∷ [];
    } in
    reply-Merging env replies (env.reply 0 setup_worker w.state)
      (λ _ x. let (r, v) = body env fuel x in teardown_after env fuel r v) u (inl refl)
      (λ _. teardown_after-Merging env replies fuel (body env fuel u).0 (body env fuel u).1 (
        body-Merging env replies fuel u
          (unfold Unmerged in (refl, ticked-InboxSent env w ((λ h. cc), λ h. cc)))))
