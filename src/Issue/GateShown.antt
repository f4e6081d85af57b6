-- ===== src/Issue/GateShown.antt =====
-- While a gate of src/darkfactory/runtime/issue_workflow.py waits, the query shows it.
use local_dafa.Base.{
  ℕ, zero, suc, true, false, Option, none, some, List, [], ◌∷◌, ◌≡◌, refl, ◌∙◌, codes, inl, inr,
  Bool-cases, nat_beq, or_else, is_empty, Text,
}
use local_dafa.State.Records.{Label}
use local_dafa.State.Channels.{Delta, wf_id, current_df_label}
use local_dafa.State.Merge.{merge, reducer}
use local_dafa.Flow.Machine.{Result, ok, raised, pending_still}
use local_dafa.Issue.Machine.{
  IssueWorkflow, Service, Flow, ◌>>=◌, ◌>>◌, continue_with, Reply, returned, failed, Phase,
  PhaseStatus, swap_label, upsert_phase_comment, Activity,
}
use local_dafa.Issue.Signals.{OpenGate, design_gate, merge_gate, gate_summary}
use local_dafa.Issue.Steps.{
  call, tick, wait_for, swap, absorb, label_delta, phase, reply_result, begin_phase, checked,
  keep_comment_id,
}
use local_dafa.Issue.Markers.{marker_for, phase_marker, counted_marker, phase_key}
use local_dafa.Issue.Design.{signaled, design_phase}
use local_dafa.Issue.Design
use local_dafa.Issue.Review
use local_dafa.Issue.Rules.{deliver-label}

-- The label of a gate.
abbrev pub gate_label : OpenGate → Label
gate_label design_gate = Label.awaiting_approval
gate_label merge_gate = Label.awaiting_merge

-- Where a step has not ended, the query names the gate as the one that waits.
abbrev pub Shows : OpenGate → Result (Unit {0}) × IssueWorkflow → Type 0
Shows g (ok _, w) = Unit {0}
Shows g (raised _, w) = Unit {0}
Shows g (pending_still, w) =
    ((gate_summary w).pending_gate ≡ some g) × ((gate_summary w).gate_pending ≡ true)

module _ (env : Service) where
  shown :
      (g : OpenGate) (w : IssueWorkflow)
      → w.state current_df_label ≡ some (gate_label g)
      → signaled w ≡ false
      → ((gate_summary w).pending_gate ≡ some g) × ((gate_summary w).gate_pending ≡ true)
  unfolding gate_summary
  shown design_gate w l s = (rw (l, s) refl, rw (l, s) refl)
  shown merge_gate w l s = (rw (l, s) refl, rw (l, s) refl)

  wait_for-Shows :
      (g : OpenGate) (f : ℕ) (w : IssueWorkflow)
      → w.state current_df_label ≡ some (gate_label g)
      → Shows g (wait_for env f signaled w)
  unfolding wait_for tick
  wait_for-Shows g zero w l = elim (Bool-cases (signaled w)) [
    | inl e ↦ rw e tt
    | inr e ↦ rw e (shown g w l e)
  ]
  wait_for-Shows g (suc f) w l = elim (Bool-cases (signaled w)) [
    | inl e ↦ rw e tt
    | inr e ↦
        rw e (wait_for-Shows g f (tick env w) (deliver-label env.caps (env.updates w.clock) w ∙ l))
  ]

  -- Once the label is swapped, only the wait can be left without an end.
  swapped-Shows :
      (g : OpenGate) (remove : List Label) (waits : ℕ) (f : IssueWorkflow → IssueWorkflow)
      (w : IssueWorkflow)
      → ((v : IssueWorkflow) → (f v).state ≡ v.state)
      → Shows g ((swap env remove (gate_label g) >> λ v. wait_for env waits signaled (f v)) w)
  unfolding swap call absorb label_delta merge reducer
  swapped-Shows g remove waits f w h =
      go (env.reply w.clock (swap_label remove (gate_label g)) w.state)
    where
      v : IssueWorkflow
      v = tick env (record w { trace = swap_label remove (gate_label g) ∷ w.trace })

      then_wait : Result (Unit {0}) × IssueWorkflow → Result (Unit {0}) × IssueWorkflow
      then_wait p = continue_with p.0 (λ _ u. wait_for env waits signaled (f u)) p.1

      go :
          (r : Reply)
          → Shows g (
              then_wait (
                continue_with
                  (reply_result r)
                  (λ (_ : Delta). absorb env (label_delta (gate_label g)))
                  v))
      go (returned d) =
          let u = (absorb env (label_delta (gate_label g)) v).1 in
          wait_for-Shows g waits (f u) (rw (h u) refl)
      go (failed e) = tt

  -- Neither a failed activity nor a comment without a marker leaves a step without an end.
  abbrev Ended : {A : Type 0} → Result A × IssueWorkflow → Type 0
  Ended (ok _, w) = Unit {0}
  Ended (raised _, w) = Unit {0}
  Ended (pending_still, w) = ⊥

  bind-Ended :
      {A B : Type 0} (m : Flow A) (f : A → Flow B) (w : IssueWorkflow)
      → Ended (m w)
      → ((a : A) (v : IssueWorkflow) → Ended (f a v))
      → Ended ((m >>= f) w)
  bind-Ended {A} {B} m f w h k = go (m w).0 (m w).1 h
    where
      go : (r : Result A) (v : IssueWorkflow) → Ended (r, v) → Ended (continue_with r f v)
      go (ok a) v h = k a v
      go (raised e) v h = tt
      go pending_still v h = absurd h

  call-Ended : (a : Activity) (w : IssueWorkflow) → Ended (call env a w)
  unfolding call
  call-Ended a w = go (env.reply w.clock a w.state)
    where
      go : (r : Reply) → Ended (reply_result r, tick env (record w { trace = a ∷ w.trace }))
      go (returned d) = tt
      go (failed e) = tt

  keep_comment_id-Ended :
      (key : Text) (id : Option ℕ) (w : IssueWorkflow) → Ended (keep_comment_id env key id w)
  unfolding keep_comment_id absorb
  keep_comment_id-Ended key id w = elim (Bool-cases (nat_beq (or_else id 0) 0)) [
    | inl e ↦ rw e tt
    | inr e ↦ rw e tt
  ]

  design_marker-Ended :
      (wf : Text) (rev : ℕ) (w : IssueWorkflow)
      → Ended (checked env (marker_for wf Phase.design (some rev) none) w)
  unfolding checked marker_for phase_marker counted_marker
  design_marker-Ended wf rev w = elim (Bool-cases (is_empty wf)) [
    | inl e ↦ rw e tt
    | inr e ↦ elim (Bool-cases (nat_beq rev 0)) [ inl z ↦ rw (e, z) tt | inr z ↦ rw (e, z) tt ]
  ]

  design_phase-Ended :
      (status : PhaseStatus) (rev : ℕ) (w : IssueWorkflow) → Ended (design_phase env status rev w)
  unfolding phase
  design_phase-Ended status rev w =
      let key = phase_key Phase.design (some rev) none in
      let u = begin_phase env key w in
      bind-Ended
        (checked env (marker_for (or_else (u.state wf_id) []) Phase.design (some rev) none))
        (λ m v.
          (call env (upsert_phase_comment m status)
              >> keep_comment_id env key (env.comment_id v.clock))
            v)
        u (design_marker-Ended (or_else (u.state wf_id) []) rev u)
        (λ m v.
          bind-Ended (call env (upsert_phase_comment m status))
            (λ _. keep_comment_id env key (env.comment_id v.clock)) v
            (call-Ended (upsert_phase_comment m status) v)
            (λ _. keep_comment_id-Ended key (env.comment_id v.clock)))

  after-Shows :
      (g : OpenGate) (m : Flow (Unit {0})) (k : Flow (Unit {0})) (w : IssueWorkflow)
      → Ended (m w)
      → ((v : IssueWorkflow) → Shows g (k v))
      → Shows g ((m >> k) w)
  after-Shows g m k w h n = go (m w).0 (m w).1 h
    where
      go :
          (r : Result (Unit {0})) (v : IssueWorkflow)
          → Ended (r, v)
          → Shows g (continue_with r (λ _. k) v)
      go (ok a) v h = n v
      go (raised e) v h = tt
      go pending_still v h = absurd h

  -- Whenever a gate has been opened and has no end yet, the query names that gate as the one that
  -- is pending: the merge gate, and the design gate.
  pub open_gates_are_shown :
      (waits rev : ℕ) (w : IssueWorkflow)
      → Shows merge_gate (Review.open_gate env waits w)
        × Shows design_gate (Design.open_gate env waits rev w)
  unfolding Review.open_gate Design.open_gate
  open_gates_are_shown waits rev w = (
    swapped-Shows merge_gate (Label.reviewing ∷ []) waits
        (λ v. record v { approval = none; pending_gate = some (codes "merge") }) w (λ v. refl),
    after-Shows design_gate (design_phase env PhaseStatus.done rev)
        (swap env (Label.designing ∷ []) Label.awaiting_approval >> λ v.
          wait_for env waits signaled (record v { approval = none }))
        w (design_phase-Ended PhaseStatus.done rev w)
        (λ v.
          swapped-Shows design_gate (Label.designing ∷ []) waits (λ u. record u { approval = none })
            v (λ u. refl)),
  )
