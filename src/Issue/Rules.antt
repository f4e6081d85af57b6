-- ===== src/Issue/Rules.antt =====
-- The rules of the steps that src/darkfactory/runtime/issue_workflow.py is made of: a delta, a
-- call, a stage, a swap of the label, a wait, and the comment of a phase.
use local_dafa.Base.{
  true, ℕ, zero, suc, ◌+◌, ◌≤◌, Bool, none, some, List, [], ◌∷◌, ◌≡◌, refl, ◌∙◌, arith, inl, inr,
  Bool-cases, nat_beq,
}
use local_dafa.State.Records.{Label}
use local_dafa.State.Channels.{State, Delta, current_df_label}
use local_dafa.State.Merge.{Caps, merge, reducer}
use local_dafa.Issue.Machine.{
  Activity, IssueWorkflow, Service, Reply, returned, failed, Update, signal_approval, approve_gate,
  approve_brief, revise_brief, reject_brief, approve_merge, reject_merge, trigger_fix,
  trigger_rebuild, post_new_comments, swap_label, set_state,
}
use local_dafa.Issue.Signals.{deliver, handle, receive, record_last_seen, seen_delta}
use local_dafa.Issue.Steps.{call, tick, absorb, wait_for, swap, label_delta, reply_result}
use local_dafa.Issue.Life.{is_up, swap-up, Place, label_of, life, step, needed}
use local_dafa.Issue.Logic.{Passed-le, Stands, At, Stands-IsLawful, Ends, Spec, bind-Spec}

pub record_last_seen-label :
    (caps : Caps) (n : ℕ) (s : State)
    → record_last_seen caps n s current_df_label ≡ s current_df_label
unfolding record_last_seen seen_delta merge reducer
record_last_seen-label caps n s = elim (Bool-cases (nat_beq n 0)) [
  | inl e ↦ rw e refl
  | inr e ↦ rw e refl
]

handle-label :
    (caps : Caps) (u : Update) (w : IssueWorkflow)
    → (handle caps u w).state current_df_label ≡ w.state current_df_label
unfolding handle receive
handle-label caps (signal_approval x) w = record_last_seen-label caps x.comment_id w.state
handle-label caps (approve_gate d) w = refl
handle-label caps (approve_brief d) w = record_last_seen-label caps 0 w.state
handle-label caps (revise_brief d) w = record_last_seen-label caps 0 w.state
handle-label caps (reject_brief d) w = record_last_seen-label caps 0 w.state
handle-label caps (approve_merge d) w = record_last_seen-label caps 0 w.state
handle-label caps (reject_merge d) w = record_last_seen-label caps 0 w.state
handle-label caps (trigger_fix d) w = record_last_seen-label caps 0 w.state
handle-label caps (trigger_rebuild d) w = record_last_seen-label caps 0 w.state
handle-label caps (post_new_comments cs) w = record_last_seen-label caps _ w.state

pub deliver-label :
    (caps : Caps) (us : List Update) (w : IssueWorkflow)
    → (deliver caps us w).state current_df_label ≡ w.state current_df_label
unfolding deliver
deliver-label caps [] w = refl
deliver-label caps (u ∷ us) w = deliver-label caps us (handle caps u w) ∙ handle-label caps u w

handle-trace : (caps : Caps) (u : Update) (w : IssueWorkflow) → (handle caps u w).trace ≡ w.trace
unfolding handle receive
handle-trace caps (signal_approval x) w = refl
handle-trace caps (approve_gate d) w = refl
handle-trace caps (approve_brief d) w = refl
handle-trace caps (revise_brief d) w = refl
handle-trace caps (reject_brief d) w = refl
handle-trace caps (approve_merge d) w = refl
handle-trace caps (reject_merge d) w = refl
handle-trace caps (trigger_fix d) w = refl
handle-trace caps (trigger_rebuild d) w = refl
handle-trace caps (post_new_comments cs) w = refl

pub deliver-trace :
    (caps : Caps) (us : List Update) (w : IssueWorkflow) → (deliver caps us w).trace ≡ w.trace
unfolding deliver
deliver-trace caps [] w = refl
deliver-trace caps (u ∷ us) w = deliver-trace caps us (handle caps u w) ∙ handle-trace caps u w

-- No activity touches the label, which only the workflow writes.
pub record RepliesLeaveLabel (env : Service) : Type 0 where
  pub leaves :
      (n : ℕ) (a : Activity) (s : State) (d : Delta)
      → env.reply n a s ≡ returned d
      → d current_df_label ≡ none

module _ (env : Service) where
  -- A turn passes.
  pub tick-Stands :
      (p : Place) (l : Label) (n : ℕ) (w : IssueWorkflow)
      → Stands env p l n w
      → Stands env p l n (tick env w)
  unfolding tick
  tick-Stands p l n w s = record {
    lives = rw (deliver-trace env.caps (env.updates w.clock) w) s.lives;
    labelled = deliver-label env.caps (env.updates w.clock) w ∙ s.labelled;
    passed = Passed-le env n w.clock (w.clock + 1) (omega arith) s.passed;
    enough = s.enough;
    up = s.up;
  }

  -- An activity is called.
  pub called-Stands :
      (a : Activity) (p q : Place) (l : Label) (n : ℕ) (w : IssueWorkflow)
      → step p a ≡ some q
      → needed q ≤ n
      → is_up q ≡ true
      → Stands env p l n w
      → Stands env q l n (record w { trace = a ∷ w.trace })
  unfolding life
  called-Stands a p q l n w e h k s = record {
    lives = rw (s.lives, e) refl;
    labelled = s.labelled;
    passed = s.passed;
    enough = h;
    up = k;
  }

  -- A call that leads to another place.
  call_to-Spec :
      (a : Activity) (p q : Place) (l : Label) (n : ℕ)
      → step p a ≡ some q
      → needed q ≤ n
      → is_up q ≡ true
      → Spec env (Stands env p l n) (call env a) (λ _. Stands env q l n)
  unfolding call
  call_to-Spec a p q l n e h k w s = go (env.reply w.clock a w.state)
    where
      v : IssueWorkflow
      v = tick env (record w { trace = a ∷ w.trace })

      here : Stands env q l n v
      here =
          tick-Stands q l n (record w { trace = a ∷ w.trace }) (called-Stands a p q l n w e h k s)

      go : (r : Reply) → Ends env (λ (_ : Delta). Stands env q l n) (reply_result r, v)
      go (returned d) = here
      go (failed x) = Stands-IsLawful env q l n v here

  -- A call that leaves the issue where it is.
  pub call-Spec :
      (a : Activity) (p : Place) (l : Label) (n : ℕ)
      → step p a ≡ some p
      → Spec env (Stands env p l n) (call env a) (λ _. Stands env p l n)
  call-Spec a p l n e w s = call_to-Spec a p p l n e s.enough s.up w s

  -- A change of the state that leaves the label alone.
  pub set_state-Spec :
      (f : State → State) (p : Place) (l : Label) (n : ℕ)
      → ((s : State) → f s current_df_label ≡ s current_df_label)
      → Spec env (Stands env p l n) (set_state f) (λ _. Stands env p l n)
  set_state-Spec f p l n h w s = record {
    lives = s.lives;
    labelled = h w.state ∙ s.labelled;
    passed = s.passed;
    enough = s.enough;
    up = s.up;
  }

  pub merge-label :
      (s : State) (d : Delta)
      → d current_df_label ≡ none
      → merge env.caps s d current_df_label ≡ s current_df_label
  unfolding merge reducer
  merge-label s d h = rw h refl

  pub absorb-Spec :
      (d : Delta) (p : Place) (l : Label) (n : ℕ)
      → d current_df_label ≡ none
      → Spec env (Stands env p l n) (absorb env d) (λ _. Stands env p l n)
  unfolding absorb
  absorb-Spec d p l n h = set_state-Spec (λ s. merge env.caps s d) p l n (λ s. merge-label s d h)

  relabel-Stands :
      (add : Label) (q : Place) (l : Label) (n : ℕ)
      → label_of q ≡ add
      → Spec env (Stands env q l n) (absorb env (label_delta add)) (λ _. At env q n)
  unfolding absorb label_delta merge reducer
  relabel-Stands add q l n f w s = record {
    lives = s.lives;
    labelled = rw f refl;
    passed = s.passed;
    enough = s.enough;
    up = s.up;
  }

  -- The label is swapped, where the life of the issue allows it.
  pub swap-Spec :
      (remove : List Label) (add : Label) (p q : Place) (n : ℕ)
      → step p (swap_label remove add) ≡ some q
      → label_of q ≡ add
      → needed q ≤ n
      → Spec env (At env p n) (swap env remove add) (λ _. At env q n)
  unfolding swap
  swap-Spec remove add p q n e f h =
      bind-Spec env (At env p n) (λ _. Stands env q (label_of p) n) (λ _. At env q n)
        (call env (swap_label remove add)) (λ _. absorb env (label_delta add))
        (call_to-Spec (swap_label remove add) p q (label_of p) n e h (swap-up p q remove add e))
        (λ _. relabel-Stands add q (label_of p) n f)

  pub wait_for-Spec :
      (f : ℕ) (test : IssueWorkflow → Bool) (p : Place) (l : Label) (n : ℕ)
      → Spec env (Stands env p l n) (wait_for env f test) (λ _. Stands env p l n)
  unfolding wait_for
  wait_for-Spec zero test p l n w s = elim (Bool-cases (test w)) [
    | inl e ↦ rw e s
    | inr e ↦ rw e (Stands-IsLawful env p l n w s)
  ]
  wait_for-Spec (suc f) test p l n w s = elim (Bool-cases (test w)) [
    | inl e ↦ rw e s
    | inr e ↦ rw e (wait_for-Spec f test p l n (tick env w) (tick-Stands p l n w s))
  ]
