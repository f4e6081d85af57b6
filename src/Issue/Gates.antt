-- ===== src/Issue/Gates.antt =====
-- A gate of src/darkfactory/runtime/issue_workflow.py: an approval that it reads was sent after it
-- had opened.
use local_dafa.Base.{
  ℕ, zero, suc, ◌+◌, Bool, true, false, Option, none, some, List, [], ◌∷◌, ◌≡◌, refl, arith, inl,
  inr, Bool-cases, ◌⊎◌, any, if◌then◌else◌,
}
use local_dafa.State.Merge.{Caps}
use local_dafa.Approval.Commands.{ApprovalSignal, approve, reject}
use local_dafa.Issue.Machine.{
  IssueWorkflow, Service, Update, signal_approval, approve_gate, approve_brief, revise_brief,
  reject_brief, approve_merge, reject_merge, trigger_fix, trigger_rebuild, post_new_comments,
}
use local_dafa.Issue.Signals.{deliver, handle, receive, signal_from_gate, is_approve}
use local_dafa.Issue.Steps.{tick, wait_for}
use local_dafa.Issue.Life.{Place}
use local_dafa.Issue.Logic.{Passed, Passed-le, At, Stands-IsLawful, Spec, sends_approve}
use local_dafa.Issue.Rules.{tick-Stands}

abbrev pub approves : Option ApprovalSignal → Bool
approves none = false
approves (some x) = is_approve x.kind

gate_kind : (b : Bool) → is_approve (if b then approve else reject) ≡ true → b ≡ true
gate_kind true h = refl
gate_kind false h = cc

handle-approval :
    (caps : Caps) (u : Update) (w : IssueWorkflow)
    → approves (handle caps u w).approval ≡ true
    → (approves w.approval ≡ true) ⊎ (sends_approve u ≡ true)
unfolding handle receive signal_from_gate
handle-approval caps (signal_approval x) w h = inr h
handle-approval caps (approve_gate d) w h = inr (gate_kind d.approved h)
handle-approval caps (approve_brief d) w h = inr refl
handle-approval caps (revise_brief d) w h = cc
handle-approval caps (reject_brief d) w h = cc
handle-approval caps (approve_merge d) w h = inr refl
handle-approval caps (reject_merge d) w h = cc
handle-approval caps (trigger_fix d) w h = cc
handle-approval caps (trigger_rebuild d) w h = cc
handle-approval caps (post_new_comments cs) w h = inl h

deliver-approval :
    (caps : Caps) (us : List Update) (w : IssueWorkflow)
    → approves (deliver caps us w).approval ≡ true
    → (approves w.approval ≡ true) ⊎ (any sends_approve us ≡ true)
unfolding deliver
deliver-approval caps [] w h = inl h
deliver-approval caps (u ∷ us) w h = elim (deliver-approval caps us (handle caps u w) h) [
  | inr s ↦ inr (ground (arith, s))
  | inl q ↦ elim (handle-approval caps u w q) [ inl e ↦ inl e | inr s ↦ inr (rw s) ]
]

-- At an open gate, a waiting approval is one more than came before.
abbrev pub AtGate : Service → Place → ℕ → IssueWorkflow → Type 0
AtGate env p n w = At env p n w × (approves w.approval ≡ true → Passed env (suc n) w.clock)

module _ (env : Service) where
  tick-AtGate :
      (p : Place) (n : ℕ) (w : IssueWorkflow) → AtGate env p n w → AtGate env p n (tick env w)
  unfolding tick
  tick-AtGate p n w (s, g) = (
    tick-Stands env p _ n w s,
    λ h. elim (deliver-approval env.caps (env.updates w.clock) w h) [
      | inl e ↦ Passed-le env (suc n) w.clock (w.clock + 1) (omega arith) (g e)
      | inr e ↦ (w.clock, omega arith, e, s.passed)
    ],
  )

  pub wait_for-AtGate :
      (f : ℕ) (test : IssueWorkflow → Bool) (p : Place) (n : ℕ)
      → Spec env (AtGate env p n) (wait_for env f test) (λ _. AtGate env p n)
  unfolding wait_for
  wait_for-AtGate zero test p n w s = elim (Bool-cases (test w)) [
    | inl e ↦ rw e s
    | inr e ↦ rw e (Stands-IsLawful env p _ n w s.0)
  ]
  wait_for-AtGate (suc f) test p n w s = elim (Bool-cases (test w)) [
    | inl e ↦ rw e s
    | inr e ↦ rw e (wait_for-AtGate f test p n (tick env w) (tick-AtGate p n w s))
  ]

-- An approval that is read lets the issue pass.
pub read_approval :
    (env : Service) (p : Place) (n : ℕ) (x : ApprovalSignal) (w : IssueWorkflow)
    → AtGate env p n w
    → w.approval ≡ some x
    → is_approve x.kind ≡ true
    → At env p (suc n) w
read_approval env p n x w (s, g) e h = record {
  lives = s.lives;
  labelled = s.labelled;
  passed = g (rw e h);
  enough = omega (arith, s.enough);
  up = s.up;
}
