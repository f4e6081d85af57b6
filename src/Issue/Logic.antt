-- ===== src/Issue/Logic.antt =====
-- How a step of the coroutine of src/darkfactory/runtime/issue_workflow.py moves an issue through
-- its life: pre- and postconditions, with rules for the sequence, a call, a stage, a swap and a
-- wait.
use mathlib.Core.Path.{subst}
use local_dafa.Base.{ℕ, zero, suc, ◌≤◌, ◌<◌, Bool, true, false, none, some, List, ◌≡◌, arith, any}
use local_dafa.State.Records.{Label}
use local_dafa.State.Channels.{State, current_df_label}
use local_dafa.Flow.Machine.{Result, ok, raised, pending_still}
use local_dafa.Issue.Machine.{
  Activity, IssueWorkflow, Service, Flow, ◌>>=◌, continue_with, Update, signal_approval,
  approve_gate, approve_brief, approve_merge, Exit, or_return,
}
use local_dafa.Issue.Signals.{is_approve}
use local_dafa.Issue.Life.{is_up, Place, label_of, life, needed, closing_label}

-- An update that approves the gate that is open.
abbrev pub sends_approve : Update → Bool
sends_approve (signal_approval x) = is_approve x.kind
sends_approve (approve_gate d) = d.approved
sends_approve (approve_brief d) = true
sends_approve (approve_merge d) = true
sends_approve _ = false

-- So many different turns before this one delivered an approval, each one before the next.
abbrev pub Passed : Service → ℕ → ℕ → Type 0
Passed env zero c = Unit {0}
Passed env (suc n) c =
    (j : ℕ) × (j < c) × (any sends_approve (env.updates j) ≡ true) × Passed env n j

pub Passed-le : (env : Service) (n c d : ℕ) → c ≤ d → Passed env n c → Passed env n d
Passed-le env zero c d h p = tt
Passed-le env (suc n) c d h (j, below, sent, p) = (j, omega (arith, h, below), sent, p)

pub Passed-fewer : (env : Service) (n m c : ℕ) → m ≤ n → Passed env n c → Passed env m c
Passed-fewer env n zero c h p = tt
Passed-fewer env zero (suc m) c h p = absurd (omega (arith, h))
Passed-fewer env (suc n) (suc m) c h (j, below, sent, p) =
    (j, below, sent, Passed-fewer env n m j (omega (arith, h)) p)

-- The issue stands at a place, the state has a label, and so many approvals came.
pub record Stands (env : Service) (p : Place) (l : Label) (n : ℕ) (w : IssueWorkflow) : Type 0 where
  pub lives : life w.trace ≡ some p
  pub labelled : w.state current_df_label ≡ some l
  pub passed : Passed env n w.clock
  pub enough : needed p ≤ n
  pub up : is_up p ≡ true

-- The fields that an issue stands by are its trace, its state and its clock.
pub Stands-kept :
    {env : Service} {p : Place} {l : Label} {n : ℕ} (w v : IssueWorkflow)
    → w.trace ≡ v.trace
    → w.state ≡ v.state
    → w.clock ≡ v.clock
    → Stands env p l n w
    → Stands env p l n v
Stands-kept {env} {p} {l} {n} w v t f c s = record {
  lives = subst (λ (x : List Activity). life x ≡ some p) t s.lives;
  labelled = subst (λ (g : State). g current_df_label ≡ some l) f s.labelled;
  passed = subst (Passed env n) c s.passed;
  enough = s.enough;
  up = s.up;
}

-- The same with the label of the place.
abbrev pub At : Service → Place → ℕ → IssueWorkflow → Type 0
At env p n w = Stands env p (label_of p) n w

-- Wherever the issue stands, every activity was allowed, and the approvals that it takes were sent.
abbrev pub IsLawful : Service → IssueWorkflow → Type 0
IsLawful env w =
    (p : Place) × (life w.trace ≡ some p) × Passed env (needed p) w.clock × (is_up p ≡ true)

pub Stands-IsLawful :
    (env : Service) (p : Place) (l : Label) (n : ℕ) (w : IssueWorkflow)
    → Stands env p l n w
    → IsLawful env w
Stands-IsLawful env p l n w s =
    (p, s.lives, Passed-fewer env n (needed p) w.clock s.enough s.passed, s.up)

-- `Q` where it returned; lawful however else it ended.
abbrev pub Ends :
    {A : Type 0}
    → (env : Service) (Q : A → IssueWorkflow → Type 0) → Result A × IssueWorkflow
    → Type 0
Ends env Q (ok a, w) = Q a w
Ends env Q (raised _, w) = IsLawful env w
Ends env Q (pending_still, w) = IsLawful env w

abbrev pub Spec :
    {A : Type 0}
    → (env : Service) (P : IssueWorkflow → Type 0) (m : Flow A) (Q : A → IssueWorkflow → Type 0)
    → Type 0
Spec env P m Q = (w : IssueWorkflow) → P w → Ends env Q (m w)

pub bind-Spec :
    {A B : Type 0} (env : Service) (P : IssueWorkflow → Type 0) (Q : A → IssueWorkflow → Type 0)
    (R : B → IssueWorkflow → Type 0) (m : Flow A) (f : A → Flow B)
    → Spec env P m Q
    → ((a : A) → Spec env (Q a) (f a) R)
    → Spec env P (m >>= f) R
bind-Spec {A} {B} env P Q R m f h k w p = go (m w).0 (m w).1 (h w p)
  where
    go : (r : Result A) (v : IssueWorkflow) → Ends env Q (r, v) → Ends env R (continue_with r f v)
    go (ok a) v q = k a v q
    go (raised e) v q = q
    go pending_still v q = q

-- A run that returns leaves the label that its status stands for; otherwise `Q`.
abbrev pub Out : Service → (IssueWorkflow → Type 0) → Exit → IssueWorkflow → Type 0
Out env Q none w = Q w
Out env Q (some r) w = (p : Place) × At env p (needed p) w × (label_of p ≡ closing_label r.status)

pub or_return-Spec :
    (env : Service) (Q R : IssueWorkflow → Type 0) (e : Exit) (k : Flow Exit)
    → Spec env Q k (Out env R)
    → Spec env (Out env Q e) (or_return e k) (Out env R)
or_return-Spec env Q R none k h w q = h w q
or_return-Spec env Q R (some r) k h w q = q
