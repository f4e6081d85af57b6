-- ===== src/Flow/Guards.antt =====
-- What a run of `DarkFactoryWorkflow` has merged, and which approvals it has recorded and was sent,
-- as guards.
use local_dafa.Base.{◌⊎◌, ℕ, ◌+◌, Option, Bool, true, false, some, List, ◌∷◌, ◌≡◌, arith, any}
use local_dafa.State.Channels.{State, Delta}
use local_dafa.State.Merge.{merge, reducer}
use local_dafa.Flow.Machine.{
  Activity, setup_worker, teardown_worker, merge_branch, Service, returned, Update,
}
use local_dafa.Flow.Keeps.{Guard, Inbox, IsWork, IsStable, LeavesGates}
use local_dafa.Flow.Approvals.{
  approves_brief, approves_merge, Sent, Sent-le, InboxSent, ticked-InboxSent,
}

abbrev pub is_merge_branch : Activity → Bool
is_merge_branch merge_branch = true
is_merge_branch _ = false

-- `merge_branch` was called.
abbrev pub merges : List Activity → Bool
merges = any is_merge_branch

-- No activity touches the approvals, which only the workflow writes.
pub record RepliesLeaveGates (env : Service) : Type 0 where
  pub leaves :
      (n : ℕ) (a : Activity) (s : State) (d : Delta) → env.reply n a s ≡ returned d → LeavesGates d

-- The branch is not merged yet, and only approvals that were sent wait to be read.
unfoldable pub Unmerged : Service → Guard
Unmerged env t b m x = (merges t ≡ false) × InboxSent env x

-- The brief is approved, as it was sent.
abbrev pub BriefApproved : Service → Option Bool → Inbox → Type 0
BriefApproved env b x = (b ≡ some true) × Sent env approves_brief x.turns

abbrev pub MergeApproved : Service → Option Bool → Inbox → Type 0
MergeApproved env m x = (m ≡ some true) × Sent env approves_merge x.turns

-- The brief is approved, and the branch is not merged yet.
unfoldable pub Approved : Service → Guard
Approved env t b m x = ((merges t ≡ false) × InboxSent env x) × BriefApproved env b x

-- Both gates are approved.
unfoldable pub BothApproved : Service → Guard
BothApproved env t b m x = BriefApproved env b x × MergeApproved env m x

-- Both gates are approved, and the branch was merged.
unfoldable pub Merged : Service → Guard
Merged env t b m x = (merges t ≡ true) × BriefApproved env b x × MergeApproved env m x

-- Not merged, or with both approvals, recorded and sent.
abbrev pub IsGuarded : Service → Guard
IsGuarded env t b m x = (merges t ≡ false) ⊎ (BriefApproved env b x × MergeApproved env m x)

work_unmerged :
    (a : Activity) (t : List Activity) → IsWork a → merges t ≡ false → merges (a ∷ t) ≡ false
work_unmerged setup_worker t h e = absurd h
work_unmerged teardown_worker t h e = absurd h
work_unmerged merge_branch t h e = absurd h
work_unmerged _ t h e = e

-- What was sent stays sent.
pub Sent-suc : (env : Service) (p : Update → Bool) (n : ℕ) → Sent env p n → Sent env p (n + 1)
Sent-suc env p n = Sent-le env p n (n + 1) (omega arith)

module _ (env : Service) (replies : RepliesLeaveGates env) where
  pub Unmerged-IsStable : IsStable (Unmerged env) env
  unfolding Unmerged
  Unmerged-IsStable = record {
    works = λ a h t b m x p. (work_unmerged a t h p.0, p.1);
    replies = λ n a s s' d e t x p. p;
    ticks = λ w t b m p. (p.0, ticked-InboxSent env w p.1);
    clears_brief = λ t b m x p. (p.0, ((λ h. cc), p.1.1));
    clears_merging = λ t b m x p. (p.0, (p.1.0, λ h. cc));
  }

  pub Approved-IsStable : IsStable (Approved env) env
  unfolding Approved merge reducer
  Approved-IsStable = record {
    works = λ a h t b m x p. ((work_unmerged a t h p.0.0, p.0.1), p.1);
    replies = λ n a s s' d e t x p.
        let leaves = replies.leaves n a s d e in (p.0, (rw leaves.0 p.1.0, p.1.1));
    ticks = λ w t b m p.
        ((p.0.0, ticked-InboxSent env w p.0.1), (p.1.0, Sent-suc env approves_brief w.clock p.1.1));
    clears_brief = λ t b m x p. ((p.0.0, ((λ h. cc), p.0.1.1)), p.1);
    clears_merging = λ t b m x p. ((p.0.0, (p.0.1.0, λ h. cc)), p.1);
  }

  pub Merged-IsStable : IsStable (Merged env) env
  unfolding Merged merge reducer
  Merged-IsStable = record {
    works = λ a h t b m x p. (ground (arith, p.0), p.1, p.2);
    replies = λ n a s s' d e t x p.
        let leaves = replies.leaves n a s d e in
        (p.0, (rw leaves.0 p.1.0, p.1.1), (rw leaves.1 p.2.0, p.2.1));
    ticks = λ w t b m p. (
      p.0,
      (p.1.0, Sent-suc env approves_brief w.clock p.1.1),
      (p.2.0, Sent-suc env approves_merge w.clock p.2.1),
    );
    clears_brief = λ t b m x p. p;
    clears_merging = λ t b m x p. p;
  }
