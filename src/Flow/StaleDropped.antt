-- ===== src/Flow/StaleDropped.antt =====
-- Dropping stale findings (src/darkfactory/runtime/workflow.py) leaves what the producer emitted.
use local_dafa.Base.{
  ℕ, zero, suc, Option, none, some, List, [], ◌∷◌, ◌≡◌, refl, length, drop, or_else, drop-append,
}
use local_dafa.State.Channels.{State, Delta, tester_findings, reconciliation_findings}
use local_dafa.State.Reducers.{add}
use local_dafa.State.Merge.{Caps, reducer, merge, merge_value}
use local_dafa.Flow.Stale.{snapshot_findings_counts, drop_stale_findings}
use local_dafa.Flow.NamesKept.{added}

drop_nil : {A : Type 0} (n : ℕ) → drop {A = A} n [] ≡ []
drop_nil zero = refl
drop_nil (suc n) = refl

drop_all : {A : Type 0} (xs : List A) → drop (length xs) xs ≡ []
drop_all [] = refl
drop_all (x ∷ xs) = drop_all xs

drop_merged :
    {A : Type 0} (old : Option (List A)) (new : Option (Option (List A)))
    → drop (length (or_else old [])) (or_else (merge_value (some add) old new) []) ≡ added new
unfolding add
drop_merged none none = refl
drop_merged (some w) none = drop_all w
drop_merged none (some none) = refl
drop_merged (some w) (some none) = drop_nil (length w)
drop_merged none (some (some v)) = refl
drop_merged (some w) (some (some v)) = drop-append w v

-- After a producer's delta is merged and the stale entries are dropped, the Tester's and the
-- reconciliation findings are exactly those of the delta, whatever the state held before.
pub drop_stale_merged :
    (k : Caps) (s : State) (d : Delta)
    → let s' = drop_stale_findings (merge k s d) (snapshot_findings_counts s) in
      (s' tester_findings ≡ some (added (d tester_findings)))
      × (s' reconciliation_findings ≡ some (added (d reconciliation_findings)))
unfolding merge reducer drop_stale_findings snapshot_findings_counts
drop_stale_merged k s d = (
  rw (drop_merged (s tester_findings) (d tester_findings)),
  rw (drop_merged (s reconciliation_findings) (d reconciliation_findings)),
)
