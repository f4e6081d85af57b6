-- ===== src/Flow/NamesKept.antt =====
-- What the replies of the verify and the Fixer stage (src/darkfactory/runtime/activities.py) leave
-- alone and name, and that the names of a state stay in a set through a repair cycle.
use local_dafa.Base.{
  ℕ, Option, none, some, List, [], ◌≡◌, Text, or_else, nat_eq, list_eq, All, All-append, All-drop,
}
use local_dafa.State.Records.{
  PredicateCoverage, TesterFinding, ReconciliationFinding, VerifySummary,
}
use local_dafa.State.Channels.{
  State, Delta, implementation_brief, spec, verify_summary, tester_findings,
  reconciliation_findings, current_slice, fixer_attempts_by_wp, fixer_attempts_by_predicate,
}
use local_dafa.State.Reducers.{add, overwrite}
use local_dafa.State.Merge.{Caps, reducer, merge, merge_value}
use local_dafa.Flow.Targets.{summary_coverage, first_brief_wp_id}
use local_dafa.Flow.Budget.{record_fixer_attempt_delta}
use local_dafa.Flow.Stale.{drop_stale_findings}
use local_dafa.Flow.Stages.{fresh_evidence}
use local_dafa.Flow.TargetSets.{IsKnown, StateNames}

-- The list that a delta adds to a channel.
abbrev pub added : {A : Type 0} → Option (Option (List A)) → List A
added none = []
added (some none) = []
added (some (some v)) = v

-- The coverage that a delta reports.
abbrev pub reported : Option (Option VerifySummary) → List PredicateCoverage
reported none = []
reported (some v) = summary_coverage v

-- The slice that a delta turns to.
abbrev pub turned_to : Option (Option Text) → Text
turned_to none = []
turned_to (some v) = or_else v []

-- A delta names packages of the set only, in its reports and as the slice that it turns to, and
-- leaves the brief, the spec and the counts of attempts alone.
pub record DeltaNames (ws : List Text) (d : Delta) : Type 0 where
  pub coverage : All (λ (i : PredicateCoverage). IsKnown ws i.wp_id) (reported (d verify_summary))
  pub tester : All (λ (f : TesterFinding). IsKnown ws f.wp_id) (added (d tester_findings))
  pub recon :
      All (λ (f : ReconciliationFinding). IsKnown ws f.wp_id) (added (d reconciliation_findings))
  pub slice : IsKnown ws (turned_to (d current_slice))
  pub brief : d implementation_brief ≡ none
  pub spec_kept : d spec ≡ none
  pub by_wp : d fixer_attempts_by_wp ≡ none
  pub by_predicate : d fixer_attempts_by_predicate ≡ none

merge_add-All :
    {A : Type 0} (P : A → Type 0) (old : Option (List A)) (new : Option (Option (List A)))
    → All P (or_else old [])
    → All P (added new)
    → All P (or_else (merge_value (some add) old new) [])
unfolding add
merge_add-All P old none h k = h
merge_add-All P old (some none) h k = k
merge_add-All P none (some (some v)) h k = k
merge_add-All P (some w) (some (some v)) h k = All-append P w v h k

merge_summary-All :
    (P : PredicateCoverage → Type 0) (old : Option VerifySummary)
    (new : Option (Option VerifySummary))
    → All P (summary_coverage old)
    → All P (reported new)
    → All P (summary_coverage (merge_value (some overwrite) old new))
unfolding overwrite
merge_summary-All P old none h k = h
merge_summary-All P old (some none) h k = k
merge_summary-All P none (some (some v)) h k = k
merge_summary-All P (some w) (some (some v)) h k = k

merge_slice-IsKnown :
    (ws : List Text) (old : Option Text) (new : Option (Option Text))
    → IsKnown ws (or_else old [])
    → IsKnown ws (turned_to new)
    → IsKnown ws (or_else (merge_value (some overwrite) old new) [])
unfolding overwrite
merge_slice-IsKnown ws old none h k = h
merge_slice-IsKnown ws old (some none) h k = k
merge_slice-IsKnown ws none (some (some v)) h k = k
merge_slice-IsKnown ws (some w) (some (some v)) h k = k

module _ (k : Caps) (ws : List Text) (s : State) (h : StateNames ws s) where
  pub merge-StateNames : (d : Delta) → DeltaNames ws d → StateNames ws (merge k s d)
  unfolding merge reducer first_brief_wp_id
  merge-StateNames d n = record {
    coverage = merge_summary-All _ (s verify_summary) (d verify_summary) h.coverage n.coverage;
    tester = merge_add-All _ (s tester_findings) (d tester_findings) h.tester n.tester;
    recon = merge_add-All _ (s reconciliation_findings) (d reconciliation_findings) h.recon n.recon;
    slice = merge_slice-IsKnown ws (s current_slice) (d current_slice) h.slice n.slice;
    brief = rw (n.brief, n.spec_kept) h.brief;
  }

  pub fresh-StateNames : StateNames ws (fresh_evidence s)
  unfolding fresh_evidence first_brief_wp_id
  fresh-StateNames = record {
    coverage = h.coverage;
    tester = h.tester;
    recon = h.recon;
    slice = h.slice;
    brief = h.brief;
  }

  pub drop-StateNames : (pre : ℕ × ℕ) → StateNames ws (drop_stale_findings s pre)
  unfolding drop_stale_findings first_brief_wp_id
  drop-StateNames pre = record {
    coverage = h.coverage;
    tester = All-drop _ pre.0 (or_else (s tester_findings) []) h.tester;
    recon = All-drop _ pre.1 (or_else (s reconciliation_findings) []) h.recon;
    slice = h.slice;
    brief = h.brief;
  }

  pub charge-StateNames : StateNames ws (merge k s (record_fixer_attempt_delta s))
  unfolding merge reducer first_brief_wp_id record_fixer_attempt_delta
  charge-StateNames = record {
    coverage = h.coverage;
    tester = h.tester;
    recon = h.recon;
    slice = h.slice;
    brief = h.brief;
  }
