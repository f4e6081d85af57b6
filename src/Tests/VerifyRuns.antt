-- ===== src/Tests/VerifyRuns.antt =====
-- The verdict of the verify stage, and the reducers, on small states.
use local_dafa.Base.{
  ℕ, zero, ◌+◌, ◌≤◌, ◌-◌, Bool, true, false, not, ◌&&◌, ◌||◌, Option, none, some, List, [], ◌∷◌,
  ◌++◌, ◌≡◌, refl, arith, Text, codes, if◌then◌else◌, or_else, length, last_n, IsUnique, All,
  nat_eq, list_eq, contains,
}
use local_dafa.State.Records.{IssueComment, PredicateCoverage, covered}
use local_dafa.State.Channels.{State, coverage_entries, verify_retries}
use local_dafa.State.Merge.{Caps, merge}
use local_dafa.State.Reducers.{
  EnvValue, id_key, body_key, resolve_cap, merge_issue_comments, merge_work_packages,
}
use local_dafa.State.BoundedLog.{log_after, history, log_after_lem}
use local_dafa.State.CommentMerge.{
  has_key, kept, is_known, merge_issue_comments-IsUnique, merge_issue_comments_idem,
}
use local_dafa.State.PackageMerge.{first_with, last_with, merge_work_packages_lem}
use local_dafa.Build.TopoSort.{story_ids}
use local_dafa.Flow.Repair.{verify_passed}
use local_dafa.Verify.Summary.{
  aggregate, verdict_nodes, has_verification_predicates, expected_predicates,
}
use local_dafa.Verify.Verdict.{is_clean, are_covered, verdict_nodes_lem}
use local_dafa.Tests.Samples.{slice}

abbrev caps : Caps
caps = record { attempts = 50; planning = 50 }

abbrev verifier : State → List PredicateCoverage
verifier s =
    record { wp_id = codes "w"; predicate = codes "p"; status = covered; evidence = [] } ∷ []

abbrev tested : State
tested coverage_entries =
    some (record { wp_id = codes "w"; predicate = codes "p"; test_names = [] } ∷ [])
tested _ = none

verdict_nodes_lem_example :
    let s' = verdict_nodes caps verifier tested in
    let coverage = verifier (merge caps tested (aggregate tested)) in
    (verify_passed s' ≡ (
      is_clean tested
      && (not (has_verification_predicates tested)
          || are_covered (expected_predicates tested) coverage)))
    × (or_else (s' verify_retries) 0
        ≡ or_else (tested verify_retries) 0 + (if verify_passed s' then 0 else 1))
verdict_nodes_lem_example = verdict_nodes_lem caps verifier tested

log_after_lem_example :
    let cap = resolve_cap (EnvValue.number 2) 50 in
    let batches : List (List ℕ) = (1 ∷ 2 ∷ []) ∷ (3 ∷ []) ∷ [] in
    (1 ≤ cap)
    × (log_after {A = ℕ} cap [] batches ≡ last_n cap (history batches))
    × (length (log_after {A = ℕ} cap [] batches) ≤ cap)
log_after_lem_example =
    log_after_lem (EnvValue.number 2) 50 ((1 ∷ 2 ∷ []) ∷ (3 ∷ []) ∷ []) (omega arith)

abbrev comment : Text → Text → IssueComment
comment id body = record { id = id; author = codes "me"; body = body; created_at = [] }

abbrev by_hydrator : List IssueComment
by_hydrator = comment (codes "IC_1") (codes "hello") ∷ []

abbrev by_poll : List IssueComment
by_poll = comment (codes "17") (codes "hello") ∷ comment (codes "18") (codes "bye") ∷ []

merge_issue_comments-IsUnique_example :
    let out = merge_issue_comments by_hydrator by_poll in
    IsUnique (kept id_key out)
    × IsUnique (kept body_key out)
    × All (λ c. (not (has_key c) || is_known out c) ≡ true) (by_hydrator ++ by_poll)
merge_issue_comments-IsUnique_example = merge_issue_comments-IsUnique by_hydrator by_poll

All-keyed : All (λ c. has_key c ≡ true) (by_hydrator ++ by_poll)
unfolding id_key local_dafa.Base.list_beq local_dafa.Base.strip local_dafa.Base.is_space
All-keyed = (refl, (refl, (refl, tt)))

merge_issue_comments_idem_example :
    merge_issue_comments (merge_issue_comments by_hydrator by_poll) by_poll
    ≡ merge_issue_comments by_hydrator by_poll
merge_issue_comments_idem_example = merge_issue_comments_idem by_hydrator by_poll All-keyed

merge_work_packages_lem_example :
    let left = slice (codes "a") [] ∷ slice (codes "b") [] ∷ [] in
    let right = slice (codes "a") (codes "b" ∷ []) ∷ [] in
    IsUnique (story_ids (merge_work_packages left right))
    × ((id : Text)
        → first_with id (merge_work_packages left right)
          ≡ last_with id right (last_with id left none))
merge_work_packages_lem_example =
    merge_work_packages_lem (slice (codes "a") [] ∷ slice (codes "b") [] ∷ [])
      (slice (codes "a") (codes "b" ∷ []) ∷ [])
