-- ===== src/Build/Worker.antt =====
-- The worker nodes of src/darkfactory/stages/build.py: what a Builder or Tester turn adds to the
-- state, with `reconcile_paths` of src/darkfactory/tools/git_diff.py.
use local_dafa.Base.{
  Bool, true, false, not, ◌&&◌, Option, none, some, List, [], ◌∷◌, ◌++◌, Text, codes, is_empty,
  filter, contains, length, show, strip, join, ltb, if◌then◌else◌, or_else, nat_eq, list_eq,
}
use local_dafa.State.Records.{
  Patch, BuilderStatus, done, no_changes_needed, blocked, BuilderEditRecord, CoverageEntry,
  TesterFinding, ReconciliationFinding, builder_blocked, builder_no_action,
  claimed_edits_not_applied, undeclared_edits, tester_parse_failure,
}
use local_dafa.State.Channels.{
  State, Delta, current_slice, patches, builder_summary, builder_outputs, reconciliation_findings,
  tester_outputs, tester_findings, coverage_entries,
}
use local_dafa.Build.Supervisor.{Worker, builder, tester}

-- Code points in lexicographic order, as `sorted` compares texts.
unfoldable pub text_le : Text → Text → Bool
text_le [] t = true
text_le (c ∷ s) [] = false
text_le (c ∷ s) (d ∷ t) = if ltb c d then true else if ltb d c then false else text_le s t

-- `sorted` of a set: each element once, in order.
unfoldable pub insert_sorted : Text → List Text → List Text
insert_sorted x [] = x ∷ []
insert_sorted x (y ∷ ys) =
    if contains x (y ∷ [])
    then y ∷ ys
    else if text_le x y
    then x ∷ y ∷ ys
    else y ∷ insert_sorted x ys

unfoldable pub sorted_set : List Text → List Text
unfolding insert_sorted
sorted_set [] = []
sorted_set (x ∷ xs) = insert_sorted x (sorted_set xs)

-- The paths of the first list that are not empty and not in the second.
unfoldable pub path_difference : List Text → List Text → List Text
unfolding sorted_set
path_difference xs ys = sorted_set (filter (λ p. not (is_empty p) && not (contains p ys)) xs)

pub record PathDiff : Type 0 where
  pub claimed_not_applied : List Text
  pub undeclared : List Text

unfoldable pub reconcile_paths : List Text → List Text → PathDiff
unfolding path_difference
reconcile_paths claimed actual = record {
  claimed_not_applied = path_difference claimed actual;
  undeclared = path_difference actual claimed;
}

unfoldable pub nonempty_texts : List Text → List Text
nonempty_texts ts = filter (λ t. not (is_empty t)) ts

-- The findings of a "done" turn: no action, or the two differences of the path sets.
unfoldable pub difference_findings : Text → List Text → List Text → List ReconciliationFinding
unfolding reconcile_paths
difference_findings wp_id claimed actual =
    let d = reconcile_paths claimed actual in
    (if is_empty d.claimed_not_applied
      then []
      else record {
        kind = claimed_edits_not_applied;
        wp_id = wp_id;
        producer = codes "build_subgraph";
        detail =
            codes "Builder declared "
            ++ (show (length d.claimed_not_applied)
                ++ codes " edit(s) that were not applied to the working tree");
        claimed_paths = d.claimed_not_applied;
        actual_paths = actual;
        blockers = [];
      }
        ∷ [])
    ++ (if is_empty d.undeclared
        then []
        else record {
          kind = undeclared_edits;
          wp_id = wp_id;
          producer = codes "build_subgraph";
          detail =
              codes "Builder applied "
              ++ (show (length d.undeclared)
                  ++ codes " edit(s) it did not declare in its structured output");
          claimed_paths = claimed;
          actual_paths = d.undeclared;
          blockers = [];
        }
          ∷ [])

-- `"; ".join(b for b in blockers if b)`, or the default text.
unfoldable pub blocked_detail : List Text → Text
unfolding nonempty_texts
blocked_detail [] = codes "Builder reported status=blocked with no reason"
blocked_detail (b ∷ bs) = join (codes "; ") (nonempty_texts (b ∷ bs))

unfoldable pub builder_reconciliation_findings :
    Text
    → BuilderStatus
    → List BuilderEditRecord
    → List Text
    → List Text
    → List Text
    → List ReconciliationFinding
unfolding difference_findings blocked_detail
builder_reconciliation_findings wp_id blocked edits blockers claimed actual =
    record {
      kind = builder_blocked;
      wp_id = wp_id;
      producer = codes "build_subgraph";
      detail = blocked_detail blockers;
      claimed_paths = [];
      actual_paths = [];
      blockers = blockers;
    }
    ∷ []
builder_reconciliation_findings wp_id no_changes_needed edits blockers claimed actual = []
builder_reconciliation_findings wp_id done edits blockers claimed actual =
    if is_empty actual && is_empty edits
    then record {
      kind = builder_no_action;
      wp_id = wp_id;
      producer = codes "build_subgraph";
      detail =
          codes
            "Builder reported status=done but declared no edits and no files changed in the working tree";
      claimed_paths = [];
      actual_paths = [];
      blockers = [];
    }
      ∷ []
    else difference_findings wp_id claimed actual

-- The dictionary that a worker's agent returns; a missing status is `none`.
pub record WorkerResult : Type 0 where
  pub wp_id : Text
  pub status : Option BuilderStatus
  pub edits : List BuilderEditRecord
  pub blockers : List Text
  pub summary : Text
  pub carried : List Patch
  pub coverage : List CoverageEntry
  pub findings : List TesterFinding
  pub parse_failure : Bool

-- How the agent's turn ended.
pub data Turn : Type 0 where
  completed : WorkerResult → Turn
  crashed : Text → Turn

abbrev pub worker_name : Worker → Text
worker_name builder = codes "builder"
worker_name tester = codes "tester"

-- `if xs: delta[key] = xs`
abbrev pub unless_nil : {A : Type 0} → List A → Option (Option (List A))
unless_nil [] = none
unless_nil (x ∷ xs) = some (some (x ∷ xs))

unfoldable pub crash_delta : Worker → Text → Text → Delta
crash_delta worker slice_id exc patches = some (
    some (
      record {
        path = codes "(worker-error)";
        diff = codes "error: " ++ exc;
        author_agent = worker_name worker;
        slice_id = slice_id;
        sha = none;
        edit_kind = none;
        justification = none;
      }
      ∷ []))
crash_delta worker slice_id exc _ = none

unfoldable pub edit_paths : List BuilderEditRecord → List Text
edit_paths [] = []
edit_paths (e ∷ es) = e.path ∷ edit_paths es

unfoldable pub patch_paths : List Patch → List Text
patch_paths [] = []
patch_paths (p ∷ ps) = p.path ∷ patch_paths ps

-- What a Builder turn adds, besides its patches.
unfoldable pub builder_delta : Text → WorkerResult → List Patch → Delta
unfolding builder_reconciliation_findings edit_paths patch_paths nonempty_texts
builder_delta slice_id r found patches = unless_nil found
builder_delta slice_id r found builder_summary =
    let summary = strip r.summary in if is_empty summary then none else some (some summary)
builder_delta slice_id r found builder_outputs = some (
    some (
      record {
        wp_id = if is_empty r.wp_id then slice_id else r.wp_id;
        status = or_else r.status blocked;
        edits = r.edits;
        blockers = r.blockers;
        summary = strip r.summary;
      }
      ∷ []))
builder_delta slice_id r found reconciliation_findings = unless_nil (
    builder_reconciliation_findings (if is_empty r.wp_id then slice_id else r.wp_id)
      (or_else r.status blocked) r.edits r.blockers (nonempty_texts (edit_paths r.edits))
      (nonempty_texts (patch_paths found)))
builder_delta slice_id r found coverage_entries = unless_nil r.coverage
builder_delta slice_id r found _ = none

-- What a Tester turn adds, besides its patches.
unfoldable pub tester_delta : Text → WorkerResult → List Patch → Delta
tester_delta slice_id r found patches = unless_nil found
tester_delta slice_id r found tester_outputs = some (
    some (
      record {
        wp_id = slice_id;
        summary = strip r.summary;
        coverage = r.coverage;
        findings = r.findings;
        parse_failure = r.parse_failure;
      }
      ∷ []))
tester_delta slice_id r found tester_findings = unless_nil r.findings
tester_delta slice_id r found reconciliation_findings =
    if r.parse_failure
    then some (
        some (
          record {
            kind = tester_parse_failure;
            wp_id = slice_id;
            producer = codes "build_subgraph";
            detail =
                codes
                  "Tester produced no structured output for this Work Package; treat predicates as uncovered.";
            claimed_paths = [];
            actual_paths = [];
            blockers = [];
          }
          ∷ []))
    else none
tester_delta slice_id r found coverage_entries = unless_nil r.coverage
tester_delta slice_id r found _ = none

-- The node: `diff` is what `git diff` found, or `none` where there is no sandbox or no commit.
unfoldable pub worker_node : Worker → State → Turn → Option (List Patch) → Delta
unfolding crash_delta builder_delta tester_delta
worker_node worker s (crashed exc) diff = crash_delta worker (or_else (s current_slice) []) exc
worker_node builder s (completed r) diff =
    builder_delta (or_else (s current_slice) []) r (or_else diff r.carried)
worker_node tester s (completed r) diff =
    tester_delta (or_else (s current_slice) []) r (or_else diff r.carried)
