-- ===== src/Issue/Markers.antt =====
-- `marker_for` and `PHASE_MARKERS` of src/darkfactory/runtime/phase_comment.py, and `_phase_key` of
-- src/darkfactory/runtime/issue_workflow.py.
use local_dafa.Base.{
  ℕ, Option, none, some, ◌++◌, Text, codes, is_empty, show, or_else, nat_beq, if◌then◌else◌,
}
use local_dafa.Flow.Machine.{Result, ok, raised}
use local_dafa.Issue.Machine.{Phase, triage, design, build, verify, pr, review, merge}

abbrev pub phase_name : Phase → Text
phase_name triage = codes "triage"
phase_name design = codes "design"
phase_name build = codes "build"
phase_name verify = codes "verify"
phase_name pr = codes "pr"
phase_name review = codes "review"
phase_name merge = codes "merge"

-- `<!-- df-phase:{wf}:{phase} -->`, and the same with a number.
unfoldable pub plain_marker : Text → Phase → Text
plain_marker wf p = codes "<!-- df-phase:" ++ (wf ++ (codes ":" ++ (phase_name p ++ codes " -->")))

unfoldable pub numbered_marker : Text → Phase → ℕ → Text
unfolding show
numbered_marker wf p n =
    codes "<!-- df-phase:"
    ++ (wf ++ (codes ":" ++ (phase_name p ++ (codes ":" ++ (show n ++ codes " -->")))))

-- A marker with a number that has to be there and be positive.
unfoldable pub counted_marker : Text → Phase → Option ℕ → Text → Result Text
unfolding numbered_marker
counted_marker wf p n message =
    let k = or_else n 0 in if nat_beq k 0 then raised message else ok (numbered_marker wf p k)

-- The marker of a phase by its rule.
unfoldable pub phase_marker : Text → Phase → Option ℕ → Option ℕ → Result Text
unfolding counted_marker plain_marker
phase_marker wf design rev attempt =
    counted_marker wf design rev (codes "design phase marker requires rev >= 1")
phase_marker wf review rev attempt =
    counted_marker wf review attempt (codes "review phase marker requires iteration >= 1")
phase_marker wf p rev attempt = ok (plain_marker wf p)

unfoldable pub marker_for : Text → Phase → Option ℕ → Option ℕ → Result Text
unfolding phase_marker
marker_for wf p rev attempt =
    if is_empty wf
    then raised (codes "marker_for requires wf_id")
    else phase_marker wf p rev attempt

-- `_phase_key`
unfoldable pub numbered_key : Phase → Option ℕ → Text
unfolding show
numbered_key p n = elim n [ none ↦ phase_name p | some k ↦ phase_name p ++ (codes ":" ++ show k) ]

unfoldable pub phase_key : Phase → Option ℕ → Option ℕ → Text
unfolding numbered_key
phase_key design rev attempt = numbered_key design rev
phase_key review rev attempt = numbered_key review attempt
phase_key p rev attempt = phase_name p
