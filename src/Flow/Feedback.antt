-- ===== src/Flow/Feedback.antt =====
-- Planning feedback of src/darkfactory/runtime/workflow.py: whether the Plan Critic approved, what
-- the next attempt is told, and the entries of the planning log.
use local_dafa.Base.{
  ℕ, Bool, true, Option, none, some, List, [], ◌∷◌, ◌++◌, map, Text, codes, is_empty, strip, join,
  lstrip_of, if◌then◌else◌, ◌==◌, nat_eq,
}
use local_dafa.State.Records.{
  ReviewDecision, ChangeValue, items, fields, plain, Changes, by_field, whole, PlanningEntry,
  GateDecision,
}
use local_dafa.State.Channels.{
  State, stories, spec, work_packages, implementation_brief, review_decision,
}

-- No decision, or one with no verdict, counts as approved.
unfoldable pub planning_approved : Option ReviewDecision → Bool
planning_approved none = true
planning_approved (some d) = elim d.approved [ none ↦ true | some b ↦ b ]

-- `f"{indent}- {text}"`
bullet : Text → Text → Text
bullet indent t = indent ++ (codes "- " ++ t)

-- One field of the requested edits, as markdown lines.
unfoldable pub format_field : Text × ChangeValue → List Text
unfolding bullet
format_field (field, items xs) =
    bullet (codes "  ") (field ++ codes ":") ∷ map (bullet (codes "    ")) xs
format_field (field, fields kvs) =
    bullet (codes "  ") (field ++ codes ":")
    ∷ map (λ kv. bullet (codes "    ") (kv.0 ++ (codes ": " ++ kv.1))) kvs
format_field (field, plain v) = bullet (codes "  ") (field ++ (codes ": " ++ v)) ∷ []

-- Every field in turn.
unfoldable pub format_fields : List (Text × ChangeValue) → List Text
unfolding format_field
format_fields [] = []
format_fields (f ∷ fs) = format_field f ++ format_fields fs

unfoldable pub format_plan_critic_changes : Changes → List Text
unfolding format_fields bullet
format_plan_critic_changes (whole t) = bullet (codes "  ") t ∷ []
format_plan_critic_changes (by_field fs) = format_fields fs

-- The lines under "Requested edits:".
unfoldable pub format_edits : List (Text × Changes) → List Text
unfolding format_plan_critic_changes
format_edits [] = []
format_edits ((wp_id, changes) ∷ rest) =
    (codes "- **" ++ (wp_id ++ codes "**"))
    ∷ (format_plan_critic_changes changes ++ format_edits rest)

unfoldable pub reason_lines : Text → List Text
reason_lines reason = if is_empty reason then [] else [] ∷ (codes "Reason: " ++ reason) ∷ []

unfoldable pub edit_lines : Text → List (Text × Changes) → List Text
unfolding format_edits
edit_lines reason [] =
    if is_empty reason then [] ∷ codes "Reason: revise and try again." ∷ [] else []
edit_lines reason (e ∷ es) = [] ∷ codes "Requested edits:" ∷ format_edits (e ∷ es)

unfoldable pub planning_feedback_from_decision : ReviewDecision → Text
unfolding reason_lines edit_lines
planning_feedback_from_decision d =
    let reason = strip d.reason in
    join (codes "\n")
      (codes "**Plan Critic rejected.**" ∷ (reason_lines reason ++ edit_lines reason d.edits))

unfoldable pub planning_feedback_from_human_revise : Text → Text → Text
planning_feedback_from_human_revise author text =
    let who = lstrip_of b'@' (strip author) in
    let note = strip text in
    let prefix = if is_empty who then codes "Human revise" else codes "Human revise by @" ++ who in
    if is_empty note then prefix else prefix ++ (codes ": " ++ note)

-- A note at the brief gate is written by "human".
unfoldable pub human_revise_feedback : GateDecision → Text
unfolding planning_feedback_from_human_revise
human_revise_feedback d = planning_feedback_from_human_revise (codes "human") (strip d.reason)

-- `if value: entry[key] = value`
unfoldable pub unless_empty : Text → Option Text
unless_empty t = if is_empty t then none else some t

unfoldable pub planning_attempt_log_entry :
    Text → ℕ → Text → Option ℕ → Option ℕ → Text → ℕ → PlanningEntry
unfolding unless_empty
planning_attempt_log_entry source attempt feedback rev next_rev author comment_id = record {
  source = source;
  attempt = attempt;
  feedback = unless_empty feedback;
  rev = rev;
  next_rev = next_rev;
  author = unless_empty author;
  comment_id = if comment_id == 0 then none else some comment_id;
}

unfoldable pub reset_planning_artifacts : State → State
reset_planning_artifacts s stories = some []
reset_planning_artifacts s spec = some []
reset_planning_artifacts s work_packages = some []
reset_planning_artifacts s implementation_brief = none
reset_planning_artifacts s review_decision = none
reset_planning_artifacts s c = s c
