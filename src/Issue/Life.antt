-- ===== src/Issue/Life.antt =====
-- The life of an issue, as an abstract machine: where an issue stands, and which activities of
-- src/darkfactory/runtime/issue_workflow.py may be called there.
use local_dafa.Base.{
  ◌≡◌, arith, ℕ, suc, Bool, true, false, ◌&&◌, Option, none, some, List, [], ◌∷◌, ltb, nat_beq,
  if◌then◌else◌,
}
use local_dafa.State.Records.{Label}
use local_dafa.Issue.Machine.{
  Activity, setup_worker, hydrate, triage_stage, discovery, build_stage, verify_stage, fixer,
  pr_creator, reviewer, merge_branch, mark_issue_done, teardown_worker, swap_label,
  upsert_phase_comment, post_questions, post_abandoned, quarantine, Status,
}

-- `triaging` and `clarifying` count the clarification rounds so far. `rebuilding` is asked for at
-- the merge gate. `stuck` is a design that the critic refused while its approval was still asked
-- for. `down` keeps the place where the worker was torn down.
pub data Place : Type 0 where
  off ready : Place
  triaging clarifying : ℕ → Place
  designing awaiting building verifying reviewing gated fixing rebuilding merging : Place
  finished : Label → Place
  stuck : Place
  down : Place → Place

-- The state label of the workflow at a place.
abbrev pub label_of : Place → Label
label_of off = Label.ready
label_of ready = Label.ready
label_of (triaging _) = Label.triaging
label_of (clarifying _) = Label.needs_clarification
label_of designing = Label.designing
label_of awaiting = Label.awaiting_approval
label_of building = Label.building
label_of verifying = Label.verifying
label_of reviewing = Label.reviewing
label_of gated = Label.awaiting_merge
label_of fixing = Label.fixing
label_of rebuilding = Label.building
label_of merging = Label.in_progress
label_of (finished l) = l
label_of stuck = Label.needs_human
label_of (down p) = label_of p

-- The label that a result leaves the issue with.
abbrev pub closing_label : Status → Label
closing_label Status.merged = Label.done
closing_label Status.rejected = Label.canceled
closing_label Status.canceled = Label.canceled
closing_label Status.abandoned = Label.needs_human
closing_label Status.needs_human = Label.needs_human

abbrev pub label_number : Label → ℕ
label_number Label.ready = 0
label_number Label.triaging = 1
label_number Label.needs_clarification = 2
label_number Label.designing = 3
label_number Label.awaiting_approval = 4
label_number Label.approved = 5
label_number Label.building = 6
label_number Label.verifying = 7
label_number Label.reviewing = 8
label_number Label.awaiting_merge = 9
label_number Label.fixing = 10
label_number Label.in_progress = 11
label_number Label.done = 12
label_number Label.needs_human = 13
label_number Label.cancel = 14
label_number Label.canceled = 15

abbrev pub same_label : Label → Label → Bool
same_label a b = nat_beq (label_number a) (label_number b)

abbrev pub same_labels : List Label → List Label → Bool
same_labels [] [] = true
same_labels (a ∷ xs) (b ∷ ys) = same_label a b && same_labels xs ys
same_labels _ _ = false

-- A label may follow at a place: what has to be taken off, and where that leads.
abbrev pub Move : Type 0
Move = Option (List Label × Place)

abbrev pub leave : Label → Place → Move
leave l p = some (l ∷ [], p)

-- A cancel also takes off the label that asked for it.
abbrev pub cancel_from : Label → Move
cancel_from l = some (l ∷ Label.cancel ∷ [], finished Label.canceled)

-- Every label that a change under review can carry.
abbrev pub to_review : Move
to_review =
    some (Label.verifying ∷ Label.fixing ∷ Label.building ∷ Label.awaiting_merge ∷ [], reviewing)

abbrev pub max_rounds : ℕ
max_rounds = 3

abbrev pub if_move : Bool → Move → Move
if_move true m = m
if_move false m = none

unfoldable pub moves : Place → Label → Move
moves ready Label.triaging = leave Label.ready (triaging 0)
moves (triaging n) Label.needs_clarification =
    if_move (ltb n max_rounds) (leave Label.triaging (clarifying (suc n)))
moves (triaging n) Label.needs_human =
    if_move (nat_beq n max_rounds) (leave Label.triaging (finished Label.needs_human))
moves (triaging n) Label.canceled = cancel_from Label.triaging
moves (triaging n) Label.designing = leave Label.triaging designing
moves (clarifying n) Label.triaging = leave Label.needs_clarification (triaging n)
moves (clarifying n) Label.canceled = cancel_from Label.needs_clarification
moves designing Label.awaiting_approval = leave Label.designing awaiting
moves designing Label.needs_human = leave Label.designing (finished Label.needs_human)
moves awaiting Label.designing = leave Label.awaiting_approval designing
moves awaiting Label.canceled = cancel_from Label.awaiting_approval
moves awaiting Label.building = some (Label.awaiting_approval ∷ Label.approved ∷ [], building)
moves awaiting Label.awaiting_approval = leave Label.designing awaiting
moves awaiting Label.needs_human = leave Label.designing stuck
moves building Label.verifying = leave Label.building verifying
moves building Label.canceled = cancel_from Label.building
moves verifying Label.needs_human = leave Label.verifying (finished Label.needs_human)
moves verifying Label.reviewing = to_review
moves reviewing Label.awaiting_merge = leave Label.reviewing gated
moves gated Label.canceled = cancel_from Label.awaiting_merge
moves gated Label.in_progress = leave Label.awaiting_merge merging
moves gated Label.fixing = leave Label.awaiting_merge fixing
moves gated Label.building = leave Label.awaiting_merge rebuilding
moves gated Label.reviewing = to_review
moves fixing Label.reviewing = to_review
moves rebuilding Label.reviewing = to_review
moves merging Label.done = leave Label.in_progress (finished Label.done)
moves _ _ = none

-- Whether an activity other than a swap may be called at a place.
unfoldable pub works : Place → Activity → Bool
works ready hydrate = true
works (triaging n) triage_stage = true
works (triaging n) (post_questions qs m) = nat_beq m (suc n) && ltb n max_rounds
works (triaging n) (post_abandoned qs m) = nat_beq m (suc n) && nat_beq n max_rounds
works designing discovery = true
works awaiting discovery = true
works building build_stage = true
works verifying verify_stage = true
works verifying fixer = true
works verifying pr_creator = true
works reviewing reviewer = true
works fixing fixer = true
works fixing verify_stage = true
works rebuilding build_stage = true
works rebuilding verify_stage = true
works merging merge_branch = true
works merging mark_issue_done = true
works (finished Label.canceled) (quarantine r n c) = true
works off a = false
works (down p) a = false
works p (upsert_phase_comment m s) = true
works p a = false

abbrev pub is_off : Place → Bool
is_off off = true
is_off _ = false

-- The worker is there.
abbrev pub is_up : Place → Bool
is_up off = false
is_up (down p) = false
is_up p = true

-- A swap has to take off what the move asks for.
unfoldable pub swap_move : List Label → Move → Option Place
swap_move r none = none
swap_move r (some (need, p)) = if same_labels r need && is_up p then some p else none

unfoldable pub step : Place → Activity → Option Place
unfolding swap_move moves works
step p (swap_label remove add) = swap_move remove (moves p add)
step p teardown_worker = if is_up p then some (down p) else none
step p setup_worker = if is_off p then some ready else none
step p a = if works p a && is_up p then some p else none

abbrev pub step_from : Option Place → Activity → Option Place
step_from none a = none
step_from (some p) a = step p a

-- Where the activities of a trace lead, the last one first; none where one of them was not allowed.
unfoldable pub life : List Activity → Option Place
unfolding step
life [] = some off
life (a ∷ t) = step_from (life t) a

-- How many approvals a place stands behind.
abbrev pub needed : Place → ℕ
needed building = 1
needed verifying = 1
needed reviewing = 1
needed gated = 1
needed fixing = 1
needed rebuilding = 1
needed merging = 2
needed (finished Label.done) = 2
needed (down p) = needed p
needed _ = 0

swap_move-up : (r : List Label) (m : Move) (q : Place) → swap_move r m ≡ some q → is_up q ≡ true
unfolding swap_move
swap_move-up r none q h = cc
swap_move-up r (some (need, p)) q h = ground (arith, h)

-- A swap never leads away from the worker.
pub swap-up :
    (p q : Place) (r : List Label) (l : Label) → step p (swap_label r l) ≡ some q → is_up q ≡ true
unfolding step
swap-up p q r l h = swap_move-up r (moves p l) q h
