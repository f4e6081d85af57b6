-- ===== src/Issue/SeenFacts.antt =====
-- The last comment seen, in src/darkfactory/runtime/issue_workflow.py: what the updates of a turn
-- record, and which steps keep it.
use local_dafa.Base.{
  ℕ, max, Option, none, some, List, [], ◌∷◌, ◌≡◌, refl, ◌∙◌, arith, inl, inr, Bool-cases, or_else,
  nat_beq, ap,
}
use local_dafa.State.Records.{Label}
use local_dafa.State.Channels.{State, Delta, last_seen_comment_id}
use local_dafa.State.Merge.{Caps, merge, merge_value, reducer}
use local_dafa.Issue.Machine.{
  Activity, IssueWorkflow, Service, returned, Update, signal_approval, approve_gate, approve_brief,
  revise_brief, reject_brief, approve_merge, reject_merge, trigger_fix, trigger_rebuild,
  post_new_comments, swap_label,
}
use local_dafa.Issue.Comments.{last_comment_id}
use local_dafa.Issue.Signals.{deliver, handle, receive, record_last_seen, seen_delta}
use local_dafa.Issue.Steps.{call, tick, stage, swap, absorb, label_delta}
use local_dafa.State.Reducers.{overwrite}

-- The last comment seen, and the id that an update brings.
abbrev pub last_seen : State → ℕ
last_seen s = or_else (s last_seen_comment_id) 0

abbrev pub id_of : Update → ℕ
id_of (signal_approval x) = x.comment_id
id_of (post_new_comments cs) = or_else (last_comment_id cs) 0
id_of _ = 0

-- The greatest of an id and those of the updates.
abbrev pub newest : ℕ → List Update → ℕ
newest n [] = n
newest n (u ∷ us) = newest (max n (id_of u)) us

record_last_seen-max :
    (caps : Caps) (n : ℕ) (s : State) → last_seen (record_last_seen caps n s) ≡ max (last_seen s) n
unfolding record_last_seen seen_delta merge reducer overwrite
record_last_seen-max caps n s = elim (Bool-cases (nat_beq n 0)) [
  | inl e ↦ let z : n ≡ 0 = ground (arith, e) in rw (e, z) (omega arith)
  | inr e ↦ rw e (stored (s last_seen_comment_id))
]
  where
    stored :
        (o : Option ℕ)
        → or_else (merge_value (some overwrite) o (some (some (max (or_else o 0) n)))) 0
          ≡ max (or_else o 0) n
    stored none = refl
    stored (some m) = refl

zero_seen : (m : ℕ) → m ≡ max m 0
zero_seen m = omega arith

handle-last_seen :
    (caps : Caps) (u : Update) (w : IssueWorkflow)
    → last_seen (handle caps u w).state ≡ max (last_seen w.state) (id_of u)
unfolding handle receive
handle-last_seen caps (signal_approval x) w = record_last_seen-max caps x.comment_id w.state
handle-last_seen caps (approve_gate d) w = zero_seen (last_seen w.state)
handle-last_seen caps (approve_brief d) w = record_last_seen-max caps 0 w.state
handle-last_seen caps (revise_brief d) w = record_last_seen-max caps 0 w.state
handle-last_seen caps (reject_brief d) w = record_last_seen-max caps 0 w.state
handle-last_seen caps (approve_merge d) w = record_last_seen-max caps 0 w.state
handle-last_seen caps (reject_merge d) w = record_last_seen-max caps 0 w.state
handle-last_seen caps (trigger_fix d) w = record_last_seen-max caps 0 w.state
handle-last_seen caps (trigger_rebuild d) w = record_last_seen-max caps 0 w.state
handle-last_seen caps (post_new_comments cs) w =
    record_last_seen-max caps (or_else (last_comment_id cs) 0) w.state

deliver-last_seen :
    (caps : Caps) (us : List Update) (w : IssueWorkflow)
    → last_seen (deliver caps us w).state ≡ newest (last_seen w.state) us
unfolding deliver
deliver-last_seen caps [] w = refl
deliver-last_seen caps (u ∷ us) w =
    deliver-last_seen caps us (handle caps u w)
    ∙ ap (λ (n : ℕ). newest n us) (handle-last_seen caps u w)

module _ (env : Service) (w : IssueWorkflow) where
  swap_keeps :
      (remove : List Label) (add : Label) (d : Delta)
      → env.reply w.clock (swap_label remove add) w.state ≡ returned d
      → last_seen (swap env remove add w).1.state ≡ newest (last_seen w.state) (env.updates w.clock)
  unfolding swap call tick absorb label_delta merge reducer
  swap_keeps remove add d e = rw e (
      deliver-last_seen env.caps (env.updates w.clock)
        (record w { trace = swap_label remove add ∷ w.trace }))

  stage_forgets :
      (a : Activity) (d : Delta)
      → env.reply w.clock a w.state ≡ returned d
      → d last_seen_comment_id ≡ none
      → last_seen (stage env a w).1.state ≡ last_seen w.state
  unfolding stage call tick merge reducer
  stage_forgets a d e h = rw (e, h) refl

  -- Of the updates that arrive while an activity runs, a swap of the label records every comment
  -- id: the last one seen becomes the greatest of them and of the one before. A stage whose
  -- activity returns without a comment id of its own records none of them: it merges into the state
  -- that it read before the activity ran, and the ids that its updates recorded are lost.
  pub swap_keeps_ids_stage_loses_them :
      (remove : List Label) (add : Label) (a : Activity) (d d' : Delta)
      → env.reply w.clock (swap_label remove add) w.state ≡ returned d
      → env.reply w.clock a w.state ≡ returned d'
      → d' last_seen_comment_id ≡ none
      → (last_seen (swap env remove add w).1.state
          ≡ newest (last_seen w.state) (env.updates w.clock))
        × (last_seen (stage env a w).1.state ≡ last_seen w.state)
  swap_keeps_ids_stage_loses_them remove add a d d' e e' h =
      (swap_keeps remove add d e, stage_forgets a d' e' h)
