-- ===== src/Issue/Steps.antt =====
-- The steps that the phases of src/darkfactory/runtime/issue_workflow.py are made of: an activity
-- called and merged, a wait, `_swap_label`, `_phase`, `_quarantine` and `_cancel_if_requested`.
use local_dafa.Base.{
  ℕ, zero, suc, ◌+◌, Bool, ◌||◌, Option, none, some, List, [], ◌∷◌, Text, codes, text_or, is_empty,
  or_else, nat_beq, list_eq, nat_eq, Dict, lookup, insert, if◌then◌else◌,
}
use local_dafa.State.Records.{Label}
use local_dafa.State.Channels.{
  State, Delta, issue, wf_id, current_df_label, phase_comment_ids, test_results, findings,
}
use local_dafa.State.Merge.{merge}
use local_dafa.Approval.Commands.{ApprovalSignal}
use local_dafa.Flow.Machine.{Result, ok, raised, pending_still}
use local_dafa.Issue.Machine.{
  Activity, IssueWorkflow, Service, Reply, returned, failed, Flow, ◌>>=◌, ◌>>◌, pure, gets, modify,
  Exit, finish, set_state, Phase, PhaseStatus, swap_label, upsert_phase_comment, quarantine,
  canceled,
}
use local_dafa.Issue.Signals.{deliver, cancel_signal, record_last_seen}
use local_dafa.Issue.Markers.{marker_for, phase_key}

abbrev pub reply_result : Reply → Result Delta
reply_result (returned d) = ok d
reply_result (failed e) = raised e

unfoldable pub label_delta : Label → Delta
label_delta l current_df_label = some (some l)
label_delta l _ = none

unfoldable pub comment_ids_delta : Dict Text ℕ → Delta
comment_ids_delta ids phase_comment_ids = some (some ids)
comment_ids_delta ids _ = none

module _ (env : Service) where
  -- The updates of a turn are handled, and the clock moves on.
  unfoldable pub tick : IssueWorkflow → IssueWorkflow
  tick w = record (deliver env.caps (env.updates w.clock) w) { clock = w.clock + 1 }

  -- One turn: the activity is logged, and the updates of the turn are handled before it replies.
  unfoldable pub call : Activity → Flow Delta
  unfolding tick
  call a w = (reply_result (env.reply w.clock a w.state), tick (record w { trace = a ∷ w.trace }))

  -- `self._state = merge(self._state, delta)`
  unfoldable pub absorb : Delta → Flow (Unit {0})
  absorb d = set_state (λ s. merge env.caps s d)

  -- `self._state = merge(self._state, await workflow.execute_activity(...))`. The state that is
  -- merged into is read before the wait.
  unfoldable pub stage : Activity → Flow (Unit {0})
  unfolding call
  stage a = do s ← gets (λ w. w.state); d ← call a; set_state (λ _. merge env.caps s d)

  -- `workflow.wait_condition`: turns pass until the condition holds.
  unfoldable pub wait_for : ℕ → (IssueWorkflow → Bool) → Flow (Unit {0})
  unfolding tick
  wait_for zero p w = (if p w then ok tt else pending_still, w)
  wait_for (suc f) p w = let rest = wait_for f p (tick w) in if p w then (ok tt, w) else rest

  -- `_swap_label`
  unfoldable pub swap : List Label → Label → Flow (Unit {0})
  unfolding call absorb label_delta
  swap remove add = do call (swap_label remove add); absorb (label_delta add)

  -- The time that a phase began is kept from its first comment on.
  unfoldable pub begin_phase : Text → IssueWorkflow → IssueWorkflow
  begin_phase key w = elim (lookup key w.phase_started_at) [
    | none ↦ record w { phase_started_at = insert key w.clock w.phase_started_at }
    | some t ↦ w
  ]

  unfoldable pub keep_comment_id : Text → Option ℕ → Flow (Unit {0})
  unfolding absorb comment_ids_delta
  keep_comment_id key id = do
    ids ← gets (λ w. or_else (w.state phase_comment_ids) [])
    let n = or_else id 0
    if nat_beq n 0 then pure tt else absorb (comment_ids_delta (insert key n ids))

  -- `marker_for` raises where the phase lacks its number.
  unfoldable pub checked : Result Text → Flow Text
  checked (ok m) w = (ok m, w)
  checked (raised e) w = (raised e, w)
  checked pending_still w = (pending_still, w)

  -- `_phase`: the comment of the phase is written or updated.
  unfoldable pub phase : Phase → PhaseStatus → Option ℕ → Option ℕ → Flow (Unit {0})
  unfolding begin_phase keep_comment_id call checked
  phase p status rev attempt = do
    let key = phase_key p rev attempt
    modify (begin_phase key)
    m ← gets (λ w. marker_for (or_else (w.state wf_id) []) p rev attempt)
    marker ← checked m
    id ← gets (λ w. env.comment_id w.clock)
    call (upsert_phase_comment marker status)
    keep_comment_id key id

  abbrev pub issue_number : State → ℕ
  issue_number s = elim (s issue) [ none ↦ 0 | some i ↦ i.number ]

  abbrev pub issue_repo : State → Text
  issue_repo s = elim (s issue) [ none ↦ [] | some i ↦ i.repo ]

  -- `_quarantine`
  unfoldable pub quarantine_issue : Text → Flow (Unit {0})
  unfolding call
  quarantine_issue closure = do
    repo ← gets (λ w. issue_repo w.state)
    n ← gets (λ w. issue_number w.state)
    let closing = call (quarantine repo n closure) >> pure tt
    (if is_empty repo || nat_beq n 0 then pure tt else closing)

  unfoldable pub seen : ℕ → Flow (Unit {0})
  unfolding record_last_seen
  seen n = set_state (record_last_seen env.caps n)

  -- The end of a run that a Cancel stops.
  unfoldable pub cancel_run : Label → ApprovalSignal → Flow Exit
  unfolding seen swap quarantine_issue
  cancel_run label x = do
    seen x.comment_id
    swap (label ∷ Label.cancel ∷ []) Label.canceled
    quarantine_issue (codes "canceled")
    finish canceled (some (text_or (some x.text) (codes "canceled")))

  unfoldable pub cancel_with : Label → Option ApprovalSignal → Flow Exit
  unfolding cancel_run
  cancel_with label none = pure none
  cancel_with label (some x) = cancel_run label x

  -- `_cancel_if_requested`
  unfoldable pub cancel_if_requested : Label → Flow Exit
  unfolding cancel_with
  cancel_if_requested label = gets cancel_signal >>= cancel_with label

-- `self._state["test_results"] = []` and the same of `findings`.
unfoldable pub fresh_evidence : State → State
fresh_evidence s test_results = some []
fresh_evidence s findings = some []
fresh_evidence s c = s c
