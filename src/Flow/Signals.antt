-- ===== src/Flow/Signals.antt =====
-- The update handlers and the query of `DarkFactoryWorkflow`
-- (src/darkfactory/runtime/workflow.py), and the delivery of updates.
use local_dafa.Base.{
  Bool, true, false, not, ◌&&◌, ◌||◌, Option, none, some, List, [], ◌∷◌, is_some, if◌then◌else◌,
}
use local_dafa.State.Records.{GateDecision}
use local_dafa.Flow.Machine.{
  Workflow, Update, approve_brief, revise_brief, reject_brief, approve_merge, reject_merge,
  trigger_fix, trigger_rebuild, approve_gate, Gate, brief_gate, merge_gate, fix, rebuild,
}

-- The decision again, with the verdict of the handler.
unfoldable pub with_verdict : Bool → GateDecision → GateDecision
with_verdict b d = record { approved = b; reason = d.reason; edits = d.edits }

-- `approve_gate`: the decision goes to the gate that waits, or to the first one not yet decided.
unfoldable pub route_gate : Option Gate → Option GateDecision → GateDecision → Workflow → Workflow
route_gate (some merge_gate) b d w = record w { merging = some d }
route_gate (some brief_gate) b d w = record w { brief = some d }
route_gate none none d w = record w { brief = some d }
route_gate none (some _) d w = record w { merging = some d }

unfoldable pub handle : Update → Workflow → Workflow
unfolding with_verdict route_gate
handle (approve_brief d) w = record w { brief = some (with_verdict true d) }
handle (revise_brief d) w = record w { revise = some d }
handle (reject_brief d) w = record w { brief = some (with_verdict false d) }
handle (approve_merge d) w = record w { merging = some (with_verdict true d) }
handle (reject_merge d) w = record w { merging = some (with_verdict false d) }
handle (trigger_fix d) w = record w { action = some fix; payload = some d }
handle (trigger_rebuild d) w = record w { action = some rebuild; payload = some d }
handle (approve_gate d) w = route_gate w.pending w.brief d w

-- The updates of one turn, in order.
unfoldable pub deliver : List Update → Workflow → Workflow
unfolding handle
deliver [] w = w
deliver (u ∷ us) w = deliver us (handle u w)

abbrev pub is_brief : Option Gate → Bool
is_brief (some brief_gate) = true
is_brief _ = false

abbrev pub is_merge : Option Gate → Bool
is_merge (some merge_gate) = true
is_merge _ = false

-- The gate part of `current_state_summary`.
pub record GateSummary : Type 0 where
  pub gate_pending : Bool
  pub pending_gate : Option Gate
  pub brief_gate_pending : Bool
  pub merge_gate_pending : Bool

unfoldable pub gate_summary : Workflow → GateSummary
gate_summary w =
    let b = is_brief w.pending && (not (is_some w.brief) && not (is_some w.revise)) in
    let m = is_merge w.pending && (not (is_some w.merging) && not (is_some w.action)) in
    record {
      gate_pending = b || m;
      pending_gate = if b || m then w.pending else none;
      brief_gate_pending = b;
      merge_gate_pending = m;
    }

-- What the brief gate waits for.
abbrev pub brief_decided : Workflow → Bool
brief_decided w = is_some w.brief || is_some w.revise

-- What the merge gate waits for.
abbrev pub merge_decided : Workflow → Bool
merge_decided w = is_some w.merging || is_some w.action
