-- ===== src/Flow/Stale.antt =====
-- `_snapshot_findings_counts` and `_drop_stale_findings` of src/darkfactory/runtime/workflow.py.
use local_dafa.Base.{ℕ, some, [], length, drop, or_else}
use local_dafa.State.Channels.{State, tester_findings, reconciliation_findings}

unfoldable pub snapshot_findings_counts : State → ℕ × ℕ
snapshot_findings_counts s =
    (length (or_else (s tester_findings) []), length (or_else (s reconciliation_findings) []))

unfoldable pub drop_stale_findings : State → ℕ × ℕ → State
drop_stale_findings s pre tester_findings = some (drop pre.0 (or_else (s tester_findings) []))
drop_stale_findings s pre reconciliation_findings =
    some (drop pre.1 (or_else (s reconciliation_findings) []))
drop_stale_findings s pre c = s c
