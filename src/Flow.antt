-- ===== src/Flow.antt =====
-- src/darkfactory/runtime/workflow.py: the prompt-driven workflow.
pub mod Feedback
pub mod Targets
pub mod Budget
pub mod Stale
pub mod Machine
pub mod Signals
pub mod Stages
pub mod Planning
pub mod Repair
pub mod Merging
pub mod Run
pub mod TargetSets
pub mod Charges
pub mod Logic
pub mod NamesKept
pub mod RepairEnds
pub mod StaleDropped
pub mod Keeps
pub mod PhasesKeep
pub mod Teardown
pub mod Statuses
pub mod Approvals
pub mod Guards
pub mod PlanningGuard
pub mod MergeGate
pub mod MergeGuard
