-- ===== src/Issue.antt =====
-- src/darkfactory/runtime/issue_workflow.py: the workflow that takes a GitHub issue from triage to
-- the merged change, and the comments it reads and writes.
pub mod Machine
pub mod Comments
pub mod Signals
pub mod Markers
pub mod Steps
pub mod Triage
pub mod Design
pub mod Building
pub mod Review
pub mod Run
pub mod Life
pub mod Logic
pub mod Rules
pub mod Moves
pub mod Gates
pub mod TriageLife
pub mod DesignLife
pub mod DesignGate
pub mod BuildLife
pub mod ReviewLife
pub mod RunLife
pub mod RunEnds
pub mod Labels
pub mod MoveFacts
pub mod LifeFacts
pub mod Promises
pub mod TriageEnds
pub mod MarkerFacts
pub mod SeenFacts
pub mod GateShown
