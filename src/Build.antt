-- ===== src/Build.antt =====
-- The build stage: src/darkfactory/agents/builder_supervisor.py, src/darkfactory/stages/build.py
-- and src/darkfactory/tools/git_diff.py.
pub mod TopoSort
pub mod TopoOrder
pub mod Sorted
pub mod Supervisor
pub mod Dispatch
pub mod Diff
pub mod DiffFacts
pub mod NameStatus
pub mod Worker
pub mod Turns
