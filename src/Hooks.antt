-- ===== src/Hooks.antt =====
-- src/darkfactory/hooks: the callbacks that guard an agent's session.
pub mod CallCap
pub mod GoalPin
pub mod LoopBreaker
pub mod LoopFacts
pub mod Permission
pub mod PermissionFacts
pub mod Paths
pub mod PathGuard
pub mod Dependencies
pub mod PathFacts
pub mod PathSplit
pub mod PathBackslash
pub mod PathStable
pub mod PathRefusals
