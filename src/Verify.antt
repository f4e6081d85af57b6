-- ===== src/Verify.antt =====
-- The verify stage: src/darkfactory/stages/verify.py.
pub mod Summary
pub mod Verdict
pub mod Plan
pub mod Steps
pub mod PlanFacts
