-- ===== src/Tests.antt =====
-- Sample inputs, the theorems at those inputs, and short runs of the modelled code.
mod Samples
mod FlowRuns
mod BuildRuns
mod HookRuns
mod VerifyRuns
mod ApprovalRuns
mod PathRuns
mod DiffRuns
mod PlanRuns
mod IssueRuns
