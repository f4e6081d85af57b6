-- ===== src/Approval.antt =====
-- Approvals by issue comments: the commands of src/darkfactory/runtime/approval.py and who may
-- give them.
pub mod Commands
pub mod Parsing
pub mod Signals
pub mod Access
pub mod AccessFacts
