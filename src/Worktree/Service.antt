-- ===== src/Worktree/Service.antt =====
-- The service on the canonical state: core/worktree/service.go. An operation takes the stored state
-- to the new one with its result, or to an error, and then the stored state stays as it is.
pub mod Digest
pub mod Receipts
pub mod Admission
pub mod Transaction
pub mod Recorded
pub mod Attach
pub mod Publish
pub mod Pull
pub mod Resolve
pub mod Acknowledge
pub mod Workflow
pub mod Calls
