-- ===== src/Live.antt =====
-- Shell-neutral live state: core/model/worktree.go.
pub mod Types
pub mod Errors
pub mod Validate
pub mod Values
pub mod Normalize
pub mod Observed
pub mod Snapshot
