-- ===== src/Worktree.antt =====
-- Shared-worktree policy and transforms: core/worktree.
pub mod Order
pub mod Diff
pub mod Apply
pub mod Overlay
pub mod History
pub mod Transition
pub mod Registry
pub mod State
pub mod Service
