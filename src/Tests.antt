-- ===== src/Tests.antt =====
-- Runs at concrete inputs, and the theorems at inputs that meet their hypotheses.
mod Samples
mod Analyze
mod Run
mod Shells
mod Service
mod Acknowledge
mod Workflow
mod Live
mod Worktree
mod Activate
mod Build
mod History
mod Registry
