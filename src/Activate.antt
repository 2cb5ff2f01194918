-- ===== src/Activate.antt =====
-- Activation planning: core/activate.
pub mod Plan
pub mod Patch
pub mod Manifest
pub mod Build
