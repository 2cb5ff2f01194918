-- ===== src/Model.antt =====
-- The shared data of core/model that profiles and manifests are made of.
pub mod Profile
pub mod Block
pub mod Manifest
