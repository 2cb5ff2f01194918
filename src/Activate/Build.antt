-- ===== src/Activate/Build.antt =====
-- Build and BuildEffective: core/activate/builder.go.
pub mod Lists
pub mod Legacy
pub mod Entries
pub mod Invariant
pub mod Accepted
pub mod Projection
pub mod Effective
pub mod Held
pub mod Offered
pub mod Projected
pub mod Order
