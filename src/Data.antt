-- ===== src/Data.antt =====
-- Generic data structures: byte strings, Go maps, sorting, and the last occurrence of each key.
pub mod Bytes
pub mod Dict
pub mod LastWins
pub mod Slots
pub mod Sort
pub mod Ordered
