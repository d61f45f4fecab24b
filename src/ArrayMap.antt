-- ===== src/ArrayMap.antt =====
-- Small maps (backend/runtime/PersistentArrayMap.c).
pub mod Ops
pub mod Lookup
pub mod Entries
pub mod Refine
pub mod Compare
