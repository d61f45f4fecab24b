-- ===== src/Counts.antt =====
-- The reference count of an object (backend/runtime/Object.h).
pub mod System
pub mod Keep
pub mod Preserve
pub mod Safety
