-- ===== src/Hash.antt =====
-- Hashes (backend/runtime/Hash.h).
pub mod Digits
pub mod Mix
pub mod Dispatch
