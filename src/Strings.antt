-- ===== src/Strings.antt =====
-- Strings (backend/runtime/String.c).
pub mod Ops
pub mod Holds
pub mod Iterate
pub mod Compare
