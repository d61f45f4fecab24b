-- ===== src/Keywords.antt =====
-- Keywords (backend/runtime/Keyword.c).
pub mod Ops
pub mod Again
