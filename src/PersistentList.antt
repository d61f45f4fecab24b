-- ===== src/PersistentList.antt =====
-- Linked lists (backend/runtime/PersistentList.c).
pub mod Ops
pub mod Holds
pub mod Reverse
