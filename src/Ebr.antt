-- ===== src/Ebr.antt =====
-- Epoch-based reclamation (backend/runtime/Ebr.c).
pub mod System
pub mod Frame
pub mod Turn
pub mod Shared
pub mod Moves
pub mod Safety
pub mod Run
pub mod Progress
pub mod Force
pub mod Readers
