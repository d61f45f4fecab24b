-- ===== src/Functions.antt =====
-- Functions and the choice of a method by the number of arguments (backend/runtime/Function.c).
pub mod Ops
pub mod Choice
pub mod Arguments
