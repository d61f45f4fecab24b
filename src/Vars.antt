-- ===== src/Vars.antt =====
-- Variables and the contexts that bind them (backend/runtime/Var.c, ExecutionContext.c).
pub mod Ops
pub mod Bindings
pub mod Maps
