-- ===== src/ConcurrentMap.antt =====
-- The concurrent hash map of backend/runtime/ConcurrentHashMap.c, with leapfrog probing.
pub mod Ops
pub mod Slots
pub mod Links
pub mod Stores
pub mod Search
pub mod Turn
pub mod Follow
pub mod Valid
pub mod Chains
pub mod Insert
pub mod Writes
pub mod Read
pub mod Values
pub mod Refine
pub mod Put
pub mod Remove
pub mod Ends
pub mod Fresh
