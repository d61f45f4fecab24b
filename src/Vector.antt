-- ===== src/Vector.antt =====
-- The persistent vector of backend/runtime: a trie of 32-way nodes and a tail (PersistentVector.c,
-- PersistentVectorNode.c), its iterators and sequences.
pub mod Node
pub mod Radix
pub mod Shape
pub mod Walk
pub mod Replace
pub mod Push
pub mod Pop
pub mod Ops
pub mod Valid
pub mod Refine
pub mod Update
pub mod Shrink
pub mod Access
pub mod Keys
pub mod Transient
pub mod Fold
pub mod Sharing
pub mod Aliasing
pub mod ReverseSeq
pub mod Chunk
pub mod Iterator
pub mod Blocks
pub mod Visit
