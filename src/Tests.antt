-- ===== src/Tests.antt =====
-- Runs on concrete values and vectors.
mod Values
mod Vectors
mod Maps
mod Cells
mod Sequences
mod Threads
mod Counting
mod Hashing
mod Binding
mod Calling
mod Tables
mod Texts
mod Interning
