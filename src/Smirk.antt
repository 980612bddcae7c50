-- ===== src/Smirk.antt =====
-- The sparse Merkle tree: ciphera/pkg/smirk/src.
pub mod Batch
pub mod Collisions
pub mod Node
pub mod Tree
pub mod Path
