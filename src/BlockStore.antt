-- ===== src/BlockStore.antt =====
-- The store of blocks on disk: ciphera/pkg/block-store/src.
pub mod Types
pub mod Keys
pub mod Rocks
pub mod Listing
pub mod Store
pub mod Chain
pub mod Migration
pub mod Demo
mod Examples
