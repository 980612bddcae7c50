-- ===== src/Solid.antt =====
-- The consensus library: ciphera/pkg/solid/src.
pub mod Config
pub mod Types
pub mod Leader
pub mod Proposal
pub mod Cache
pub mod Core
mod Demo
