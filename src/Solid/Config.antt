-- ===== src/Solid/Config.antt =====
-- The accept thresholds of ciphera/pkg/solid/src/config.rs. The counts are lengths of vectors,
-- which are far below 2 ^ 64; only the subtraction can wrap, at no peers.
pub mod Quorum
mod Examples
use zerosats.Prelude.{ℕ, ◌+◌, ◌-◌, ◌*◌, ◌/◌, ◌%◌, ◌^◌, Bool, ltb, leb, ◌==◌}

pub data AcceptThreshold : Type 0 where
  more_than_two_thirds majority : AcceptThreshold

unfoldable pub threshold : AcceptThreshold → ℕ → ℕ
threshold AcceptThreshold.more_than_two_thirds peers = peers * 2 / 3 + 1
threshold AcceptThreshold.majority peers = peers / 2 + 1

-- `usize` subtraction
abbrev pub sub64 : ℕ → ℕ → ℕ
sub64 a b = (a + 2 ^ 64 - b) % 2 ^ 64

unfoldable pub is_exact_breach : AcceptThreshold → ℕ → ℕ → Bool
unfolding threshold
is_exact_breach t accepts peers = threshold t peers == accepts

unfoldable pub inverse_exceeded : AcceptThreshold → ℕ → ℕ → Bool
unfolding threshold
inverse_exceeded t accepts peers = ltb (sub64 peers (threshold t peers)) accepts

unfoldable pub is_exceeded : AcceptThreshold → ℕ → ℕ → Bool
unfolding threshold
is_exceeded t accepts peers = leb (threshold t peers) accepts
