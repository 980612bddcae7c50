-- ===== src/BlockCache/Sync.antt =====
-- When the node holds all blocks up to the highest one that it has seen (node/src/cache.rs).
use zerosats.Prelude.{
  ℕ, zero, suc, ◌+◌, ◌-◌, ◌≤◌, ◌<◌, ◌≡◌, refl, ◌↔◌, true, false, some, arith, inl, inr, ℕ_discrete,
  Option-cases,
}
use zerosats.Prelude.Maps.{Map, contains_key}
use zerosats.BlockCache.{BlockCache, last_entry, has_gap, is_out_of_sync}

has_gap_sound :
    (count start : ℕ) (m : Map ℕ)
    → has_gap count start m ≡ false
    → (j : ℕ) → start ≤ j
    → j < start + count
    → contains_key j m ≡ true
has_gap_sound zero start m h j lo hi = absurd (omega arith)
has_gap_sound (suc count) start m h j lo hi = elim (ℕ_discrete j start) [
  | yes same ↦ ground arith
  | no other ↦ has_gap_sound count (suc start) m (ground arith) j (omega arith) (omega arith)
]

has_gap_complete :
    (count start : ℕ) (m : Map ℕ)
    → ((j : ℕ) → start ≤ j → j < start + count → contains_key j m ≡ true)
    → has_gap count start m ≡ false
has_gap_complete zero start m h = refl
has_gap_complete (suc count) start m h = ground (
  arith,
  h start (omega arith) (omega arith),
  has_gap_complete count (suc start) m (λ j lo hi. h j (omega arith) (omega arith)),
)

module _ {B : Type 0} where
  -- The node is in sync exactly when it holds a block at the highest height that it has seen, or
  -- above it, and one at each height from the one after the confirmed height to that height.
  pub is_out_of_sync_iff :
      (c : BlockCache B)
      → (is_out_of_sync c ≡ some false) ↔ (
          ((last k : ℕ) × (last_entry c.block_hash_heights ≡ some (last, k))
            × (c.max_height ≤ last))
          × ((j : ℕ)
              → c.height < j
              → j ≤ c.max_height
              → contains_key j c.block_hash_heights ≡ true))
  unfolding is_out_of_sync
  is_out_of_sync_iff c = elim (Option-cases (last_entry c.block_hash_heights)) [
    | inl e ↦ (λ h. absurd (ground arith), λ h. absurd (ground arith))
    | inr ((last, k), e) ↦ (
      λ h. (
        (last, k, e, ground arith),
        λ j lo hi.
            has_gap_sound (c.max_height - c.height) (suc c.height) c.block_hash_heights
              (ground arith) j (omega arith) (omega arith),
      ),
      λ h. ground (
        arith,
        has_gap_complete (c.max_height - c.height) (suc c.height) c.block_hash_heights
            (λ j lo hi. h.1 j (omega arith) (omega arith)),
      ),
    )
  ]
