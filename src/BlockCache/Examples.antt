-- ===== src/BlockCache/Examples.antt =====
-- The block cache at concrete inputs (node/src/cache.rs).
use zerosats.Prelude.{
  ℕ, ◌+◌, ◌≤◌, ◌<◌, ◌≡◌, refl, true, none, some, [], ◌∷◌, ◌==◌, if◌then◌else◌, arith,
}
use zerosats.BlockCache.{
  BlockOps, BlockCache, last_entry, get_by_height, insert_block, place_block, remove_block,
  is_out_of_sync, new,
}
use zerosats.BlockCache.Valid.{IsValid, NoCollision, insert_block-IsValid}
use zerosats.BlockCache.Valid.Lookup.{insert_block-get_by_height}

-- A block is its height.
abbrev ops : BlockOps ℕ
ops = record { hash = λ b. b + 100; block_height = λ b. b }

ops-NoCollision : NoCollision ops
ops-NoCollision a b e = omega arith

abbrev empty : BlockCache ℕ
empty = record {
  height = 3;
  max_height = 3;
  blocks = [];
  block_hash_heights = [];
  max_cache_size = 2;
}

empty-IsValid : IsValid ops empty
empty-IsValid = record { ordered = tt; once = tt; indexed = λ h k e. absurd (cc) }

-- The blocks 3 and 6
abbrev two_blocks : BlockCache ℕ
two_blocks = record {
  height = 3;
  max_height = 6;
  blocks = (103, 3) ∷ (106, 6) ∷ [];
  block_hash_heights = (3, 103) ∷ (6, 106) ∷ [];
  max_cache_size = 2;
}

built : insert_block ops 6 (new ops 3 2) ≡ two_blocks
unfolding insert_block new place_block
built = refl

two_blocks-IsValid : IsValid ops two_blocks
unfolding new
two_blocks-IsValid = rw built at (
    insert_block-IsValid ops ops-NoCollision 6 (new ops 3 2)
      ((insert_block-IsValid ops ops-NoCollision 3 empty empty-IsValid)))

insert_block-get_by_height_example :
    (2 < 2
      → get_by_height (insert_block ops 5 two_blocks) 6
        ≡ (if 6 == 5 then some 5 else get_by_height two_blocks 6))
    × ((last k : ℕ)
        → 2 ≤ 2
        → last_entry two_blocks.block_hash_heights ≡ some (last, k)
        → 5 ≤ last
        → get_by_height (insert_block ops 5 two_blocks) 6
          ≡ (if 6 == 5 then some 5 else if 6 == last then none else get_by_height two_blocks 6))
insert_block-get_by_height_example =
    insert_block-get_by_height ops 5 two_blocks 6 ops-NoCollision two_blocks-IsValid (omega arith)

evicts : get_by_height (insert_block ops 5 two_blocks) 6 ≡ none
unfolding get_by_height insert_block place_block remove_block
evicts = refl

out_of_sync_test : is_out_of_sync two_blocks ≡ some true
unfolding is_out_of_sync
out_of_sync_test = refl
