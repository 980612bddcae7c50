-- ===== src/BlockCache.antt =====
-- The blocks that the node keeps in memory: ciphera/pkg/node/src/cache.rs.
-- `B` is the type of blocks, of which the cache reads the hash and the height. `none` is a panic of
-- `unwrap`.
pub mod Valid
pub mod Sync
mod Examples
use zerosats.Prelude.{
  ℕ, zero, suc, ◌-◌, Bool, true, false, ◌&&◌, Option, none, some, List, [], ◌∷◌, leb, ltb, add64,
  if◌then◌else◌, length,
}
use zerosats.Prelude.Maps.{Map, get, contains_key, insert, remove}
use zerosats.Prelude.Ordered.{put}

-- `block.content.hash()`, `block.content.header.height`
pub record BlockOps (B : Type 0) : Type 0 where
  pub hash : B → ℕ
  pub block_height : B → ℕ

pub record BlockCache (B : Type 0) : Type 0 where
  pub height : ℕ
  pub max_height : ℕ
  pub blocks : Map B
  pub block_hash_heights : Map ℕ
  pub max_cache_size : ℕ

-- `iter().last()`
abbrev pub last_entry {ℓ} : {V : Type ℓ} → Map V → Option (ℕ × V)
last_entry [] = none
last_entry (e ∷ []) = some e
last_entry (e ∷ f ∷ m) = last_entry (f ∷ m)

-- `unwrap_or((BlockHeight(0), CryptoHash::default()))`
abbrev pub or_default : Option (ℕ × ℕ) → ℕ × ℕ
or_default none = (0, 0)
or_default (some e) = e

-- The keys of `range(..height)`
abbrev pub keys_below : ℕ → Map ℕ → List ℕ
keys_below h [] = []
keys_below h ((k, v) ∷ m) = let rest = keys_below h m in if ltb k h then k ∷ rest else rest

-- The loop over the heights of a range; true where one is missing.
abbrev pub has_gap : (count start : ℕ) → Map ℕ → Bool
has_gap zero start m = false
has_gap (suc count) start m =
    let rest = has_gap count (suc start) m in if contains_key start m then rest else true

module _ {B : Type 0} where
  pub get_by_height : BlockCache B → ℕ → Option B
  get_by_height c h = elim (get h c.block_hash_heights) [ none ↦ none | some k ↦ get k c.blocks ]

  -- The blocks of `range(start..end)`
  pub range_blocks : ℕ → ℕ → Map B → Map ℕ → List B
  range_blocks start end blocks [] = []
  range_blocks start end blocks ((h, k) ∷ m) =
      let rest = range_blocks start end blocks m in
      if leb start h && ltb h end
      then elim (get k blocks) [ none ↦ rest | some b ↦ b ∷ rest ]
      else rest

  pub get_range : BlockCache B → ℕ → ℕ → List B
  get_range c start end = range_blocks start end c.blocks c.block_hash_heights

  -- The loop of `confirm` over the heights to remove.
  pub remove_heights : List ℕ → BlockCache B → BlockCache B
  remove_heights [] c = c
  remove_heights (h ∷ hs) c = elim (get h c.block_hash_heights) [
    | none ↦ remove_heights hs c
    | some k ↦ remove_heights hs (record c {
      block_hash_heights = remove h c.block_hash_heights;
      blocks = remove k c.blocks;
    })
  ]

  pub confirm : ℕ → BlockCache B → BlockCache B
  confirm h c = remove_heights (keys_below h c.block_hash_heights) (record c { height = h })

  pub is_out_of_sync : BlockCache B → Option Bool
  is_out_of_sync c = elim (last_entry c.block_hash_heights) [
    | none ↦ none
    | some (last, _) ↦
        if ltb last c.max_height
        then some true
        else some (has_gap (c.max_height - c.height) (suc c.height) c.block_hash_heights)
  ]

  pub get_next_commit_block : BlockCache B → Option B
  get_next_commit_block c = get_by_height c (add64 c.height 1)

module _ {B : Type 0} (ops : BlockOps B) where
  -- `remove` of the cache
  pub remove_block : ℕ → BlockCache B → BlockCache B
  remove_block k c = elim (get k c.blocks) [
    | none ↦ c
    | some b ↦ record c {
      blocks = remove k c.blocks;
      block_hash_heights = remove (ops.block_height b) c.block_hash_heights;
    }
  ]

  -- The end of `insert`
  pub place_block : B → BlockCache B → BlockCache B
  place_block b c = record c {
    block_hash_heights = put (ops.block_height b) (ops.hash b) c.block_hash_heights;
    blocks = insert (ops.hash b) b c.blocks;
  }

  -- `insert` of the cache
  pub insert_block : B → BlockCache B → BlockCache B
  insert_block b c =
      let h = ops.block_height b in
      let c1 : BlockCache B = record c {
        max_height = if ltb c.max_height h then h else c.max_height;
      } in
      let (max_height, max_hash) = or_default (last_entry c.block_hash_heights) in
      let full = leb c.max_cache_size (length c.blocks) in
      if ltb h c.height
      then c
      else if full && ltb max_height h
      then c1
      else place_block b (if full then remove_block max_hash c1 else c1)

  pub new : B → ℕ → BlockCache B
  new start_block max_cache_size = insert_block start_block (record {
    height = ops.block_height start_block;
    max_height = ops.block_height start_block;
    blocks = [];
    block_hash_heights = [];
    max_cache_size = max_cache_size;
  })
