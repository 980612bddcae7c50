-- ===== src/BlockStore/Store/Refine.antt =====
-- The store as an abstract map of blocks (ciphera/pkg/block-store/src/lib.rs).
use zerosats.Prelude.{
  ℕ, ◌^◌, ◌<◌, ◌≡◌, refl, sym, ap, ◌∙◌, Bool, true, false, Option, none, some, max, ◌==◌,
  if◌then◌else◌, arith,
}
use zerosats.Prelude.Bytes.{Bytes, be_bytes, bytes_eq, length-be_bytes, from_be_bytes-be_bytes}
use zerosats.Prelude.Maps
use zerosats.Prelude.Maps.{Map, get-insert}
use zerosats.BlockStore.Types.{Outcome, ok, ok_injective}
use zerosats.BlockStore.Store.{
  Backend, Block, get, get_max_height, get_block_height_by_hash, set, read_word, decode_option,
  is_new_top,
}
use zerosats.BlockStore.Store.Batch.{
  IsWritten, set-IsWritten, get_block-written, get_max_height-written, get_hash-written,
}

-- Blocks by height, heights by hash, and the greatest height
pub record Chain (B : Type 0) : Type 0 where
  pub blocks : Map B
  pub heights : Bytes → Option ℕ
  pub top : Option ℕ

abbrev pub raise : Option ℕ → ℕ → Option ℕ
raise none h = some h
raise (some old) h = some (max old h)

-- What it means to set a block
abbrev pub put_block : {B T : Type 0} → Block B T → B → Chain B → Chain B
put_block ops b a = record {
  blocks = Maps.insert (ops.block_height b) b a.blocks;
  heights = λ hash.
      if bytes_eq hash (ops.block_hash b) then some (ops.block_height b) else a.heights hash;
  top = raise a.top (ops.block_height b);
}

pub read_word-be_bytes : (n h : ℕ) → h < 256 ^ n → read_word n (be_bytes n h) ≡ ok h
read_word-be_bytes n h lt = ground (arith, length-be_bytes n h, from_be_bytes-be_bytes n h lt)

-- A read behind a conditional write
decode_if {ℓ} :
    {A : Type ℓ} (f : Bytes → Outcome A) (t : Bool) (bytes : Bytes) (v : A) (old : Option Bytes)
    (o : Option A)
    → f bytes ≡ ok v
    → decode_option f old ≡ ok o
    → decode_option f (if t then some bytes else old) ≡ ok (if t then some v else o)
decode_if f true bytes v old o h g = cc
decode_if f false bytes v old o h g = g

raise_lem : (top : Option ℕ) (h : ℕ) → (if is_new_top top h then some h else top) ≡ raise top h
raise_lem none h = refl
raise_lem (some old) h = ground arith

module _ {B T : Type 0} (s : Backend B T) where
  open s use {rocks, ops, blocks}

  -- The reads of a store answer what the map holds.
  pub record Refines (db : rocks.Db) (a : Chain B) : Type 0 where
    pub by_height : (h : ℕ) → h < 256 ^ 8 → get s h db ≡ ok (Maps.get h a.blocks)
    pub by_hash : (hash : Bytes) → get_block_height_by_hash s hash db ≡ ok (a.heights hash)
    pub greatest : get_max_height s db ≡ ok a.top

  module _ (b : B) (db db' : rocks.Db) (a : Chain B) (w : IsWritten s b db db')
      (lt : ops.block_height b < 256 ^ 8) (r : Refines db a) where
    by_height-set : (h : ℕ) → h < 256 ^ 8 → get s h db' ≡ ok (Maps.get h (put_block ops b a).blocks)
    unfolding get
    by_height-set h hlt =
        ap (decode_option blocks.from_bytes) (get_block-written s b db db' w h hlt lt)
        ∙ decode_if blocks.from_bytes (h == ops.block_height b) w.bytes b _ (Maps.get h a.blocks)
            (blocks.from_bytes_to_bytes b w.bytes w.encoded) (unfold get in r.by_height h hlt)
        ∙ ap ok (sym (get-insert h (ops.block_height b) b a.blocks))

    by_hash-set :
        (hash : Bytes) → get_block_height_by_hash s hash db' ≡ ok ((put_block ops b a).heights hash)
    unfolding get_block_height_by_hash
    by_hash-set hash =
        ap (decode_option (read_word 8)) (get_hash-written s b db db' w hash)
        ∙ decode_if (read_word 8) (bytes_eq hash (ops.block_hash b))
            (be_bytes 8 (ops.block_height b)) (ops.block_height b) _ (a.heights hash)
            (read_word-be_bytes 8 (ops.block_height b) lt) (r.by_hash hash)

    greatest-set : get_max_height s db' ≡ ok (put_block ops b a).top
    greatest-set =
        let same : w.top ≡ a.top = ok_injective (sym w.read ∙ r.greatest) in
        unfold get_max_height in
        (ap (decode_option (read_word 8)) (get_max_height-written s b db db' w)
          ∙ decode_if (read_word 8) (is_new_top w.top (ops.block_height b))
              (be_bytes 8 (ops.block_height b)) (ops.block_height b) _ w.top
              (read_word-be_bytes 8 (ops.block_height b) lt) w.read
          ∙ ap ok (raise_lem w.top (ops.block_height b))
          ∙ ap (λ top. ok (raise top (ops.block_height b))) same)

  -- Setting a block in the store is setting it in the map: where the height is a `u64` and `set`
  -- comes back, reads by height and by hash and of the greatest height answer as before, changed
  -- for this block.
  pub set-Refines :
      (b : B) (db db' : rocks.Db) (a : Chain B)
      → ops.block_height b < 256 ^ 8
      → Refines db a
      → set s b db ≡ ok db'
      → Refines db' (put_block ops b a)
  set-Refines b db db' a lt r h =
      let w = set-IsWritten s b db h in
      record {
        by_height = by_height-set b db db' a w lt r;
        by_hash = by_hash-set b db db' a w lt r;
        greatest = greatest-set b db db' a w lt r;
      }
