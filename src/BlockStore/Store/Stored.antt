-- ===== src/BlockStore/Store/Stored.antt =====
-- The keys and the rows of a store that `set` has built (ciphera/pkg/block-store/src/lib.rs).
use zerosats.Prelude.{
  ℕ, ◌^◌, ◌<◌, ◌≡◌, refl, sym, ap, ◌∙◌, Bool, true, false, Option, some, List, [], ◌∷◌, ◌++◌, All,
  length, if◌then◌else◌, arith, inl, inr, Bool-cases,
}
use zerosats.Prelude.Bytes.{Bytes, be_bytes, bytes_eq, bytes_eq_iff}
use zerosats.BlockStore.Types.{ok}
use zerosats.BlockStore.Keys.{
  Key, KeyNonEmptyBlock, block, max_height, block_hash_to_height, serialize, IsKey,
}
use zerosats.BlockStore.Rocks.{Entry, last_put}
use zerosats.BlockStore.Store.{Backend, Block, Transaction, max_entry, is_new_top, from_block, set}
use zerosats.BlockStore.Store.Batch.{set-IsWritten, front}
use zerosats.BlockStore.Store.Keyed.{HasKey, TxnKeys, All-append, index-HasKey}

-- The values of a block that stand in keys have the widths of their types.
pub record HasWidths {B T : Type 0} (ops : Block B T) (txn_ops : Transaction T) (b : B)
    : Type 0 where
  pub height : ops.block_height b < 256 ^ 8
  pub hash : length (ops.block_hash b) ≡ 32
  pub txns : All (TxnKeys txn_ops IsKey) (ops.txns b)

last_put-HasKey :
    (P : Key → Type 0) (k v : Bytes) (es : List Entry) (old : Option Bytes)
    → All (HasKey P) es
    → ((u : Bytes) → old ≡ some u → HasKey P (k, u))
    → last_put k es old ≡ some v
    → HasKey P (k, v)
last_put-HasKey P k v [] old a keep h = keep v h
last_put-HasKey P k v ((j, u) ∷ es) old ((key, p, e), a) keep h =
    last_put-HasKey P k v es (if bytes_eq k j then some u else old) a there h
  where
    there : (x : Bytes) → (if bytes_eq k j then some u else old) ≡ some x → HasKey P (k, x)
    there x g = elim (Bool-cases (bytes_eq k j)) [
      | inl y ↦ (key, p, (bytes_eq_iff k j).0 y ∙ e)
      | inr n ↦ keep x (rw n at g)
    ]

module _ {B T : Type 0} (s : Backend B T) where
  open s use {rocks, ops, txn_ops, blocks}

  -- Every key of the store is the key of a value with the widths of its type.
  abbrev pub IsKeyed : rocks.Db → Type 0
  IsKeyed db = (k v : Bytes) → rocks.get k db ≡ some v → HasKey IsKey (k, v)

  from_block_height :
      (b : B) (k : KeyNonEmptyBlock)
      → from_block ops b ≡ some k
      → k.block_height ≡ ops.block_height b
  from_block_height b k h = ground arith

  front-HasKey :
      (b : B) (bytes : Bytes) (top : Option ℕ)
      → HasWidths ops txn_ops b
      → All (HasKey IsKey) (front s b bytes top)
  front-HasKey b bytes top h = (
    (block (record { block_height = ops.block_height b }), h.height, refl),
    All-append (HasKey IsKey) (max_entry s top (ops.block_height b)) (_ ∷ [])
        (top_part (is_new_top top (ops.block_height b)))
        ((block_hash_to_height (ops.block_hash b), h.hash, refl), tt),
  )
    where
      top_part :
          (t : Bool)
          → All
              (HasKey IsKey)
              (if t then (serialize max_height, be_bytes 8 (ops.block_height b)) ∷ [] else [])
      top_part true = ((max_height, tt, refl), tt)
      top_part false = tt

  pub set-IsKeyed :
      (b : B) (db db' : rocks.Db)
      → HasWidths ops txn_ops b
      → IsKeyed db
      → set s b db ≡ ok db'
      → IsKeyed db'
  set-IsKeyed b db db' h keyed e k v g =
      let w = set-IsWritten s b db e in
      last_put-HasKey IsKey k v (front s b w.bytes w.top ++ (w.txns ++ (w.full ++ w.history)))
        (rocks.get k db)
        (All-append (HasKey IsKey) (front s b w.bytes w.top) (w.txns ++ (w.full ++ w.history))
          (front-HasKey b w.bytes w.top h)
          (index-HasKey s IsKey b w.txns w.full w.history h.txns
            (λ key f. rw (from_block_height b key f) h.height) w.txns_lem w.full_lem w.history_lem))
        (λ u. keyed k u) (sym (ap (rocks.get k) w.written ∙ rocks.get_write k _ db) ∙ g)
