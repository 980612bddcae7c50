-- ===== src/BlockStore/Store.antt =====
-- Writing and reading blocks: ciphera/pkg/block-store/src/{lib,values}.rs.
-- A height is a `u64`, a hash is 32 bytes and an element a number below 2 ^ 256.
pub mod Batch
pub mod Refine
pub mod Total
pub mod Keyed
pub mod Stored
use zerosats.Prelude.{
  ℕ, ◌≡◌, ◌<◌, ◌^◌, Bool, true, false, Option, none, some, List, [], ◌∷◌, ◌++◌, ltb, ◌==◌, length,
  if◌then◌else◌,
}
use zerosats.Prelude.Bytes.{Bytes, be_bytes, from_be_bytes}
use zerosats.BlockStore.Types.{Outcome, ok, err, panic, ◌>>=◌}
use zerosats.BlockStore.Keys.{
  Key, KeyNonEmptyBlock, ElementHistoryKind, input, output, block, max_height, block_hash_to_height,
  pending_block, txn_by_hash, store_version, non_empty_block, element_history, mint_hash, serialize,
}
use zerosats.BlockStore.Rocks.{Entry, Rocks, Codec}

-- The trait `Transaction`
pub record Transaction (T : Type 0) : Type 0 where
  pub txn_hash : T → Bytes
  pub input_elements : T → List ℕ
  pub output_elements : T → List ℕ
  pub mint_hash_of : T → Option ℕ

-- The trait `Block`
pub record Block (B T : Type 0) : Type 0 where
  pub block_height : B → ℕ
  pub block_hash : B → Bytes
  pub txns : B → List T

pub record ElementHistoryData : Type 0 where
  pub block_hash : Bytes
  pub block_height : ℕ

pub data ElementHistoryValue : Type 0 where
  v1 : ElementHistoryData → ElementHistoryValue

pub record MintHashData : Type 0 where
  pub block_hash : Bytes
  pub block_height : ℕ

pub data MintHashValue : Type 0 where
  mint_v1 : MintHashData → MintHashValue

-- What a store is made over: the database, the two traits and the codecs of the values
pub record Backend (B T : Type 0) : Type 1 where
  pub rocks : Rocks
  pub ops : Block B T
  pub txn_ops : Transaction T
  pub blocks : Codec B
  pub transactions : Codec T
  pub histories : Codec ElementHistoryValue
  pub mints : Codec MintHashValue

-- `LATEST_VERSION`
abbrev pub latest_version : ℕ
latest_version = 1

-- `try_into().unwrap()` of the bytes of a word
abbrev pub read_word : ℕ → Bytes → Outcome ℕ
read_word n bytes = if length bytes == n then ok (from_be_bytes bytes) else panic

-- `transpose`, of what is read and decoded
abbrev pub decode_option {ℓ} :
    {A : Type ℓ} → (Bytes → Outcome A) → Option Bytes → Outcome (Option A)
decode_option f none = ok none
decode_option f (some bytes) = do a ← f bytes; ok (some a)

-- `KeyNonEmptyBlock::from_block`
abbrev pub from_block : {B T : Type 0} → Block B T → B → Option KeyNonEmptyBlock
from_block ops b = elim (ops.txns b) [
  | [] ↦ none
  | t ∷ ts ↦ some (record { block_height = ops.block_height b })
]

-- `max_height.is_none_or(|max_height| height > max_height)`
abbrev pub is_new_top : Option ℕ → ℕ → Bool
is_new_top none h = true
is_new_top (some old) h = ltb old h

module _ {B T : Type 0} (s : Backend B T) where
  open s use {rocks, ops, txn_ops, blocks, transactions, histories, mints}

  unfoldable pub get : ℕ → rocks.Db → Outcome (Option B)
  get h db =
      decode_option blocks.from_bytes
        (rocks.get (serialize (block (record { block_height = h }))) db)

  unfoldable pub get_max_height : rocks.Db → Outcome (Option ℕ)
  get_max_height db = decode_option (read_word 8) (rocks.get (serialize max_height) db)

  unfoldable pub get_block_height_by_hash : Bytes → rocks.Db → Outcome (Option ℕ)
  get_block_height_by_hash hash db =
      decode_option (read_word 8) (rocks.get (serialize (block_hash_to_height hash)) db)

  unfoldable pub get_pending_block : rocks.Db → Outcome (Option B)
  get_pending_block db = decode_option blocks.from_bytes (rocks.get (serialize pending_block) db)

  unfoldable pub get_txn_by_hash : Bytes → rocks.Db → Outcome (Option T)
  get_txn_by_hash hash db =
      decode_option transactions.from_bytes (rocks.get (serialize (txn_by_hash hash)) db)

  -- `store_version`; a store without a version is of version 0.
  unfoldable pub get_store_version : rocks.Db → Outcome ℕ
  get_store_version db = elim (rocks.get (serialize store_version) db) [
    | none ↦ ok 0
    | some version ↦ read_word 4 version
  ]

  unfoldable pub set_store_version : ℕ → rocks.Db → rocks.Db
  set_store_version version db = rocks.write ((serialize store_version, be_bytes 4 version) ∷ []) db

  -- `BlockStore::create`, on an empty database
  unfoldable pub create : rocks.Db → rocks.Db
  unfolding set_store_version
  create db = set_store_version latest_version db

  abbrev pub history_data : ElementHistoryValue → ElementHistoryData
  history_data (v1 d) = d

  unfoldable pub get_element_history_with_kind :
      ℕ → ElementHistoryKind → rocks.Db → Outcome (Option ElementHistoryData)
  get_element_history_with_kind e k db =
      decode_option (λ bytes. do value ← histories.from_bytes bytes; ok (history_data value))
        (rocks.get (serialize (element_history e k)) db)

  unfoldable pub get_element_history :
      ℕ → rocks.Db → Outcome (Option ElementHistoryData × Option ElementHistoryData)
  unfolding get_element_history_with_kind
  get_element_history e db = do
    inputs ← get_element_history_with_kind e input db
    outputs ← get_element_history_with_kind e output db
    ok (inputs, outputs)

  abbrev pub mint_data : MintHashValue → MintHashData
  mint_data (mint_v1 d) = d

  unfoldable pub get_mint_hash : ℕ → rocks.Db → Outcome (Option MintHashData)
  get_mint_hash e db =
      decode_option (λ bytes. do value ← mints.from_bytes bytes; ok (mint_data value))
        (rocks.get (serialize (mint_hash e)) db)

  -- The puts of `txn_entries`
  unfoldable pub txn_entries : List T → Outcome (List Entry)
  txn_entries [] = ok []
  txn_entries (t ∷ ts) = do
    bytes ← transactions.to_bytes t
    rest ← txn_entries ts
    ok ((serialize (txn_by_hash (txn_ops.txn_hash t)), bytes) ∷ rest)

  -- The put under `MaxHeight`
  abbrev pub max_entry : Option ℕ → ℕ → List Entry
  max_entry top h = if is_new_top top h then (serialize max_height, be_bytes 8 h) ∷ [] else []

  -- The put of a block under its second key, where it has transactions
  abbrev pub keyed_entry : B → Option KeyNonEmptyBlock → Outcome (List Entry)
  keyed_entry b none = ok []
  keyed_entry b (some key) = do
    bytes ← blocks.to_bytes b
    ok ((serialize (non_empty_block key), bytes) ∷ [])

  abbrev pub non_empty_entry : B → Outcome (List Entry)
  non_empty_entry b = keyed_entry b (from_block ops b)

  module _ (hash : Bytes) (h : ℕ) where
    unfoldable pub element_entries : ElementHistoryKind → List ℕ → Outcome (List Entry)
    element_entries k [] = ok []
    element_entries k (e ∷ es) = do
      bytes ← histories.to_bytes (v1 (record { block_hash = hash; block_height = h }))
      rest ← element_entries k es
      ok ((serialize (element_history e k), bytes) ∷ rest)

    abbrev pub mint_entry : Option ℕ → Outcome (List Entry)
    mint_entry none = ok []
    mint_entry (some e) = do
      bytes ← mints.to_bytes (mint_v1 (record { block_hash = hash; block_height = h }))
      ok ((serialize (mint_hash e), bytes) ∷ [])

    -- The last loop of `set`
    unfoldable pub history_entries : List T → Outcome (List Entry)
    history_entries [] = ok []
    history_entries (t ∷ ts) = do
      inputs ← element_entries input (txn_ops.input_elements t)
      outputs ← element_entries output (txn_ops.output_elements t)
      mint ← mint_entry (txn_ops.mint_hash_of t)
      rest ← history_entries ts
      ok (inputs ++ (outputs ++ (mint ++ rest)))

  unfoldable pub set : B → rocks.Db → Outcome rocks.Db
  set b db =
      let h = ops.block_height b in
      let hash = ops.block_hash b in
      do
        bytes ← blocks.to_bytes b
        top ← get_max_height db
        txns ← txn_entries (ops.txns b)
        full ← non_empty_entry b
        history ← history_entries hash h (ops.txns b)
        ok (
            rocks.write
              ((serialize (block (record { block_height = h })), bytes)
                ∷ (max_entry top h
                    ++ ((serialize (block_hash_to_height hash), be_bytes 8 h)
                        ∷ (txns ++ (full ++ history)))))
              db)
