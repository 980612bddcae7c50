-- ===== src/BlockStore/Store/Total.antt =====
-- Where the values can be encoded, blocks can be set one after the other
-- (ciphera/pkg/block-store/src/lib.rs).
use zerosats.Prelude.{ℕ, ◌^◌, ◌<◌, ◌≡◌, refl, Option, none, some, List, [], ◌∷◌, All}
use zerosats.Prelude.Bytes.{Bytes}
use zerosats.BlockStore.Types.{Outcome, ok, ◌>>=◌, Returns, >>=-Returns}
use zerosats.BlockStore.Keys.{ElementHistoryKind, KeyNonEmptyBlock, input, output}
use zerosats.BlockStore.Rocks.{Codec}
use zerosats.BlockStore.Store.{
  Backend, ElementHistoryValue, MintHashValue, get_max_height, txn_entries, keyed_entry, from_block,
  element_entries, mint_entry, history_entries, set,
}
use zerosats.BlockStore.Store.Refine.{Chain, put_block, Refines, set-Refines}

-- The codec encodes the value.
abbrev pub Encodes : {V : Type 0} → Codec V → V → Type 0
Encodes c v = Returns (c.to_bytes v)

module _ {B T : Type 0} (s : Backend B T) where
  open s use {rocks, ops, txn_ops, blocks, transactions, histories, mints}

  -- The block and its transactions can be encoded, and so can every value of the indexes.
  pub record IsEncodable (b : B) : Type 0 where
    pub block : Encodes blocks b
    pub txns : All (Encodes transactions) (ops.txns b)
    pub history : (v : ElementHistoryValue) → Encodes histories v
    pub mint : (v : MintHashValue) → Encodes mints v

  pub txn_entries-Returns :
      (ts : List T) → All (Encodes transactions) ts → Returns (txn_entries s ts)
  unfolding txn_entries
  txn_entries-Returns [] a = ([], refl)
  txn_entries-Returns (t ∷ ts) (e, a) =
      >>=-Returns _ _ e λ bytes. >>=-Returns _ _ (txn_entries-Returns ts a) λ es. (_, refl)

  pub keyed_entry-Returns :
      (b : B) (key : Option KeyNonEmptyBlock) → Encodes blocks b → Returns (keyed_entry s b key)
  keyed_entry-Returns b none e = ([], refl)
  keyed_entry-Returns b (some key) e = >>=-Returns _ _ e λ bytes. (_, refl)

  module _ (b : B) (i : IsEncodable b) (hash : Bytes) (h : ℕ) where
    element_entries-Returns :
        (k : ElementHistoryKind) (xs : List ℕ) → Returns (element_entries s hash h k xs)
    unfolding element_entries
    element_entries-Returns k [] = ([], refl)
    element_entries-Returns k (x ∷ xs) =
        >>=-Returns _ _ (i.history _)
          λ bytes. >>=-Returns _ _ (element_entries-Returns k xs) λ es. (_, refl)

    mint_entry-Returns : (m : Option ℕ) → Returns (mint_entry s hash h m)
    mint_entry-Returns none = ([], refl)
    mint_entry-Returns (some m) = >>=-Returns _ _ (i.mint _) λ bytes. (_, refl)

    history_entries-Returns : (ts : List T) → Returns (history_entries s hash h ts)
    unfolding history_entries
    history_entries-Returns [] = ([], refl)
    history_entries-Returns (t ∷ ts) =
        >>=-Returns _ _ (element_entries-Returns input (txn_ops.input_elements t)) λ x.
          >>=-Returns _ _ (element_entries-Returns output (txn_ops.output_elements t)) λ y.
            >>=-Returns _ _ (mint_entry-Returns (txn_ops.mint_hash_of t))
              λ m. >>=-Returns _ _ (history_entries-Returns ts) λ r. (_, refl)

  set-Returns :
      (b : B) (db : rocks.Db) → IsEncodable b → Returns (get_max_height s db) → Returns (set s b db)
  unfolding set
  set-Returns b db i top = >>=-Returns _ _ i.block λ bytes. >>=-Returns _ _ top λ t.
      >>=-Returns _ _ (txn_entries-Returns (ops.txns b) i.txns) λ ts.
        >>=-Returns _ _ (keyed_entry-Returns b (from_block ops b) i.block) λ full.
          >>=-Returns _ _
            (history_entries-Returns b i (ops.block_hash b) (ops.block_height b) (ops.txns b))
            λ r. (_, refl)

  -- Blocks that are set one after the other
  unfoldable pub set_each : List B → rocks.Db → Outcome rocks.Db
  set_each [] db = ok db
  set_each (b ∷ bs) db = do db' ← set s b db; set_each bs db'

  abbrev pub put_each : List B → Chain B → Chain B
  put_each [] a = a
  put_each (b ∷ bs) a = put_each bs (put_block ops b a)

  -- Where all blocks can be encoded and their heights are `u64`s, setting them one after the other
  -- comes back, and ends in a store whose reads answer what the map holds after the same puts.
  pub set_each-Refines :
      (bs : List B) (db : rocks.Db) (a : Chain B)
      → All (λ b. IsEncodable b × (ops.block_height b < 256 ^ 8)) bs
      → Refines s db a
      → (db' : rocks.Db) × (set_each bs db ≡ ok db') × Refines s db' (put_each bs a)
  unfolding set_each
  set_each-Refines [] db a e r = (db, refl, r)
  set_each-Refines (b ∷ bs) db a ((i, lt), e) r =
      let (db', h) = set-Returns b db i (a.top, r.greatest) in
      let (last, g, q) =
        set_each-Refines bs db' (put_block ops b a) e (set-Refines s b db db' a lt r h) in
      (last, rw h g, q)
