-- ===== src/BlockStore/Migration/Indexed.antt =====
-- What the migration of a block leaves in the store (ciphera/pkg/block-store/src/migration.rs).
use zerosats.Prelude.{
  ◌≡◌, refl, ap, subst, ◌∙◌, true, false, Option, none, some, List, [], ◌∷◌, ◌++◌, All,
  if◌then◌else◌,
}
use zerosats.Prelude.Bytes.{Bytes, bytes_eq, bytes_eq_refl}
use zerosats.BlockStore.Types.{ok, >>=-eq-ok, ok_injective}
use zerosats.BlockStore.Keys.{KeyNonEmptyBlock, txn_by_hash, non_empty_block, serialize}
use zerosats.BlockStore.Rocks.{Entry, last_put}
use zerosats.BlockStore.Store.{Backend, txn_entries, keyed_entry, from_block}
use zerosats.BlockStore.Store.Total.{Encodes, txn_entries-Returns, keyed_entry-Returns}
use zerosats.BlockStore.Migration.{migrate_block}

last_put-some : (k v : Bytes) (es : List Entry) → (u : Bytes) × (last_put k es (some v) ≡ some u)
last_put-some k v [] = (v, refl)
last_put-some k v ((j, w) ∷ es) =
    elim (bytes_eq k j)
      as (λ t. (u : Bytes) × (last_put k es (if t then some w else some v) ≡ some u)) [
        | true ↦ last_put-some k w es
        | false ↦ last_put-some k v es
      ]

module _ {B T : Type 0} (s : Backend B T) where
  open s use {rocks, ops, txn_ops, blocks, transactions}

  -- Something is stored under the key.
  abbrev pub IsPresent : rocks.Db → Bytes → Type 0
  IsPresent db k = (v : Bytes) × (rocks.get k db ≡ some v)

  pub write-IsPresent :
      (batch : List Entry) (db : rocks.Db) (k : Bytes)
      → IsPresent db k
      → IsPresent (rocks.write batch db) k
  write-IsPresent batch db k (v, h) =
      let (u, e) = last_put-some k v batch in
      (u, rocks.get_write k batch db ∙ ap (last_put k batch) h ∙ e)

  -- The batch puts something under the key, whatever was there.
  abbrev Puts : List Entry → Bytes → Type 0
  Puts es k = (old : Option Bytes) → (v : Bytes) × (last_put k es old ≡ some v)

  Puts-cons : (k v : Bytes) (es : List Entry) → Puts ((k, v) ∷ es) k
  Puts-cons k v es old =
      let (u, e) = last_put-some k v es in
      (u, ap (λ t. last_put k es (if t then some v else old)) (bytes_eq_refl k) ∙ e)

  later :
      (e : Entry) (es : List Entry) (ts : List T)
      → All (λ t. Puts es (serialize (txn_by_hash (txn_ops.txn_hash t)))) ts
      → All (λ t. Puts (e ∷ es) (serialize (txn_by_hash (txn_ops.txn_hash t)))) ts
  later e es [] a = tt
  later e es (t ∷ ts) a = (λ old. a.0 _, later e es ts a.1)

  txn_entries-Puts :
      (ts : List T) {es : List Entry} (rest : List Entry)
      → txn_entries s ts ≡ ok es
      → All (λ t. Puts (es ++ rest) (serialize (txn_by_hash (txn_ops.txn_hash t)))) ts
  unfolding txn_entries
  txn_entries-Puts [] rest h = tt
  txn_entries-Puts (t ∷ ts) rest h =
      let key = serialize (txn_by_hash (txn_ops.txn_hash t)) in
      let (bytes, e, h') = >>=-eq-ok (transactions.to_bytes t) _ h in
      let (others, f, h'') = >>=-eq-ok (txn_entries s ts) _ h' in
      subst
        (λ es. All (λ u. Puts (es ++ rest) (serialize (txn_by_hash (txn_ops.txn_hash u)))) (t ∷ ts))
        (ok_injective h'')
        (
          Puts-cons key bytes (others ++ rest),
          later (key, bytes) (others ++ rest) ts (txn_entries-Puts ts rest f),
        )

  keyed_entry-Puts :
      (b : B) (k : KeyNonEmptyBlock) {es : List Entry}
      → keyed_entry s b (some k) ≡ ok es
      → Puts es (serialize (non_empty_block k))
  keyed_entry-Puts b k h =
      let (bytes, e, h') = >>=-eq-ok (blocks.to_bytes b) _ h in
      subst (λ es. Puts es (serialize (non_empty_block k))) (ok_injective h')
        (Puts-cons (serialize (non_empty_block k)) bytes [])

  append-Puts : (es fs : List Entry) (k : Bytes) → Puts fs k → Puts (es ++ fs) k
  append-Puts [] fs k p = p
  append-Puts ((j, v) ∷ es) fs k p = λ old. append-Puts es fs k p _

  Puts-IsPresent :
      (es : List Entry) (db : rocks.Db) (k : Bytes) → Puts es k → IsPresent (rocks.write es db) k
  Puts-IsPresent es db k p = let (v, e) = p (rocks.get k db) in (v, rocks.get_write k es db ∙ e)

  -- The block is found through its transactions and, where it has some, among the blocks that are
  -- not empty.
  abbrev pub KeyIsPresent : rocks.Db → Option KeyNonEmptyBlock → Type 0
  KeyIsPresent db none = Unit
  KeyIsPresent db (some k) = IsPresent db (serialize (non_empty_block k))

  pub record IsIndexed (db : rocks.Db) (b : B) : Type 0 where
    pub txns : All (λ t. IsPresent db (serialize (txn_by_hash (txn_ops.txn_hash t)))) (ops.txns b)
    pub non_empty : KeyIsPresent db (from_block ops b)

  -- Every key that was present is.
  abbrev pub Grows : rocks.Db → rocks.Db → Type 0
  Grows db db' = (k : Bytes) → IsPresent db k → IsPresent db' k

  all_IsPresent :
      (db db' : rocks.Db)
      → Grows db db'
      → (ts : List T) → All (λ t. IsPresent db (serialize (txn_by_hash (txn_ops.txn_hash t)))) ts
      → All (λ t. IsPresent db' (serialize (txn_by_hash (txn_ops.txn_hash t)))) ts
  all_IsPresent db db' g [] a = tt
  all_IsPresent db db' g (t ∷ ts) a = (g _ a.0, all_IsPresent db db' g ts a.1)

  pub IsIndexed-Grows :
      (db db' : rocks.Db) (b : B) → Grows db db' → IsIndexed db b → IsIndexed db' b
  IsIndexed-Grows db db' b g i = record {
    txns = all_IsPresent db db' g (ops.txns b) i.txns;
    non_empty = key_grows (from_block ops b) i.non_empty;
  }
    where
      key_grows : (key : Option KeyNonEmptyBlock) → KeyIsPresent db key → KeyIsPresent db' key
      key_grows none p = tt
      key_grows (some k) p = g _ p

  -- The block and its transactions can be encoded.
  abbrev pub CanIndex : B → Type 0
  CanIndex b = Encodes blocks b × All (Encodes transactions) (ops.txns b)

  pub migrate_block-IsIndexed :
      (b : B) (db : rocks.Db)
      → CanIndex b
      → (db' : rocks.Db) × (migrate_block s b db ≡ ok db') × IsIndexed db' b × Grows db db'
  unfolding migrate_block
  migrate_block-IsIndexed b db (e, a) =
      let (es, f) = txn_entries-Returns s (ops.txns b) a in
      let (fs, g) = keyed_entry-Returns s b (from_block ops b) e in
      (
        rocks.write (es ++ fs) db,
        cc (f, g),
        record {
          txns = written (es ++ fs) (ops.txns b) (txn_entries-Puts (ops.txns b) fs f);
          non_empty = key_written es fs (from_block ops b) g;
        },
        write-IsPresent (es ++ fs) db,
      )
    where
      written :
          (es : List Entry) (ts : List T)
          → All (λ t. Puts es (serialize (txn_by_hash (txn_ops.txn_hash t)))) ts
          → All
              (λ t. IsPresent (rocks.write es db) (serialize (txn_by_hash (txn_ops.txn_hash t))))
              ts
      written es [] p = tt
      written es (t ∷ ts) p = (Puts-IsPresent es db _ p.0, written es ts p.1)

      key_written :
          (es fs : List Entry) (key : Option KeyNonEmptyBlock)
          → keyed_entry s b key ≡ ok fs
          → KeyIsPresent (rocks.write (es ++ fs) db) key
      key_written es fs none g = tt
      key_written es fs (some k) g =
          Puts-IsPresent (es ++ fs) db _ (append-Puts es fs _ (keyed_entry-Puts b k g))
