-- ===== src/BlockStore/Store/Batch.antt =====
-- What the batch that `set` writes leaves under a key (ciphera/pkg/block-store/src/lib.rs).
use zerosats.Prelude.{
  ℕ, ◌^◌, ◌<◌, ◌≡◌, refl, sym, ap, ◌∙◌, Bool, true, false, Option, none, some, List, [], ◌∷◌, ◌++◌,
  All, ◌==◌, if◌then◌else◌, arith,
}
use zerosats.Prelude.Bytes.{Bytes, be_bytes, bytes_eq, bytes_eq-be_bytes}
use zerosats.BlockStore.Types.{ok, >>=-eq-ok, ok_injective}
use zerosats.BlockStore.Keys.{
  kind, element_history, ElementHistoryKind, input, output, block, max_height, block_hash_to_height,
  serialize,
}
use zerosats.BlockStore.Rocks.{Entry, last_put}
use mathlib.Core.List.{append_assoc}
use zerosats.BlockStore.Store.Keyed.{HasKey, TxnKeys, MintKey, index-HasKey}
use zerosats.BlockStore.Store.{
  Backend, is_new_top, Transaction, get_max_height, txn_entries, max_entry, keyed_entry, from_block,
  history_entries, set,
}

last_put-append :
    (k : Bytes) (xs ys : List Entry) (old : Option Bytes)
    → last_put k (xs ++ ys) old ≡ last_put k ys (last_put k xs old)
last_put-append k [] ys old = refl
last_put-append k ((j, v) ∷ xs) ys old = last_put-append k xs ys _

-- The kinds of the keys that the last puts of `set` write
abbrev pub IsIndex : Entry → Type 0
IsIndex e = elim e.0 [ [] ↦ ⊥ | b ∷ bs ↦ 3 < b ]

pub last_put_index :
    (tag : ℕ) (k : Bytes) (es : List Entry) (old : Option Bytes)
    → tag < 4
    → All IsIndex es
    → last_put (tag ∷ k) es old ≡ old
last_put_index tag k [] old lt a = refl
last_put_index tag k (([], v) ∷ es) old lt a = absurd a.0
last_put_index tag k ((b ∷ bs, v) ∷ es) old lt a = ground (arith, last_put_index tag k es old lt)

-- Three puts under kinds of their own, the middle one conditional
abbrev three : Bool → Bytes → Bytes → Bytes → Bytes → List Entry
three higher x v y z = (0 ∷ x, v) ∷ ((if higher then (1 ∷ [], z) ∷ [] else []) ++ (2 ∷ y, z) ∷ [])

three_block :
    (higher : Bool) (x v y z k : Bytes) (old : Option Bytes)
    → last_put (0 ∷ k) (three higher x v y z) old ≡ (if bytes_eq k x then some v else old)
three_block true x v y z k old = refl
three_block false x v y z k old = refl

three_top :
    (higher : Bool) (x v y z : Bytes) (old : Option Bytes)
    → last_put (1 ∷ []) (three higher x v y z) old ≡ (if higher then some z else old)
three_top true x v y z old = refl
three_top false x v y z old = refl

three_hash :
    (higher : Bool) (x v y z k : Bytes) (old : Option Bytes)
    → last_put (2 ∷ k) (three higher x v y z) old ≡ (if bytes_eq k y then some z else old)
three_hash true x v y z k old = refl
three_hash false x v y z k old = refl

-- The kinds of the keys of transactions, of blocks that have some and of the histories
always :
    {T : Type 0} (txn_ops : Transaction T) (ts : List T)
    → All (TxnKeys txn_ops (λ key. 3 < kind key)) ts
always txn_ops [] = tt
always txn_ops (t ∷ ts) = (
  (
    omega arith,
    elements (txn_ops.input_elements t) input,
    elements (txn_ops.output_elements t) output,
    mints (txn_ops.mint_hash_of t),
  ),
  always txn_ops ts,
)
  where
    elements : (xs : List ℕ) (k : ElementHistoryKind) → All (λ e. 3 < kind (element_history e k)) xs
    elements [] k = tt
    elements (x ∷ xs) k = (omega arith, elements xs k)

    mints : (m : Option ℕ) → MintKey (λ key. 3 < kind key) m
    mints none = tt
    mints (some m) = omega arith

HasKey-IsIndex : (es : List Entry) → All (HasKey (λ key. 3 < kind key)) es → All IsIndex es
unfolding serialize
HasKey-IsIndex [] a = tt
HasKey-IsIndex ((k, v) ∷ es) ((key, lt, e), a) = (rw e lt, HasKey-IsIndex es a)

module _ {B T : Type 0} (s : Backend B T) where
  open s use {rocks, ops, blocks}

  -- The puts that `set` makes before those of the transactions
  abbrev pub front : B → Bytes → Option ℕ → List Entry
  front b bytes top =
      (serialize (block (record { block_height = ops.block_height b })), bytes)
      ∷ (max_entry s top (ops.block_height b)
          ++ (serialize (block_hash_to_height (ops.block_hash b)), be_bytes 8 (ops.block_height b))
            ∷ [])

  -- A call of `set` that comes back writes one batch: those puts, and those of the transactions.
  pub record IsWritten (b : B) (db db' : rocks.Db) : Type 0 where
    pub bytes : Bytes
    pub top : Option ℕ
    pub txns : List Entry
    pub full : List Entry
    pub history : List Entry
    pub encoded : blocks.to_bytes b ≡ ok bytes
    pub read : get_max_height s db ≡ ok top
    pub txns_lem : txn_entries s (ops.txns b) ≡ ok txns
    pub full_lem : keyed_entry s b (from_block ops b) ≡ ok full
    pub history_lem :
        history_entries s (ops.block_hash b) (ops.block_height b) (ops.txns b) ≡ ok history
    pub written : db' ≡ rocks.write (front b bytes top ++ (txns ++ (full ++ history))) db

  pub set-IsWritten :
      (b : B) (db : rocks.Db) {db' : rocks.Db} → set s b db ≡ ok db' → IsWritten b db db'
  unfolding set
  set-IsWritten b db {db'} h =
      let (bytes, e, h1) = >>=-eq-ok (blocks.to_bytes b) _ h in
      let (top, f, h2) = >>=-eq-ok (get_max_height s db) _ h1 in
      let (txns, g, h3) = >>=-eq-ok (txn_entries s (ops.txns b)) _ h2 in
      let (full, i, h4) = >>=-eq-ok (keyed_entry s b (from_block ops b)) _ h3 in
      let (history, j, h5) =
        >>=-eq-ok (history_entries s (ops.block_hash b) (ops.block_height b) (ops.txns b)) _ h4 in
      record {
        bytes = bytes;
        top = top;
        txns = txns;
        full = full;
        history = history;
        encoded = e;
        read = f;
        txns_lem = g;
        full_lem = i;
        history_lem = j;
        written =
            sym (ok_injective h5)
            ∙ ap
                (λ es.
                  rocks.write
                    ((serialize (block (record { block_height = ops.block_height b })), bytes) ∷ es)
                    db)
                (sym (
                  append_assoc (max_entry s top (ops.block_height b))
                    ((
                      serialize (block_hash_to_height (ops.block_hash b)),
                      be_bytes 8 (ops.block_height b),
                    )
                      ∷ [])
                    (txns ++ (full ++ history))));
      }

  module _ (b : B) (db db' : rocks.Db) (w : IsWritten b db db') where
    index : List Entry
    index = w.txns ++ (w.full ++ w.history)

    index-IsIndex : All IsIndex index
    unfolding index
    index-IsIndex = HasKey-IsIndex (w.txns ++ (w.full ++ w.history)) (
        index-HasKey s (λ key. 3 < kind key) b w.txns w.full w.history
          (always s.txn_ops (ops.txns b)) (λ k e. omega arith) w.txns_lem w.full_lem w.history_lem)

    get-written :
        (tag : ℕ) (k : Bytes)
        → tag < 4
        → rocks.get (tag ∷ k) db'
          ≡ last_put (tag ∷ k) (front b w.bytes w.top) (rocks.get (tag ∷ k) db)
    unfolding index
    get-written tag k lt =
        ap (rocks.get (tag ∷ k)) w.written
        ∙ rocks.get_write (tag ∷ k) (front b w.bytes w.top ++ index) db
        ∙ last_put-append (tag ∷ k) (front b w.bytes w.top) index _
        ∙ last_put_index tag k index _ lt index-IsIndex

    pub get_block-written :
        (h : ℕ)
        → h < 256 ^ 8
        → ops.block_height b < 256 ^ 8
        → rocks.get (serialize (block (record { block_height = h }))) db' ≡ (
            if h == ops.block_height b
            then some w.bytes
            else rocks.get (serialize (block (record { block_height = h }))) db)
    unfolding serialize
    get_block-written h lt lb =
        get-written 0 (be_bytes 8 h) (omega arith)
        ∙ three_block (is_new_top w.top (ops.block_height b)) (be_bytes 8 (ops.block_height b))
            w.bytes (ops.block_hash b) (be_bytes 8 (ops.block_height b)) (be_bytes 8 h) _
        ∙ ap
            (λ t.
              if t
              then some w.bytes
              else rocks.get (serialize (block (record { block_height = h }))) db)
            (bytes_eq-be_bytes 8 h (ops.block_height b) lt lb)

    pub get_max_height-written : rocks.get (serialize max_height) db' ≡ (
        if is_new_top w.top (ops.block_height b)
        then some (be_bytes 8 (ops.block_height b))
        else rocks.get (serialize max_height) db)
    unfolding serialize
    get_max_height-written =
        get-written 1 [] (omega arith)
        ∙ three_top (is_new_top w.top (ops.block_height b)) (be_bytes 8 (ops.block_height b))
            w.bytes (ops.block_hash b) (be_bytes 8 (ops.block_height b)) _

    pub get_hash-written :
        (hash : Bytes)
        → rocks.get (serialize (block_hash_to_height hash)) db' ≡ (
            if bytes_eq hash (ops.block_hash b)
            then some (be_bytes 8 (ops.block_height b))
            else rocks.get (serialize (block_hash_to_height hash)) db)
    unfolding serialize
    get_hash-written hash =
        get-written 2 hash (omega arith)
        ∙ three_hash (is_new_top w.top (ops.block_height b)) (be_bytes 8 (ops.block_height b))
            w.bytes (ops.block_hash b) (be_bytes 8 (ops.block_height b)) hash _
