-- ===== src/BlockStore/Store/Keyed.antt =====
-- The keys that `set` writes (ciphera/pkg/block-store/src/lib.rs).
use zerosats.Prelude.{ℕ, ◌≡◌, refl, subst, Option, none, some, List, [], ◌∷◌, ◌++◌, All}
use zerosats.Prelude.Bytes.{Bytes}
use zerosats.BlockStore.Types.{ok, >>=-eq-ok, ok_injective}
use zerosats.BlockStore.Keys.{
  Key, KeyNonEmptyBlock, ElementHistoryKind, input, output, txn_by_hash, non_empty_block,
  element_history, mint_hash, serialize,
}
use zerosats.BlockStore.Rocks.{Entry}
use zerosats.BlockStore.Store.{
  Backend, Transaction, txn_entries, keyed_entry, from_block, element_entries, mint_entry,
  history_entries,
}

-- The entry stands under a key with the property.
abbrev pub HasKey : (Key → Type 0) → Entry → Type 0
HasKey P e = (key : Key) × P key × (e.0 ≡ serialize key)

abbrev pub MintKey : (Key → Type 0) → Option ℕ → Type 0
MintKey P none = Unit
MintKey P (some m) = P (mint_hash m)

-- All keys of a transaction have the property.
abbrev pub TxnKeys : {T : Type 0} → Transaction T → (Key → Type 0) → T → Type 0
TxnKeys txn_ops P t =
    P (txn_by_hash (txn_ops.txn_hash t))
    × All (λ e. P (element_history e input)) (txn_ops.input_elements t)
    × All (λ e. P (element_history e output)) (txn_ops.output_elements t)
    × MintKey P (txn_ops.mint_hash_of t)

pub All-append {ℓ κ} :
    {A : Type ℓ} (P : A → Type κ) (xs ys : List A) → All P xs → All P ys → All P (xs ++ ys)
All-append P [] ys a b = b
All-append P (x ∷ xs) ys a b = (a.0, All-append P xs ys a.1 b)

module _ {B T : Type 0} (s : Backend B T) (P : Key → Type 0) where
  open s use {ops, txn_ops, blocks, transactions, histories, mints}

  txn_entries-HasKey :
      (ts : List T) {es : List Entry}
      → All (TxnKeys txn_ops P) ts
      → txn_entries s ts ≡ ok es
      → All (HasKey P) es
  unfolding txn_entries
  txn_entries-HasKey [] a h = subst (All (HasKey P)) (ok_injective h) tt
  txn_entries-HasKey (t ∷ ts) a h =
      let (bytes, e, h') = >>=-eq-ok (transactions.to_bytes t) _ h in
      let (rest, f, h'') = >>=-eq-ok (txn_entries s ts) _ h' in
      subst (All (HasKey P)) (ok_injective h'')
        ((txn_by_hash (txn_ops.txn_hash t), a.0.0, refl), txn_entries-HasKey ts a.1 f)

  keyed_entry-HasKey :
      (b : B) (key : Option KeyNonEmptyBlock) {es : List Entry}
      → ((k : KeyNonEmptyBlock) → key ≡ some k → P (non_empty_block k))
      → keyed_entry s b key ≡ ok es
      → All (HasKey P) es
  keyed_entry-HasKey b none p h = subst (All (HasKey P)) (ok_injective h) tt
  keyed_entry-HasKey b (some key) p h =
      let (bytes, e, h') = >>=-eq-ok (blocks.to_bytes b) _ h in
      subst (All (HasKey P)) (ok_injective h') ((non_empty_block key, p key refl, refl), tt)

  module _ (hash : Bytes) (n : ℕ) where
    element_entries-HasKey :
        (k : ElementHistoryKind) (xs : List ℕ) {es : List Entry}
        → All (λ e. P (element_history e k)) xs
        → element_entries s hash n k xs ≡ ok es
        → All (HasKey P) es
    unfolding element_entries
    element_entries-HasKey k [] a h = subst (All (HasKey P)) (ok_injective h) tt
    element_entries-HasKey k (x ∷ xs) a h =
        let (bytes, e, h') = >>=-eq-ok (histories.to_bytes _) _ h in
        let (rest, f, h'') = >>=-eq-ok (element_entries s hash n k xs) _ h' in
        subst (All (HasKey P)) (ok_injective h'')
          ((element_history x k, a.0, refl), element_entries-HasKey k xs a.1 f)

    mint_entry-HasKey :
        (m : Option ℕ) {es : List Entry}
        → MintKey P m
        → mint_entry s hash n m ≡ ok es
        → All (HasKey P) es
    mint_entry-HasKey none a h = subst (All (HasKey P)) (ok_injective h) tt
    mint_entry-HasKey (some m) a h =
        let (bytes, e, h') = >>=-eq-ok (mints.to_bytes _) _ h in
        subst (All (HasKey P)) (ok_injective h') ((mint_hash m, a, refl), tt)

    history_entries-HasKey :
        (ts : List T) {es : List Entry}
        → All (TxnKeys txn_ops P) ts
        → history_entries s hash n ts ≡ ok es
        → All (HasKey P) es
    unfolding history_entries
    history_entries-HasKey [] a h = subst (All (HasKey P)) (ok_injective h) tt
    history_entries-HasKey (t ∷ ts) a h =
        let (i, e, h1) =
          >>=-eq-ok (element_entries s hash n input (txn_ops.input_elements t)) _ h in
        let (o, f, h2) =
          >>=-eq-ok (element_entries s hash n output (txn_ops.output_elements t)) _ h1 in
        let (m, g, h3) = >>=-eq-ok (mint_entry s hash n (txn_ops.mint_hash_of t)) _ h2 in
        let (r, j, h4) = >>=-eq-ok (history_entries s hash n ts) _ h3 in
        subst (All (HasKey P)) (ok_injective h4) (
          All-append (HasKey P) i (o ++ (m ++ r)) (element_entries-HasKey input _ a.0.1 e) (
            All-append (HasKey P) o (m ++ r) (element_entries-HasKey output _ a.0.2 f) (
              All-append (HasKey P) m r (mint_entry-HasKey _ a.0.3 g)
                (history_entries-HasKey ts a.1 j))))

  -- The puts that `set` makes for the transactions of a block
  pub index-HasKey :
      (b : B) (txns full history : List Entry)
      → All (TxnKeys txn_ops P) (ops.txns b)
      → ((k : KeyNonEmptyBlock) → from_block ops b ≡ some k → P (non_empty_block k))
      → txn_entries s (ops.txns b) ≡ ok txns
      → keyed_entry s b (from_block ops b) ≡ ok full
      → history_entries s (ops.block_hash b) (ops.block_height b) (ops.txns b) ≡ ok history
      → All (HasKey P) (txns ++ (full ++ history))
  index-HasKey b txns full history a p g i j =
      All-append (HasKey P) txns (full ++ history) (txn_entries-HasKey (ops.txns b) a g) (
        All-append (HasKey P) full history (keyed_entry-HasKey b (from_block ops b) p i)
          (history_entries-HasKey (ops.block_hash b) (ops.block_height b) (ops.txns b) a j))
