-- ===== src/Mempool.antt =====
-- The transaction pool of the node: ciphera/pkg/node/src/mempool.rs.
-- Keys, leases and changes are only compared, so they are numbers. A waiting client is the number
-- of its channel, and `sent` is the record of what has been sent on those channels.
pub mod Places
pub mod Valid
pub mod Loop
pub mod Lease
pub mod Sets
pub mod Orderly
pub mod Run
pub mod Panic
pub mod Admission
mod Examples
use zerosats.Prelude.{
  ℕ, Bool, true, false, Option, none, some, List, [], ◌∷◌, ◌++◌, length, leb, if◌then◌else◌, ◌||◌,
  elem, erase, set_insert,
}
use zerosats.Prelude.Maps.{Map, get, contains_key, insert, remove}

pub data AddError : Type 0 where
  conflict : (change : ℕ) → AddError
  duplicate_key : AddError

pub data AddResult : Type 0 where
  ok : AddResult
  err : AddError → AddResult

pub record MempoolTxn (V : Type 0) : Type 0 where
  pub txn : V
  pub sender : Option ℕ
  pub changes : List ℕ

-- `V` is the type of transactions, `R` that of the results that waiting clients are sent.
pub record MempoolState (V R : Type 0) : Type 0 where
  pub txns : Map (MempoolTxn V)
  pub pool : List ℕ
  pub leased : Map (List ℕ)
  pub sent : List (ℕ × R)

abbrev pub new : {V R : Type 0} → MempoolState V R
new = record { txns = []; pool = []; leased = []; sent = [] }

-- `unwrap_or_default`, `entry(..).or_default()`
abbrev pub keys_of : Option (List ℕ) → List ℕ
keys_of none = []
keys_of (some ks) = ks

module _ {V : Type 0} where
  -- Some transaction of the pool has this change.
  abbrev pub has_change : ℕ → Map (MempoolTxn V) → Bool
  has_change c [] = false
  has_change c ((_, t) ∷ m) = elem c t.changes || has_change c m

  abbrev pub find_conflict : List ℕ → Map (MempoolTxn V) → Option ℕ
  find_conflict [] m = none
  find_conflict (c ∷ cs) m = if has_change c m then some c else find_conflict cs m

-- A change is in the set.
abbrev pub any_elem : List ℕ → List ℕ → Bool
any_elem [] set = false
any_elem (c ∷ cs) set = elem c set || any_elem cs set

-- `leased.get_mut(&lease)`, and `remove` from the set that is found
abbrev pub drop_leased : ℕ → ℕ → Map (List ℕ) → Map (List ℕ)
drop_leased lease key m = elim (get lease m) [ none ↦ m | some ks ↦ insert lease (erase key ks) m ]

-- `push_front` for each key of the set. The set is a list here and gives its keys in its order; the
-- code's `HashSet` gives them in any order.
abbrev pub push_all : List ℕ → List ℕ → List ℕ
push_all [] pool = pool
push_all (k ∷ ks) pool = push_all ks (k ∷ pool)

-- `leased.entry(lease).or_default().insert(key)`
abbrev pub add_leased : ℕ → ℕ → Map (List ℕ) → Map (List ℕ)
add_leased lease key m = insert lease (set_insert key (keys_of (get lease m))) m

module _ {V R : Type 0} where
  -- `_add`; `add` has no sender, and `add_with_listener` has one
  pub add : ℕ → V → List ℕ → Option ℕ → MempoolState V R → MempoolState V R × AddResult
  add key txn changes sender s = elim (find_conflict changes s.txns) [
    | some c ↦ (s, err (conflict c))
    | none ↦ if contains_key key s.txns then (s, err duplicate_key) else (
      record s {
        txns = insert key (record { txn = txn; sender = sender; changes = changes }) s.txns;
        pool = s.pool ++ key ∷ [];
      },
      ok,
    )
  ]

  -- What a committed transaction's client is sent.
  abbrev pub notify : Option (MempoolTxn V) → R → List (ℕ × R) → List (ℕ × R)
  notify none r sent = sent
  notify (some t) r sent = elim t.sender [ none ↦ sent | some c ↦ sent ++ (c, r) ∷ [] ]

  -- The body of the loop of `commit`.
  pub commit_key : ℕ → ℕ → R → MempoolState V R → MempoolState V R
  commit_key lease key r s = record {
    txns = remove key s.txns;
    pool = erase key s.pool;
    leased = drop_leased lease key s.leased;
    sent = notify (get key s.txns) r s.sent;
  }

  pub commit_keys : ℕ → List (ℕ × R) → MempoolState V R → MempoolState V R
  commit_keys lease [] s = s
  commit_keys lease ((key, r) ∷ rest) s = commit_keys lease rest (commit_key lease key r s)

  pub free : ℕ → MempoolState V R → MempoolState V R
  free lease s = record s {
    leased = remove lease s.leased;
    pool = push_all (keys_of (get lease s.leased)) s.pool;
  }

  pub commit : ℕ → List (ℕ × R) → MempoolState V R → MempoolState V R
  commit lease keys_with_results s = free lease (commit_keys lease keys_with_results s)

  pub lease_txns : ℕ → List ℕ → MempoolState V R → MempoolState V R
  lease_txns lease [] s = s
  lease_txns lease (key ∷ keys) s =
      lease_txns lease keys
        (record s { pool = erase key s.pool; leased = add_leased lease key s.leased })

-- The variables of `lease_batch`; `rest` is what its loop leaves in the pool.
pub record Batch (V : Type 0) : Type 0 where
  pub rest : List ℕ
  pub leases : Map (List ℕ)
  pub txns : List (ℕ × V)
  pub discard : List ℕ
  pub conflict_check : List ℕ

module _ {V : Type 0} where
  -- The `while` loop of `lease_batch`. `none` is the panic at a key of the pool that names no
  -- transaction.
  pub lease_loop : ℕ → ℕ → Map (MempoolTxn V) → List ℕ → Batch V → Option (Batch V)
  lease_loop lease max_count m [] b = some (record b { rest = [] })
  lease_loop lease max_count m (key ∷ pool) b = elim (get key m) [
    | none ↦ none
    | some t ↦ elim (any_elem t.changes b.conflict_check) [
      | true ↦ lease_loop lease max_count m pool (record b { discard = b.discard ++ key ∷ [] })
      | false ↦
          let b' : Batch V = record b {
            leases = add_leased lease key b.leases;
            conflict_check = t.changes ++ b.conflict_check;
            txns = b.txns ++ (key, t.txn) ∷ [];
          } in
          elim (leb max_count (length b'.txns)) [
            | true ↦ some (record b' { rest = pool })
            | false ↦ lease_loop lease max_count m pool b'
          ]
    ]
  ]

module _ {V R : Type 0} where
  pub lease_batch : ℕ → ℕ → MempoolState V R → Option (MempoolState V R × List (ℕ × V))
  unfolding lease_loop
  lease_batch lease max_count s =
      let start : Batch V = record {
        rest = [];
        leases = s.leased;
        txns = [];
        discard = [];
        conflict_check = [];
      } in
      elim (lease_loop lease max_count s.txns s.pool start) [
        | none ↦ none
        | some b ↦ some (record s { leased = b.leases; pool = b.rest ++ b.discard }, b.txns)
      ]
