-- ===== src/Mempool/Admission.antt =====
-- What `_add` of mempool.rs lets into the pool.
use zerosats.Prelude.{
  ℕ, ◌≤◌, ◌≡◌, refl, ◌↔◌, true, false, Option, none, some, List, [], ◌∷◌, ◌++◌, arith, elem,
}
use zerosats.Prelude.Maps.{Map, get, contains_key, get-insert}
use zerosats.Mempool.{MempoolState, MempoolTxn, AddError, ok, err, find_conflict, has_change, add}
use zerosats.Mempool.Places.{owners, owners-absent}
use zerosats.Mempool.Valid.{find_conflict-none}

module _ {V : Type 0} where
  owners-present : (c : ℕ) (m : Map (MempoolTxn V)) → has_change c m ≡ true → 1 ≤ owners c m
  owners-present c [] h = cc
  owners-present c ((j, t) ∷ m) h = ground (arith, owners-present c m)

  -- A conflict is a change that some transaction of the pool has.
  no_conflict_found :
      (cs : List ℕ) (m : Map (MempoolTxn V))
      → ((c : ℕ) → elem c cs ≡ true → owners c m ≡ 0)
      → find_conflict cs m ≡ none
  no_conflict_found [] m h = refl
  no_conflict_found (c ∷ cs) m h =
      ground (arith, h c, owners-present c m, no_conflict_found cs m (λ d e. h d (ground arith)))

module _ {V R : Type 0} (key : ℕ) (txn : V) (changes : List ℕ) (sender : Option ℕ) where
  -- A transaction is taken exactly when its key is new and no transaction of the pool has one of
  -- its changes.
  pub add-eq-ok_iff :
      (s : MempoolState V R)
      → ((add key txn changes sender s).1 ≡ ok) ↔ (
          (contains_key key s.txns ≡ false)
          × ((c : ℕ) → elem c changes ≡ true → owners c s.txns ≡ 0))
  unfolding add
  add-eq-ok_iff s = (
    λ h. (
      ground arith,
      λ c e. owners-absent c s.txns (find_conflict-none c changes s.txns (ground arith) e),
    ),
    λ h. ground (arith, h.0, no_conflict_found changes s.txns h.1),
  )

  -- A transaction that is taken can be looked up, and waits at the end of the queue.
  pub add_taken :
      (s : MempoolState V R)
      → (add key txn changes sender s).1 ≡ ok
      → let s' = (add key txn changes sender s).0 in
        (get key s'.txns ≡ some (record { txn = txn; sender = sender; changes = changes }))
        × (s'.pool ≡ s.pool ++ key ∷ [])
        × (s'.leased ≡ s.leased)
  unfolding add
  add_taken s h =
      ground (
        arith,
        get-insert key key (record { txn = txn; sender = sender; changes = changes }) s.txns,
      )

  -- A transaction that is refused leaves the pool as it was.
  pub add_refused :
      (s : MempoolState V R) (e : AddError)
      → (add key txn changes sender s).1 ≡ err e
      → (add key txn changes sender s).0 ≡ s
  unfolding add
  add_refused s e h = ground arith
