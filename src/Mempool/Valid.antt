-- ===== src/Mempool/Valid.antt =====
-- A pool in which every transaction stands in one place (mempool.rs), and the operations that
-- keep it so.
use zerosats.Prelude.{
  map, refl, ℕ, ◌+◌, ◌≤◌, ◌≡◌, true, false, Option, none, List, [], ◌∷◌, ◌==◌, arith, All,
  if◌then◌else◌, count, erase, elem, count-append, count-erase_self, count-erase_ne, count-eq-zero,
  elem_pos, set_insert, sym, subst, ℕ_discrete,
}
use zerosats.Prelude.Maps.{
  Map, get, contains_key, insert, remove, IsMap, get-insert, get-remove, insert-IsMap, remove-IsMap,
  remove-insert_self,
}
use zerosats.Mempool.{
  MempoolState, MempoolTxn, find_conflict, has_change, add_leased, keys_of, add, commit_key,
  commit_keys, free, commit, lease_txns,
}
use zerosats.Mempool.Places.{
  total, present, owners, total-remove, total-add_leased, count-push_all, owners-absent,
  owners-remove, owners-insert, total-drop_leased_ne, total-drop_leased_self, remove-drop_leased,
  drop_leased-IsMap,
}

module _ {V : Type 0} where
  pub find_conflict-none :
      (c : ℕ) (cs : List ℕ) (m : Map (MempoolTxn V))
      → find_conflict cs m ≡ none
      → elem c cs ≡ true
      → has_change c m ≡ false
  find_conflict-none c [] m h e = cc
  find_conflict-none c (d ∷ cs) m h e = ground (arith, find_conflict-none c cs m)

  present-insert :
      (k key : ℕ) (t : MempoolTxn V) (m : Map (MempoolTxn V))
      → contains_key key m ≡ false
      → present k (insert key t m) ≡ present k m + (if k == key then 1 else 0)
  present-insert k key t m h = ground (arith, get-insert k key t m)

  present-remove :
      (k key : ℕ) (m : Map (MempoolTxn V))
      → present k (remove key m) ≡ (if k == key then 0 else present k m)
  present-remove k key m = ground (arith, get-remove k key m)

module _ {V R : Type 0} where
  abbrev pub places : ℕ → MempoolState V R → ℕ
  places k s = count k s.pool + total k s.leased

  pub record IsValid (s : MempoolState V R) : Type 0 where
    pub leases : IsMap s.leased
    pub placed : (k : ℕ) → places k s ≡ present k s.txns
    pub apart : (c : ℕ) → owners c s.txns ≤ 1

  add-placed :
      (key : ℕ) (txn : V) (changes : List ℕ) (sender : Option ℕ) (s : MempoolState V R)
      → IsValid s
      → (k : ℕ) → let s' = (add key txn changes sender s).0 in places k s' ≡ present k s'.txns
  unfolding add
  add-placed key txn changes sender s v k = ground (
    arith,
    v.placed k,
    count-append k s.pool (key ∷ []),
    present-insert k key (record { txn = txn; sender = sender; changes = changes }) s.txns,
  )

  add-apart :
      (key : ℕ) (txn : V) (changes : List ℕ) (sender : Option ℕ) (s : MempoolState V R)
      → IsValid s
      → (c : ℕ) → owners c (add key txn changes sender s).0.txns ≤ 1
  unfolding add
  add-apart key txn changes sender s v c = ground (
    arith,
    v.apart c,
    find_conflict-none c changes s.txns,
    owners-absent c s.txns,
    owners-insert c key (record { txn = txn; sender = sender; changes = changes }) s.txns,
  )

  add-leases :
      (key : ℕ) (txn : V) (changes : List ℕ) (sender : Option ℕ) (s : MempoolState V R)
      → (add key txn changes sender s).0.leased ≡ s.leased
  unfolding add
  add-leases key txn changes sender s = ground arith

  -- Adding a transaction, whether it is taken or refused, keeps every transaction in one place and
  -- every change with one transaction.
  pub add-IsValid :
      (key : ℕ) (txn : V) (changes : List ℕ) (sender : Option ℕ) (s : MempoolState V R)
      → IsValid s
      → IsValid (add key txn changes sender s).0
  add-IsValid key txn changes sender s v = record {
    leases = rw (add-leases key txn changes sender s) v.leases;
    placed = add-placed key txn changes sender s v;
    apart = add-apart key txn changes sender s v;
  }

  -- Freeing a lease puts each of its keys back into the queue, and loses and repeats none.
  pub free-IsValid : (lease : ℕ) (s : MempoolState V R) → IsValid s → IsValid (free lease s)
  unfolding free
  free-IsValid lease s v = record {
    leases = remove-IsMap lease s.leased v.leases;
    placed = λ k. omega (
      arith,
      v.placed k,
      total-remove k lease s.leased v.leases,
      count-push_all k (keys_of (get lease s.leased)) s.pool,
    );
    apart = v.apart;
  }

  -- The key stands in no lease but this one.
  abbrev pub IsFree : ℕ → MempoolState V R → ℕ → Type 0
  IsFree lease s key = total key (remove lease s.leased) ≡ 0

  commit_key-placed :
      (lease key : ℕ) (r : R) (s : MempoolState V R)
      → IsValid s
      → IsFree lease s key
      → (k : ℕ) → let s' = commit_key lease key r s in places k s' ≡ present k s'.txns
  unfolding commit_key
  commit_key-placed lease key r s v elsewhere k = elim (ℕ_discrete k key) [
    | yes e ↦ rw e (
        ground (
          arith,
          v.placed key,
          present-remove key key s.txns,
          count-erase_self key s.pool,
          total-drop_leased_self lease key s.leased v.leases,
        ))
    | no ne ↦ ground (
      arith,
      v.placed k,
      present-remove k key s.txns,
      count-erase_ne k key s.pool ne,
      total-drop_leased_ne k lease key s.leased ne,
    )
  ]

  commit_key-IsValid :
      (lease key : ℕ) (r : R) (s : MempoolState V R)
      → IsValid s
      → IsFree lease s key
      → IsValid (commit_key lease key r s)
  unfolding commit_key
  commit_key-IsValid lease key r s v elsewhere = record {
    leases = drop_leased-IsMap lease key s.leased v.leases;
    placed = commit_key-placed lease key r s v elsewhere;
    apart = λ c. omega (arith, v.apart c, owners-remove c key s.txns);
  }

  commit_keys-IsValid :
      (lease : ℕ) (keys : List (ℕ × R)) (s : MempoolState V R)
      → IsValid s
      → All (λ kr. IsFree lease s kr.0) keys
      → IsValid (commit_keys lease keys s)
  unfolding commit_keys commit_key
  commit_keys-IsValid lease [] s v h = v
  commit_keys-IsValid lease ((key, r) ∷ keys) s v h =
      commit_keys-IsValid lease keys (commit_key lease key r s)
        (commit_key-IsValid lease key r s v h.0)
        (subst (λ m. All (λ kr. total kr.0 m ≡ 0) keys)
          (sym (remove-drop_leased lease key s.leased)) h.1)

  -- Committing keys that stand in no other lease keeps a valid pool valid.
  pub commit-IsValid :
      (lease : ℕ) (keys : List (ℕ × R)) (s : MempoolState V R)
      → IsValid s
      → All (λ kr. IsFree lease s kr.0) keys
      → IsValid (commit lease keys s)
  unfolding commit
  commit-IsValid lease keys s v h =
      free-IsValid lease (commit_keys lease keys s) (commit_keys-IsValid lease keys s v h)

  lease_key-IsValid :
      (lease key : ℕ) (s : MempoolState V R)
      → IsValid s
      → contains_key key s.txns ≡ true
      → IsFree lease s key
      → IsValid (record s { pool = erase key s.pool; leased = add_leased lease key s.leased })
  lease_key-IsValid lease key s v known elsewhere = record {
    leases = insert-IsMap lease (set_insert key (keys_of (get lease s.leased))) s.leased v.leases;
    placed = λ k. elim (ℕ_discrete k key) [
      | yes e ↦ rw e (
          ground (
            arith,
            v.placed key,
            count-erase_self key s.pool,
            total-add_leased key lease key s.leased,
            total-remove key lease s.leased v.leases,
            elem_pos key (keys_of (get lease s.leased)),
            count-eq-zero key (keys_of (get lease s.leased)),
          ))
      | no ne ↦
          ground (
            arith,
            v.placed k,
            count-erase_ne k key s.pool ne,
            total-add_leased k lease key s.leased,
          )
    ];
    apart = v.apart;
  }

  -- Leasing keys that are in the pool, and stand in no other lease, keeps the pool valid.
  pub lease_txns-IsValid :
      (lease : ℕ) (keys : List ℕ) (s : MempoolState V R)
      → IsValid s
      → All (λ k. (contains_key k s.txns ≡ true) × IsFree lease s k) keys
      → IsValid (lease_txns lease keys s)
  unfolding lease_txns
  lease_txns-IsValid lease [] s v h = v
  lease_txns-IsValid lease (key ∷ keys) s v h =
      lease_txns-IsValid lease keys _ (lease_key-IsValid lease key s v h.0.0 h.0.1) (
        subst (λ m. All (λ k. (contains_key k s.txns ≡ true) × (total k m ≡ 0)) keys)
          (sym (remove-insert_self lease (set_insert key (keys_of (get lease s.leased))) s.leased))
          h.1)

  pub get-commit_keys :
      (lease k : ℕ) (keys : List (ℕ × R)) (s : MempoolState V R)
      → get k (commit_keys lease keys s).txns
        ≡ (if elem k (map (λ kr. kr.0) keys) then none else get k s.txns)
  unfolding commit_keys commit_key
  get-commit_keys lease k [] s = refl
  get-commit_keys lease k ((key, r) ∷ keys) s =
      ground
        (arith, get-commit_keys lease k keys (commit_key lease key r s), get-remove k key s.txns)

  -- Exactly the committed keys leave the pool; every other transaction stays as it was.
  pub get-commit :
      (lease k : ℕ) (keys : List (ℕ × R)) (s : MempoolState V R)
      → get k (commit lease keys s).txns
        ≡ (if elem k (map (λ kr. kr.0) keys) then none else get k s.txns)
  unfolding commit free
  get-commit lease k keys s = get-commit_keys lease k keys s
