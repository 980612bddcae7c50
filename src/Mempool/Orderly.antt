-- ===== src/Mempool/Orderly.antt =====
-- A pool that never loses a transaction and whose queue can be leased (mempool.rs), and the
-- operations that keep it so. A key can be under several leases, and leased without a transaction.
use zerosats.Prelude.{
  refl, ℕ, ◌≤◌, ◌≡◌, true, false, Option, List, [], ◌∷◌, map, arith, erase, elem, count-append,
  count-erase_self, count-erase_ne, count-eq-zero, elem-append, elem_pos, set_insert, ℕ_discrete,
  Bool-cases, inl, inr,
}
use zerosats.Prelude.Maps.{
  get, contains_key, IsMap, get-insert, get-remove, insert-IsMap, remove-IsMap,
}
use zerosats.Mempool.{
  MempoolState, add_leased, push_all, keys_of, add, commit_key, commit_keys, free, commit,
  lease_txns,
}
use zerosats.Mempool.Places.{
  present, total-remove, total-add_leased, count-push_all, owners-remove, owners-absent,
  owners-insert, total-drop_leased_ne, drop_leased-IsMap,
}
use zerosats.Mempool.Valid.{places, find_conflict-none, get-commit_keys}
use zerosats.Mempool.Lease.{IsQueue}
use zerosats.Mempool.Sets.{
  AreSets, count-erase_le, elem-erase, add_leased-AreSets, drop_leased-AreSets, dropped,
  remove-AreSets,
}

module _ {V R : Type 0} where
  -- Nothing is lost: a transaction stands in the queue or under a lease.
  pub record IsOrderly (s : MempoolState V R) : Type 0 where
    pub queue : IsQueue s
    pub kept : (k : ℕ) → present k s.txns ≤ places k s
    pub leases : IsMap s.leased
    pub sets : AreSets s.leased

  lease_key-IsOrderly :
      (lease key : ℕ) (s : MempoolState V R)
      → IsOrderly s
      → IsOrderly (record s { pool = erase key s.pool; leased = add_leased lease key s.leased })
  lease_key-IsOrderly lease key s v = record {
    queue = record {
      known = λ k h. v.queue.known k (elem-erase k key s.pool h);
      once = λ k. omega (arith, v.queue.once k, count-erase_le k key s.pool);
      apart = v.queue.apart;
    };
    kept = λ k. elim (ℕ_discrete k key) [
      | yes e ↦ rw e (
          ground (
            arith,
            v.kept key,
            count-erase_self key s.pool,
            total-add_leased key lease key s.leased,
            total-remove key lease s.leased v.leases,
            elem_pos key (keys_of (get lease s.leased)),
            v.queue.once key,
          ))
      | no ne ↦
          ground
            (arith, v.kept k, count-erase_ne k key s.pool ne, total-add_leased k lease key s.leased)
    ];
    leases = insert-IsMap lease (set_insert key (keys_of (get lease s.leased))) s.leased v.leases;
    sets = add_leased-AreSets lease key s.leased v.sets;
  }

  -- Any keys can be leased.
  pub lease_txns-IsOrderly :
      (lease : ℕ) (keys : List ℕ) (s : MempoolState V R)
      → IsOrderly s
      → IsOrderly (lease_txns lease keys s)
  unfolding lease_txns
  lease_txns-IsOrderly lease [] s v = v
  lease_txns-IsOrderly lease (key ∷ keys) s v =
      lease_txns-IsOrderly lease keys _ (lease_key-IsOrderly lease key s v)

  commit_key-IsOrderly :
      (lease key : ℕ) (r : R) (s : MempoolState V R)
      → IsOrderly s
      → IsOrderly (commit_key lease key r s)
  unfolding commit_key
  commit_key-IsOrderly lease key r s v = record {
    queue = record {
      known = λ k h. ground (
        arith,
        v.queue.known k (elem-erase k key s.pool h),
        get-remove k key s.txns,
        elem_pos k (erase key s.pool) h,
        count-erase_self key s.pool,
        v.queue.once key,
      );
      once = λ k. omega (arith, v.queue.once k, count-erase_le k key s.pool);
      apart = λ c. omega (arith, v.queue.apart c, owners-remove c key s.txns);
    };
    kept = λ k. elim (ℕ_discrete k key) [
      | yes e ↦ ground (arith, get-remove k key s.txns)
      | no ne ↦ ground (
        arith,
        v.kept k,
        get-remove k key s.txns,
        count-erase_ne k key s.pool ne,
        total-drop_leased_ne k lease key s.leased ne,
      )
    ];
    leases = drop_leased-IsMap lease key s.leased v.leases;
    sets = drop_leased-AreSets lease key s.leased v.sets;
  }

  pub commit_keys-IsOrderly :
      (lease : ℕ) (keys : List (ℕ × R)) (s : MempoolState V R)
      → IsOrderly s
      → IsOrderly (commit_keys lease keys s)
  unfolding commit_keys
  commit_keys-IsOrderly lease [] s v = v
  commit_keys-IsOrderly lease ((key, r) ∷ keys) s v =
      commit_keys-IsOrderly lease keys _ (commit_key-IsOrderly lease key r s v)

  add-kept :
      (key : ℕ) (txn : V) (changes : List ℕ) (sender : Option ℕ) (s : MempoolState V R)
      → IsOrderly s
      → (k : ℕ) → let s' = (add key txn changes sender s).0 in present k s'.txns ≤ places k s'
  unfolding add
  add-kept key txn changes sender s v k = ground (
    arith,
    v.kept k,
    count-append k s.pool (key ∷ []),
    get-insert k key (record { txn = txn; sender = sender; changes = changes }) s.txns,
  )

  add-IsQueue :
      (key : ℕ) (txn : V) (changes : List ℕ) (sender : Option ℕ) (s : MempoolState V R)
      → IsQueue s
      → IsQueue (add key txn changes sender s).0
  unfolding add
  add-IsQueue key txn changes sender s q = record {
    known = λ k h. ground (
      arith,
      q.known k,
      elem-append k s.pool (key ∷ []),
      get-insert k key (record { txn = txn; sender = sender; changes = changes }) s.txns,
    );
    once = λ k.
        ground
          (arith, q.once k, q.known k, count-append k s.pool (key ∷ []), count-eq-zero k s.pool);
    apart = λ c. ground (
      arith,
      q.apart c,
      find_conflict-none c changes s.txns,
      owners-absent c s.txns,
      owners-insert c key (record { txn = txn; sender = sender; changes = changes }) s.txns,
    );
  }

  add-leased :
      (key : ℕ) (txn : V) (changes : List ℕ) (sender : Option ℕ) (s : MempoolState V R)
      → (add key txn changes sender s).0.leased ≡ s.leased
  unfolding add
  add-leased key txn changes sender s = ground arith

  pub add-IsOrderly :
      (key : ℕ) (txn : V) (changes : List ℕ) (sender : Option ℕ) (s : MempoolState V R)
      → IsOrderly s
      → IsOrderly (add key txn changes sender s).0
  add-IsOrderly key txn changes sender s v = record {
    queue = add-IsQueue key txn changes sender s v.queue;
    kept = add-kept key txn changes sender s v;
    leases = rw (add-leased key txn changes sender s) v.leases;
    sets = rw (add-leased key txn changes sender s) v.sets;
  }

  -- The end of a lease, when its keys have transactions and are not in the queue
  free-IsOrderly :
      (lease : ℕ) (s : MempoolState V R)
      → IsOrderly s
      → ((k : ℕ)
          → elem k (keys_of (get lease s.leased)) ≡ true
          → (contains_key k s.txns ≡ true) × (elem k s.pool ≡ false))
      → IsOrderly (free lease s)
  unfolding free
  free-IsOrderly lease s v fit =
      let ks = keys_of (get lease s.leased) in
      record {
        queue = record {
          known = λ k h. elim (Bool-cases (elem k ks)) [
            | inl e ↦ (fit k e).0
            | inr e ↦ v.queue.known k (
                ground (
                  arith,
                  elem_pos k (push_all ks s.pool) h,
                  count-push_all k ks s.pool,
                  count-eq-zero k ks e,
                  count-eq-zero k s.pool,
                ))
          ];
          once = λ k. elim (Bool-cases (elem k ks)) [
            | inl e ↦ omega (
              arith,
              count-push_all k ks s.pool,
              v.sets lease k,
              count-eq-zero k s.pool (fit k e).1,
            )
            | inr e ↦
                omega (arith, count-push_all k ks s.pool, v.queue.once k, count-eq-zero k ks e)
          ];
          apart = v.queue.apart;
        };
        kept = λ k.
            omega
              (arith, v.kept k, total-remove k lease s.leased v.leases, count-push_all k ks s.pool);
        leases = remove-IsMap lease s.leased v.leases;
        sets = remove-AreSets lease s.leased v.sets;
      }

  commit_keys-pool :
      (lease k : ℕ) (keys : List (ℕ × R)) (s : MempoolState V R)
      → elem k s.pool ≡ false
      → elem k (commit_keys lease keys s).pool ≡ false
  unfolding commit_keys commit_key
  commit_keys-pool lease k [] s h = h
  commit_keys-pool lease k ((key, r) ∷ keys) s h =
      commit_keys-pool lease k keys _ (ground (arith, elem-erase k key s.pool))

  -- What a lease still has after a commit, it had before, and it has not been committed.
  leftover :
      (lease k : ℕ) (keys : List (ℕ × R)) (s : MempoolState V R)
      → AreSets s.leased
      → elem k (keys_of (get lease (commit_keys lease keys s).leased)) ≡ true
      → (elem k (keys_of (get lease s.leased)) ≡ true) × (elem k (map (λ kr. kr.0) keys) ≡ false)
  unfolding commit_keys commit_key
  leftover lease k [] s sets h = (h, refl)
  leftover lease k ((key, r) ∷ keys) s sets h =
      let (had, other) =
        leftover lease k keys (commit_key lease key r s)
          (drop_leased-AreSets lease key s.leased sets) h in
      let (had', ne) = dropped lease k key s.leased sets had in (had', ground arith)

  -- Committing any keys, when what is left of the lease has transactions and is not in the queue
  pub commit-IsOrderly :
      (lease : ℕ) (keys : List (ℕ × R)) (s : MempoolState V R)
      → IsOrderly s
      → ((k : ℕ)
          → elem k (keys_of (get lease s.leased)) ≡ true
          → elem k (map (λ kr. kr.0) keys) ≡ false
          → (contains_key k s.txns ≡ true) × (elem k s.pool ≡ false))
      → IsOrderly (commit lease keys s)
  unfolding commit
  commit-IsOrderly lease keys s v fit =
      free-IsOrderly lease (commit_keys lease keys s) (commit_keys-IsOrderly lease keys s v) λ k h.
        let (had, other) = leftover lease k keys s v.sets h in
        let (known, away) = fit k had other in
        (ground (arith, get-commit_keys lease k keys s), commit_keys-pool lease k keys s away)
