-- ===== src/Mempool/Panic.antt =====
-- How `lease_batch` of mempool.rs comes to its panic, "key not found in txns".
use zerosats.Prelude.{
  ℕ, ◌+◌, ◌≤◌, ◌≡◌, ◌≢◌, refl, ap, subst, true, false, none, List, [], ◌∷◌, ◌++◌, map, elem, erase,
  set_insert, length, length-append, arith, Option-cases, ℕ_discrete, inl, inr, ◌||◌,
}
use zerosats.Prelude.Maps.{Map, get, contains_key, get-insert}
use zerosats.Mempool.{
  MempoolState, MempoolTxn, Batch, keys_of, add_leased, drop_leased, push_all, lease_loop,
  commit_key, commit_keys, free, lease_txns, commit, lease_batch,
}
use zerosats.Mempool.Valid.{get-commit}

elem-set_insert_self : (key : ℕ) (ks : List ℕ) → elem key (set_insert key ks) ≡ true
elem-set_insert_self key ks = ground arith

elem-set_insert_keeps :
    (key k : ℕ) (ks : List ℕ) → elem key ks ≡ true → elem key (set_insert k ks) ≡ true
elem-set_insert_keeps key k ks h = ground arith

elem-erase_ne : (key k : ℕ) (ks : List ℕ) → key ≢ k → elem key (erase k ks) ≡ elem key ks
elem-erase_ne key k [] ne = ground arith
elem-erase_ne key k (x ∷ ks) ne = ground (arith, elem-erase_ne key k ks ne)

elem-push_all :
    (key : ℕ) (ks pool : List ℕ)
    → elem key ks || elem key pool ≡ true
    → elem key (push_all ks pool) ≡ true
elem-push_all key [] pool h = ground arith
elem-push_all key (k ∷ ks) pool h = elem-push_all key ks (k ∷ pool) (ground arith)

length_pos : (key : ℕ) (pool : List ℕ) → elem key pool ≡ true → 1 ≤ length pool
length_pos key [] h = absurd (cc)
length_pos key (k ∷ pool) h = omega arith

-- The lease has the key.
abbrev IsLeased : ℕ → ℕ → Map (List ℕ) → Type 0
IsLeased lease key m = elem key (keys_of (get lease m)) ≡ true

add_leased-IsLeased :
    (lease key : ℕ) (m : Map (List ℕ)) → IsLeased lease key (add_leased lease key m)
add_leased-IsLeased lease key m = ground (
  arith,
  get-insert lease lease (set_insert key (keys_of (get lease m))) m,
  elem-set_insert_self key (keys_of (get lease m)),
)

add_leased-keeps :
    (lease key k : ℕ) (m : Map (List ℕ))
    → IsLeased lease key m
    → IsLeased lease key (add_leased lease k m)
add_leased-keeps lease key k m h = ground (
  arith,
  get-insert lease lease (set_insert k (keys_of (get lease m))) m,
  elem-set_insert_keeps key k (keys_of (get lease m)) h,
)

drop_leased-keeps :
    (lease key k : ℕ) (m : Map (List ℕ))
    → key ≢ k
    → IsLeased lease key m
    → IsLeased lease key (drop_leased lease k m)
drop_leased-keeps lease key k m ne h = elim (Option-cases (get lease m)) [
  | inl e ↦ ground arith
  | inr (ks, e) ↦ ground (arith, get-insert lease lease (erase k ks) m, elem-erase_ne key k ks ne)
]

module _ {V R : Type 0} where
  lease_txns-txns :
      (lease : ℕ) (keys : List ℕ) (s : MempoolState V R) → (lease_txns lease keys s).txns ≡ s.txns
  unfolding lease_txns
  lease_txns-txns lease [] s = refl
  lease_txns-txns lease (k ∷ keys) s =
      lease_txns-txns lease keys
        (record s { pool = erase k s.pool; leased = add_leased lease k s.leased })

  lease_txns-keeps :
      (lease key : ℕ) (keys : List ℕ) (s : MempoolState V R)
      → IsLeased lease key s.leased
      → IsLeased lease key (lease_txns lease keys s).leased
  unfolding lease_txns
  lease_txns-keeps lease key [] s h = h
  lease_txns-keeps lease key (k ∷ keys) s h =
      lease_txns-keeps lease key keys _ (add_leased-keeps lease key k s.leased h)

  lease_txns-IsLeased :
      (lease key : ℕ) (keys : List ℕ) (s : MempoolState V R)
      → elem key keys ≡ true
      → IsLeased lease key (lease_txns lease keys s).leased
  unfolding lease_txns
  lease_txns-IsLeased lease key [] s h = absurd (cc)
  lease_txns-IsLeased lease key (k ∷ keys) s h = elim (ℕ_discrete key k) [
    | yes e ↦ lease_txns-keeps lease key keys _ (
        subst (λ x. IsLeased lease key (add_leased lease x s.leased)) e
          (add_leased-IsLeased lease key s.leased))
    | no ne ↦ lease_txns-IsLeased lease key keys _ (ground arith)
  ]

  commit_keys-keeps :
      (lease key : ℕ) (results : List (ℕ × R)) (s : MempoolState V R)
      → elem key (map (λ kr. kr.0) results) ≡ false
      → IsLeased lease key s.leased
      → IsLeased lease key (commit_keys lease results s).leased
  unfolding commit_keys commit_key
  commit_keys-keeps lease key [] s h leased = leased
  commit_keys-keeps lease key ((k, r) ∷ results) s h leased =
      commit_keys-keeps lease key results _ (ground arith)
        (drop_leased-keeps lease key k s.leased (ground arith) leased)

  -- A key that the lease holds and that is not committed is in the queue once the lease has ended.
  commit-queued :
      (lease key : ℕ) (results : List (ℕ × R)) (s : MempoolState V R)
      → elem key (map (λ kr. kr.0) results) ≡ false
      → IsLeased lease key s.leased
      → elem key (commit lease results s).pool ≡ true
  unfolding commit free
  commit-queued lease key results s h leased =
      let s' = commit_keys lease results s in
      elem-push_all key (keys_of (get lease s'.leased)) s'.pool
        (ground (arith, commit_keys-keeps lease key results s h leased))

module _ {V : Type 0} where
  -- The loop comes to a key that names no transaction, when the maximum does not stop it before.
  lease_loop-panics :
      (lease key max_count : ℕ) (m : Map (MempoolTxn V)) (pool : List ℕ) (b : Batch V)
      → get key m ≡ none
      → elem key pool ≡ true
      → length b.txns + length pool ≤ max_count
      → lease_loop lease max_count m pool b ≡ none
  unfolding lease_loop
  lease_loop-panics lease key max_count m [] b absent h le = absurd (cc)
  lease_loop-panics lease key max_count m (k ∷ pool) b absent h le = elim (Option-cases (get k m)) [
    | inl e ↦ ground arith
    | inr (t, e) ↦
        let h' : elem key pool ≡ true = ground (arith, λ (q : key ≡ k). ap (λ x. get x m) q) in
        let b' : Batch V = record b {
          leases = add_leased lease k b.leases;
          conflict_check = t.changes ++ b.conflict_check;
          txns = b.txns ++ (k, t.txn) ∷ [];
        } in
        let longer = length-append {0} b.txns ((k, t.txn) ∷ []) in
        ground (
          arith,
          longer,
          lease_loop-panics lease key max_count m pool b' absent h' (omega arith),
          lease_loop-panics lease key max_count m pool (record b { discard = b.discard ++ k ∷ [] })
              absent h' (omega arith),
          length_pos key pool h',
        )
  ]

module _ {V R : Type 0} where
  unknown_panics :
      (lease key max_count : ℕ) (s : MempoolState V R)
      → get key s.txns ≡ none
      → elem key s.pool ≡ true
      → length s.pool ≤ max_count
      → lease_batch lease max_count s ≡ none
  unfolding lease_batch
  unknown_panics lease key max_count s absent queued room =
      let start : Batch V = record {
        rest = [];
        leases = s.leased;
        txns = [];
        discard = [];
        conflict_check = [];
      } in
      rw
        (
          lease_loop-panics lease key max_count s.txns s.pool start absent queued
              (omega (arith, room)),
          lease_batch,
        )
        refl

  -- If a key that names no transaction is leased by name, alone or among others, into any lease, and
  -- the next call is the `commit` of that lease, of any keys but this one, the key stands in the
  -- queue. If the next call is then a `lease_batch` which may take as many transactions as the queue
  -- has keys, it panics.
  pub lease_batch_panics :
      (lease key next max_count : ℕ) (keys : List ℕ) (results : List (ℕ × R)) (s : MempoolState V R)
      → contains_key key s.txns ≡ false
      → elem key keys ≡ true
      → elem key (map (λ kr. kr.0) results) ≡ false
      → length (commit lease results (lease_txns lease keys s)).pool ≤ max_count
      → let s' = commit lease results (lease_txns lease keys s) in
        (elem key s'.pool ≡ true) × (lease_batch next max_count s' ≡ none)
  lease_batch_panics lease key next max_count keys results s unknown listed kept room =
      let t = lease_txns lease keys s in
      let s' = commit lease results t in
      let queued : elem key s'.pool ≡ true =
        commit-queued lease key results t kept (lease_txns-IsLeased lease key keys s listed) in
      let absent : get key s'.txns ≡ none =
        ground
          (arith, get-commit lease key results t, ap (get key) (lease_txns-txns lease keys s)) in
      (queued, unknown_panics next key max_count s' absent queued room)
