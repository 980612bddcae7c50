-- ===== src/Mempool/Run.antt =====
-- The pool over any sequence of its operations (ciphera/pkg/node/src/mempool.rs).
use zerosats.Prelude.{ℕ, ◌≡◌, arith, true, false, Option, some, List, map, elem, max, take, subst}
use zerosats.Prelude.Maps.{get, contains_key}
use zerosats.Mempool.{MempoolState, keys_of, add, commit, lease_txns, lease_batch, new}
use zerosats.Mempool.Loop.{txns_of}
use zerosats.Mempool.Lease.{lease_batch-eq_of_queue}
use zerosats.Mempool.Orderly.{IsOrderly, add-IsOrderly, commit-IsOrderly, lease_txns-IsOrderly}

module _ {V R : Type 0} where
  -- One call. `free` is private to the pool: it is the end of `commit`.
  pub data Step (s : MempoolState V R) : MempoolState V R → Type 0 where
    adds :
        (key : ℕ) (txn : V) (changes : List ℕ) (sender : Option ℕ)
        → Step s (add key txn changes sender s).0
    -- What is left of the lease has transactions and is not in the queue.
    commits :
        (lease : ℕ) (keys : List (ℕ × R))
        → ((k : ℕ)
            → elem k (keys_of (get lease s.leased)) ≡ true
            → elem k (map (λ kr. kr.0) keys) ≡ false
            → (contains_key k s.txns ≡ true) × (elem k s.pool ≡ false))
        → Step s (commit lease keys s)
    leases : (lease : ℕ) (keys : List ℕ) → Step s (lease_txns lease keys s)
    batches :
        (lease max_count : ℕ) {s' : MempoolState V R} {txns : List (ℕ × V)}
        → lease_batch lease max_count s ≡ some (s', txns)
        → Step s s'

  -- Calls in a row
  pub data Run (s : MempoolState V R) : MempoolState V R → Type 0 where
    none_yet : Run s s
    one_more : {now later : MempoolState V R} → Step now later → Run s now → Run s later

  Step-IsOrderly : {s t : MempoolState V R} → Step s t → IsOrderly s → IsOrderly t
  Step-IsOrderly {s} (adds key txn changes sender) v = add-IsOrderly key txn changes sender s v
  Step-IsOrderly {s} (commits lease keys fit) v = commit-IsOrderly lease keys s v fit
  Step-IsOrderly {s} (leases lease keys) v = lease_txns-IsOrderly lease keys s v
  Step-IsOrderly {s} (batches lease max_count h) v =
      subst IsOrderly (cc (lease_batch-eq_of_queue lease max_count s v.queue))
        (lease_txns-IsOrderly lease (take (max 1 max_count) s.pool) s v)

  new-IsOrderly : IsOrderly {V = V} {R = R} new
  new-IsOrderly = record {
    queue = record { known = λ k h. cc; once = λ k. omega arith; apart = λ c. omega arith };
    kept = λ k. omega arith;
    leases = tt;
    sets = λ lease k. omega arith;
  }

  Run-IsOrderly : {s later : MempoolState V R} → Run s later → IsOrderly s → IsOrderly later
  Run-IsOrderly none_yet v = v
  Run-IsOrderly (one_more st r) v = Step-IsOrderly st (Run-IsOrderly r v)

  -- From the empty pool on, by any number of `add`, `commit`, `lease_txns` and `lease_batch`, of any
  -- keys and for any leases, as long as the keys that a `commit` gives back, those which are under
  -- its lease and which it does not commit, have a transaction and are not in the queue, no
  -- transaction is lost: each one that waits is in the queue or under a lease. The queue has keys
  -- of waiting transactions, each once; no two transactions change the same element; and the next
  -- `lease_batch` does not panic but leases the first transactions of the queue: `max_count` of
  -- them, or one where `max_count` is zero.
  pub Run-lease_batch :
      (s : MempoolState V R) (lease max_count : ℕ)
      → Run new s
      → IsOrderly s
        × (lease_batch lease max_count s
            ≡ some (
              lease_txns lease (take (max 1 max_count) s.pool) s,
              txns_of s.txns (take (max 1 max_count) s.pool),
            ))
  Run-lease_batch s lease max_count r =
      let v : IsOrderly s = Run-IsOrderly r new-IsOrderly in
      (v, lease_batch-eq_of_queue lease max_count s v.queue)
