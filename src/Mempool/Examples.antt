-- ===== src/Mempool/Examples.antt =====
-- The pool of mempool.rs at concrete inputs.
use zerosats.Prelude.{ℕ, ◌≡◌, refl, ◌↔◌, true, false, none, some, [], ◌∷◌, arith, elem}
use zerosats.Prelude.Maps.{contains_key}
use zerosats.Mempool.{
  MempoolState, new, ok, add, commit, commit_keys, commit_key, free, lease_txns, lease_batch,
  lease_loop,
}
use zerosats.Mempool.Places.{owners}
use zerosats.Mempool.Valid.{IsValid, add-IsValid}
use zerosats.Mempool.Lease.{lease_batch-eq-lease_txns}
use zerosats.Mempool.Orderly.{IsOrderly}
use zerosats.Mempool.Run.{Run, none_yet, one_more, adds, batches, commits, leases, Run-lease_batch}
use zerosats.Prelude.{max, take, subst}
use zerosats.Mempool.Loop.{txns_of}
use zerosats.Mempool.Panic.{lease_batch_panics}
use zerosats.Mempool.Admission.{add-eq-ok_iff}

abbrev empty_pool : MempoolState ℕ ℕ
empty_pool = new

empty_pool-IsValid : IsValid empty_pool
empty_pool-IsValid = record { leases = tt; placed = λ k. refl; apart = λ c. omega arith }

-- Transactions 1 and 2; the second one has a client on channel 7.
abbrev two_txns : MempoolState ℕ ℕ
two_txns = record {
  txns =
      (1, record { txn = 100; sender = none; changes = 11 ∷ [] })
      ∷ (2, record { txn = 200; sender = some 7; changes = 21 ∷ 22 ∷ [] })
      ∷ [];
  pool = 1 ∷ 2 ∷ [];
  leased = [];
  sent = [];
}

two_txns-added :
    (add 2 200 (21 ∷ 22 ∷ []) (some 7) (add 1 100 (11 ∷ []) none empty_pool).0).0 ≡ two_txns
unfolding add
two_txns-added = refl

two_txns-IsValid : IsValid two_txns
two_txns-IsValid = rw two_txns-added at (
    add-IsValid 2 200 (21 ∷ 22 ∷ []) (some 7) (add 1 100 (11 ∷ []) none empty_pool).0
      (add-IsValid 1 100 (11 ∷ []) none empty_pool empty_pool-IsValid))

conflict_refused : (add 3 300 (22 ∷ []) none two_txns).0 ≡ two_txns
unfolding add
conflict_refused = refl

commit_notifies : commit 5 ((2, 9) ∷ []) (lease_txns 5 (1 ∷ 2 ∷ []) two_txns) ≡ record {
  txns = (1, record { txn = 100; sender = none; changes = 11 ∷ [] }) ∷ [];
  pool = 1 ∷ [];
  leased = [];
  sent = (7, 9) ∷ [];
}
unfolding add commit commit_keys commit_key free lease_txns
commit_notifies = refl

lease_batch-eq-lease_txns_example :
    lease_batch 5 1 two_txns ≡ some (lease_txns 5 (1 ∷ []) two_txns, (1, 100) ∷ [])
lease_batch-eq-lease_txns_example = lease_batch-eq-lease_txns 5 1 two_txns two_txns-IsValid

-- The block of lease 5 names the unknown key 3 and the key 1, and only 1 is committed.
lease_batch_panics_example :
    let s' = commit 5 ((1, 9) ∷ []) (lease_txns 5 (3 ∷ 1 ∷ []) two_txns) in
    (elem 3 s'.pool ≡ true) × (lease_batch 6 10 s' ≡ none)
unfolding commit commit_keys commit_key free lease_txns
lease_batch_panics_example =
    lease_batch_panics 5 3 6 10 (3 ∷ 1 ∷ []) ((1, 9) ∷ []) two_txns refl refl refl (omega arith)

add-eq-ok_iff_example : ((add 3 300 (31 ∷ []) none two_txns).1 ≡ ok) ↔ (
    (contains_key 3 two_txns.txns ≡ false)
    × ((c : ℕ) → elem c (31 ∷ []) ≡ true → owners c two_txns.txns ≡ 0))
add-eq-ok_iff_example = add-eq-ok_iff 3 300 (31 ∷ []) none two_txns

-- Transaction 1 is under lease 4.
abbrev one_leased : MempoolState ℕ ℕ
one_leased = record two_txns { pool = 2 ∷ []; leased = (4, 1 ∷ []) ∷ [] }

one_leased-batch : lease_batch 4 1 two_txns ≡ some (one_leased, (1, 100) ∷ [])
unfolding lease_batch lease_loop
one_leased-batch = refl

-- Lease 4 has ended with its transaction committed; a block with 2 and the unknown key 3 has taken
-- lease 5, and only 3 has been committed, so 2 is in the queue again.
abbrev two_waits : MempoolState ℕ ℕ
two_waits = record {
  txns = (2, record { txn = 200; sender = some 7; changes = 21 ∷ 22 ∷ [] }) ∷ [];
  pool = 2 ∷ [];
  leased = [];
  sent = [];
}

two_waits-used :
    commit 5 ((3, 8) ∷ []) (lease_txns 5 (2 ∷ 3 ∷ []) (commit 4 ((1, 9) ∷ []) one_leased))
    ≡ two_waits
unfolding commit commit_keys commit_key free lease_txns
two_waits-used = refl

four_steps : Run empty_pool (commit 4 ((1, 9) ∷ []) one_leased)
four_steps =
    let added : Run empty_pool
        (add 2 200 (21 ∷ 22 ∷ []) (some 7) (add 1 100 (11 ∷ []) none empty_pool).0).0 =
      one_more (adds 2 200 (21 ∷ 22 ∷ []) (some 7))
        (one_more (adds 1 100 (11 ∷ []) none) none_yet) in
    let taken : Run empty_pool one_leased =
      one_more (batches 4 1 one_leased-batch) (subst (Run empty_pool) two_txns-added added) in
    one_more (commits 4 ((1, 9) ∷ []) (λ k h ne. absurd (ground arith))) taken

six_steps :
    Run empty_pool
      (commit 5 ((3, 8) ∷ []) (lease_txns 5 (2 ∷ 3 ∷ []) (commit 4 ((1, 9) ∷ []) one_leased)))
unfolding commit commit_keys commit_key free lease_txns
six_steps =
    one_more (commits 5 ((3, 8) ∷ []) (λ k h ne. ground arith))
      (one_more (leases 5 (2 ∷ 3 ∷ [])) four_steps)

Run-lease_batch_example :
    IsOrderly two_waits
    × (lease_batch 6 1 two_waits
        ≡ some (
          lease_txns 6 (take (max 1 1) two_waits.pool) two_waits,
          txns_of two_waits.txns (take (max 1 1) two_waits.pool),
        ))
Run-lease_batch_example =
    Run-lease_batch two_waits 6 1 (subst (Run empty_pool) two_waits-used six_steps)
