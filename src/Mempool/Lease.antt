-- ===== src/Mempool/Lease.antt =====
-- `lease_batch` of mempool.rs on a valid pool: it takes the oldest transactions, as many as asked,
-- and never panics or finds a conflict.
use zerosats.Prelude.{
  ℕ, zero, suc, ◌-◌, ◌≤◌, max, ◌≡◌, refl, ap, subst, true, some, List, [], ◌∷◌, ◌++◌, arith, count,
  elem, take, drop, erase, elem_pos,
}
use mathlib.Core.List.{append-nil}
use zerosats.Prelude.Maps.{contains_key}
use zerosats.Mempool.{MempoolState, Batch, add_leased, lease_batch, lease_txns}
use zerosats.Mempool.Places.{present_le, owners, total-remove}
use zerosats.Mempool.Valid.{IsValid, lease_txns-IsValid}
use zerosats.Mempool.Loop.{add_all, take-All, txns_of, IsRunning, Leased, lease_loop-Leased}

module _ {V R : Type 0} where
  -- Keys at the head of the queue are leased by taking them off it.
  lease_txns-take :
      (lease n : ℕ) (pool : List ℕ) (s : MempoolState V R)
      → s.pool ≡ pool
      → lease_txns lease (take n pool) s
        ≡ record s { pool = drop n pool; leased = add_all lease (take n pool) s.leased }
  unfolding lease_txns
  lease_txns-take lease zero pool s h = ground arith
  lease_txns-take lease (suc n) [] s h = ground arith
  lease_txns-take lease (suc n) (key ∷ pool) s h =
      lease_txns-take lease n pool
        (record s { pool = erase key s.pool; leased = add_leased lease key s.leased })
        (rw h (ground arith))

  start_of : MempoolState V R → Batch V
  start_of s = record { rest = []; leases = s.leased; txns = []; discard = []; conflict_check = [] }

  -- The queue has keys of transactions, each once, and no two transactions change the same element.
  pub record IsQueue (s : MempoolState V R) : Type 0 where
    pub known : (k : ℕ) → elem k s.pool ≡ true → contains_key k s.txns ≡ true
    pub once : (k : ℕ) → count k s.pool ≤ 1
    pub apart : (c : ℕ) → owners c s.txns ≤ 1

  pub IsValid-IsQueue : {s : MempoolState V R} → IsValid s → IsQueue s
  IsValid-IsQueue {s} v = record {
    known = λ k h. ground (arith, v.placed k, elem_pos k s.pool);
    once = λ k. ground (arith, v.placed k);
    apart = v.apart;
  }

  IsRunning-start : (s : MempoolState V R) → IsQueue s → IsRunning s.txns s.pool (start_of s)
  unfolding start_of
  IsRunning-start s q = record {
    known = q.known;
    once = q.once;
    apart = q.apart;
    taken = λ c h. absurd (cc);
  }

  -- A batch that has taken `n` keys is what `lease_txns` makes of them.
  batch-eq :
      (lease n : ℕ) (s : MempoolState V R) (b : Batch V)
      → Leased lease n s.txns s.pool (start_of s) b
      → ◌≡◌ {A = MempoolState V R × List (ℕ × V)}
          (record s { leased = b.leases; pool = b.rest ++ b.discard }, b.txns)
          (lease_txns lease (take n s.pool) s, txns_of s.txns (take n s.pool))
  unfolding start_of
  batch-eq lease n s b d = ground (
    arith,
    d.rest,
    d.discard,
    d.leases,
    d.txns,
    lease_txns-take lease n s.pool s refl,
    append-nil (drop n s.pool),
  )

  lease_batch_at :
      (lease max_count n : ℕ) (s : MempoolState V R)
      → IsQueue s
      → suc n ≡ max 1 max_count
      → let keys = take (suc n) s.pool in
        lease_batch lease max_count s ≡ some (lease_txns lease keys s, txns_of s.txns keys)
  unfolding lease_batch start_of
  lease_batch_at lease max_count n s v h =
      let (b, p, d) =
        lease_loop-Leased lease max_count n s.txns s.pool (start_of s) (IsRunning-start s v)
          (omega arith) in
      rw (p, lease_batch) (ap some (batch-eq lease (suc n) s b d))

  -- `lease_batch` depends on the queue and the changes alone, not on the leases.
  pub lease_batch-eq_of_queue :
      (lease max_count : ℕ) (s : MempoolState V R)
      → IsQueue s
      → let keys = take (max 1 max_count) s.pool in
        lease_batch lease max_count s ≡ some (lease_txns lease keys s, txns_of s.txns keys)
  lease_batch-eq_of_queue lease max_count s q =
      let e : suc (max 1 max_count - 1) ≡ max 1 max_count = omega arith in
      subst
        (λ n.
          let keys = take n s.pool in
          lease_batch lease max_count s ≡ some (lease_txns lease keys s, txns_of s.txns keys))
        e (lease_batch_at lease max_count (max 1 max_count - 1) s q e)

  -- On a valid pool `lease_batch` does not panic, discards nothing, and leases the transactions at
  -- the head of the queue: `max_count` of them, but one where `max_count` is zero, or all if there
  -- are fewer. The state is as after `lease_txns` of their keys.
  pub lease_batch-eq-lease_txns :
      (lease max_count : ℕ) (s : MempoolState V R)
      → IsValid s
      → let keys = take (max 1 max_count) s.pool in
        lease_batch lease max_count s ≡ some (lease_txns lease keys s, txns_of s.txns keys)
  lease_batch-eq-lease_txns lease max_count s v =
      lease_batch-eq_of_queue lease max_count s (IsValid-IsQueue v)

  -- A batch that is leased from a valid pool leaves it valid.
  pub lease_batch-IsValid :
      (lease max_count : ℕ) (s : MempoolState V R)
      → IsValid s
      → (s' : MempoolState V R) (txns : List (ℕ × V))
      → lease_batch lease max_count s ≡ some (s', txns)
      → IsValid s'
  lease_batch-IsValid lease max_count s v s' txns h =
      let keys = take (max 1 max_count) s.pool in
      subst IsValid (cc (lease_batch-eq-lease_txns lease max_count s v)) (
        lease_txns-IsValid lease keys s v (
          take-All (max 1 max_count) s.pool λ k e. (
            ground (arith, v.placed k, elem_pos k s.pool),
            omega (
              arith,
              v.placed k,
              present_le k s.txns,
              elem_pos k s.pool e,
              total-remove k lease s.leased v.leases,
            ),
          )))
