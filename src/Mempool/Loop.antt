-- ===== src/Mempool/Loop.antt =====
-- The loop of `lease_batch` of mempool.rs on a queue without conflicts.
use zerosats.Prelude.{
  ℕ, zero, suc, ◌-◌, ◌≤◌, max, ◌≡◌, refl, sym, ◌∙◌, ◌≢◌, true, false, none, some, List, [], ◌∷◌,
  ◌++◌, arith, All, count, elem, length, take, drop, length-append, Option-cases, Bool-cases, inl,
  inr, elem-append,
}
use mathlib.Core.List.{append_assoc, append-nil}
use zerosats.Prelude.Maps.{Map, get, contains_key}
use zerosats.Mempool.{MempoolTxn, Batch, any_elem, add_leased, lease_loop}
use zerosats.Mempool.Places.{owners, owners_two}

-- A lease that takes several keys, one after the other.
abbrev pub add_all : ℕ → List ℕ → Map (List ℕ) → Map (List ℕ)
add_all lease [] m = m
add_all lease (k ∷ ks) m = add_all lease ks (add_leased lease k m)

any_elem-witness :
    (cs set : List ℕ) → any_elem cs set ≡ true → (c : ℕ) × (elem c cs ≡ true) × (elem c set ≡ true)
any_elem-witness [] set h = absurd (cc)
any_elem-witness (c ∷ cs) set h = elim (Bool-cases (elem c set)) [
  | inl e ↦ (c, ground arith, e)
  | inr e ↦ let (d, p, q) = any_elem-witness cs set (ground arith) in (d, ground arith, q)
]

ne_of_absent : (k key : ℕ) (pool : List ℕ) → count k (key ∷ pool) ≡ 0 → k ≢ key
ne_of_absent k key pool h = ground arith

pub take-All :
    {P : ℕ → Type 0} (n : ℕ) (xs : List ℕ) → ((k : ℕ) → elem k xs ≡ true → P k) → All P (take n xs)
take-All zero xs h = tt
take-All (suc n) [] h = tt
take-All (suc n) (x ∷ xs) h = (h x (ground arith), take-All n xs (λ k e. h k (ground arith)))

module _ {V : Type 0} where
  -- The keys with their transactions.
  abbrev pub txns_of : Map (MempoolTxn V) → List ℕ → List (ℕ × V)
  txns_of m [] = []
  txns_of m (k ∷ ks) = elim (get k m) [ none ↦ txns_of m ks | some t ↦ (k, t.txn) ∷ txns_of m ks ]

  -- What holds at each round: the queue has known keys, each once, and a change that has been
  -- leased belongs to a transaction which is no longer in the queue.
  pub record IsRunning (m : Map (MempoolTxn V)) (pool : List ℕ) (b : Batch V) : Type 0 where
    pub known : (k : ℕ) → elem k pool ≡ true → contains_key k m ≡ true
    pub once : (k : ℕ) → count k pool ≤ 1
    pub apart : (c : ℕ) → owners c m ≤ 1
    pub taken :
        (c : ℕ)
        → elem c b.conflict_check ≡ true
        → (k : ℕ) × (t : MempoolTxn V) × (get k m ≡ some t)
          × (elem c t.changes ≡ true)
          × (count k pool ≡ 0)

  -- Nothing that the queue still holds conflicts with what has been leased.
  no_conflict :
      (m : Map (MempoolTxn V)) (key : ℕ) (pool : List ℕ) (b : Batch V) (t : MempoolTxn V)
      → IsRunning m (key ∷ pool) b
      → get key m ≡ some t
      → any_elem t.changes b.conflict_check ≡ false
  no_conflict m key pool b t r e = elim (Bool-cases (any_elem t.changes b.conflict_check)) [
    | inl hit ↦
        let (c, p, q) = any_elem-witness t.changes b.conflict_check hit in
        let (k, u, eu, pu, gone) = r.taken c q in
        absurd (
          omega
            (arith, r.apart c, owners_two c k key u t m (ne_of_absent k key pool gone) eu e pu p))
    | inr miss ↦ miss
  ]

  IsRunning-next :
      (lease : ℕ) (m : Map (MempoolTxn V)) (key : ℕ) (pool : List ℕ) (b b' : Batch V)
      (t : MempoolTxn V)
      → IsRunning m (key ∷ pool) b
      → get key m ≡ some t
      → b'.conflict_check ≡ t.changes ++ b.conflict_check
      → IsRunning m pool b'
  IsRunning-next lease m key pool b b' t r e e' = record {
    known = λ k h. r.known k (ground arith);
    once = λ k. ground (arith, r.once k);
    apart = r.apart;
    taken = λ c h. elim (Bool-cases (elem c t.changes)) [
      | inl p ↦ (key, t, e, p, ground (arith, r.once key))
      | inr p ↦
          let (k, u, eu, pu, gone) =
            r.taken c (ground (arith, elem-append c t.changes b.conflict_check)) in
          (k, u, eu, pu, omega arith)
    ];
  }

  -- What the loop has done when it ends, after `n` more transactions.
  pub record Leased (lease n : ℕ) (m : Map (MempoolTxn V)) (pool : List ℕ) (b b' : Batch V)
      : Type 0 where
    pub rest : b'.rest ≡ drop n pool
    pub discard : b'.discard ≡ b.discard
    pub leases : b'.leases ≡ add_all lease (take n pool) b.leases
    pub txns : b'.txns ≡ b.txns ++ txns_of m (take n pool)

  -- The batch after the transaction `t` of `key`.
  abbrev extend : ℕ → ℕ → MempoolTxn V → Batch V → Batch V
  extend lease key t b = record b {
    leases = add_leased lease key b.leases;
    conflict_check = t.changes ++ b.conflict_check;
    txns = b.txns ++ (key, t.txn) ∷ [];
  }

  Leased-last :
      (lease key : ℕ) (m : Map (MempoolTxn V)) (pool : List ℕ) (b : Batch V) (t : MempoolTxn V)
      → get key m ≡ some t
      → Leased lease 1 m (key ∷ pool) b (record (extend lease key t b) { rest = pool })
  Leased-last lease key m pool b t e = record {
    rest = refl;
    discard = refl;
    leases = refl;
    txns = rw (e, txns_of);
  }

  Leased-more :
      (lease key n : ℕ) (m : Map (MempoolTxn V)) (pool : List ℕ) (b b' : Batch V) (t : MempoolTxn V)
      → get key m ≡ some t
      → Leased lease (suc n) m pool (extend lease key t b) b'
      → Leased lease (suc (suc n)) m (key ∷ pool) b b'
  Leased-more lease key n m pool b b' t e d = record {
    rest = d.rest;
    discard = d.discard;
    leases = d.leases;
    txns =
        d.txns
        ∙ rw (e, txns_of) (append_assoc b.txns ((key, t.txn) ∷ []) (txns_of m (take (suc n) pool)));
  }

  pub lease_loop-Leased :
      (lease max_count n : ℕ) (m : Map (MempoolTxn V)) (pool : List ℕ) (b : Batch V)
      → IsRunning m pool b
      → suc n ≡ max 1 (max_count - length b.txns)
      → (b' : Batch V) × (lease_loop lease max_count m pool b ≡ some b')
        × Leased lease (suc n) m pool b b'
  unfolding lease_loop
  lease_loop-Leased lease max_count n m [] b r h = (
    record b { rest = [] },
    refl,
    record { rest = refl; discard = refl; leases = refl; txns = sym (append-nil b.txns) },
  )
  lease_loop-Leased lease max_count zero m (key ∷ pool) b r h = elim (Option-cases (get key m)) [
    | inl e ↦ absurd (ground (arith, r.known key))
    | inr (t, e) ↦ (
      record (extend lease key t b) { rest = pool },
      ground (arith, no_conflict m key pool b t r e, length-append {0} b.txns ((key, t.txn) ∷ [])),
      Leased-last lease key m pool b t e,
    )
  ]
  lease_loop-Leased lease max_count (suc n) m (key ∷ pool) b r h = elim (Option-cases (get key m)) [
    | inl e ↦ absurd (ground (arith, r.known key))
    | inr (t, e) ↦
        let longer = length-append {0} b.txns ((key, t.txn) ∷ []) in
        let (b', p, d) =
          lease_loop-Leased lease max_count n m pool (extend lease key t b)
            (IsRunning-next lease m key pool b (extend lease key t b) t r e refl) (omega arith) in
        (
          b',
          ground (arith, no_conflict m key pool b t r e),
          Leased-more lease key n m pool b b' t e d,
        )
  ]
