-- ===== src/Solid/Cache/Links.antt =====
-- How the pending proposals hang together (cache.rs).
use zerosats.Prelude.{
  ℕ, ◌+◌, ◌≤◌, ◌≡◌, sym, ap, ◌∙◌, subst, Option, none, some, arith, inl, inr, dec_lt,
}
use zerosats.Prelude.Maps.{get}
use zerosats.Solid.Proposal.{Proposal}
use zerosats.Solid.Cache.{ProposalCache, next_pending_proposal}
use zerosats.Solid.Cache.Chain.{Descends, here}
use zerosats.Solid.Cache.Pending.{IsValid}
use zerosats.Solid.Cache.Next.{
  Best, max_continuous_proposal-Best, next_none, next_low, next_walk, neighbours, steps_pos,
}

some_inj {ℓ} : {A : Type ℓ} {a b : A} → ◌≡◌ {A = Option A} (some a) (some b) → a ≡ b
some_inj h = cc

module _ {S : Type 0} (c : ProposalCache S) (v : IsValid c) where
  -- A proposal that follows the last confirmed one.
  pub record Follows (p : Proposal S) : Type 0 where
    pub names_confirmed : p.last_proposal_hash ≡ c.last_confirmed_proposal_hash
    pub one_higher : p.height ≡ v.confirmed.height + 1
    pub stored : (k : ℕ) × (get k c.proposals ≡ some p)

  -- A proposal that follows another one
  pub record NextOf (p q : Proposal S) : Type 0 where
    pub names : q.last_proposal_hash ≡ p.hash
    pub one_more : q.height ≡ p.height + 1

  Descends-root : {r p : Proposal S} → Descends c.proposals r 0 p → p ≡ r
  Descends-root (here e) = e

  first_of_Best :
      (b : Proposal S) (is_best : Best c v b)
      → let nb = neighbours c v b is_best 0 (steps_pos c v b is_best) in
        (next_pending_proposal c 0 ≡ some (some nb.upper)) × Follows nb.upper
  first_of_Best b is_best =
      let nb = neighbours c v b is_best 0 (steps_pos c v b is_best) in
      let root : nb.lower ≡ v.confirmed = Descends-root nb.chain in
      let named : get nb.upper.last_proposal_hash c.proposals ≡ some v.confirmed =
        nb.linked ∙ ap some root in
      (
        next_walk c v b is_best 0 (omega arith) (steps_pos c v b is_best) ∙ nb.to_upper,
        record {
          names_confirmed =
              sym (v.keyed.keyed nb.upper.last_proposal_hash v.confirmed named)
              ∙ v.keyed.keyed c.last_confirmed_proposal_hash v.confirmed v.held;
          one_higher = omega (arith, nb.next_height, ap (λ (p : Proposal S). p.height) root);
          stored = nb.held;
        },
      )

  -- The next proposal in line of a valid cache is held, names the last confirmed one, and is one
  -- higher.
  pub next_pending_proposal-Follows :
      (p : Proposal S) → next_pending_proposal c 0 ≡ some (some p) → Follows p
  next_pending_proposal-Follows p h = elim (max_continuous_proposal-Best c v) [
    | inl nobody ↦ absurd (cc (next_none c v nobody 0))
    | inr (b, is_best) ↦
        let (found, follows) = first_of_Best b is_best in
        subst Follows (some_inj (some_inj (sym found ∙ h))) follows
  ]

  -- If a valid cache has a proposal after the next one in line, then it has a next one, which is
  -- the one that the other names, and the other is one higher.
  pub next_pending_proposal-NextOf :
      (q : Proposal S)
      → next_pending_proposal c 1 ≡ some (some q)
      → (p : Proposal S) × (next_pending_proposal c 0 ≡ some (some p)) × NextOf p q
  next_pending_proposal-NextOf q h = elim (max_continuous_proposal-Best c v) [
    | inl nobody ↦ absurd (cc (next_none c v nobody 1))
    | inr (b, is_best) ↦ elim (dec_lt 1 is_best.candidate.steps) [
      | no short ↦ absurd (cc (next_low c v b is_best 1 (omega arith) (omega arith)))
      | yes long ↦
          let nb = neighbours c v b is_best 1 long in
          let found = next_walk c v b is_best 1 (omega arith) long ∙ nb.to_upper in
          let same : nb.upper ≡ q = some_inj (some_inj (sym found ∙ h)) in
          (
            nb.lower,
            next_walk c v b is_best 0 (omega arith) (steps_pos c v b is_best) ∙ nb.to_lower,
            subst (NextOf nb.lower) same (record {
              names = sym (v.keyed.keyed nb.upper.last_proposal_hash nb.lower nb.linked);
              one_more = omega (arith, nb.next_height);
            }),
          )
    ]
  ]

  -- On a valid cache `next_pending_proposal` answers for the offsets zero and one: it does not
  -- panic, and its loops end.
  pub next_pending_proposal-total :
      (offset : ℕ)
      → offset ≤ 1
      → (r : Option (Proposal S)) × (next_pending_proposal c offset ≡ some r)
  next_pending_proposal-total offset le = elim (max_continuous_proposal-Best c v) [
    | inl nobody ↦ (none, next_none c v nobody offset)
    | inr (b, is_best) ↦ elim (dec_lt offset is_best.candidate.steps) [
      | no short ↦ (none, next_low c v b is_best offset le (omega arith))
      | yes long ↦
          let nb = neighbours c v b is_best offset long in
          (some nb.upper, next_walk c v b is_best offset le long ∙ nb.to_upper)
    ]
  ]
