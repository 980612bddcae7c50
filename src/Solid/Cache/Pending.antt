-- ===== src/Solid/Cache/Pending.antt =====
-- The proposal that is next in line for confirmation, and the one after it (cache.rs).
use zerosats.Prelude.{ℕ, suc, ◌≡◌, ◌↔◌, Bool, true, false, some, arith, inl, inr, Option-cases}
use zerosats.Prelude.Maps.{get}
use zerosats.Solid.Proposal.{Proposal}
use zerosats.Solid.Cache.{ProposalCache, is_decendent, last_confirmed_proposal, height}
use zerosats.Solid.Cache.Chain.{
  IsKeyed, stored_at, Descends, descends_loop_sound, descends_loop_complete, descends_loop-total,
}

-- The proposals of the cache are keyed, and the last confirmed one is among them.
pub record IsValid {S : Type 0} (c : ProposalCache S) : Type 0 where
  pub keyed : IsKeyed c.proposals
  pub confirmed : Proposal S
  pub held : get c.last_confirmed_proposal_hash c.proposals ≡ some confirmed

module _ {S : Type 0} (c : ProposalCache S) (v : IsValid c) where
  pub confirmed-hash : v.confirmed.hash ≡ c.last_confirmed_proposal_hash
  confirmed-hash = v.keyed.keyed c.last_confirmed_proposal_hash v.confirmed v.held

  pub root_stored : get v.confirmed.hash c.proposals ≡ some v.confirmed
  root_stored = stored_at v.keyed c.last_confirmed_proposal_hash v.confirmed v.held

  pub last-confirmed : last_confirmed_proposal c ≡ some v.confirmed
  unfolding last_confirmed_proposal
  last-confirmed = v.held

  pub height-confirmed : height c ≡ some v.confirmed.height
  unfolding height last_confirmed_proposal
  height-confirmed = rw v.held

  pub is_decendent-total :
      (p : Proposal S)
      → (b : Bool) × (is_decendent c c.last_confirmed_proposal_hash p.hash ≡ some b)
  unfolding is_decendent
  is_decendent-total p = elim (Option-cases (get p.hash c.proposals)) [
    | inl e ↦ (false, ground arith)
    | inr (q, e) ↦
        let (b, r) =
          descends_loop-total v.keyed c.last_confirmed_proposal_hash (suc q.height) q
            (omega arith) in
        (b, ground arith)
  ]

  -- For a proposal of a valid cache, `is_decendent` says yes exactly when a chain of proposals,
  -- each one higher than the one that it names, leads from the last confirmed proposal to it.
  pub is_decendent_iff :
      (p : Proposal S)
      → get p.hash c.proposals ≡ some p
      → (is_decendent c c.last_confirmed_proposal_hash p.hash ≡ some true)
        ↔ ((n : ℕ) × Descends c.proposals v.confirmed n p)
  unfolding is_decendent
  is_decendent_iff p stored = (
    λ h.
        descends_loop_sound v.keyed root_stored (suc p.height) p stored
          (ground (arith, confirmed-hash)),
    λ nd. ground (
      arith,
      confirmed-hash,
      descends_loop_complete v.keyed root_stored (suc p.height) nd.0 p (omega arith) nd.1,
    ),
  )
