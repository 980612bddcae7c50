-- ===== src/Solid/Cache/Store.antt =====
-- What is held in a new cache, and once a proposal is stored (cache.rs).
use zerosats.Prelude.{
  ℕ, ◌+◌, ◌^◌, ◌<◌, ◌≡◌, refl, true, false, none, some, [], arith, ◌==◌, if◌then◌else◌,
}
use zerosats.Prelude.Maps.{Map, get, insert, get-insert, insert-IsMap}
use zerosats.Solid.Proposal.{Proposal}
use zerosats.Solid.Cache.{ProposalCache, new, store, contains}
use zerosats.Solid.Cache.Chain.{IsKeyed}
use zerosats.Solid.Cache.Pending.{IsValid}

module _ {S : Type 0} where
  insert-IsKeyed :
      (p : Proposal S) (m : Map (Proposal S))
      → p.height + 2 < 2 ^ 64
      → IsKeyed m
      → IsKeyed (insert p.hash p m)
  insert-IsKeyed p m b v = record {
    once = insert-IsMap p.hash p m v.once;
    keyed = λ k q e. ground (arith, get-insert k p.hash p m, v.keyed k q);
    small = λ k q e. ground (arith, get-insert k p.hash p m, v.small k q);
  }

  -- A new cache is valid.
  pub new-IsValid :
      (p : Proposal S) (cache_size : ℕ) → p.height + 2 < 2 ^ 64 → IsValid (new p cache_size)
  unfolding new
  new-IsValid p cache_size b = record {
    keyed = insert-IsKeyed p [] b (record { once = tt; keyed = λ k q e. cc; small = λ k q e. cc });
    confirmed = p;
    held = ground arith;
  }

  -- Storing a proposal whose height is two below the bound keeps the cache valid.
  pub store-IsValid :
      (p : Proposal S) (c : ProposalCache S)
      → p.height + 2 < 2 ^ 64
      → IsValid c
      → IsValid (store p c)
  unfolding store
  store-IsValid p c b v = record {
    keyed = insert-IsKeyed p c.proposals b v.keyed;
    confirmed = if c.last_confirmed_proposal_hash == p.hash then p else v.confirmed;
    held = ground (arith, get-insert c.last_confirmed_proposal_hash p.hash p c.proposals, v.held);
  }

  pub get-store :
      (k : ℕ) (p : Proposal S) (c : ProposalCache S)
      → get k (store p c).proposals ≡ (if k == p.hash then some p else get k c.proposals)
  unfolding store
  get-store k p c = get-insert k p.hash p c.proposals

  pub contains-store : (p : Proposal S) (c : ProposalCache S) → contains (store p c) p.hash ≡ true
  unfolding contains store
  contains-store p c = ground (arith, get-insert p.hash p.hash p c.proposals)

  pub last-store :
      (p : Proposal S) (c : ProposalCache S)
      → (store p c).last_confirmed_proposal_hash ≡ c.last_confirmed_proposal_hash
  unfolding store
  last-store p c = refl

  pub get-contains : (k : ℕ) (c : ProposalCache S) → contains c k ≡ false → get k c.proposals ≡ none
  unfolding contains
  get-contains k c e = ground arith

  pub last-new :
      (p : Proposal S) (cache_size : ℕ) → (new p cache_size).last_confirmed_proposal_hash ≡ p.hash
  unfolding new
  last-new p cache_size = refl

  pub get-new :
      (k : ℕ) (p q : Proposal S) (cache_size : ℕ)
      → get k (new p cache_size).proposals ≡ some q
      → (k ≡ p.hash) × (q ≡ p)
  unfolding new
  get-new k p q cache_size e = (ground arith, ground arith)
