-- ===== src/Solid/Core/Valid.antt =====
-- What every operation of the core keeps, and the current proposal (core.rs).
use zerosats.Prelude.{
  refl, ◌∙◌, ◌≢◌, ℕ, ◌≤◌, ◌<◌, ◌≡◌, ◌≢◌, some, [], ◌∷◌, arith, ◌==◌, if◌then◌else◌, length,
}
use zerosats.Prelude.Maps.{
  Map, get, insert, remove, get-insert, get-remove, insert-IsMap, remove-IsMap,
}
use zerosats.Solid.Types.{App}
use zerosats.Solid.Proposal.{Proposal}
use zerosats.Solid.Cache.Pending.{height-confirmed}
use zerosats.Solid.Cache.{height, ProposalCache}
use zerosats.Solid.Cache.Pending.{IsValid as IsCache}

module _ {S : Type 0} (app : App S) where
  -- The cache is valid, each proposal has the hash of its manifest, and has validators.
  pub record IsValid (c : ProposalCache S) : Type 0 where
    pub cache : IsCache c
    pub hashed :
        (k : ℕ) (p : Proposal S) → get k c.proposals ≡ some p → app.hash p.manifest.content ≡ k
    pub led : (k : ℕ) (p : Proposal S) → get k c.proposals ≡ some p → 0 < length p.validators

  module _ (c : ProposalCache S) (v : IsValid c) where
    -- A proposal may be replaced by one with the same manifest.
    pub update-IsValid :
        (k : ℕ) (p p' : Proposal S)
        → get k c.proposals ≡ some p
        → p'.hash ≡ p.hash
        → p'.manifest ≡ p.manifest
        → IsValid (record c { proposals = insert k p' c.proposals })
    update-IsValid k p p' s same_hash same =
        let at = λ (j : ℕ). get-insert j k p' c.proposals in
        let own = v.cache.keyed in
        record {
          cache = record {
            keyed = record {
              once = insert-IsMap k p' c.proposals own.once;
              keyed = λ j q e. ground (arith, at j, own.keyed j q, own.keyed k p s);
              small = λ j q e. ground (arith, at j, own.small j q, own.small k p s);
            };
            confirmed = if c.last_confirmed_proposal_hash == k then p' else v.cache.confirmed;
            held = ground (arith, at c.last_confirmed_proposal_hash, v.cache.held);
          };
          hashed = λ j q e. ground (arith, at j, v.hashed j q, v.hashed k p s);
          led = λ j q e. ground (arith, at j, v.led j q, v.led k p s);
        }

    -- A proposal other than the last confirmed one may be removed.
    pub remove-IsValid :
        (k : ℕ)
        → k ≢ c.last_confirmed_proposal_hash
        → IsValid (record c { proposals = remove k c.proposals })
    remove-IsValid k ne =
        let at = λ (j : ℕ). get-remove j k c.proposals in
        let own = v.cache.keyed in
        record {
          cache = record {
            keyed = record {
              once = remove-IsMap k c.proposals own.once;
              keyed = λ j q e. ground (arith, at j, own.keyed j q);
              small = λ j q e. ground (arith, at j, own.small j q);
            };
            confirmed = v.cache.confirmed;
            held = ground (arith, at c.last_confirmed_proposal_hash, v.cache.held);
          };
          hashed = λ j q e. ground (arith, at j, v.hashed j q);
          led = λ j q e. ground (arith, at j, v.led j q);
        }

module _ {S : Type 0} (app : App S) where
  pub update-height :
      (c : ProposalCache S) (v : IsValid app c) (k : ℕ) (p p' : Proposal S)
      → get k c.proposals ≡ some p
      → p'.hash ≡ p.hash
      → p'.manifest ≡ p.manifest
      → height (record c { proposals = insert k p' c.proposals }) ≡ height c
  update-height c v k p p' s same_hash same =
      let v' = update-IsValid app c v k p p' s same_hash same in
      height-confirmed (record c { proposals = insert k p' c.proposals }) v'.cache
      ∙ ground (
        arith,
        v'.cache.held,
        v.cache.held,
        get-insert c.last_confirmed_proposal_hash k p' c.proposals,
        height-confirmed c v.cache,
      )

  pub remove-height :
      (c : ProposalCache S) (v : IsValid app c) (k : ℕ)
      → k ≢ c.last_confirmed_proposal_hash
      → height (record c { proposals = remove k c.proposals }) ≡ height c
  remove-height c v k ne =
      let v' = remove-IsValid app c v k ne in
      height-confirmed (record c { proposals = remove k c.proposals }) v'.cache
      ∙ ground (
        arith,
        v'.cache.held,
        v.cache.held,
        get-remove c.last_confirmed_proposal_hash k c.proposals,
        height-confirmed c v.cache,
      )

  -- A valid cache with a given last confirmed proposal
  pub record IsAt (hash h : ℕ) (c : ProposalCache S) : Type 0 where
    pub valid : IsValid app c
    pub at_hash : c.last_confirmed_proposal_hash ≡ hash
    pub at_height : height c ≡ some h

  pub valid-IsAt :
      (c : ProposalCache S) (v : IsValid app c)
      → IsAt c.last_confirmed_proposal_hash v.cache.confirmed.height c
  valid-IsAt c v = record { valid = v; at_hash = refl; at_height = height-confirmed c v.cache }

  pub update-IsAt :
      (hash h : ℕ) (c : ProposalCache S)
      → IsAt hash h c
      → (k : ℕ) (p p' : Proposal S) → get k c.proposals ≡ some p
      → p'.hash ≡ p.hash
      → p'.manifest ≡ p.manifest
      → IsAt hash h (record c { proposals = insert k p' c.proposals })
  update-IsAt hash h c a k p p' s same_hash same = record {
    valid = update-IsValid app c a.valid k p p' s same_hash same;
    at_hash = a.at_hash;
    at_height = update-height c a.valid k p p' s same_hash same ∙ a.at_height;
  }

  pub move-IsAt :
      (hash h : ℕ) (c c' : ProposalCache S)
      → IsAt hash h c
      → IsValid app c'
      → c'.last_confirmed_proposal_hash ≡ c.last_confirmed_proposal_hash
      → height c' ≡ height c
      → IsAt hash h c'
  move-IsAt hash h c c' a v same_last same_height = record {
    valid = v;
    at_hash = same_last ∙ a.at_hash;
    at_height = same_height ∙ a.at_height;
  }

length-remove_le : {V : Type 0} (k : ℕ) (m : Map V) → length (remove k m) ≤ length m
length-remove_le k [] = omega arith
length-remove_le k ((j, w) ∷ m) = ground (arith, length-remove_le k m)

pub length-remove :
    {V : Type 0} (k : ℕ) (v : V) (m : Map V) → get k m ≡ some v → length (remove k m) < length m
length-remove k v [] h = cc
length-remove k v ((j, w) ∷ m) h = ground (arith, length-remove k v m, length-remove_le k m)
