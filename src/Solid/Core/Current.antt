-- ===== src/Solid/Core/Current.antt =====
-- The current proposal, the one that the node votes for (core.rs).
use zerosats.Prelude.{
  ℕ, zero, suc, ◌<◌, ◌≡◌, refl, ap, ◌∙◌, ◌≢◌, Bool, true, false, Option, none, some, arith, inl,
  inr, ◌⊎◌, Bool-cases, Option-cases, if◌then◌else◌, length,
}
use zerosats.Prelude.Maps.{get, remove, get-remove}
use zerosats.Solid.Types.{App, ok, is_ok}
use zerosats.Solid.Proposal.Validate.{validate_contents-total}
use zerosats.Solid.Proposal.{Proposal, validate_contents}
use zerosats.Solid.Cache.{height, ProposalCache, last_confirmed_proposal, next_pending_proposal}
use zerosats.Solid.Cache.Chain.{stored_at}
use zerosats.Solid.Cache.Pending.{last-confirmed, root_stored}
use zerosats.Solid.Cache.Links.{next_pending_proposal-Follows, next_pending_proposal-total}
use zerosats.Solid.Core.{
  SolidCore, with_proposals, highest_next_pending, is_valid_next, validated_hash_loop,
  validated_current_proposal_hash,
}
use zerosats.Solid.Core.Valid.{IsValid, remove-IsValid, remove-height, length-remove}

module _ {S : Type 0} (app : App S) where
  last-held :
      (c : ProposalCache S) (v : IsValid app c) → last_confirmed_proposal c ≡ some v.cache.confirmed
  last-held c v = last-confirmed c v.cache

  pending-total :
      (s : SolidCore S)
      → IsValid app s.proposals
      → (r : Option (Proposal S)) × (highest_next_pending s ≡ some r)
  unfolding highest_next_pending
  pending-total s v =
      let (r, e) = next_pending_proposal-total s.proposals v.cache 0 (omega arith) in
      elim (Option-cases (highest_next_pending s)) [
        | inl h ↦ absurd (ground (arith, last-held s.proposals v, e))
        | inr found ↦ found
      ]

  pending-next :
      (s : SolidCore S) (p : Proposal S)
      → IsValid app s.proposals
      → highest_next_pending s ≡ some (some p)
      → next_pending_proposal s.proposals 0 ≡ some (some p)
  unfolding highest_next_pending
  pending-next s p v h =
      let (r, e) = next_pending_proposal-total s.proposals v.cache 0 (omega arith) in
      ground (arith, last-held s.proposals v, e)

  contents-total :
      (p last : Proposal S)
      → 0 < length last.validators
      → (b : Bool) × (is_valid_next app p last ≡ some b)
  contents-total p last h =
      let (checked, e) = validate_contents-total app p last h in
      elim (Bool-cases p.is_validated) [
        | inl done ↦ (true, ground arith)
        | inr fresh ↦ (is_ok checked, ground arith)
      ]

  contents-valid :
      (p last : Proposal S)
      → is_valid_next app p last ≡ some true
      → (p.is_validated ≡ true) ⊎ (validate_contents app p last ≡ some ok)
  contents-valid p last h = elim (Bool-cases p.is_validated) [
    | inl done ↦ inl done
    | inr fresh ↦ inr (ground arith)
  ]

  -- What may be the current proposal: the last confirmed one where no other is in line whose skips
  -- are high enough, or else the one that is, if it has passed `validate_contents`.
  pub data IsCurrent (s : SolidCore S) (v : IsValid app s.proposals) (p : Proposal S) : Type 0 where
    confirmed : p ≡ v.cache.confirmed → highest_next_pending s ≡ some none → IsCurrent s v p
    pending :
        highest_next_pending s ≡ some (some p)
        → (p.is_validated ≡ true) ⊎ (validate_contents app p v.cache.confirmed ≡ some ok)
        → IsCurrent s v p

  -- The outcome of the loop.
  pub record Current (s s' : SolidCore S) (hash : ℕ) : Type 0 where
    pub valid : IsValid app s'.proposals
    pub same_last :
        s'.proposals.last_confirmed_proposal_hash ≡ s.proposals.last_confirmed_proposal_hash
    pub same_height : height s'.proposals ≡ height s.proposals
    pub current : Proposal S
    pub found : get hash s'.proposals.proposals ≡ some current
    pub is_current : IsCurrent s' valid current
    pub kept :
        (k : ℕ) (p : Proposal S)
        → get k s'.proposals.proposals ≡ some p
        → get k s.proposals.proposals ≡ some p

  round-none :
      (fuel : ℕ) (s : SolidCore S) (v : IsValid app s.proposals)
      → highest_next_pending s ≡ some none
      → validated_hash_loop app (suc fuel) s ≡ some (s, v.cache.confirmed.hash)
  unfolding validated_hash_loop
  round-none fuel s v h = ground (arith, last-held s.proposals v)

  round-next :
      (fuel : ℕ) (s : SolidCore S) (v : IsValid app s.proposals) (p : Proposal S) (b : Bool)
      → highest_next_pending s ≡ some (some p)
      → is_valid_next app p v.cache.confirmed ≡ some b
      → validated_hash_loop app (suc fuel) s ≡ (
          if b
          then some (s, p.hash)
          else validated_hash_loop app fuel
              (with_proposals (remove p.hash s.proposals.proposals) s))
  unfolding validated_hash_loop
  round-next fuel s v p true h e = ground (arith, last-held s.proposals v)
  round-next fuel s v p false h e = ground (arith, last-held s.proposals v)

  -- The next proposal in line is in the cache, and is not the last confirmed one.
  next-stored :
      (s : SolidCore S) (v : IsValid app s.proposals) (p : Proposal S)
      → next_pending_proposal s.proposals 0 ≡ some (some p)
      → (get p.hash s.proposals.proposals ≡ some p)
        × (p.hash ≢ s.proposals.last_confirmed_proposal_hash)
  next-stored s v p next =
      let follows = next_pending_proposal-Follows s.proposals v.cache p next in
      let stored = stored_at v.cache.keyed follows.stored.0 p follows.stored.1 in
      (stored, λ e. absurd (ground (arith, follows.one_higher, v.cache.held)))

  -- A round that finds the current proposal leaves the state as it is.
  found-Current :
      (s : SolidCore S) (v : IsValid app s.proposals) (p : Proposal S) (hash : ℕ)
      → get hash s.proposals.proposals ≡ some p
      → IsCurrent s v p
      → Current s s hash
  found-Current s v p hash stored is_current = record {
    valid = v;
    same_last = refl;
    same_height = refl;
    current = p;
    found = stored;
    is_current = is_current;
    kept = λ _ _ h. h;
  }

  -- A round that removes a proposal
  removed-Current :
      (s : SolidCore S) (v : IsValid app s.proposals) (p : Proposal S) (s' : SolidCore S) (hash : ℕ)
      → p.hash ≢ s.proposals.last_confirmed_proposal_hash
      → Current (with_proposals (remove p.hash s.proposals.proposals) s) s' hash
      → Current s s' hash
  removed-Current s v p s' hash other c = record {
    valid = c.valid;
    same_last = c.same_last;
    same_height = c.same_height ∙ remove-height app s.proposals v p.hash other;
    current = c.current;
    found = c.found;
    is_current = c.is_current;
    kept = λ k q h. ground (arith, get-remove k p.hash s.proposals.proposals, c.kept k q h);
  }

  -- The loop ends within as many rounds as there are proposals, and finds a current one.
  loop-Current :
      (fuel : ℕ) (s : SolidCore S)
      → IsValid app s.proposals
      → length s.proposals.proposals < fuel
      → (s' : SolidCore S) × (hash : ℕ) × (validated_hash_loop app fuel s ≡ some (s', hash))
        × Current s s' hash
  loop-Current zero s v h = absurd (omega arith)
  loop-Current (suc fuel) s v h =
      let (r, e) = pending-total s v in
      elim (Option-cases r) [
        | inl nobody ↦ (
          s,
          v.cache.confirmed.hash,
          round-none fuel s v (e ∙ ap some nobody),
          found-Current s v v.cache.confirmed v.cache.confirmed.hash
              (root_stored s.proposals v.cache) (confirmed refl (e ∙ ap some nobody)),
        )
        | inr (p, is_p) ↦
            let e' = e ∙ ap some is_p in
            let (stored, other) = next-stored s v p (pending-next s p v e') in
            let has_validators =
              v.led s.proposals.last_confirmed_proposal_hash v.cache.confirmed v.cache.held in
            let (b, checked) = contents-total p v.cache.confirmed has_validators in
            elim (Bool-cases b) [
              | inl good ↦
                  let checked' = checked ∙ ap some good in
                  (
                    s,
                    p.hash,
                    round-next fuel s v p true e' checked',
                    found-Current s v p p.hash stored
                        (pending e' (contents-valid p v.cache.confirmed checked')),
                  )
              | inr bad ↦
                  let smaller = with_proposals (remove p.hash s.proposals.proposals) s in
                  let (s', hash, found, c) =
                    loop-Current fuel smaller (remove-IsValid app s.proposals v p.hash other)
                      (omega (arith, length-remove p.hash p s.proposals.proposals stored)) in
                  (
                    s',
                    hash,
                    round-next fuel s v p false e' (checked ∙ ap some bad) ∙ found,
                    removed-Current s v p s' hash other c,
                  )
            ]
      ]

  -- On a valid state the search for the current proposal does not panic and ends. The state stays
  -- valid, with the same last confirmed proposal and no proposal that was not there before. What is
  -- found is the last confirmed proposal, where no proposal in line has enough skips, or else the
  -- one that has, and this one is marked as validated or passes `validate_contents`.
  pub validated_current_proposal_hash-Current :
      (s : SolidCore S)
      → IsValid app s.proposals
      → (s' : SolidCore S) × (hash : ℕ) × (validated_current_proposal_hash app s ≡ some (s', hash))
        × Current s s' hash
  unfolding validated_current_proposal_hash
  validated_current_proposal_hash-Current s v =
      loop-Current (suc (length s.proposals.proposals)) s v (omega arith)
