-- ===== src/Solid/Core/Receive.antt =====
-- How a proposal from the network is received (core.rs, `receive_proposal`).
use zerosats.Prelude.{
  none, sym, ap, ◌∙◌, refl, ℕ, ◌+◌, ◌^◌, ◌≤◌, ◌<◌, ◌≡◌, refl, sym, ap, ◌∙◌, subst, ◌≢◌, ◌↔◌, true,
  false, some, List, [], ◌∷◌, arith, inl, inr, Bool-cases, ltb, if◌then◌else◌, length,
}
use zerosats.Prelude.Maps.{get, remove}
use zerosats.Solid.Config.{AcceptThreshold}
use zerosats.Solid.Types.{
  Check-cases, ProposalAccept, Manifest, Error, Check, ok, err, App, proposal_already_exists,
  proposal_height_too_low,
}
use zerosats.Solid.Proposal.{Proposal, new as new_proposal, validate_structure}
use zerosats.Solid.Proposal.Validate.{hash-new, manifest-new}
use zerosats.Solid.Proposal.Votes.{add_accept-total}
use zerosats.Solid.Cache.{new as new_cache, ProposalCache, store, contains, height}
use zerosats.Solid.Cache.Pending.{height-confirmed}
use zerosats.Solid.Cache.Store.{
  store-IsValid, contains-store, get-store, last-store, get-contains, new-IsValid, last-new,
  get-new,
}
use zerosats.Solid.Core.{
  with_last_confirmed, PeerSigner, SolidConfig, SolidCore, add_accepts, orphan_votes,
  receive_proposal,
}
use zerosats.Solid.Core.Valid.{IsValid, IsAt}

module _ {S : Type 0} (app : App S) where
  add_accepts-total :
      (accs : List ProposalAccept) (t : AcceptThreshold) (p : Proposal S)
      → 0 < length p.validators
      → (p' : Proposal S) × (add_accepts app accs t p ≡ some p')
        × (p'.hash ≡ p.hash)
        × (p'.manifest ≡ p.manifest)
  unfolding add_accepts
  add_accepts-total [] t p h = (p, refl, refl, refl)
  add_accepts-total (a ∷ rest) t p h =
      let (p1, b, e, same_hash, same, _) = add_accept-total app p a t h in
      let (p2, e2, same_hash2, same2) = add_accepts-total rest t p1 (rw same h) in
      (p2, rw e e2, same_hash2 ∙ same_hash, same2 ∙ same)

  store-IsValid_new :
      (c : ProposalCache S) (p : Proposal S)
      → IsValid app c
      → p.height + 2 < 2 ^ 64
      → 0 < length p.validators
      → app.hash p.manifest.content ≡ p.hash
      → IsValid app (store p c)
  store-IsValid_new c p v small led hashed = record {
    cache = store-IsValid p c small v.cache;
    hashed = λ k q e. ground (arith, get-store k p c, v.hashed k q);
    led = λ k q e. ground (arith, get-store k p c, v.led k q);
  }

  store-height :
      (c : ProposalCache S) (p : Proposal S)
      → IsValid app c
      → p.height + 2 < 2 ^ 64
      → get p.hash c.proposals ≡ none
      → height (store p c) ≡ height c
  store-height c p v small fresh =
      let v' = store-IsValid p c small v.cache in
      height-confirmed (store p c) v'
      ∙ ground (
        arith,
        v'.held,
        v.cache.held,
        last-store p c,
        get-store c.last_confirmed_proposal_hash p c,
        height-confirmed c v.cache,
      )

  -- The conditions on which a proposal is taken
  abbrev pub Takes : SolidCore S → Manifest S → Type 0
  Takes s m =
      (validate_structure app (new_proposal app m) s.config.accept_threshold ≡ ok)
      × (contains s.proposals (app.hash m.content) ≡ false)
      × ((h : ℕ) × (height s.proposals ≡ some h) × (h < m.height))

  -- What `receive_proposal` makes of a manifest.
  pub record Received (s s' : SolidCore S) (m : Manifest S) (r : Check) : Type 0 where
    pub valid : IsValid app s'.proposals
    pub same_last :
        s'.proposals.last_confirmed_proposal_hash ≡ s.proposals.last_confirmed_proposal_hash
    pub same_height : height s'.proposals ≡ height s.proposals
    pub taken : (r ≡ ok) ↔ Takes s m
    pub unchanged : r ≢ ok → s' ≡ s
    pub held : r ≡ ok → contains s'.proposals (app.hash m.content) ≡ true
    pub seen : r ≡ ok → m.height ≤ s'.max_height

  refusal :
      (s : SolidCore S) (m : Manifest S) (e : Error)
      → IsValid app s.proposals
      → ¬ Takes s m
      → Received s s m (err e)
  refusal s m e v no_take = record {
    valid = v;
    same_last = refl;
    same_height = refl;
    taken = (λ h. absurd (cc), λ h. absurd (no_take h));
    unchanged = λ _. refl;
    held = λ h. absurd (cc);
    seen = λ h. absurd (cc);
  }

  -- The state after a proposal has been taken
  taken_state : SolidCore S → Proposal S → ℕ → ℕ → SolidCore S
  taken_state s p' hash h = record s {
    max_height = if ltb s.max_height h then h else s.max_height;
    orphan_accepts = remove hash s.orphan_accepts;
    proposals = store p' s.proposals;
  }

  acceptance :
      (s : SolidCore S) (m : Manifest S) (p' : Proposal S)
      → IsValid app s.proposals
      → m.height + 2 < 2 ^ 64
      → 0 < length m.validators
      → p'.hash ≡ app.hash m.content
      → p'.manifest ≡ m
      → Takes s m
      → Received s (taken_state s p' (app.hash m.content) m.height) m ok
  unfolding taken_state
  acceptance s m p' v small led same_hash same takes = record {
    valid =
        store-IsValid_new s.proposals p' v (rw same small) (rw same led)
          (ap (λ (x : Manifest S). app.hash x.content) same ∙ sym same_hash);
    same_last = last-store p' s.proposals;
    same_height =
        store-height s.proposals p' v (rw same small)
          (get-contains p'.hash s.proposals (rw same_hash takes.1));
    taken = (λ _. takes, λ _. refl);
    unchanged = λ h. absurd (h refl);
    held = λ _.
        subst (λ k. contains (store p' s.proposals) k ≡ true) same_hash
          (contains-store p' s.proposals);
    seen = λ _. ground arith;
  }

  -- On a valid state, a proposal that has validators and a height two below the bound is received
  -- without a panic, and the state stays valid. It is taken exactly when it passes
  -- `validate_structure`, is not held yet and is higher than the last confirmed one; it is held
  -- from then on, and the highest height that has been seen is at least its height. A proposal
  -- that is refused changes nothing.
  pub receive_proposal-Received :
      (s : SolidCore S) (m : Manifest S)
      → IsValid app s.proposals
      → m.height + 2 < 2 ^ 64
      → 0 < length m.validators
      → (s' : SolidCore S) × (r : Check) × (receive_proposal app s m ≡ some (s', r))
        × Received s s' m r
  unfolding receive_proposal taken_state
  receive_proposal-Received s m v small led =
      let p = new_proposal app m in
      let hash = hash-new app m in
      let own : p.manifest ≡ m = manifest-new app m in
      let led_p : 0 < length p.validators = rw own led in
      let t = s.config.accept_threshold in
      let (p', added, same_hash, same) =
        add_accepts-total (orphan_votes (get p.hash s.orphan_accepts)) t p led_p in
      let at = height-confirmed s.proposals v.cache in
      elim (Check-cases (validate_structure app p t)) [
        | inr (e, bad) ↦ (s, err e, ground arith, refusal s m e v (λ takes. absurd (cc)))
        | inl good ↦ elim (Bool-cases (contains s.proposals p.hash)) [
          | inl there ↦ (
            s,
            err (proposal_already_exists p.hash),
            ground arith,
            refusal s m (proposal_already_exists p.hash) v (λ takes. absurd (cc)),
          )
          | inr fresh ↦ elim (Bool-cases (ltb v.cache.confirmed.height p.height)) [
            | inr low ↦ (
              s,
              err proposal_height_too_low,
              ground (arith, at),
              refusal s m proposal_height_too_low v (λ takes. absurd (ground (arith, at))),
            )
            | inl high ↦ (
              taken_state s p' (app.hash m.content) m.height,
              ok,
              ground (arith, at, added),
              acceptance s m p' v small led (same_hash ∙ hash) (same ∙ own)
                  (good, ground arith, (v.cache.confirmed.height, at, ground arith)),
            )
          ]
        ]
      ]

  -- A core that starts from a proposal with validators is valid, and that proposal is the last
  -- confirmed one.
  pub with_last_confirmed-IsAt :
      (signer : PeerSigner) (m : Manifest S) (config : SolidConfig)
      → m.height + 2 < 2 ^ 64
      → 0 < length m.validators
      → IsAt app (app.hash m.content) m.height (with_last_confirmed app signer m config).proposals
  unfolding with_last_confirmed
  with_last_confirmed-IsAt signer m config small led =
      let p = new_proposal app m in
      let size = config.max_proposal_history in
      let own : p.manifest ≡ m = manifest-new app m in
      let hash = hash-new app m in
      let cache = new-IsValid p size (rw own small) in
      let here = λ (k : ℕ) (q : Proposal S) (e : get k (new_cache p size).proposals ≡ some q).
        get-new k p q size e in
      record {
        valid = record {
          cache = cache;
          hashed = λ k q e.
              ap (λ (x : Proposal S). app.hash x.manifest.content) (here k q e).1
              ∙ ap (λ (x : Manifest S). app.hash x.content) own
              ∙ sym hash
              ∙ sym (here k q e).0;
          led = λ k q e. rw ((here k q e).1, own) led;
        };
        at_hash = last-new p size ∙ hash;
        at_height =
            height-confirmed (new_cache p size) cache
            ∙ ap (λ (x : Proposal S). some x.height)
                (here (new_cache p size).last_confirmed_proposal_hash cache.confirmed cache.held).1
            ∙ ap (λ (x : Manifest S). some x.height) own;
      }
