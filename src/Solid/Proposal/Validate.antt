-- ===== src/Solid/Proposal/Validate.antt =====
-- Which proposals and votes pass the checks of proposal/mod.rs.
use zerosats.Prelude.{
  ℕ, ◌≤◌, ◌<◌, ◌≡◌, refl, ◌↔◌, true, some, List, [], ◌∷◌, arith, All, length, elem, inl, inr,
  Option-cases,
}
use zerosats.Solid.Config.{AcceptThreshold, threshold, is_exceeded}
use zerosats.Solid.Types.{
  ProposalAccept, Manifest, Check, ok, App, verify_signature, verify_manifest,
}
use zerosats.Solid.Leader.{manifest_leader_for_skip}
use zerosats.Solid.Leader.Order.{ordered_validators-sorts, leader-elem}
use zerosats.Solid.Proposal.{
  Proposal, new, validate_accepts, validate_structure, from_validators, validate_contents,
  validate_accept,
}

module _ {S : Type 0} (app : App S) where
  -- An accept that may justify a manifest.
  abbrev pub Justifies : Manifest S → ProposalAccept → Type 0
  Justifies m a =
      (verify_signature app a ≡ ok)
      × (a.leader_id ≡ m.leader_id)
      × (a.proposal.hash ≡ m.last_proposal_hash)

  validate_accepts_iff :
      (m : Manifest S) (accs : List ProposalAccept)
      → (validate_accepts app m accs ≡ ok) ↔ All (Justifies m) accs
  unfolding validate_accepts
  validate_accepts_iff m [] = (λ h. tt, λ h. refl)
  validate_accepts_iff m (a ∷ accs) = (
    λ h. ground (arith, (validate_accepts_iff m accs).0),
    λ h. ground (arith, (validate_accepts_iff m accs).1 h.1),
  )

  -- A proposal passes `validate_structure` exactly when it carries as many accepts as the threshold
  -- of its own validators asks for, is signed by its leader, passes the application's check, and
  -- each of its accepts is signed, names the same leader and names the same last proposal.
  pub validate_structure_iff :
      (m : Manifest S) (t : AcceptThreshold)
      → (validate_structure app (new app m) t ≡ ok) ↔ (
          (threshold t (length m.validators) ≤ length m.accepts)
          × (verify_manifest app m m.leader_id ≡ true)
          × All (Justifies m) m.accepts
          × (app.validate_structure m.content ≡ true))
  unfolding validate_structure new is_exceeded
  validate_structure_iff m t =
      let same = (ordered_validators-sorts app m.content).2 in
      (
        λ h. (
          ground (arith, same),
          ground arith,
          (validate_accepts_iff m m.accepts).0 (ground arith),
          ground arith,
        ),
        λ h. ground (arith, same, (validate_accepts_iff m m.accepts).1 h.2),
      )

  from_validators_iff :
      (vs : List ℕ) (accs : List ProposalAccept)
      → (from_validators vs accs ≡ ok) ↔ All (λ a. elem a.from vs ≡ true) accs
  from_validators_iff vs [] = (λ h. tt, λ h. refl)
  from_validators_iff vs (a ∷ accs) = (
    λ h. ground (arith, (from_validators_iff vs accs).0),
    λ h. ground (arith, (from_validators_iff vs accs).1 h.1),
  )

  -- A proposal passes `validate_contents` exactly when it builds on the last confirmed one, comes
  -- from the leader whose turn it was, passes the application's check, and carries only accepts of
  -- validators.
  pub validate_contents_iff :
      (p last : Proposal S)
      → (validate_contents app p last ≡ some ok) ↔ (
          (last.hash ≡ p.last_proposal_hash)
          × (manifest_leader_for_skip app last.manifest.content p.skips ≡ some p.leader_id)
          × (app.validate_contents p.manifest.content last.manifest.content ≡ true)
          × All (λ a. elem a.from last.validators ≡ true) p.accepts)
  unfolding validate_contents
  validate_contents_iff p last = (
    λ h. (
      ground arith,
      ground arith,
      ground arith,
      (from_validators_iff last.validators p.accepts).0 (ground arith),
    ),
    λ h. ground (arith, (from_validators_iff last.validators p.accepts).1 h.3),
  )

  -- A vote is valid exactly when it is signed, names the leader of its skip, and comes from a
  -- validator of the proposal.
  pub validate_accept_iff :
      (p : Proposal S) (a : ProposalAccept)
      → (validate_accept app p a ≡ some ok) ↔ (
          (verify_signature app a ≡ ok)
          × (manifest_leader_for_skip app p.manifest.content a.skips ≡ some a.leader_id)
          × (elem a.from p.validators ≡ true))
  unfolding validate_accept
  validate_accept_iff p a = (λ h. ground arith, λ h. ground arith)

  -- Where the last confirmed proposal has validators the check does not panic.
  pub validate_contents-total :
      (p last : Proposal S)
      → 0 < length last.validators
      → (checked : Check) × (validate_contents app p last ≡ some checked)
  unfolding validate_contents
  validate_contents-total p last h =
      let (leader, e, _) = leader-elem app last.manifest.content p.skips h in
      elim (Option-cases (validate_contents app p last)) [
        | inl none_of ↦ absurd (ground arith)
        | inr found ↦ found
      ]

  -- Where the proposal has validators the check of a vote does not panic.
  pub validate_accept-total :
      (p : Proposal S) (a : ProposalAccept)
      → 0 < length p.validators
      → (checked : Check) × (validate_accept app p a ≡ some checked)
  unfolding validate_accept
  validate_accept-total p a h =
      let (leader, e, _) = leader-elem app p.manifest.content a.skips h in
      elim (Option-cases (validate_accept app p a)) [
        | inl none_of ↦ absurd (ground arith)
        | inr found ↦ found
      ]

  -- The fields of a new proposal
  pub hash-new : (m : Manifest S) → (new app m).hash ≡ app.hash m.content
  unfolding new
  hash-new m = refl

  pub manifest-new : (m : Manifest S) → (new app m).manifest ≡ m
  unfolding new
  manifest-new m = refl
