-- ===== src/Solid/Proposal/Votes.antt =====
-- How the votes for a proposal are counted (proposal/mod.rs), and which vote is sent next.
use zerosats.Prelude.{
  ℕ, suc, ◌+◌, ◌^◌, max, ◌≤◌, ◌<◌, ◌≡◌, ◌≢◌, Bool, true, some, [], ◌∷◌, arith, length, inl, inr,
  Option-cases, ◌==◌, if◌then◌else◌, ℕ_discrete,
}
use zerosats.Prelude.Maps.{Map, get, contains_key}
use zerosats.Prelude.Ordered.{put, IsOrdered, get-put, put-IsOrdered, length-put, get-Above}
use zerosats.Solid.Config.{AcceptThreshold, threshold, is_exact_breach, inverse_exceeded}
use zerosats.Solid.Types.{ProposalAccept, App}
use zerosats.Solid.Proposal.Validate.{validate_accept-total}
use zerosats.Solid.Proposal.{
  Proposal, accepts_of, highest, highest_skip_with_inverse, next_accept_skip, record_accept,
  add_accept,
}

not_inverse_zero : (t : AcceptThreshold) (peers : ℕ) → inverse_exceeded t 0 peers ≢ true
unfolding inverse_exceeded
not_inverse_zero t peers h = ground arith

-- The skip that is found has votes that exceed the inverse of the threshold.
highest-votes :
    (t : AcceptThreshold) (peers h : ℕ) (m : Map (Map ProposalAccept))
    → IsOrdered m
    → highest t peers m ≡ some h
    → (w : Map ProposalAccept) × (get h m ≡ some w) × (inverse_exceeded t (length w) peers ≡ true)
highest-votes t peers h [] o e = absurd (cc)
highest-votes t peers h ((k, w) ∷ m) o e = elim (Option-cases (highest t peers m)) [
  | inl e' ↦ (w, ground arith, ground arith)
  | inr (s, e') ↦
      let (v, p, q) = highest-votes t peers s m o.1 e' in
      (v, ground (arith, get-Above s k m), ground arith)
]

-- No higher skip has such votes.
highest-max :
    (t : AcceptThreshold) (peers skip : ℕ) (m : Map (Map ProposalAccept)) (w : Map ProposalAccept)
    → IsOrdered m
    → get skip m ≡ some w
    → inverse_exceeded t (length w) peers ≡ true
    → (h : ℕ) × (highest t peers m ≡ some h) × (skip ≤ h)
highest-max t peers skip [] w o e i = absurd (cc)
highest-max t peers skip ((k, v) ∷ m) w o e i = elim (Option-cases (highest t peers m)) [
  | inl e' ↦ elim (ℕ_discrete skip k) [
    | yes same ↦ (k, ground arith, omega arith)
    | no ne ↦ let (h, p, q) = highest-max t peers skip m w o.1 (ground arith) i in absurd (cc)
  ]
  | inr (s, e') ↦ elim (ℕ_discrete skip k) [
    | yes same ↦
        let (x, p, q) = highest-votes t peers s m o.1 e' in
        (s, ground arith, ground (arith, get-Above s k m))
    | no ne ↦
        let (h, p, q) = highest-max t peers skip m w o.1 (ground arith) i in
        (s, ground arith, ground arith)
  ]
]

module _ {S : Type 0} where
  -- The number of peers that have voted for a skip.
  abbrev pub votes : Proposal S → ℕ → ℕ
  votes p skip = length (accepts_of (get skip p.incoming_accepts))

  -- The votes of each skip are kept in order, and the skips are.
  pub record IsTallied (p : Proposal S) : Type 0 where
    pub skips_ordered : IsOrdered p.incoming_accepts
    pub votes_ordered : (skip : ℕ) → IsOrdered (accepts_of (get skip p.incoming_accepts))

  record_accept-IsTallied :
      (p : Proposal S) (a : ProposalAccept) (t : AcceptThreshold)
      → IsTallied p
      → IsTallied (record_accept p a t).0
  unfolding record_accept
  record_accept-IsTallied p a t v = record {
    skips_ordered =
        put-IsOrdered a.skips (put a.from a (accepts_of (get a.skips p.incoming_accepts)))
          p.incoming_accepts v.skips_ordered;
    votes_ordered = λ skip. ground (
      arith,
      get-put skip a.skips (put a.from a (accepts_of (get a.skips p.incoming_accepts)))
          p.incoming_accepts,
      v.votes_ordered skip,
      put-IsOrdered a.from a (accepts_of (get a.skips p.incoming_accepts))
          (v.votes_ordered a.skips),
    );
  }

  votes-record_accept :
      (p : Proposal S) (a : ProposalAccept) (t : AcceptThreshold) (skip : ℕ)
      → IsTallied p
      → votes (record_accept p a t).0 skip
        ≡ votes p skip
          + (if skip == a.skips
              then if contains_key a.from (accepts_of (get a.skips p.incoming_accepts))
                then 0
                else 1
              else 0)
  unfolding record_accept
  votes-record_accept p a t skip v = ground (
    arith,
    get-put skip a.skips (put a.from a (accepts_of (get a.skips p.incoming_accepts)))
        p.incoming_accepts,
    length-put a.from a (accepts_of (get a.skips p.incoming_accepts)) (v.votes_ordered a.skips),
  )

  abbrev pub peers : Proposal S → ℕ
  peers p = max (length p.ordered_validators) 1

  -- Where the tally is in order, `highest_skip_with_inverse` finds a skip whose votes exceed the
  -- inverse of the threshold, and finds one at least as high as any skip with such votes.
  pub highest_skip_with_inverse-max :
      (p : Proposal S) (t : AcceptThreshold)
      → IsTallied p
      → ((h : ℕ)
          → highest_skip_with_inverse p t ≡ some h
          → inverse_exceeded t (votes p h) (peers p) ≡ true)
        × ((skip : ℕ)
            → inverse_exceeded t (votes p skip) (peers p) ≡ true
            → (h : ℕ) × (highest_skip_with_inverse p t ≡ some h) × (skip ≤ h))
  unfolding highest_skip_with_inverse
  highest_skip_with_inverse-max p t v = (
    λ h e.
        let (w, q, i) = highest-votes t (peers p) h p.incoming_accepts v.skips_ordered e in rw q i,
    λ skip i. elim (Option-cases (get skip p.incoming_accepts)) [
      | inl e ↦ absurd (not_inverse_zero t (peers p) (rw e at i))
      | inr (w, e) ↦ highest-max t (peers p) skip p.incoming_accepts w v.skips_ordered e (rw e at i)
    ],
  )

  -- Only the tally and the validators count.
  pub highest_skip_with_inverse-cong :
      (p p' : Proposal S) (t : AcceptThreshold)
      → p'.incoming_accepts ≡ p.incoming_accepts
      → p'.ordered_validators ≡ p.ordered_validators
      → highest_skip_with_inverse p' t ≡ highest_skip_with_inverse p t
  unfolding highest_skip_with_inverse
  highest_skip_with_inverse-cong p p' t same_votes same_peers = rw (same_votes, same_peers)

  -- Where the last skip sent is not the largest `u64`, the next vote is not for a lower skip than
  -- the last one. Once a vote has been sent, it is for a higher one if asked to skip, and at least
  -- the skip that `highest_skip_with_inverse` finds.
  pub next_accept_skip_ge :
      (p : Proposal S) (t : AcceptThreshold) (skip : Bool)
      → p.skips_sent + 1 < 2 ^ 64
      → (p.skips_sent ≤ next_accept_skip p t skip)
        × (p.initial_accept_sent ≡ true → skip ≡ true → p.skips_sent < next_accept_skip p t skip)
        × ((h : ℕ)
            → p.initial_accept_sent ≡ true
            → highest_skip_with_inverse p t ≡ some h
            → h ≤ next_accept_skip p t skip)
  unfolding next_accept_skip
  next_accept_skip_ge p t skip b = (ground arith, λ i s. ground arith, λ h i e. ground arith)

module _ {S : Type 0} (app : App S) (p : Proposal S) (a : ProposalAccept)
    (t : AcceptThreshold) where
  -- Where the proposal has validators, adding a vote does not panic; only the tally changes.
  pub add_accept-total :
      0 < length p.validators
      → (p' : Proposal S) × (proposes : Bool) × (add_accept app p a t ≡ some (p', proposes))
        × (p'.hash ≡ p.hash)
        × (p'.manifest ≡ p.manifest)
        × (p'.skips_sent ≡ p.skips_sent)
  unfolding add_accept record_accept
  add_accept-total h =
      let (checked, e) = validate_accept-total app p a h in
      elim (Option-cases (add_accept app p a t)) [
        | inl none_of ↦ absurd (ground arith)
        | inr ((p', proposes), found) ↦
            (p', proposes, found, ground arith, ground arith, ground arith)
      ]

module _ {S : Type 0} (app : App S) (p p' : Proposal S) (a : ProposalAccept)
    (t : AcceptThreshold) where
  -- Where the tally is in order, adding a vote, valid or not, keeps it in order and takes no vote
  -- away.
  pub add_accept-IsTallied :
      {proposes : Bool}
      → IsTallied p
      → add_accept app p a t ≡ some (p', proposes)
      → IsTallied p' × ((skip : ℕ) → votes p skip ≤ votes p' skip)
  unfolding add_accept
  add_accept-IsTallied v h = (
    ground (arith, record_accept-IsTallied p a t v),
    λ skip. ground (arith, votes-record_accept p a t skip v),
  )

  -- Where the tally is in order, a vote asks for a proposal only if the votes for its skip were
  -- one short of the threshold before it and are at the threshold with it.
  pub add_accept-proposes :
      IsTallied p
      → add_accept app p a t ≡ some (p', true)
      → (suc (votes p a.skips) ≡ threshold t (length p.ordered_validators))
        × (votes p' a.skips ≡ threshold t (length p.ordered_validators))
  unfolding add_accept record_accept is_exact_breach
  add_accept-proposes v h = ground (arith, votes-record_accept p a t a.skips v)
