-- ===== src/Solid/Proposal.antt =====
-- A proposal and the votes for it: ciphera/pkg/solid/src/proposal/mod.rs.
pub mod Validate
pub mod Votes
mod Examples
use zerosats.Prelude.{
  ℕ, zero, suc, max, Bool, true, false, not, ◌&&◌, Option, none, some, List, [], ◌∷◌, ltb, ◌==◌,
  add64, if◌then◌else◌, ◌>>=◌, length, elem,
}
use zerosats.Prelude.Maps.{Map, get, contains_key, values}
use zerosats.Prelude.Ordered.{put}
use zerosats.Solid.Config.{AcceptThreshold, is_exact_breach, inverse_exceeded, is_exceeded}
use zerosats.Solid.Types.{
  ProposalAccept, ManifestContent, Manifest, Error, Check, ok, err, App, verify_signature,
  verify_manifest, invalid_accept_leader, invalid_accept_validator, invalid_accept_proposal_hash,
  insufficient_accepts_for_proposal, invalid_proposal_signature, proposal_invalid_app_structure,
  proposal_invalid_decendent, invalid_proposal_leader, proposal_invalid_app_content,
}
use zerosats.Solid.Leader.{ordered_validators as order_validators, manifest_leader_for_skip}

pub record Proposal (S : Type 0) : Type 0 where
  pub incoming_accepts : Map (Map ProposalAccept)
  pub hash : ℕ
  pub manifest : Manifest S
  pub open manifest use {height, skips, last_proposal_hash, validators, leader_id, accepts}
  pub ordered_validators : List ℕ
  pub initial_accept_sent : Bool
  pub skips_sent : ℕ
  pub is_validated : Bool

-- `.get(..)`, or an empty map
abbrev pub accepts_of : Option (Map ProposalAccept) → Map ProposalAccept
accepts_of none = []
accepts_of (some m) = m

-- The loop of `highest_skip_with_inverse` from the last entry down.
abbrev pub highest : AcceptThreshold → ℕ → Map (Map ProposalAccept) → Option ℕ
highest t peers [] = none
highest t peers ((skip, accepts) ∷ m) = elim (highest t peers m) [
  | some s ↦ some s
  | none ↦ if inverse_exceeded t (length accepts) peers then some skip else none
]

-- The loop of `validate_contents` over the accepts of the manifest.
abbrev pub from_validators : List ℕ → List ProposalAccept → Check
from_validators validators [] = ok
from_validators validators (a ∷ rest) =
    if not (elem a.from validators)
    then err invalid_accept_validator
    else from_validators validators rest

module _ {S : Type 0} where
  pub accepts_for_skip : Proposal S → ℕ → Option (List ProposalAccept)
  accepts_for_skip p skips = elim (get skips p.incoming_accepts) [
    | none ↦ none
    | some m ↦ some (values m)
  ]

  pub accept_threshold_breached : Proposal S → ℕ → AcceptThreshold → Bool
  accept_threshold_breached p skips t =
      is_exact_breach t (length (accepts_of (get skips p.incoming_accepts)))
        (length p.ordered_validators)

  -- The accept entered under its skip, and whether that reaches the threshold.
  pub record_accept : Proposal S → ProposalAccept → AcceptThreshold → Proposal S × Bool
  unfolding accept_threshold_breached
  record_accept p a t =
      let votes = accepts_of (get a.skips p.incoming_accepts) in
      let p' : Proposal S = record p {
        incoming_accepts = put a.skips (put a.from a votes) p.incoming_accepts;
      } in
      (p', not (contains_key a.from votes) && accept_threshold_breached p' a.skips t)

  pub highest_skip_with_inverse : Proposal S → AcceptThreshold → Option ℕ
  highest_skip_with_inverse p t = highest t (max (length p.ordered_validators) 1) p.incoming_accepts

  pub next_accept_skip : Proposal S → AcceptThreshold → Bool → ℕ
  unfolding highest_skip_with_inverse
  next_accept_skip p t skip =
      if not p.initial_accept_sent && p.skips_sent == 0
      then 0
      else let skips_sent_with_skip = if skip then add64 p.skips_sent 1 else p.skips_sent in
        elim (highest_skip_with_inverse p t) [
          | none ↦ skips_sent_with_skip
          | some h ↦ if ltb skips_sent_with_skip h then h else skips_sent_with_skip
        ]

module _ {S : Type 0} (app : App S) where
  unfoldable pub new : Manifest S → Proposal S
  new m = record {
    incoming_accepts = [];
    hash = app.hash m.content;
    manifest = m;
    ordered_validators = order_validators app m.content;
    initial_accept_sent = false;
    skips_sent = 0;
    is_validated = false;
  }

  -- The loop of `validate_structure` over the accepts of the manifest.
  pub validate_accepts : Manifest S → List ProposalAccept → Check
  validate_accepts m [] = ok
  validate_accepts m (a ∷ rest) =
      let later = validate_accepts m rest in
      elim (verify_signature app a) [
        | err e ↦ err e
        | ok ↦
            if not (a.leader_id == m.leader_id)
            then err (invalid_accept_leader m.leader_id a.leader_id)
            else if not (a.proposal.hash == m.last_proposal_hash)
            then err invalid_accept_proposal_hash
            else later
      ]

  unfoldable pub validate_structure : Proposal S → AcceptThreshold → Check
  unfolding validate_accepts
  validate_structure p t =
      if not (is_exceeded t (length p.accepts) (length p.ordered_validators))
      then err insufficient_accepts_for_proposal
      else if not (verify_manifest app p.manifest p.leader_id)
      then err invalid_proposal_signature
      else elim (validate_accepts p.manifest p.accepts) [
        | err e ↦ err e
        | ok ↦
            if not (app.validate_structure p.manifest.content)
            then err proposal_invalid_app_structure
            else ok
      ]

  -- `none` is the panic where the last confirmed proposal has no validators.
  pub validate_contents : Proposal S → Proposal S → Option Check
  validate_contents p last_confirmed =
      if not (last_confirmed.hash == p.last_proposal_hash)
      then some (err proposal_invalid_decendent)
      else do
        leader ← manifest_leader_for_skip app last_confirmed.manifest.content p.skips
        if not (leader == p.leader_id)
            then some (err invalid_proposal_leader)
            else if not (app.validate_contents p.manifest.content last_confirmed.manifest.content)
            then some (err proposal_invalid_app_content)
            else some (from_validators last_confirmed.validators p.accepts)

  -- `none` is the panic where the proposal has no validators.
  pub validate_accept : Proposal S → ProposalAccept → Option Check
  validate_accept p a = elim (verify_signature app a) [
    | err e ↦ some (err e)
    | ok ↦ do
      leader ← manifest_leader_for_skip app p.manifest.content a.skips
      if not (leader == a.leader_id)
          then some (err (invalid_accept_leader leader a.leader_id))
          else if not (elem a.from p.validators)
          then some (err invalid_accept_validator)
          else some ok
  ]

  pub add_accept : Proposal S → ProposalAccept → AcceptThreshold → Option (Proposal S × Bool)
  unfolding validate_accept record_accept
  add_accept p a t = do
    checked ← validate_accept p a
    elim checked [ err _ ↦ some (p, false) | ok ↦ some (record_accept p a t) ]
