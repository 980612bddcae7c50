-- ===== src/Solid/Core.antt =====
-- The consensus core: ciphera/pkg/solid/src/solid/{core,event}.rs.
-- `none` is a panic, or fuel that has run out. A time is a number, and `now` is `Instant::now()`.
pub mod Events
pub mod Valid
pub mod Current
pub mod Receive
pub mod Run
pub mod Marks
use zerosats.Prelude.{
  ℕ, zero, suc, ◌-◌, Bool, true, false, not, ◌&&◌, ◌||◌, Option, none, some, List, [], ◌∷◌, ◌++◌,
  ltb, ◌==◌, add64, if◌then◌else◌, ◌>>=◌, length,
}
use zerosats.Prelude.Maps.{Map, get, contains_key, insert, remove}
use zerosats.Solid.Config.{AcceptThreshold}
use zerosats.Solid.Types.{
  ProposalHeader, ProposalAccept, Manifest, Error, Check, ok, err, is_ok, App, sig_data_hash,
  verify_signature, proposal_already_exists, proposal_height_too_low,
}
use zerosats.Solid.Leader.{manifest_leader_for_skip}
use zerosats.Solid.Proposal.{
  Proposal, accepts_for_skip, highest_skip_with_inverse, next_accept_skip, validate_structure,
  validate_contents, validate_accept, new as new_proposal, add_accept as add_vote,
}
use zerosats.Solid.Cache.{
  ProposalCache, height as confirmed_height, last_confirmed_proposal, contains, store,
  next_pending_proposal, confirm, new as new_cache,
}

-- The fields that the core reads; the other durations belong to the event loop.
pub record SolidConfig : Type 0 where
  pub max_proposal_history : ℕ
  pub accept_threshold : AcceptThreshold
  pub missing_proposal_timeout : ℕ

-- The trait `PeerSigner`
pub record PeerSigner : Type 0 where
  pub sign : List ℕ → List ℕ
  pub peer : ℕ

pub record ProposalOrphan : Type 0 where
  pub accepts : List ProposalAccept
  pub first_seen : ℕ

-- The application is an argument of the operations.
pub record SolidCore (S : Type 0) : Type 0 where
  pub local_peer_signer : PeerSigner
  pub proposals : ProposalCache S
  pub orphan_accepts : Map ProposalOrphan
  pub config : SolidConfig
  pub max_height : ℕ

pub data SolidEvent (S : Type 0) : Type 0 where
  propose : (last_proposal_hash height skips : ℕ) (accepts : List ProposalAccept) → SolidEvent S
  commit : (manifest confirmed_by : Manifest S) → SolidEvent S
  accept : ProposalAccept → SolidEvent S
  out_of_sync : (height max_seen_height : ℕ) → SolidEvent S
  duplicate_proposal : (proposal_hash : ℕ) → SolidEvent S

-- `.unwrap_or(0)`, `.unwrap_or_default()`, `.or(..)`
abbrev pub or_zero : Option ℕ → ℕ
or_zero none = 0
or_zero (some n) = n

abbrev pub or_empty {ℓ} : {A : Type ℓ} → Option (List A) → List A
or_empty none = []
or_empty (some l) = l

abbrev pub or_else {ℓ} : {A : Type ℓ} → Option A → A → Option A
or_else none a = some a
or_else (some b) a = some b

abbrev pub orphan_votes : Option ProposalOrphan → List ProposalAccept
orphan_votes none = []
orphan_votes (some o) = o.accepts

module _ {S : Type 0} where
  -- A change of the proposals that are held
  abbrev pub with_proposals : Map (Proposal S) → SolidCore S → SolidCore S
  with_proposals m s = record s { proposals = record s.proposals { proposals = m } }

  pub is_out_of_sync : SolidCore S → Option Bool
  is_out_of_sync s = do h ← confirmed_height s.proposals; some (ltb (add64 h 1) s.max_height)

  pub highest_next_pending : SolidCore S → Option (Option (Proposal S))
  highest_next_pending s = do
    last ← last_confirmed_proposal s.proposals
    let highest_skip = or_zero (highest_skip_with_inverse last s.config.accept_threshold)
    next ← next_pending_proposal s.proposals 0
    elim next [
      | none ↦ some none
      | some p ↦
          if ltb p.skips highest_skip || ltb p.skips last.skips_sent
          then some none
          else some (some p)
    ]

module _ {S : Type 0} (app : App S) where
  pub with_last_confirmed : PeerSigner → Manifest S → SolidConfig → SolidCore S
  with_last_confirmed signer m config = record {
    local_peer_signer = signer;
    proposals = new_cache (new_proposal app m) config.max_proposal_history;
    orphan_accepts = [];
    config = config;
    max_height = m.height;
  }

  -- The loop over the accepts of an orphan.
  pub add_accepts : List ProposalAccept → AcceptThreshold → Proposal S → Option (Proposal S)
  add_accepts [] t p = some p
  add_accepts (a ∷ rest) t p = do (p', _) ← add_vote app p a t; add_accepts rest t p'

  pub receive_proposal : SolidCore S → Manifest S → Option (SolidCore S × Check)
  receive_proposal s m =
      let p : Proposal S = new_proposal app m in
      elim (validate_structure app p s.config.accept_threshold) [
        | err e ↦ some (s, err e)
        | ok ↦
            if contains s.proposals p.hash
            then some (s, err (proposal_already_exists p.hash))
            else do
              h ← confirmed_height s.proposals
              elim (ltb h p.height) [
                | false ↦ some (s, err proposal_height_too_low)
                | true ↦ do
                  p' ←
                      add_accepts (orphan_votes (get p.hash s.orphan_accepts))
                        s.config.accept_threshold p
                  some (
                    record s {
                      max_height = if ltb s.max_height p.height then p.height else s.max_height;
                      orphan_accepts = remove p.hash s.orphan_accepts;
                      proposals = store p' s.proposals;
                    },
                    ok,
                  )
              ]
      ]

  -- `p.is_validated || p.validate_contents(..).is_ok()`
  abbrev pub is_valid_next : Proposal S → Proposal S → Option Bool
  is_valid_next p last = elim p.is_validated [
    | true ↦ some true
    | false ↦ do checked ← validate_contents app p last; some (is_ok checked)
  ]

  -- Each round but the last removes a proposal.
  pub validated_hash_loop : ℕ → SolidCore S → Option (SolidCore S × ℕ)
  validated_hash_loop zero s = none
  validated_hash_loop (suc fuel) s = do
    last ← last_confirmed_proposal s.proposals
    next ← highest_next_pending s
    elim next [
      | none ↦ some (s, last.hash)
      | some p ↦ do
        valid ← is_valid_next p last
        elim valid [
          | true ↦ some (s, p.hash)
          | false ↦
              validated_hash_loop fuel (with_proposals (remove p.hash s.proposals.proposals) s)
        ]
    ]

  pub validated_current_proposal_hash : SolidCore S → Option (SolidCore S × ℕ)
  validated_current_proposal_hash s = validated_hash_loop (suc (length s.proposals.proposals)) s

  -- The state, where the proposal is marked as validated, and the proposal.
  pub validated_current_proposal : SolidCore S → Option (SolidCore S × Proposal S)
  validated_current_proposal s = do
    (s', hash) ← validated_current_proposal_hash s
    p ← get hash s'.proposals.proposals
    let p' : Proposal S = record p { is_validated = true }
    some (with_proposals (insert hash p' s'.proposals.proposals) s', p')
