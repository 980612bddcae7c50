-- ===== src/Solid/Core/Events.antt =====
-- The votes and the events of the core: solid/core.rs from `next_event` to `add_accept`.
pub mod Quiet
pub mod Commit
pub mod Total
pub mod Answers
mod Examples
use zerosats.Prelude.{
  ℕ, zero, suc, ◌-◌, Bool, true, false, not, ◌&&◌, ◌||◌, Option, none, some, List, [], ◌∷◌, ◌++◌,
  ltb, ◌==◌, add64, if◌then◌else◌, ◌>>=◌,
}
use zerosats.Prelude.Maps.{get, insert}
use zerosats.Solid.Types.{
  ProposalHeader, ProposalAccept, Error, Check, ok, err, App, sig_data_hash, verify_signature,
}
use zerosats.Solid.Leader.{manifest_leader_for_skip}
use zerosats.Solid.Proposal.{
  Proposal, accepts_for_skip, next_accept_skip, validate_accept, add_accept as add_vote,
}
use zerosats.Solid.Cache.{height as confirmed_height, next_pending_proposal, confirm}
use zerosats.Solid.Core.{
  SolidCore, SolidEvent, ProposalOrphan, propose, commit, accept, out_of_sync, or_empty, or_else,
  with_proposals, is_out_of_sync, validated_current_proposal,
}

module _ {S : Type 0} (app : App S) (now : ℕ) where
  -- The vote that is sent next, with its entry into the tally of the state after it.
  pub prepare_accept : Bool → SolidCore S → Option (SolidCore S × ProposalAccept)
  prepare_accept skip s = do
    (s1, p) ← validated_current_proposal app s
    let skips = next_accept_skip p s.config.accept_threshold skip
    let header : ProposalHeader = record { hash = p.hash; height = p.height; skips = p.skips }
    let signature = s.local_peer_signer.sign (sig_data_hash app header skips)
    (s2, q) ← validated_current_proposal app s1
    leader ← manifest_leader_for_skip app q.manifest.content skips
    let q' : Proposal S = record q { skips_sent = skips; initial_accept_sent = true }
    some (
      with_proposals (insert q.hash q' s2.proposals.proposals) s2,
      record {
        leader_id = leader;
        proposal = header;
        skips = skips;
        from = s.local_peer_signer.peer;
        signature = signature;
      },
    )

  -- `get_next_accept_event`, which calls `add_accept` for its own vote.
  pub get_next_accept_event :
      (ProposalAccept → SolidCore S → Option (SolidCore S × Option (SolidEvent S)))
      → Bool
      → SolidCore S
      → Option (SolidCore S × Option (SolidEvent S))
  get_next_accept_event add skip s = do
    (s', own) ← prepare_accept skip s
    (s'', event) ← add own s'
    some (s'', or_else event (accept own))

  -- An accept of a proposal that is not there: `first_seen`, and the orphans with it.
  pub add_orphan : ProposalAccept → SolidCore S → ℕ × SolidCore S
  add_orphan a s = elim (get a.proposal.hash s.orphan_accepts) [
    | some o ↦
        let o' : ProposalOrphan = record o { accepts = o.accepts ++ a ∷ [] } in
        (o.first_seen, record s { orphan_accepts = insert a.proposal.hash o' s.orphan_accepts })
    | none ↦
        let o' : ProposalOrphan = record { accepts = a ∷ []; first_seen = now } in
        (now, record s { orphan_accepts = insert a.proposal.hash o' s.orphan_accepts })
  ]

  -- The arm of `add_accept` for a proposal that is not there.
  pub add_missing : ProposalAccept → SolidCore S → Option (SolidCore S × Option (SolidEvent S))
  add_missing a s =
      let (first_seen, s1) = add_orphan a s in
      do
        (s2, current) ← validated_current_proposal app s1
        let missing_more_than_one = ltb (add64 current.height 1) a.proposal.height
        let expired = ltb s.config.missing_proposal_timeout (now - first_seen)
        let is_greater = ltb current.height a.proposal.height || ltb current.skips a.proposal.skips
        h ← confirmed_height s2.proposals
        some (
          s2,
          (if missing_more_than_one || expired && is_greater
              then some (out_of_sync h a.proposal.height)
              else none),
        )

  -- The arm for a proposal that is there; `next` is `get_next_accept_event`.
  pub add_known :
      (SolidCore S → Option (SolidCore S × Option (SolidEvent S)))
      → (current_hash : ℕ) (is_out_of_sync : Bool) → ProposalAccept
      → Proposal S
      → SolidCore S
      → Option (SolidCore S × Option (SolidEvent S))
  add_known next current_hash is_out_of_sync a p s = do
    (p1, reached) ← add_vote app p a s.config.accept_threshold
    let hash = a.proposal.hash
    let s1 = with_proposals (insert hash p1 s.proposals.proposals) s
    leads ← elim reached [
      | false ↦ some false
      | true ↦ do
        leader ← manifest_leader_for_skip app p1.manifest.content a.skips
        some (leader == s.local_peer_signer.peer)
    ]
    elim (leads && not is_out_of_sync) [
      | true ↦ some (
        s1,
        some (propose hash (add64 p1.height 1) a.skips (or_empty (accepts_for_skip p1 a.skips))),
      )
      | false ↦ elim (current_hash == hash && ltb p1.skips_sent a.skips) [
        | true ↦
            let p2 : Proposal S = record p1 { skips_sent = a.skips } in
            next (with_proposals (insert hash p2 s.proposals.proposals) s)
        | false ↦ some (s1, none)
      ]
    ]

  -- The body of `add_accept`.
  pub add_accept_step :
      (SolidCore S → Option (SolidCore S × Option (SolidEvent S)))
      → ProposalAccept
      → SolidCore S
      → Option (SolidCore S × Option (SolidEvent S))
  add_accept_step next a s = do
    h ← confirmed_height s.proposals
    elim (ltb a.proposal.height h) [
      | true ↦ some (s, none)
      | false ↦ do
        behind ← is_out_of_sync s
        (s1, current) ← validated_current_proposal app s
        elim (get a.proposal.hash s1.proposals.proposals) [
          | some p ↦ add_known next current.hash behind a p s1
          | none ↦ add_missing a s1
        ]
    ]

  -- The fuel is the depth of the calls of `add_accept` for an own vote.
  pub add_accept : ℕ → ProposalAccept → SolidCore S → Option (SolidCore S × Option (SolidEvent S))
  add_accept zero a s = none
  add_accept (suc depth) a s = add_accept_step (get_next_accept_event (add_accept depth) false) a s

  pub skip : SolidCore S → Option (SolidCore S × Option (SolidEvent S))
  skip s = do
    behind ← is_out_of_sync s
    if behind then some (s, none) else get_next_accept_event (add_accept 2) true s

  -- The end of `next_event`, where no proposal can be committed.
  pub next_vote : SolidCore S → Option (SolidCore S × Option (SolidEvent S))
  next_vote s = do
    behind ← is_out_of_sync s
    elim behind [
      | true ↦ do h ← confirmed_height s.proposals; some (s, some (out_of_sync h s.max_height))
      | false ↦ do
        (s', current) ← validated_current_proposal app s
        if not current.initial_accept_sent
            then get_next_accept_event (add_accept 2) false s'
            else some (s', none)
    ]

  pub next_event : SolidCore S → Option (SolidCore S × Option (SolidEvent S))
  next_event s = do
    first ← next_pending_proposal s.proposals 0
    elim first [
      | none ↦ next_vote s
      | some p ↦ do
        second ← next_pending_proposal s.proposals 1
        elim second [
          | none ↦ next_vote s
          | some q ↦ do
            proposals ← confirm (app.hash p.manifest.content) s.proposals
            some (record s { proposals = proposals }, some (commit p.manifest q.manifest))
        ]
    ]

  -- The end of `receive_accept`, once the accept has passed the checks.
  pub accept_checked :
      ProposalAccept → ℕ → SolidCore S → Option (SolidCore S × Option (SolidEvent S))
  accept_checked a current_hash s = do
    (s1, event) ← add_accept 3 a s
    elim event [
      | some e ↦ some (s1, some e)
      | none ↦ do
        (s2, current) ← validated_current_proposal app s1
        if not (current_hash == current.hash)
            then get_next_accept_event (add_accept 2) false s2
            else some (s2, none)
    ]

-- `Result<Option<SolidEvent>>`
pub data AcceptReply (S : Type 0) : Type 0 where
  answered : Option (SolidEvent S) → AcceptReply S
  refused : Error → AcceptReply S

module _ {S : Type 0} (app : App S) (now : ℕ) where
  pub receive_accept : ProposalAccept → SolidCore S → Option (SolidCore S × AcceptReply S)
  receive_accept a s = elim (verify_signature app a) [
    | err e ↦ some (s, refused e)
    | ok ↦ do
      (s1, current) ← validated_current_proposal app s
      h ← confirmed_height s1.proposals
      let s2 : SolidCore S = record s1 {
        max_height = if ltb h a.proposal.height then a.proposal.height else s1.max_height;
      }
      checked ← elim (get a.proposal.hash s2.proposals.proposals) [
        | none ↦ some ok
        | some p ↦ validate_accept app p a
      ]
      elim checked [
        | err e ↦ some (s2, refused e)
        | ok ↦ do (s3, event) ← accept_checked app now a current.hash s2; some (s3, answered event)
      ]
  ]
