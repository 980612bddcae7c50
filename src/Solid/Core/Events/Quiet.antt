-- ===== src/Solid/Core/Events/Quiet.antt =====
-- The votes of the core commit nothing (core.rs): only `next_event` itself does.
use zerosats.Prelude.{
  ℕ, zero, suc, ◌≡◌, Bool, true, false, Option, none, some, arith, inl, inr, Bool-cases,
  Option-cases, ltb, >>=-eq-some,
}
use zerosats.Prelude.Maps.{get, insert}
use zerosats.Solid.Types.{App, ProposalAccept}
use zerosats.Solid.Proposal.{Proposal, add_accept as add_vote}
use zerosats.Solid.Cache.{height}
use zerosats.Solid.Core.{
  SolidCore, SolidEvent, propose, commit, accept, out_of_sync, duplicate_proposal, is_out_of_sync,
  with_proposals, validated_current_proposal,
}
use zerosats.Solid.Core.Events.{
  get_next_accept_event, add_missing, add_known, add_accept_step, add_accept, next_vote,
  prepare_accept,
}

module _ {S : Type 0} where
  abbrev pub commits : Option (SolidEvent S) → Bool
  commits none = false
  commits (some (propose _ _ _ _)) = false
  commits (some (commit _ _)) = true
  commits (some (accept _)) = false
  commits (some (out_of_sync _ _)) = false
  commits (some (duplicate_proposal _)) = false

  -- A step whose event, if it answers, is no commit.
  abbrev pub Quiet : (SolidCore S → Option (SolidCore S × Option (SolidEvent S))) → Type 0
  Quiet f =
      (s s' : SolidCore S) (e : Option (SolidEvent S)) → f s ≡ some (s', e) → commits e ≡ false

module _ {S : Type 0} (app : App S) (now : ℕ) where
  get_next-Quiet :
      (add : ProposalAccept → SolidCore S → Option (SolidCore S × Option (SolidEvent S)))
      → ((a : ProposalAccept) → Quiet (add a))
      → (skip : Bool) → Quiet (get_next_accept_event app now add skip)
  unfolding get_next_accept_event
  get_next-Quiet add quiet skip s s' e h =
      let ((s1, own), prepared, h1) = >>=-eq-some (prepare_accept app now skip s) _ h in
      let ((s2, event), added, h2) = >>=-eq-some (add own s1) _ h1 in
      ground (arith, quiet own s1 s2 event added)

  add_missing-Quiet : (a : ProposalAccept) → Quiet (add_missing app now a)
  unfolding add_missing
  add_missing-Quiet a s s' e h = ground arith

  add_known-Quiet :
      (next : SolidCore S → Option (SolidCore S × Option (SolidEvent S)))
      → Quiet next
      → (hash : ℕ) (behind : Bool) (a : ProposalAccept) (p : Proposal S)
      → Quiet (add_known app now next hash behind a p)
  unfolding add_known
  add_known-Quiet next quiet hash behind a p s s' e h =
      let ((p1, reached), added, h1) =
        >>=-eq-some (add_vote app p a s.config.accept_threshold) _ h in
      let p2 : Proposal S = record p1 { skips_sent = a.skips } in
      ground
        (arith, quiet (with_proposals (insert a.proposal.hash p2 s.proposals.proposals) s) s' e)

  add_accept_step-Quiet :
      (next : SolidCore S → Option (SolidCore S × Option (SolidEvent S)))
      → Quiet next
      → (a : ProposalAccept) → Quiet (add_accept_step app now next a)
  unfolding add_accept_step
  add_accept_step-Quiet next quiet a s s' e h =
      let (confirmed, held, h1) = >>=-eq-some (height s.proposals) _ h in
      elim (Bool-cases (ltb a.proposal.height confirmed)) [
        | inl late ↦ ground arith
        | inr due ↦
            let h2 = rw due at h1 in
            let (behind, _, h3) = >>=-eq-some (is_out_of_sync s) _ h2 in
            let ((s1, current), _, h4) = >>=-eq-some (validated_current_proposal app s) _ h3 in
            elim (Option-cases (get a.proposal.hash s1.proposals.proposals)) [
              | inl missing ↦ add_missing-Quiet a s1 s' e (rw missing at h4)
              | inr (p, known) ↦
                  add_known-Quiet next quiet current.hash behind a p s1 s' e (rw known at h4)
            ]
      ]

  add_accept-Quiet : (depth : ℕ) (a : ProposalAccept) → Quiet (add_accept app now depth a)
  unfolding add_accept
  add_accept-Quiet zero a s s' e h = cc
  add_accept-Quiet (suc depth) a s s' e h =
      add_accept_step-Quiet (get_next_accept_event app now (add_accept app now depth) false)
        (get_next-Quiet (add_accept app now depth) (add_accept-Quiet depth) false) a s s' e h

  pub next_vote-Quiet : Quiet (next_vote app now)
  unfolding next_vote
  next_vote-Quiet s s' e h =
      let (behind, _, h1) = >>=-eq-some (is_out_of_sync s) _ h in
      let quiet = get_next-Quiet (add_accept app now 2) (add_accept-Quiet 2) false in
      elim (Bool-cases behind) [
        | inl far ↦
            let (confirmed, _, h2) = >>=-eq-some (height s.proposals) _ (rw far at h1) in
            ground arith
        | inr near ↦
            let ((s1, current), _, h2) =
              >>=-eq-some (validated_current_proposal app s) _ (rw near at h1) in
            ground (arith, quiet s1 s' e)
      ]
