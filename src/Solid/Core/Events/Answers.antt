-- ===== src/Solid/Core/Events/Answers.antt =====
-- Every call of the core on a valid state comes back with a valid state (core.rs).
use zerosats.Prelude.{
  subst, ap, ◌∙◌, Option, ℕ, ◌≡◌, ap, ◌∙◌, true, false, not, none, some, arith, inl, inr,
  Bool-cases, Option-cases, ◌==◌, ltb, if◌then◌else◌,
}
use zerosats.Prelude.Maps.{get}
use zerosats.Solid.Types.{Check-cases, ProposalAccept, App, verify_signature}
use zerosats.Solid.Proposal.Validate.{validate_accept-total}
use zerosats.Solid.Cache.Pending.{height-confirmed}
use zerosats.Solid.Cache.Links.{next_pending_proposal-total}
use zerosats.Solid.Core.{SolidEvent, SolidCore, out_of_sync}
use zerosats.Solid.Core.Valid.{IsValid, IsAt, valid-IsAt}
use zerosats.Solid.Core.Events.{
  skip, next_vote, next_event, accept_checked, receive_accept, AcceptReply, answered, refused,
}
use zerosats.Solid.Core.Events.Total.{
  current-IsAt, Answers, out_of_sync-total, get_next_accept_event-total, add_accept-Answers,
}
use zerosats.Solid.Core.Events.Quiet.{commits}
use zerosats.Solid.Core.Events.Commit.{next_event_ready}

module _ {S : Type 0} (app : App S) (now hash h : ℕ) where
  next_vote-total :
      (s : SolidCore S) → IsAt app hash h s.proposals → Answers app now hash h (next_vote app now) s
  unfolding next_vote
  next_vote-total s v =
      let (behind, e1) = out_of_sync-total app now hash h s v in
      let at = height-confirmed s.proposals v.valid.cache in
      elim (Bool-cases behind) [
        | inl far ↦
            (s, some (out_of_sync v.valid.cache.confirmed.height s.max_height), rw (e1, far, at), v)
        | inr near ↦
            let (s1, current, e2, done, v1) = current-IsAt app now hash h s v in
            elim (Bool-cases (not current.initial_accept_sent)) [
              | inl first ↦
                  let (s2, event, e3, v2) =
                    get_next_accept_event-total app now hash h 1 false s1 v1 in
                  (s2, event, rw (e1, near, e2, first) e3, v2)
              | inr sent ↦ (s1, none, rw (e1, near, e2, sent), v1)
            ]
      ]

  -- `skip` on a valid state comes back, without a panic or a call too deep, and leaves a valid
  -- state with the same last confirmed proposal.
  pub skip-Answers :
      (s : SolidCore S) → IsAt app hash h s.proposals → Answers app now hash h (skip app now) s
  unfolding skip
  skip-Answers s v =
      let (behind, e1) = out_of_sync-total app now hash h s v in
      elim (Bool-cases behind) [
        | inl far ↦ (s, none, rw (e1, far), v)
        | inr near ↦
            let (s2, event, e3, v2) = get_next_accept_event-total app now hash h 1 true s v in
            (s2, event, rw (e1, near) e3, v2)
      ]

  accept_checked-Answers :
      (a : ProposalAccept) (current_hash : ℕ) (s : SolidCore S)
      → IsAt app hash h s.proposals
      → Answers app now hash h (accept_checked app now a current_hash) s
  unfolding accept_checked
  accept_checked-Answers a current_hash s v =
      let (s1, event, e1, v1) = add_accept-Answers app now hash h 1 a s v in
      let (s2, current, e2, done, v2) = current-IsAt app now hash h s1 v1 in
      elim (Option-cases event) [
        | inr (x, is_x) ↦ (s1, some x, rw (e1, is_x), v1)
        | inl quiet ↦ elim (Bool-cases (not (current_hash == current.hash))) [
          | inl changed ↦
              let (s3, event3, e3, v3) = get_next_accept_event-total app now hash h 1 false s2 v2 in
              (s3, event3, rw (e1, quiet, e2, changed) e3, v3)
          | inr same ↦ (s2, none, rw (e1, quiet, e2, same), v2)
        ]
      ]

  -- `receive_accept` on a valid state comes back, whatever the accept, without a panic or a call
  -- too deep, and leaves a valid state with the same last confirmed proposal.
  pub receive_accept-total :
      (a : ProposalAccept) (s : SolidCore S)
      → IsAt app hash h s.proposals
      → (s' : SolidCore S) × (r : AcceptReply S) × (receive_accept app now a s ≡ some (s', r))
        × IsAt app hash h s'.proposals
  unfolding receive_accept
  receive_accept-total a s v =
      let (s1, current, e1, done, v1) = current-IsAt app now hash h s v in
      let at = height-confirmed s1.proposals done.valid.cache in
      let top = done.valid.cache.confirmed.height in
      let s2 : SolidCore S = record s1 {
        max_height = if ltb top a.proposal.height then a.proposal.height else s1.max_height;
      } in
      let (s3, event, e3, v3) = accept_checked-Answers a current.hash s2 v1 in
      elim (Check-cases (verify_signature app a)) [
        | inr (x, bad) ↦ (s, refused x, ground arith, v)
        | inl signed ↦ elim (Option-cases (get a.proposal.hash s1.proposals.proposals)) [
          | inl missing ↦ (s3, answered event, ground (arith, e1, at, e3), v3)
          | inr (p, known) ↦
              let (checked, e2) =
                validate_accept-total app p a (done.valid.led a.proposal.hash p known) in
              elim (Check-cases checked) [
                | inr (x, bad) ↦ (s2, refused x, ground (arith, e1, at, e2), v1)
                | inl good ↦ (s3, answered event, ground (arith, e1, at, e2, e3), v3)
              ]
        ]
      ]

module _ {S : Type 0} (app : App S) (now : ℕ) where
  -- On a valid state `next_event` comes back: it does not panic, its loops end and its own votes
  -- do not call each other without end. It leaves a valid state.
  pub next_event-total :
      (s : SolidCore S)
      → IsValid app s.proposals
      → (s' : SolidCore S) × (e : Option (SolidEvent S)) × (next_event app now s ≡ some (s', e))
        × IsValid app s'.proposals
  unfolding next_event
  next_event-total s v =
      let (r, first) = next_pending_proposal-total s.proposals v.cache 0 (omega arith) in
      let (r', second) = next_pending_proposal-total s.proposals v.cache 1 (omega arith) in
      let at = valid-IsAt app s.proposals v in
      let (s2, event, e, v2) =
        next_vote-total app now s.proposals.last_confirmed_proposal_hash v.cache.confirmed.height s
          at in
      elim (Option-cases r') [
        | inr (q, is_q) ↦
            let (s', p, e', done) = next_event_ready app now s q v (second ∙ ap some is_q) in
            (s', _, e', done.valid)
        | inl nobody ↦ elim (Option-cases r) [
          | inl none_at_all ↦ (s2, event, rw (first, none_at_all) e, v2.valid)
          | inr (p, is_p) ↦ (s2, event, rw (first, is_p, second, nobody) e, v2.valid)
        ]
      ]

  -- A call of `next_event` that commits nothing keeps the last confirmed proposal.
  pub next_event-IsAt :
      (hash h : ℕ) (s s' : SolidCore S) (e : Option (SolidEvent S))
      → IsAt app hash h s.proposals
      → next_event app now s ≡ some (s', e)
      → commits e ≡ false
      → IsAt app hash h s'.proposals
  unfolding next_event
  next_event-IsAt hash h s s' e v found quiet =
      let (r, first) = next_pending_proposal-total s.proposals v.valid.cache 0 (omega arith) in
      let (r', second) = next_pending_proposal-total s.proposals v.valid.cache 1 (omega arith) in
      let (s2, event, voted, v2) = next_vote-total app now hash h s v in
      elim (Option-cases r') [
        | inr (q, is_q) ↦
            let (t, p, e', done) = next_event_ready app now s q v.valid (second ∙ ap some is_q) in
            absurd (ground arith)
        | inl nobody ↦
            let same : s2 ≡ s' = ground (arith, first, second, voted) in
            subst (λ (x : SolidCore S). IsAt app hash h x.proposals) same v2
      ]
