-- ===== src/Solid/Core/Events/Total.antt =====
-- The core answers every call (core.rs): no panic, no call too deep, and the state stays valid.
use zerosats.Prelude.{
  length, ◌<◌, ℕ, suc, ◌≡◌, refl, sym, ap, ◌∙◌, subst, Bool, true, false, not, ◌&&◌, Option, none,
  some, arith, inl, inr, ◌⊎◌, Bool-cases, Option-cases, ◌==◌, ltb, add64, if◌then◌else◌,
}
use zerosats.Prelude.Maps.{get, insert, get-insert}
use zerosats.Solid.Types.{ProposalAccept, App, sig_data_hash}
use zerosats.Solid.Leader.Order.{leader-elem}
use zerosats.Solid.Proposal.{Proposal, next_accept_skip, accepts_for_skip, add_accept as add_vote}
use zerosats.Solid.Proposal.Votes.{add_accept-total}
use zerosats.Solid.Cache.Pending.{height-confirmed}
use zerosats.Solid.Core.{
  validated_current_proposal, SolidCore, SolidEvent, with_proposals, is_out_of_sync, or_else,
  or_empty, propose, accept,
}
use zerosats.Solid.Core.Valid.{IsAt, update-IsAt, move-IsAt}
use zerosats.Solid.Core.Marks.{Validated, validated_current_proposal-Validated}
use zerosats.Solid.Core.Events.{
  prepare_accept, get_next_accept_event, add_orphan, add_missing, add_known, add_accept_step,
  add_accept,
}

module _ {S : Type 0} (app : App S) (now hash h : ℕ) where
  -- A step answers, and leaves a valid state with the same last confirmed proposal.
  abbrev pub Answers :
      (SolidCore S → Option (SolidCore S × Option (SolidEvent S))) → SolidCore S → Type 0
  Answers f s =
      (s' : SolidCore S) × (e : Option (SolidEvent S)) × (f s ≡ some (s', e))
      × IsAt app hash h s'.proposals

  -- The state holds the proposal of the vote, which has the skips of the vote as the last ones sent.
  pub record IsOwn (a : ProposalAccept) (s : SolidCore S) : Type 0 where
    pub calm :
        (q : Proposal S)
        → get a.proposal.hash s.proposals.proposals ≡ some q
        → q.skips_sent ≡ a.skips

  pub out_of_sync-total :
      (s : SolidCore S) → IsAt app hash h s.proposals → (b : Bool) × (is_out_of_sync s ≡ some b)
  unfolding is_out_of_sync
  out_of_sync-total s v = (
    ltb (add64 v.valid.cache.confirmed.height 1) s.max_height,
    rw (height-confirmed s.proposals v.valid.cache),
  )

  pub current-IsAt :
      (s : SolidCore S)
      → IsAt app hash h s.proposals
      → (s' : SolidCore S) × (p : Proposal S) × (validated_current_proposal app s ≡ some (s', p))
        × Validated app s s' p
        × IsAt app hash h s'.proposals
  current-IsAt s v =
      let (s', p, e, done) = validated_current_proposal-Validated app s v.valid in
      (
        s',
        p,
        e,
        done,
        move-IsAt app hash h s.proposals s'.proposals v done.valid done.same_last done.same_height,
      )

  -- The vote that is sent next is prepared without a panic, and it is in the tally's proposal.
  pub prepare_accept-total :
      (skip : Bool) (s : SolidCore S)
      → IsAt app hash h s.proposals
      → (s' : SolidCore S) × (a : ProposalAccept) × (prepare_accept app now skip s ≡ some (s', a))
        × IsAt app hash h s'.proposals
        × IsOwn a s'
  unfolding prepare_accept
  prepare_accept-total skip s v =
      let (s1, p, e1, first, v1) = current-IsAt s v in
      let (s2, q, e2, second, v2) = current-IsAt s1 v1 in
      let (s3, e3) = first.stable in
      let same : q ≡ p = cc in
      let skips = next_accept_skip p s.config.accept_threshold skip in
      let (leader, e4, _) =
        leader-elem app q.manifest.content skips (second.valid.led q.hash q second.found) in
      let q' : Proposal S = record q { skips_sent = skips; initial_accept_sent = true } in
      let own : ProposalAccept = record {
        leader_id = leader;
        proposal = record { hash = p.hash; height = p.height; skips = p.skips };
        skips = skips;
        from = s.local_peer_signer.peer;
        signature = s.local_peer_signer.sign (
            sig_data_hash app (record { hash = p.hash; height = p.height; skips = p.skips }) skips);
      } in
      (
        with_proposals (insert q.hash q' s2.proposals.proposals) s2,
        own,
        rw (e1, e2, e4),
        update-IsAt app hash h s2.proposals v2 q.hash q q' second.found refl refl,
        record {
          calm = λ r h. ground (
            arith,
            get-insert p.hash q.hash q' s2.proposals.proposals,
            ap (λ (x : Proposal S). x.hash) same,
          );
        },
      )

  proposals-add_orphan :
      (a : ProposalAccept) (s : SolidCore S) → (add_orphan app now a s).1.proposals ≡ s.proposals
  unfolding add_orphan
  proposals-add_orphan a s = ground arith

  add_missing-total :
      (a : ProposalAccept) (s : SolidCore S)
      → IsAt app hash h s.proposals
      → Answers (add_missing app now a) s
  unfolding add_missing
  add_missing-total a s v =
      let (first_seen, s1) = add_orphan app now a s in
      let v1 : IsAt app hash h s1.proposals =
        subst (IsAt app hash h) (sym (proposals-add_orphan a s)) v in
      let (s2, current, e, done, v2) = current-IsAt s1 v1 in
      let at = height-confirmed s2.proposals done.valid.cache in
      elim (Option-cases (add_missing app now a s)) [
        | inl none_of ↦ absurd (ground (arith, e, at))
        | inr ((s', event), found) ↦
            let same : s2 ≡ s' = ground (arith, e, at) in
            (s', event, found, subst (λ (x : SolidCore S). IsAt app hash h x.proposals) same v2)
      ]

  -- The three ways in which a vote for a proposal that is there ends.
  add_known-ends :
      (next : SolidCore S → Option (SolidCore S × Option (SolidEvent S))) (current_hash : ℕ)
      (behind : Bool) (a : ProposalAccept) (p p1 : Proposal S) (reached : Bool) (s : SolidCore S)
      → add_vote app p a s.config.accept_threshold ≡ some (p1, reached)
      → 0 < length p1.validators
      → let s1 = with_proposals (insert a.proposal.hash p1 s.proposals.proposals) s in
        let p2 : Proposal S = record p1 { skips_sent = a.skips } in
        (proposes : Bool) × (resends : Bool) × (event : SolidEvent S) × (add_known app now next
            current_hash behind a p s
          ≡ (if proposes
              then some (s1, some event)
              else if resends
              then next (with_proposals (insert a.proposal.hash p2 s.proposals.proposals) s)
              else some (s1, none)))
        × (resends ≡ true → p1.skips_sent < a.skips)
  unfolding add_known
  add_known-ends next current_hash behind a p p1 reached s e led =
      let (leader, e', _) = leader-elem app p1.manifest.content a.skips led in
      (
        reached && (leader == s.local_peer_signer.peer) && not behind,
        current_hash == a.proposal.hash && ltb p1.skips_sent a.skips,
        propose a.proposal.hash (add64 p1.height 1) a.skips
            (or_empty (accepts_for_skip p1 a.skips)),
        ground (arith, e, e'),
        λ h. ground arith,
      )

  -- A vote for a proposal that is there: the vote that it asks for may have to be answered too.
  add_known-total :
      (next : SolidCore S → Option (SolidCore S × Option (SolidEvent S))) (current_hash : ℕ)
      (behind : Bool) (a : ProposalAccept) (p : Proposal S) (s : SolidCore S)
      → IsAt app hash h s.proposals
      → get a.proposal.hash s.proposals.proposals ≡ some p
      → (p.skips_sent ≡ a.skips)
        ⊎ ((t : SolidCore S) → IsAt app hash h t.proposals → Answers next t)
      → Answers (add_known app now next current_hash behind a p) s
  unfolding add_known
  add_known-total next current_hash behind a p s v held calm =
      let led = v.valid.led a.proposal.hash p held in
      let (p1, reached, e, same_hash, same, same_skips) =
        add_accept-total app p a s.config.accept_threshold led in
      let p2 : Proposal S = record p1 { skips_sent = a.skips } in
      let s1 = with_proposals (insert a.proposal.hash p1 s.proposals.proposals) s in
      let v1 = update-IsAt app hash h s.proposals v a.proposal.hash p p1 held same_hash same in
      let v2 = update-IsAt app hash h s.proposals v a.proposal.hash p p2 held same_hash same in
      let (proposes, resends, event, ends, higher) =
        add_known-ends next current_hash behind a p p1 reached s e (rw same led) in
      elim (Bool-cases proposes) [
        | inl yes_it ↦ (s1, some event, rw yes_it at ends, v1)
        | inr no_proposal ↦ elim (Bool-cases resends) [
          | inr quiet ↦ (s1, none, rw (no_proposal, quiet) at ends, v1)
          | inl again ↦ elim calm [
            | inl equal ↦ absurd (ground (arith, higher again, same_skips))
            | inr total ↦
                let (t, event', answered, vt) =
                  total (with_proposals (insert a.proposal.hash p2 s.proposals.proposals) s) v2 in
                (t, event', (rw (no_proposal, again) at ends) ∙ answered, vt)
          ]
        ]
      ]

  add_accept_step-total :
      (next : SolidCore S → Option (SolidCore S × Option (SolidEvent S))) (a : ProposalAccept)
      (s : SolidCore S)
      → IsAt app hash h s.proposals
      → IsOwn a s ⊎ ((t : SolidCore S) → IsAt app hash h t.proposals → Answers next t)
      → Answers (add_accept_step app now next a) s
  unfolding add_accept_step
  add_accept_step-total next a s v calm =
      let at = height-confirmed s.proposals v.valid.cache in
      let (behind, e1) = out_of_sync-total s v in
      let (s1, current, e2, done, v1) = current-IsAt s v in
      elim (Bool-cases (ltb a.proposal.height v.valid.cache.confirmed.height)) [
        | inl late ↦ (s, none, ground (arith, at), v)
        | inr due ↦ elim (Option-cases (get a.proposal.hash s1.proposals.proposals)) [
          | inl missing ↦
              let (s2, event, e3, v2) = add_missing-total a s1 v1 in
              (s2, event, ground (arith, at, e1, e2, e3), v2)
          | inr (p, known) ↦
              let (q0, before, same_skips) = done.kept a.proposal.hash p known in
              let calm' : (p.skips_sent ≡ a.skips)
                  ⊎ ((t : SolidCore S) → IsAt app hash h t.proposals → Answers next t) =
                elim calm [
                  | inl own ↦ inl (same_skips ∙ own.calm q0 before)
                  | inr total ↦ inr total
                ] in
              let (s2, event, e3, v2) =
                add_known-total next current.hash behind a p s1 v1 known calm' in
              (s2, event, ground (arith, at, e1, e2, e3), v2)
        ]
      ]

  -- A vote of the node itself is answered at depth one, any other vote at depth two.
  add_accept-total_own :
      (depth : ℕ) (a : ProposalAccept) (s : SolidCore S)
      → IsAt app hash h s.proposals
      → IsOwn a s
      → Answers (add_accept app now (suc depth) a) s
  unfolding add_accept
  add_accept-total_own depth a s v own =
      add_accept_step-total (get_next_accept_event app now (add_accept app now depth) false) a s v
        (inl own)

  pub get_next_accept_event-total :
      (depth : ℕ) (skip : Bool) (s : SolidCore S)
      → IsAt app hash h s.proposals
      → Answers (get_next_accept_event app now (add_accept app now (suc depth)) skip) s
  unfolding get_next_accept_event
  get_next_accept_event-total depth skip s v =
      let (s1, own, e1, v1, is_own) = prepare_accept-total skip s v in
      let (s2, event, e2, v2) = add_accept-total_own depth own s1 v1 is_own in
      (s2, or_else event (accept own), rw (e1, e2), v2)

  pub add_accept-Answers :
      (depth : ℕ) (a : ProposalAccept) (s : SolidCore S)
      → IsAt app hash h s.proposals
      → Answers (add_accept app now (suc (suc depth)) a) s
  unfolding add_accept
  add_accept-Answers depth a s v =
      add_accept_step-total (get_next_accept_event app now (add_accept app now (suc depth)) false) a
        s v (inr (get_next_accept_event-total depth false))
