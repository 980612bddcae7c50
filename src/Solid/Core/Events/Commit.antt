-- ===== src/Solid/Core/Events/Commit.antt =====
-- Which proposals are committed, and when (core.rs, `next_event`).
use zerosats.Prelude.{ℕ, ◌+◌, ◌≡◌, ap, ◌∙◌, subst, some, arith, inl, inr, Option-cases}
use zerosats.Prelude.Maps.{get}
use zerosats.Solid.Types.{App, Manifest}
use zerosats.Solid.Proposal.{Proposal}
use zerosats.Solid.Cache.{ProposalCache, next_pending_proposal, height}
use zerosats.Solid.Cache.Pending.{height-confirmed}
use zerosats.Solid.Cache.Links.{
  next_pending_proposal-Follows, next_pending_proposal-NextOf, next_pending_proposal-total,
}
use zerosats.Solid.Cache.Confirm.{Confirmed, confirm-Confirmed}
use zerosats.Solid.Core.{SolidCore, commit}
use zerosats.Solid.Core.Events.{next_event}
use zerosats.Solid.Core.Events.Quiet.{next_vote-Quiet}
use zerosats.Solid.Core.Valid.{IsValid}

module _ {S : Type 0} (app : App S) where
  -- A step from `s` to `s'` that commits `m`, on account of `c`.
  pub record Commits (s s' : SolidCore S) (m c : Manifest S) : Type 0 where
    pub names_confirmed : m.last_proposal_hash ≡ s.proposals.last_confirmed_proposal_hash
    pub one_higher : (h : ℕ) × (height s.proposals ≡ some h) × (m.height ≡ h + 1)
    pub justified : c.last_proposal_hash ≡ app.hash m.content
    pub next_height : c.height ≡ m.height + 1
    pub confirmed : s'.proposals.last_confirmed_proposal_hash ≡ app.hash m.content
    pub new_height : height s'.proposals ≡ some m.height
    pub valid : IsValid app s'.proposals

  Confirmed-IsValid :
      (c c' : ProposalCache S) (hash : ℕ) (p : Proposal S)
      → IsValid app c
      → Confirmed c hash p c'
      → IsValid app c'
  Confirmed-IsValid c c' hash p v done = record {
    cache = done.valid;
    hashed = λ k q e. v.hashed k q ((done.keeps k q).0 e).0;
    led = λ k q e. v.led k q ((done.keeps k q).0 e).0;
  }

  Confirmed-height :
      (c c' : ProposalCache S) (hash : ℕ) (p : Proposal S)
      → Confirmed c hash p c'
      → height c' ≡ some p.height
  Confirmed-height c c' hash p done =
      let same : done.valid.confirmed ≡ p =
        ground (arith, done.valid.held, done.confirms, done.is_last) in
      height-confirmed c' done.valid ∙ ap (λ (q : Proposal S). some q.height) same

  -- Two proposals in line make a commit.
  commit_step :
      (now : ℕ) (s : SolidCore S) (p q : Proposal S)
      → IsValid app s.proposals
      → next_pending_proposal s.proposals 0 ≡ some (some p)
      → next_pending_proposal s.proposals 1 ≡ some (some q)
      → (s' : SolidCore S) × (next_event app now s ≡ some (s', some (commit p.manifest q.manifest)))
        × Commits s s' p.manifest q.manifest
  unfolding next_event
  commit_step now s p q v first second =
      let follows = next_pending_proposal-Follows s.proposals v.cache p first in
      let (p2, first2, link) = next_pending_proposal-NextOf s.proposals v.cache q second in
      let same : p2 ≡ p = ground arith in
      let (k, stored) = follows.stored in
      let hashed = v.hashed k p stored in
      let found : get (app.hash p.manifest.content) s.proposals.proposals ≡ some p =
        rw hashed stored in
      let (c', confirms, done) =
        confirm-Confirmed s.proposals (app.hash p.manifest.content) p v.cache.keyed found in
      let own : p.hash ≡ app.hash p.manifest.content =
        v.cache.keyed.keyed (app.hash p.manifest.content) p found in
      (
        record s { proposals = c' },
        rw (first, second, confirms),
        record {
          names_confirmed = follows.names_confirmed;
          one_higher =
              (v.cache.confirmed.height, height-confirmed s.proposals v.cache, follows.one_higher);
          justified = link.names ∙ ap (λ (r : Proposal S). r.hash) same ∙ own;
          next_height = omega (arith, link.one_more, ap (λ (r : Proposal S). r.height) same);
          confirmed = done.is_last;
          new_height = Confirmed-height s.proposals c' (app.hash p.manifest.content) p done;
          valid = Confirmed-IsValid s.proposals c' (app.hash p.manifest.content) p v done;
        },
      )

  -- Whenever a valid state has a proposal after the next one in line, `next_event` does not panic
  -- and commits the next one, on account of the one after it, and the commit extends the chain as
  -- `Commits` says.
  pub next_event_ready :
      (now : ℕ) (s : SolidCore S) (q : Proposal S)
      → IsValid app s.proposals
      → next_pending_proposal s.proposals 1 ≡ some (some q)
      → (s' : SolidCore S) × (p : Proposal S) × (next_event app now s
          ≡ some (s', some (commit p.manifest q.manifest)))
        × Commits s s' p.manifest q.manifest
  next_event_ready now s q v second =
      let (p, first, _) = next_pending_proposal-NextOf s.proposals v.cache q second in
      let (s', e, done) = commit_step now s p q v first second in (s', p, e, done)

  -- Every commit of `next_event` on a valid state extends the chain: the manifest names the last
  -- confirmed proposal and is one higher, the one that justifies it names it and is one higher
  -- again, and it becomes the last confirmed one of a valid state.
  pub next_event-Commits :
      (now : ℕ) (s s' : SolidCore S) (m c : Manifest S)
      → IsValid app s.proposals
      → next_event app now s ≡ some (s', some (commit m c))
      → Commits s s' m c
  unfolding next_event
  next_event-Commits now s s' m c v h =
      let (r, first) = next_pending_proposal-total s.proposals v.cache 0 (omega arith) in
      let (r', second) = next_pending_proposal-total s.proposals v.cache 1 (omega arith) in
      let quiet = next_vote-Quiet app now s s' (some (commit m c)) in
      elim (Option-cases r) [
        | inl nobody ↦ absurd (ground (arith, quiet))
        | inr (p, is_p) ↦ elim (Option-cases r') [
          | inl nobody ↦ absurd (ground (arith, quiet))
          | inr (q, is_q) ↦
              let (t, e, done) =
                commit_step now s p q v (first ∙ ap some is_p) (second ∙ ap some is_q) in
              let same_m : p.manifest ≡ m = cc in
              let same_c : q.manifest ≡ c = cc in
              let same_s : t ≡ s' = cc in
              subst (λ x. Commits s x m c) same_s
                (subst (λ x. Commits s t x c) same_m
                  (subst (λ x. Commits s t p.manifest x) same_c done))
        ]
      ]
