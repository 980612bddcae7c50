-- ===== src/Solid/Cache/Next.antt =====
-- The proposal that is next in line for confirmation, and the one after it (cache.rs).
use zerosats.Prelude.{
  ℕ, suc, ◌+◌, ◌^◌, ◌≤◌, ◌<◌, ◌≡◌, refl, sym, ap, ◌∙◌, subst, true, false, none, some, List, [],
  ◌∷◌, arith, All, inl, inr, ◌⊎◌, Bool-cases, ltb,
}
use zerosats.Prelude.Maps.{Map, get, entries-get}
use zerosats.Solid.Proposal.{Proposal}
use zerosats.Solid.Cache.{
  ProposalCache, is_decendent, walk, continuous, exceeds, max_from, max_of, max_continuous_proposal,
  next_pending_proposal,
}
use zerosats.Solid.Cache.Chain.{stored_at, Descends, Descends-height, Neighbours, walk-Neighbours}
use zerosats.Solid.Cache.Best.{max_from-All, max_from-max}
use zerosats.Solid.Cache.Pending.{IsValid, height-confirmed, is_decendent-total, is_decendent_iff}

module _ {S : Type 0} (c : ProposalCache S) (v : IsValid c) where
  -- A proposal that may be next: it is held, it is above the confirmed height, and a chain leads to
  -- it from the last confirmed one.
  pub record Candidate (p : Proposal S) : Type 0 where
    pub stored : get p.hash c.proposals ≡ some p
    pub above : v.confirmed.height < p.height
    pub steps : ℕ
    pub chain : Descends c.proposals v.confirmed steps p

  Candidate-of :
      (k : ℕ) (p : Proposal S)
      → get k c.proposals ≡ some p
      → v.confirmed.height < p.height
      → is_decendent c c.last_confirmed_proposal_hash p.hash ≡ some true
      → Candidate p
  Candidate-of k p e above h =
      let stored = stored_at v.keyed k p e in
      let (n, d) = (is_decendent_iff c v p stored).0 h in
      record { stored = stored; above = above; steps = n; chain = d }

  -- The list that `max_by` is given, with a property of its elements.
  record Listed (Q : Proposal S → Type 0) (es : Map (Proposal S)) : Type 0 where
    ps : List (Proposal S)
    made : continuous c v.confirmed.height es ≡ some ps
    candidates : All Candidate ps
    covers : All Q ps → All (λ e. Candidate e.1 → Q e.1) es

  list_entries :
      (Q : Proposal S → Type 0) (es : Map (Proposal S))
      → All (λ e. get e.0 c.proposals ≡ some e.1) es
      → Listed Q es
  unfolding continuous
  list_entries Q [] h = record { ps = []; made = refl; candidates = tt; covers = λ q. tt }
  list_entries Q ((k, p) ∷ es) h =
      let rest = list_entries Q es h.1 in
      elim (Bool-cases (ltb v.confirmed.height p.height)) [
        | inr low ↦ record {
          ps = rest.ps;
          made = ground (arith, rest.made);
          candidates = rest.candidates;
          covers = λ q. (λ cand. absurd (ground (arith, cand.above)), rest.covers q);
        }
        | inl high ↦
            let (b, e) = is_decendent-total c v p in
            elim (Bool-cases b) [
              | inr off ↦ record {
                ps = rest.ps;
                made = ground (arith, rest.made);
                candidates = rest.candidates;
                covers = λ q. (
                  λ cand. absurd (
                      ground
                        (arith, (is_decendent_iff c v p cand.stored).1 (cand.steps, cand.chain))),
                  rest.covers q,
                );
              }
              | inl on ↦ record {
                ps = p ∷ rest.ps;
                made = ground (arith, rest.made);
                candidates = (Candidate-of k p h.0 (ground arith) (ground arith), rest.candidates);
                covers = λ q. (λ cand. q.0, rest.covers q.1);
              }
            ]
      ]

  -- The best candidate: none of the held candidates is higher, or as high with more skips.
  pub record Best (b : Proposal S) : Type 0 where
    pub found : max_continuous_proposal c ≡ some (some b)
    pub candidate : Candidate b
    pub best : All (λ e. Candidate e.1 → exceeds e.1 b ≡ false) c.proposals

  pub record NoBest : Type 0 where
    pub none_found : max_continuous_proposal c ≡ some none
    pub no_candidate : All (λ e. ¬ Candidate e.1) c.proposals

  max_of-continuous :
      (ps : List (Proposal S))
      → continuous c v.confirmed.height c.proposals ≡ some ps
      → max_continuous_proposal c ≡ some (max_of ps)
  unfolding max_continuous_proposal
  max_of-continuous ps e = rw (height-confirmed c v, max_continuous_proposal) (rw e)

  -- `max_continuous_proposal` answers, and finds the best candidate if there is a candidate.
  pub max_continuous_proposal-Best : NoBest ⊎ ((b : Proposal S) × Best b)
  max_continuous_proposal-Best = cases first.ps refl
    where
      entries : All (λ e. get e.0 c.proposals ≡ some e.1) c.proposals
      entries = entries-get c.proposals v.keyed.once

      first : Listed (λ _. ⊥) c.proposals
      first = list_entries (λ _. ⊥) c.proposals entries

      cases : (ps : List (Proposal S)) → first.ps ≡ ps → NoBest ⊎ ((b : Proposal S) × Best b)
      cases [] e = inl (record {
        none_found = max_of-continuous [] (first.made ∙ ap some e);
        no_candidate = first.covers (rw e tt);
      })
      cases (p ∷ ps) e =
          let b = max_from p ps in
          let second = list_entries (λ q. exceeds q b ≡ false) c.proposals entries in
          let same : second.ps ≡ p ∷ ps = cc (first.made, second.made, e) in
          inr (
            b,
            record {
              found = max_of-continuous (p ∷ ps) (second.made ∙ ap some same);
              candidate =
                  let cands = subst (All Candidate) e first.candidates in
                  max_from-All Candidate p ps cands.0 cands.1;
              best =
                  second.covers
                    (subst (All (λ q. exceeds q b ≡ false)) (sym same) (max_from-max p ps));
            },
          )

  pub next_none : NoBest → (offset : ℕ) → next_pending_proposal c offset ≡ some none
  unfolding next_pending_proposal
  next_none b offset = rw b.none_found

  module _ (b : Proposal S) (is_best : Best b) where
    open is_best use {found, candidate}

    small : v.confirmed.height + 2 < 2 ^ 64
    small = v.keyed.small c.last_confirmed_proposal_hash v.confirmed v.held

    pub next_low :
        (offset : ℕ)
        → offset ≤ 1
        → candidate.steps ≤ offset
        → next_pending_proposal c offset ≡ some none
    unfolding next_pending_proposal
    next_low offset le few =
        ground (arith, found, height-confirmed c v, small, Descends-height candidate.chain)

    pub next_walk :
        (offset : ℕ)
        → offset ≤ 1
        → offset < candidate.steps
        → next_pending_proposal c offset
          ≡ walk (suc b.height) c.proposals (v.confirmed.height + suc offset) b
    unfolding next_pending_proposal
    next_walk offset le many =
        ground (arith, found, height-confirmed c v, small, Descends-height candidate.chain)

    -- With a chain that is long enough, the next proposals are its first two.
    pub neighbours :
        (j : ℕ) → j < candidate.steps → Neighbours c.proposals v.confirmed (suc b.height) j b
    neighbours j lt =
        walk-Neighbours c.proposals v.confirmed (suc b.height) candidate.steps j b candidate.chain
          (b.hash, candidate.stored) lt (omega (arith, Descends-height candidate.chain))

    pub steps_pos : 0 < candidate.steps
    steps_pos = omega (arith, Descends-height candidate.chain, candidate.above)
