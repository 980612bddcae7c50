-- ===== src/Solid/Core/Marks.antt =====
-- The mark of the current proposal, and that it is found again (core.rs).
use zerosats.Prelude.{
  ◌∙◌, ℕ, suc, ◌≡◌, refl, true, none, some, [], ◌∷◌, arith, inl, inr, Option-cases, ◌==◌,
  if◌then◌else◌, length, All, ℕ_discrete,
}
use zerosats.Prelude.Maps.{Map, get, insert, IsMap, get-insert, entries-get}
use zerosats.Solid.Types.{App}
use zerosats.Solid.Proposal.{Proposal}
use zerosats.Solid.Proposal.Votes.{highest_skip_with_inverse-cong}
use zerosats.Solid.Cache.{height, last_confirmed_proposal, next_pending_proposal}
use zerosats.Solid.Cache.Chain.{IsKeyed}
use zerosats.Solid.Cache.Pending.{last-confirmed}
use zerosats.Solid.Cache.Marks.{
  map_values, map_option, get-map_values, last-marked, next_pending_proposal-marked,
}
use zerosats.Solid.Core.{
  SolidCore, with_proposals, highest_next_pending, validated_hash_loop,
  validated_current_proposal_hash, validated_current_proposal,
}
use zerosats.Solid.Core.Valid.{IsValid, update-IsValid, update-height}
use zerosats.Solid.Core.Current.{
  IsCurrent, confirmed, pending, Current, validated_current_proposal_hash-Current,
}

module _ {S : Type 0} where
  -- The mark that `validated_current_proposal` sets.
  abbrev pub mark : ℕ → Proposal S → Proposal S
  mark hash p = record p { is_validated = if p.hash == hash then true else p.is_validated }

  map_values-absent :
      (hash : ℕ) (m : Map (Proposal S))
      → get hash m ≡ none
      → All (λ e. e.1.hash ≡ e.0) m
      → map_values (mark hash) m ≡ m
  map_values-absent hash [] n a = refl
  map_values-absent hash ((k, p) ∷ m) n a = ground (arith, map_values-absent hash m)

  insert-mark :
      (hash : ℕ) (p : Proposal S) (m : Map (Proposal S))
      → IsMap m
      → All (λ e. e.1.hash ≡ e.0) m
      → get hash m ≡ some p
      → insert hash (record p { is_validated = true }) m ≡ map_values (mark hash) m
  insert-mark hash p [] o a e = absurd (cc)
  insert-mark hash p ((k, q) ∷ m) o a e = elim (ℕ_discrete hash k) [
    | yes same ↦ ground (arith, map_values-absent hash m)
    | no other ↦ ground (arith, insert-mark hash p m o.1 a.1)
  ]

  keyed_entries :
      (m es : Map (Proposal S))
      → IsKeyed m
      → All (λ e. get e.0 m ≡ some e.1) es
      → All (λ e. e.1.hash ≡ e.0) es
  keyed_entries m [] v a = tt
  keyed_entries m ((k, p) ∷ es) v a = (v.keyed k p a.0, keyed_entries m es v a.1)

  -- Marking a proposal of the map
  insert-marks :
      (hash : ℕ) (p : Proposal S) (m : Map (Proposal S))
      → IsKeyed m
      → get hash m ≡ some p
      → insert hash (record p { is_validated = true }) m ≡ map_values (mark hash) m
  insert-marks hash p m v e =
      insert-mark hash p m v.once (keyed_entries m m v (entries-get m v.once)) e

  abbrev marked_state : ℕ → SolidCore S → SolidCore S
  marked_state hash s = with_proposals (map_values (mark hash) s.proposals.proposals) s

  highest_next_pending-marked :
      (hash : ℕ) (s : SolidCore S)
      → highest_next_pending (marked_state hash s)
        ≡ map_option (map_option (mark hash)) (highest_next_pending s)
  unfolding highest_next_pending
  highest_next_pending-marked hash s =
      let next = next_pending_proposal-marked (mark hash) (λ p. refl) (λ p. refl) s.proposals 0 in
      let last = last-marked (mark hash) (λ p. refl) (λ p. refl) s.proposals in
      elim (Option-cases (last_confirmed_proposal s.proposals)) [
        | inl e ↦ ground (arith, last)
        | inr (l, e) ↦
            let skips =
              highest_skip_with_inverse-cong l (mark hash l) s.config.accept_threshold refl refl in
            elim (Option-cases (next_pending_proposal s.proposals 0)) [
              | inl e' ↦ ground (arith, last, next, skips)
              | inr (r, e') ↦ elim (Option-cases r) [
                | inl nobody ↦ ground (arith, last, next, skips)
                | inr (p, is_p) ↦ ground (arith, last, next, skips)
              ]
            ]
      ]

module _ {S : Type 0} (app : App S) where
  -- The current proposal is found again at once.
  again :
      (fuel hash : ℕ) (s : SolidCore S) (v : IsValid app s.proposals) (p : Proposal S)
      → p.hash ≡ hash
      → IsCurrent app s v p
      → validated_hash_loop app (suc fuel) (marked_state hash s) ≡ some (marked_state hash s, hash)
  unfolding validated_hash_loop
  again fuel hash s v p own (confirmed is_last nobody) = ground (
    arith,
    last-marked (mark hash) (λ q. refl) (λ q. refl) s.proposals,
    last-confirmed s.proposals v.cache,
    highest_next_pending-marked hash s,
  )
  again fuel hash s v p own (pending next checked) = ground (
    arith,
    last-marked (mark hash) (λ q. refl) (λ q. refl) s.proposals,
    last-confirmed s.proposals v.cache,
    highest_next_pending-marked hash s,
  )

  -- What `validated_current_proposal` returns: a valid state, which holds the same proposals but
  -- for the mark, and a proposal of it that is returned again by a second call.
  pub record Validated (s s' : SolidCore S) (p : Proposal S) : Type 0 where
    pub valid : IsValid app s'.proposals
    pub found : get p.hash s'.proposals.proposals ≡ some p
    pub is_marked : p.is_validated ≡ true
    pub same_last :
        s'.proposals.last_confirmed_proposal_hash ≡ s.proposals.last_confirmed_proposal_hash
    pub same_height : height s'.proposals ≡ height s.proposals
    pub kept :
        (k : ℕ) (q : Proposal S)
        → get k s'.proposals.proposals ≡ some q
        → (q0 : Proposal S) × (get k s.proposals.proposals ≡ some q0)
          × (q.skips_sent ≡ q0.skips_sent)
    pub stable : (s'' : SolidCore S) × (validated_current_proposal app s' ≡ some (s'', p))

  stable_at :
      (s0 s : SolidCore S) (hash : ℕ) (c : Current app s0 s hash)
      → let p' : Proposal S = record c.current { is_validated = true } in
        (s'' : SolidCore S) × (validated_current_proposal app
            (with_proposals (insert hash p' s.proposals.proposals) s)
          ≡ some (s'', p'))
  unfolding validated_current_proposal validated_current_proposal_hash
  stable_at s0 s hash c =
      let p' : Proposal S = record c.current { is_validated = true } in
      let own : c.current.hash ≡ hash = c.valid.cache.keyed.keyed hash c.current c.found in
      let same = insert-marks hash c.current s.proposals.proposals c.valid.cache.keyed c.found in
      let s1 = marked_state hash s in
      (
        with_proposals (insert hash p' s1.proposals.proposals) s1,
        rw same (
            ground (
              arith,
              again (length s1.proposals.proposals) hash s c.valid c.current own c.is_current,
              get-map_values (mark hash) (λ q. refl) (λ q. refl) hash s.proposals.proposals,
              c.found,
            )),
      )

  -- On a valid state `validated_current_proposal` does not panic and ends. It returns a proposal
  -- of the state, marked as validated, which a second call returns again. The state stays valid,
  -- with the same last confirmed proposal, no new proposal, and the same skips sent for each.
  pub validated_current_proposal-Validated :
      (s : SolidCore S)
      → IsValid app s.proposals
      → (s' : SolidCore S) × (p : Proposal S) × (validated_current_proposal app s ≡ some (s', p))
        × Validated s s' p
  unfolding validated_current_proposal
  validated_current_proposal-Validated s v =
      let (s1, hash, e, c) = validated_current_proposal_hash-Current app s v in
      let p' : Proposal S = record c.current { is_validated = true } in
      let own : c.current.hash ≡ hash = c.valid.cache.keyed.keyed hash c.current c.found in
      let at = λ (k : ℕ). get-insert k hash p' s1.proposals.proposals in
      (
        with_proposals (insert hash p' s1.proposals.proposals) s1,
        p',
        ground (arith, c.found),
        record {
          valid = update-IsValid app s1.proposals c.valid hash c.current p' c.found refl refl;
          found = ground (arith, at p'.hash);
          is_marked = refl;
          same_last = c.same_last;
          same_height =
              update-height app s1.proposals c.valid hash c.current p' c.found refl refl
              ∙ c.same_height;
          kept = λ k q h. elim (ℕ_discrete k hash) [
            | yes same ↦
                (c.current, c.kept k c.current (ground (arith, c.found)), ground (arith, at k))
            | no other ↦ (q, c.kept k q (ground (arith, at k)), refl)
          ];
          stable = stable_at s s1 hash c;
        },
      )
