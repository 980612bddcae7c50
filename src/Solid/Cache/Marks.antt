-- ===== src/Solid/Cache/Marks.antt =====
-- The search for the next proposal in line reads the hashes and the manifests of the proposals only
-- (cache.rs), so marks on the proposals do not change what it finds.
use zerosats.Prelude.{
  ℕ, zero, suc, ◌≡◌, refl, ap, Option, none, some, List, [], ◌∷◌, arith, inl, inr, Option-cases,
  add64, map,
}
use zerosats.Prelude.Maps.{Map, get}
use zerosats.Solid.Proposal.{Proposal}
use zerosats.Solid.Cache.{
  ProposalCache, last_confirmed_proposal, height, descends_loop, is_decendent, continuous, exceeds,
  max_from, max_of, max_continuous_proposal, walk, next_pending_proposal,
}

abbrev pub map_values {ℓ κ} : {A : Type ℓ} {B : Type κ} → (A → B) → Map A → Map B
map_values f [] = []
map_values f ((k, v) ∷ m) = (k, f v) ∷ map_values f m

abbrev pub map_option {ℓ κ} : {A : Type ℓ} {B : Type κ} → (A → B) → Option A → Option B
map_option f none = none
map_option f (some a) = some (f a)

module _ {S : Type 0} where
  abbrev pub marked : (Proposal S → Proposal S) → ProposalCache S → ProposalCache S
  marked f c = record c { proposals = map_values f c.proposals }

  module _ (f : Proposal S → Proposal S) (same_hash : (p : Proposal S) → (f p).hash ≡ p.hash)
      (same : (p : Proposal S) → (f p).manifest ≡ p.manifest) where
    pub get-map_values :
        (k : ℕ) (m : Map (Proposal S)) → get k (map_values f m) ≡ map_option f (get k m)
    get-map_values k [] = refl
    get-map_values k ((j, p) ∷ m) = ground (arith, get-map_values k m)

    pub last-marked :
        (c : ProposalCache S)
        → last_confirmed_proposal (marked f c) ≡ map_option f (last_confirmed_proposal c)
    unfolding last_confirmed_proposal
    last-marked c = get-map_values c.last_confirmed_proposal_hash c.proposals

    height-marked : (c : ProposalCache S) → height (marked f c) ≡ height c
    unfolding height
    height-marked c = elim (Option-cases (last_confirmed_proposal c)) [
      | inl e ↦ rw (last-marked c, e)
      | inr (p, e) ↦ rw (last-marked c, e, same p)
    ]

    descends_loop-marked :
        (fuel hash : ℕ) (m : Map (Proposal S)) (p : Proposal S)
        → descends_loop fuel (map_values f m) hash (f p) ≡ descends_loop fuel m hash p
    unfolding descends_loop
    descends_loop-marked zero hash m p = refl
    descends_loop-marked (suc fuel) hash m p =
        let found = get-map_values p.last_proposal_hash m in
        elim (Option-cases (get p.last_proposal_hash m)) [
          | inl e ↦ ground (arith, same_hash p, same p, found)
          | inr (q, e) ↦
              ground (arith, same_hash p, same p, found, same q, descends_loop-marked fuel hash m q)
        ]

    walk-marked :
        (fuel target : ℕ) (m : Map (Proposal S)) (p : Proposal S)
        → walk fuel (map_values f m) target (f p) ≡ map_option (map_option f) (walk fuel m target p)
    unfolding walk
    walk-marked zero target m p = refl
    walk-marked (suc fuel) target m p =
        let found = get-map_values p.last_proposal_hash m in
        elim (Option-cases (get p.last_proposal_hash m)) [
          | inl e ↦ ground (arith, same p, found)
          | inr (q, e) ↦ ground (arith, same p, found, walk-marked fuel target m q)
        ]

    exceeds-marked : (p q : Proposal S) → exceeds (f p) (f q) ≡ exceeds p q
    exceeds-marked p q = rw (same p, same q)

    max_from-marked :
        (b : Proposal S) (ps : List (Proposal S)) → max_from (f b) (map f ps) ≡ f (max_from b ps)
    max_from-marked b [] = refl
    max_from-marked b (p ∷ ps) =
        ground (arith, exceeds-marked b p, max_from-marked b ps, max_from-marked p ps)

    is_decendent-marked :
        (c : ProposalCache S) (decendent parent : ℕ)
        → is_decendent (marked f c) decendent parent ≡ is_decendent c decendent parent
    unfolding is_decendent
    is_decendent-marked c decendent parent =
        let found = get-map_values parent c.proposals in
        elim (Option-cases (get parent c.proposals)) [
          | inl e ↦ ground (arith, found)
          | inr (q, e) ↦
              ground
                (arith, found, same q, descends_loop-marked (suc q.height) decendent c.proposals q)
        ]

    continuous-marked :
        (c : ProposalCache S) (h : ℕ) (m : Map (Proposal S))
        → continuous (marked f c) h (map_values f m) ≡ map_option (map f) (continuous c h m)
    unfolding continuous
    continuous-marked c h [] = refl
    continuous-marked c h ((k, p) ∷ m) =
        let keeps = is_decendent-marked c c.last_confirmed_proposal_hash p.hash in
        elim (Option-cases (continuous c h m)) [
          | inl e ↦ ground (arith, same p, continuous-marked c h m)
          | inr (rest, e) ↦
              elim (Option-cases (is_decendent c c.last_confirmed_proposal_hash p.hash)) [
                | inl e' ↦ ground (arith, same p, same_hash p, continuous-marked c h m, keeps)
                | inr (keep, e') ↦
                    ground (arith, same p, same_hash p, continuous-marked c h m, keeps)
              ]
        ]

    max_of-marked : (ps : List (Proposal S)) → max_of (map f ps) ≡ map_option f (max_of ps)
    max_of-marked [] = refl
    max_of-marked (p ∷ ps) = ap some (max_from-marked p ps)

    max_continuous-marked :
        (c : ProposalCache S)
        → max_continuous_proposal (marked f c)
          ≡ map_option (map_option f) (max_continuous_proposal c)
    unfolding max_continuous_proposal
    max_continuous-marked c = elim (Option-cases (height c)) [
      | inl e ↦ rw (height-marked c, e)
      | inr (h, e) ↦ elim (Option-cases (continuous c h c.proposals)) [
        | inl e' ↦ ground (arith, height-marked c, continuous-marked c h c.proposals)
        | inr (ps, e') ↦
            ground (arith, height-marked c, continuous-marked c h c.proposals, max_of-marked ps)
      ]
    ]

    -- What is found is marked, and otherwise as before.
    pub next_pending_proposal-marked :
        (c : ProposalCache S) (offset : ℕ)
        → next_pending_proposal (marked f c) offset
          ≡ map_option (map_option f) (next_pending_proposal c offset)
    unfolding next_pending_proposal
    next_pending_proposal-marked c offset = elim (Option-cases (max_continuous_proposal c)) [
      | inl e ↦ ground (arith, max_continuous-marked c)
      | inr (best, e) ↦ elim (Option-cases best) [
        | inl nobody ↦ ground (arith, max_continuous-marked c)
        | inr (p, is_p) ↦ elim (Option-cases (height c)) [
          | inl e' ↦ ground (arith, max_continuous-marked c, height-marked c)
          | inr (h, e') ↦ ground (
            arith,
            max_continuous-marked c,
            height-marked c,
            same p,
            walk-marked (suc p.height) (add64 (add64 h 1) offset) c.proposals p,
          )
        ]
      ]
    ]
