-- ===== src/Solid/Cache/Chain.antt =====
-- Chains of proposals in the cache (cache.rs): what its loops find, and that they end.
use zerosats.Prelude.{
  ℕ, zero, suc, ◌+◌, ◌^◌, ◌<◌, ◌≡◌, sym, ◌∙◌, subst, Bool, true, false, some, arith, inl, inr,
  Bool-cases, Option-cases, ◌==◌, add64, dec_lt,
}
use zerosats.Prelude.Maps.{Map, get, IsMap}
use zerosats.Solid.Proposal.{Proposal}
use zerosats.Solid.Cache.{descends_loop, walk}

module _ {S : Type 0} where
  -- What every operation keeps of the map of proposals: each proposal stands under its own hash,
  -- and its height is two below the largest `u64` at most.
  pub record IsKeyed (m : Map (Proposal S)) : Type 0 where
    pub once : IsMap m
    pub keyed : (k : ℕ) (p : Proposal S) → get k m ≡ some p → p.hash ≡ k
    pub small : (k : ℕ) (p : Proposal S) → get k m ≡ some p → p.height + 2 < 2 ^ 64

  pub stored_at :
      {m : Map (Proposal S)}
      → IsKeyed m
      → (k : ℕ) (p : Proposal S) → get k m ≡ some p
      → get p.hash m ≡ some p
  stored_at {m} v k p e = subst (λ h. get h m ≡ some p) (sym (v.keyed k p e)) e

-- `p` comes `n` steps after `root`, each step to a proposal one higher that names the last one.
pub data Descends {S : Type 0} (m : Map (Proposal S)) (root : Proposal S)
    : ℕ → Proposal S → Type 0 where
  here : {p : Proposal S} → p ≡ root → Descends m root 0 p
  step :
      {n : ℕ} {q p : Proposal S}
      → get p.last_proposal_hash m ≡ some q
      → q.height + 1 ≡ p.height
      → Descends m root n q
      → Descends m root (suc n) p

module _ {S : Type 0} {m : Map (Proposal S)} {root : Proposal S} where
  pub Descends-height : {n : ℕ} {p : Proposal S} → Descends m root n p → p.height ≡ root.height + n
  Descends-height (here e) = rw e (omega arith)
  Descends-height (step e h d) = omega (arith, Descends-height d)

  module _ (k : IsKeyed m) (stored : get root.hash m ≡ some root) where
    -- The loop of `is_decendent` finds chains, and nothing else.
    pub descends_loop_sound :
        (fuel : ℕ) (p : Proposal S)
        → get p.hash m ≡ some p
        → descends_loop fuel m root.hash p ≡ some true
        → (n : ℕ) × Descends m root n p
    unfolding descends_loop
    descends_loop_sound zero p s h = absurd (cc)
    descends_loop_sound (suc fuel) p s h = elim (Bool-cases (p.hash == root.hash)) [
      | inl same ↦ (0, here (ground (arith, stored)))
      | inr other ↦ elim (Option-cases (get p.last_proposal_hash m)) [
        | inl e ↦ absurd (ground arith)
        | inr (q, e) ↦
            let found : get q.hash m ≡ some q = stored_at k p.last_proposal_hash q e in
            let (n, d) = descends_loop_sound fuel q found (ground arith) in
            (suc n, step e (ground (arith, k.small p.last_proposal_hash q e)) d)
      ]
    ]

    -- Every chain is found.
    pub descends_loop_complete :
        (fuel n : ℕ) (p : Proposal S)
        → p.height < fuel
        → Descends m root n p
        → descends_loop fuel m root.hash p ≡ some true
    unfolding descends_loop
    descends_loop_complete zero n p h d = absurd (omega arith)
    descends_loop_complete (suc fuel) n p h (here e) = rw e (ground arith)
    descends_loop_complete (suc fuel) (suc n) p h (step {q = q} e up d) =
        ground
          (arith, k.small p.last_proposal_hash q e, descends_loop_complete fuel n q (omega arith) d)

module _ {S : Type 0} {m : Map (Proposal S)} where
  -- It ends within the height of the proposal at which it starts.
  pub descends_loop-total :
      IsKeyed m
      → (hash fuel : ℕ) (p : Proposal S) → p.height < fuel
      → (b : Bool) × (descends_loop fuel m hash p ≡ some b)
  unfolding descends_loop
  descends_loop-total k hash zero p h = absurd (omega arith)
  descends_loop-total k hash (suc fuel) p h = elim (Bool-cases (p.hash == hash)) [
    | inl same ↦ (true, ground arith)
    | inr other ↦ elim (Option-cases (get p.last_proposal_hash m)) [
      | inl e ↦ (false, ground arith)
      | inr (q, e) ↦ elim (Bool-cases (add64 q.height 1 == p.height)) [
        | inr far ↦ (false, ground arith)
        | inl near ↦
            let (b, r) =
              descends_loop-total k hash fuel q
                (ground (arith, k.small p.last_proposal_hash q e)) in
            (b, ground arith)
      ]
    ]
  ]

-- What `walk` finds at the heights `j` and `j + 1` above the root of a chain.
pub record Neighbours {S : Type 0} (m : Map (Proposal S)) (root : Proposal S) (fuel j : ℕ)
    (x : Proposal S) : Type 0 where
  pub lower : Proposal S
  pub upper : Proposal S
  pub to_lower : walk fuel m (root.height + j) x ≡ some (some lower)
  pub to_upper : walk fuel m (root.height + suc j) x ≡ some (some upper)
  pub linked : get upper.last_proposal_hash m ≡ some lower
  pub chain : Descends m root j lower
  pub next_height : lower.height + 1 ≡ upper.height
  pub held : (k : ℕ) × (get k m ≡ some upper)

module _ {S : Type 0} (m : Map (Proposal S)) where
  walk-stays :
      (root : Proposal S) (fuel n : ℕ) (x : Proposal S)
      → Descends m root n x
      → walk (suc fuel) m (root.height + n) x ≡ some (some x)
  unfolding walk
  walk-stays root fuel n x d = ground (arith, Descends-height d)

  walk-moves :
      (fuel t : ℕ) (x y : Proposal S)
      → t < x.height
      → get x.last_proposal_hash m ≡ some y
      → walk (suc fuel) m t x ≡ walk fuel m t y
  unfolding walk
  walk-moves fuel t x y h e = ground arith

  pub walk-Neighbours :
      (root : Proposal S) (fuel n j : ℕ) (x : Proposal S)
      → Descends m root n x
      → (k : ℕ) × (get k m ≡ some x)
      → j < n
      → n < fuel
      → Neighbours m root fuel j x
  walk-Neighbours root fuel zero j x d held lt enough = absurd (omega arith)
  walk-Neighbours root zero (suc n) j x d held lt enough = absurd (omega arith)
  walk-Neighbours root (suc zero) (suc n) j x d held lt enough = absurd (omega arith)
  walk-Neighbours root (suc (suc fuel)) (suc n) j x (step {q = y} e up d) held lt enough =
      elim (dec_lt j n) [
        | yes below ↦
            let nb =
              walk-Neighbours root (suc fuel) n j y d (x.last_proposal_hash, e) below
                (omega arith) in
            record {
              lower = nb.lower;
              upper = nb.upper;
              to_lower =
                  walk-moves (suc fuel) (root.height + j) x y (omega (arith, Descends-height d)) e
                  ∙ nb.to_lower;
              to_upper =
                  walk-moves (suc fuel) (root.height + suc j) x y (omega (arith, Descends-height d))
                    e
                  ∙ nb.to_upper;
              linked = nb.linked;
              chain = nb.chain;
              next_height = nb.next_height;
              held = nb.held;
            }
        | no top ↦
            let same : n ≡ j = omega arith in
            record {
              lower = y;
              upper = x;
              to_lower =
                  walk-moves (suc fuel) (root.height + j) x y (omega (arith, Descends-height d)) e
                  ∙ walk-stays root fuel j y (subst (λ i. Descends m root i y) same d);
              to_upper =
                  walk-stays root (suc fuel) (suc j) x
                    (subst (λ i. Descends m root (suc i) x) same (step e up d));
              linked = e;
              chain = subst (λ i. Descends m root i y) same d;
              next_height = up;
              held = held;
            }
      ]
