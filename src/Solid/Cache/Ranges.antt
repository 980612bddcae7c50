-- ===== src/Solid/Cache/Ranges.antt =====
-- The proposals of the cache from a height, and between two of them (cache.rs).
use zerosats.Prelude.{
  ℕ, zero, suc, ◌≤◌, ◌<◌, ◌≡◌, ◌≢◌, refl, ◌⊎◌, inl, inr, true, false, Option, none, some, List, [],
  ◌∷◌, filter, leb, ◌==◌, ◌>>=◌, arith, Bool-cases, Option-cases,
}
use zerosats.Prelude.Maps.{Map, get, values}
use zerosats.Solid.Proposal.{Proposal}
use zerosats.Solid.Cache.{ProposalCache, last_confirmed_proposal}
use zerosats.Solid.Cache.Pending.{IsValid, last-confirmed}

module _ {S : Type 0} where
  abbrev pub proposals_from : ℕ → ProposalCache S → List (Proposal S)
  proposals_from from_height c = filter (λ p. leb from_height p.height) (values c.proposals)

  -- The loop of `confirmed_proposals_from`, on fuel
  unfoldable pub parents_loop : ℕ → Map (Proposal S) → ℕ → Proposal S → Option (List (Proposal S))
  parents_loop zero m from_height p = none
  parents_loop (suc fuel) m from_height p = elim (leb from_height p.height) [
    | false ↦ some []
    | true ↦ elim (get p.last_proposal_hash m) [
      | none ↦ some []
      | some q ↦ do rest ← parents_loop fuel m from_height q; some (q ∷ rest)
    ]
  ]

  unfoldable pub confirmed_proposals_from : ℕ → ProposalCache S → Option (List (Proposal S))
  unfolding parents_loop last_confirmed_proposal
  confirmed_proposals_from from_height c = do
    p ← last_confirmed_proposal c
    rest ← parents_loop (suc p.height) c.proposals from_height p
    some (p ∷ rest)

  -- The loop of `decendents`, on fuel; `none` inside is a chain that breaks off.
  unfoldable pub decendents_loop :
      ℕ → Map (Proposal S) → ℕ → Proposal S → Option (Option (List (Proposal S)))
  decendents_loop zero m decendent_hash p = none
  decendents_loop (suc fuel) m decendent_hash p = elim (p.hash == decendent_hash) [
    | true ↦ some (some [])
    | false ↦ elim (get p.last_proposal_hash m) [
      | none ↦ some none
      | some q ↦ do
        rest ← decendents_loop fuel m decendent_hash q
        some (rest >>= λ ps. some (p ∷ ps))
    ]
  ]

  abbrev pub or_empty : Option (List (Proposal S)) → List (Proposal S)
  or_empty none = []
  or_empty (some ps) = ps

  unfoldable pub decendents : ℕ → ℕ → ProposalCache S → Option (List (Proposal S))
  unfolding decendents_loop
  decendents decendent_hash parent_hash c = elim (get parent_hash c.proposals) [
    | none ↦ some []
    | some p ↦ do
      found ← decendents_loop (suc p.height) c.proposals decendent_hash p
      some (or_empty found)
  ]

module _ {S : Type 0} (m : Map (Proposal S)) where
  -- Each proposal is higher than the one that it names, where that one is held.
  pub record Falls : Type 0 where
    pub falls :
        (k : ℕ) (p q : Proposal S)
        → get k m ≡ some p
        → get p.last_proposal_hash m ≡ some q
        → q.height < p.height

  -- The list goes from a proposal to the one that it names, as long as the height is not below the
  -- bound, and ends there or where that one is not held.
  abbrev pub ParentsOf : ℕ → Proposal S → List (Proposal S) → Type 0
  ParentsOf from_height p [] = (p.height < from_height) ⊎ (get p.last_proposal_hash m ≡ none)
  ParentsOf from_height p (q ∷ rest) =
      (from_height ≤ p.height)
      × (get p.last_proposal_hash m ≡ some q)
      × ParentsOf from_height q rest

  -- The list starts with a proposal and goes on with the one that it names, until this is the one
  -- that is looked for, which is left out.
  abbrev pub PathTo : ℕ → Proposal S → List (Proposal S) → Type 0
  PathTo hash p [] = p.hash ≡ hash
  PathTo hash p (first ∷ rest) =
      (first ≡ p)
      × (p.hash ≢ hash)
      × ((q : Proposal S) × (get p.last_proposal_hash m ≡ some q) × PathTo hash q rest)

  module _ (f : Falls) where
    parents_loop-ParentsOf :
        (fuel from_height k : ℕ) (p : Proposal S)
        → get k m ≡ some p
        → p.height < fuel
        → (ps : List (Proposal S)) × (parents_loop fuel m from_height p ≡ some ps)
          × ParentsOf from_height p ps
    unfolding parents_loop
    parents_loop-ParentsOf zero from_height k p held lt = absurd (omega arith)
    parents_loop-ParentsOf (suc fuel) from_height k p held lt =
        elim (Bool-cases (leb from_height p.height)) [
          | inr below ↦ ([], ground (arith, below), inl (ground (arith, below)))
          | inl above ↦ elim (Option-cases (get p.last_proposal_hash m)) [
            | inl e ↦ ([], ground (arith, above, e), inr e)
            | inr (q, e) ↦
                let (ps, r, line) =
                  parents_loop-ParentsOf fuel from_height p.last_proposal_hash q e
                    (omega (arith, f.falls k p q held e, lt)) in
                (q ∷ ps, ground (arith, above, e, r), (ground (arith, above), e, line))
          ]
        ]

    decendents_loop-PathTo :
        (fuel hash k : ℕ) (p : Proposal S)
        → get k m ≡ some p
        → p.height < fuel
        → (decendents_loop fuel m hash p ≡ some none)
          ⊎ ((ps : List (Proposal S)) × (decendents_loop fuel m hash p ≡ some (some ps))
              × PathTo hash p ps)
    unfolding decendents_loop
    decendents_loop-PathTo zero hash k p held lt = absurd (omega arith)
    decendents_loop-PathTo (suc fuel) hash k p held lt = elim (Bool-cases (p.hash == hash)) [
      | inl same ↦ inr ([], ground (arith, same), ground (arith, same))
      | inr other ↦ elim (Option-cases (get p.last_proposal_hash m)) [
        | inl e ↦ inl (ground (arith, other, e))
        | inr (q, e) ↦
            elim (decendents_loop-PathTo fuel hash p.last_proposal_hash q e
              (omega (arith, f.falls k p q held e, lt))) [
                | inl r ↦ inl (ground (arith, other, e, r))
                | inr (ps, r, path) ↦ inr (
                  p ∷ ps,
                  ground (arith, other, e, r),
                  (refl, λ h. ground (arith, other, h), (q, e, path)),
                )
              ]
      ]
    ]

    decendents_loop_path :
        (fuel hash k : ℕ) (p : Proposal S) (ps : List (Proposal S))
        → get k m ≡ some p
        → p.height < fuel
        → PathTo hash p ps
        → decendents_loop fuel m hash p ≡ some (some ps)
    unfolding decendents_loop
    decendents_loop_path zero hash k p ps held lt path = absurd (omega arith)
    decendents_loop_path (suc fuel) hash k p [] held lt path = ground (arith, path)
    decendents_loop_path (suc fuel) hash k p (r ∷ ps) held lt (e, other, (q, named, path)) =
        let rest =
          decendents_loop_path fuel hash p.last_proposal_hash q ps named
            (omega (arith, f.falls k p q held named, lt)) path in
        ground (arith, e, other, named, rest)

module _ {S : Type 0} (c : ProposalCache S) (v : IsValid c) (f : Falls c.proposals) where
  -- In a valid cache in which each proposal is higher than the one it names, the search for the
  -- confirmed proposals from a height ends. It gives the last confirmed proposal, and then, as long
  -- as the last one it gave is not below the height, the one which that names, until one is not
  -- held. So the last one may be below the height.
  pub confirmed_proposals_from-ParentsOf :
      (from_height : ℕ)
      → (ps : List (Proposal S)) × (confirmed_proposals_from from_height c
          ≡ some (v.confirmed ∷ ps))
        × ParentsOf c.proposals from_height v.confirmed ps
  unfolding confirmed_proposals_from
  confirmed_proposals_from-ParentsOf from_height =
      let (ps, r, line) =
        parents_loop-ParentsOf c.proposals f (suc v.confirmed.height) from_height
          c.last_confirmed_proposal_hash v.confirmed v.held (omega arith) in
      (ps, cc (last-confirmed c v, r), line)

  -- In such a cache, `decendents` ends for a proposal that is held. If a path of named proposals
  -- leads from it to the one that is looked for, then this path is the result; else it is empty.
  pub decendents-PathTo :
      (hash : ℕ) (k : ℕ) (p : Proposal S)
      → get k c.proposals ≡ some p
      → ((decendents hash k c ≡ some [])
          ⊎ ((ps : List (Proposal S)) × PathTo c.proposals hash p ps))
        × ((ps : List (Proposal S)) → PathTo c.proposals hash p ps → decendents hash k c ≡ some ps)
  unfolding decendents
  decendents-PathTo hash k p held = (
    elim (decendents_loop-PathTo c.proposals f (suc p.height) hash k p held (omega arith)) [
      | inl r ↦ inl (cc (held, r))
      | inr (ps, r, path) ↦ inr (ps, path)
    ],
    λ ps path. cc (
      held,
      decendents_loop_path c.proposals f (suc p.height) hash k p ps held (omega arith) path,
    ),
  )
