-- ===== src/Solid/Cache/Examples.antt =====
-- The cache at concrete inputs (proposal/cache.rs).
use zerosats.Prelude.{
  ℕ, ◌<◌, ◌≡◌, refl, sym, subst, ◌⊎◌, inl, inr, Option, some, List, [], ◌∷◌, arith,
}
use zerosats.Prelude.Maps.{get}
use zerosats.Solid.Proposal.{Proposal}
use zerosats.Solid.Cache.{
  height, ProposalCache, store, new, next_pending_proposal, descends_loop, confirm,
}
use zerosats.Solid.Cache.Pending.{IsValid}
use zerosats.Solid.Cache.Links.{NextOf, next_pending_proposal-NextOf}
use zerosats.Solid.Cache.Store.{new-IsValid, store-IsValid}
use zerosats.Solid.Cache.Confirm.{Confirmed, confirm-Confirmed}
use zerosats.Solid.Cache.Ranges.{
  confirmed_proposals_from, decendents, Falls, ParentsOf, confirmed_proposals_from-ParentsOf,
}
use zerosats.Solid.Demo.{root, first, second, chain}

built : store second (store first (new root 8)) ≡ chain
unfolding store new
built = refl

pub chain-IsValid : IsValid chain
chain-IsValid = rw built at (
    store-IsValid second (store first (new root 8)) (omega arith)
      (store-IsValid first (new root 8) (omega arith) (new-IsValid root 8 (omega arith))))

pub height_test : height chain ≡ some 0
unfolding height
height_test = refl

pub first_test : next_pending_proposal chain 0 ≡ some (some first)
unfolding next_pending_proposal descends_loop
first_test = refl

pub second_test : next_pending_proposal chain 1 ≡ some (some second)
unfolding next_pending_proposal descends_loop
second_test = refl

-- The first proposal is confirmed, and the others are kept.
abbrev pub confirmed_chain : ProposalCache ℕ
confirmed_chain = record chain { last_confirmed_proposal_hash = 11 }

pub confirm_test : confirm 11 chain ≡ some confirmed_chain
unfolding confirm descends_loop
confirm_test = refl

next_pending_proposal-NextOf_example :
    (p : Proposal ℕ) × (next_pending_proposal chain 0 ≡ some (some p))
    × NextOf chain chain-IsValid p second
next_pending_proposal-NextOf_example =
    next_pending_proposal-NextOf chain chain-IsValid second second_test

confirm-Confirmed_example :
    (c' : ProposalCache ℕ) × (confirm 11 chain ≡ some c') × Confirmed chain 11 first c'
confirm-Confirmed_example = confirm-Confirmed chain 11 first chain-IsValid.keyed refl

-- The cache with all three proposals confirmed
abbrev all_confirmed : ProposalCache ℕ
all_confirmed = record chain { last_confirmed_proposal_hash = 21 }

all_confirmed-IsValid : IsValid all_confirmed
all_confirmed-IsValid = record { keyed = chain-IsValid.keyed; confirmed = second; held = refl }

held_in_chain :
    (k : ℕ) (p : Proposal ℕ)
    → get k chain.proposals ≡ some p
    → (p ≡ root) ⊎ ((p ≡ first) ⊎ (p ≡ second))
held_in_chain k p h = ground arith

chain-Falls : Falls chain.proposals
chain-Falls = record { falls = λ k p q h e. below p q e (held_in_chain k p h) }
  where
    named :
        (p q x : Proposal ℕ)
        → get p.last_proposal_hash chain.proposals ≡ some q
        → p ≡ x
        → get x.last_proposal_hash chain.proposals ≡ some q
    named p q x e r =
        subst (λ (p : Proposal ℕ). get p.last_proposal_hash chain.proposals ≡ some q) r e

    same : (y q : Proposal ℕ) → ◌≡◌ {A = Option (Proposal ℕ)} (some y) (some q) → y ≡ q
    same y q e = cc

    less :
        (p q x y : Proposal ℕ) → p ≡ x → some y ≡ some q → y.height < x.height → q.height < p.height
    less p q x y r e lt =
        subst (λ (q : Proposal ℕ). q.height < p.height) (same y q e)
          (subst (λ (p : Proposal ℕ). y.height < p.height) (sym r) lt)

    below :
        (p q : Proposal ℕ)
        → get p.last_proposal_hash chain.proposals ≡ some q
        → (p ≡ root) ⊎ ((p ≡ first) ⊎ (p ≡ second))
        → q.height < p.height
    below p q e (inl r) = absurd (cc (named p q root e r))
    below p q e (inr (inl r)) = less p q first root r (named p q first e r) (omega arith)
    below p q e (inr (inr r)) = less p q second first r (named p q second e r) (omega arith)

-- The proposal below the height is given too.
below_test : confirmed_proposals_from 2 all_confirmed ≡ some (second ∷ first ∷ [])
unfolding confirmed_proposals_from
below_test = refl

decendents_test : decendents 1 21 all_confirmed ≡ some (second ∷ first ∷ [])
unfolding decendents
decendents_test = refl

confirmed_proposals_from-ParentsOf_example :
    (ps : List (Proposal ℕ)) × (confirmed_proposals_from 2 all_confirmed ≡ some (second ∷ ps))
    × ParentsOf chain.proposals 2 second ps
unfolding all_confirmed-IsValid
confirmed_proposals_from-ParentsOf_example =
    confirmed_proposals_from-ParentsOf all_confirmed all_confirmed-IsValid chain-Falls 2
