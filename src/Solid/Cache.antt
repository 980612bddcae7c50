-- ===== src/Solid/Cache.antt =====
-- The proposals that are held in memory: ciphera/pkg/solid/src/proposal/cache.rs.
-- `none` is a panic of `unwrap`, or a loop that has used up its fuel.
pub mod Chain
pub mod Best
pub mod Pending
pub mod Next
pub mod Links
pub mod Store
pub mod Confirm
pub mod Marks
pub mod Ranges
pub mod Examples
use zerosats.Prelude.{
  ℕ, zero, suc, Bool, true, false, not, ◌&&◌, ◌||◌, Option, none, some, List, [], ◌∷◌, leb, ltb,
  ◌==◌, add64, if◌then◌else◌, ◌>>=◌, length,
}
use zerosats.Prelude.Maps.{Map, get, contains_key, insert, remove}
use zerosats.Solid.Proposal.{Proposal}

pub record ProposalCache (S : Type 0) : Type 0 where
  pub last_confirmed_proposal_hash : ℕ
  pub proposals : Map (Proposal S)
  pub cache_size : ℕ

module _ {S : Type 0} where
  unfoldable pub new : Proposal S → ℕ → ProposalCache S
  new p cache_size = record {
    last_confirmed_proposal_hash = p.hash;
    proposals = insert p.hash p [];
    cache_size = cache_size;
  }

  pub last_confirmed_proposal : ProposalCache S → Option (Proposal S)
  last_confirmed_proposal c = get c.last_confirmed_proposal_hash c.proposals

  -- The confirmed height
  unfoldable pub height : ProposalCache S → Option ℕ
  unfolding last_confirmed_proposal
  height c = do p ← last_confirmed_proposal c; some p.height

  unfoldable pub contains : ProposalCache S → ℕ → Bool
  contains c hash = contains_key hash c.proposals

  -- `insert` of the cache
  unfoldable pub store : Proposal S → ProposalCache S → ProposalCache S
  store p c = record c { proposals = insert p.hash p c.proposals }

  -- The loop of `is_decendent`. Heights fall along it, so the height of the proposal at which it
  -- starts bounds its rounds.
  pub descends_loop : ℕ → Map (Proposal S) → ℕ → Proposal S → Option Bool
  descends_loop zero m decendent_hash p = none
  descends_loop (suc fuel) m decendent_hash p = elim (p.hash == decendent_hash) [
    | true ↦ some true
    | false ↦ elim (get p.last_proposal_hash m) [
      | none ↦ some false
      | some q ↦ elim (add64 q.height 1 == p.height) [
        | false ↦ some false
        | true ↦ descends_loop fuel m decendent_hash q
      ]
    ]
  ]

  pub is_decendent : ProposalCache S → ℕ → ℕ → Option Bool
  is_decendent c decendent_hash parent_hash = elim (get parent_hash c.proposals) [
    | none ↦ some false
    | some p ↦ descends_loop (suc p.height) c.proposals decendent_hash p
  ]

  -- The proposals above the height that descend from the last confirmed one.
  pub continuous : ProposalCache S → ℕ → Map (Proposal S) → Option (List (Proposal S))
  unfolding is_decendent
  continuous c from_height [] = some []
  continuous c from_height ((_, p) ∷ m) = do
    rest ← continuous c from_height m
    elim (ltb from_height p.height) [
      | false ↦ some rest
      | true ↦ do
        keep ← is_decendent c c.last_confirmed_proposal_hash p.hash
        some (if keep then p ∷ rest else rest)
    ]

  -- `(a.height(), a.skips()) > (b.height(), b.skips())`
  abbrev pub exceeds : Proposal S → Proposal S → Bool
  exceeds a b = ltb b.height a.height || a.height == b.height && ltb b.skips a.skips

  -- `max_by` keeps the later one of two equal elements.
  abbrev pub max_from : Proposal S → List (Proposal S) → Proposal S
  max_from best [] = best
  max_from best (p ∷ ps) = max_from (if exceeds best p then best else p) ps

  abbrev pub max_of : List (Proposal S) → Option (Proposal S)
  max_of [] = none
  max_of (p ∷ ps) = some (max_from p ps)

  pub max_continuous_proposal : ProposalCache S → Option (Option (Proposal S))
  unfolding height continuous
  max_continuous_proposal c = do
    from_height ← height c
    candidates ← continuous c from_height c.proposals
    some (max_of candidates)

  -- The loop of `next_pending_proposal`, down to a height.
  pub walk : ℕ → Map (Proposal S) → ℕ → Proposal S → Option (Option (Proposal S))
  walk zero m target p = none
  walk (suc fuel) m target p = elim (ltb target p.height) [
    | false ↦ some (some p)
    | true ↦ elim (get p.last_proposal_hash m) [ none ↦ some none | some q ↦ walk fuel m target q ]
  ]

  pub next_pending_proposal : ProposalCache S → ℕ → Option (Option (Proposal S))
  unfolding max_continuous_proposal walk
  next_pending_proposal c offset = do
    best ← max_continuous_proposal c
    elim best [
      | none ↦ some none
      | some p ↦ do
        confirmed ← height c
        let target = add64 (add64 confirmed 1) offset
        if ltb p.height target then some none else walk (suc p.height) c.proposals target p
    ]

  -- Whether `purge` removes a proposal.
  pub is_redundant : ProposalCache S → ℕ → Proposal S → Option Bool
  unfolding is_decendent
  is_redundant c confirmed_height p =
      if ltb p.height confirmed_height
      then some (ltb (add64 p.height c.cache_size) confirmed_height)
      else if ltb confirmed_height p.height
      then is_decendent c c.last_confirmed_proposal_hash p.hash >>= (λ keep. some (not keep))
      else some (not (p.hash == c.last_confirmed_proposal_hash))

  pub keys_to_remove : ProposalCache S → ℕ → Map (Proposal S) → Option (List ℕ)
  unfolding is_redundant
  keys_to_remove c confirmed_height [] = some []
  keys_to_remove c confirmed_height ((k, p) ∷ m) = do
    rest ← keys_to_remove c confirmed_height m
    redundant ← is_redundant c confirmed_height p
    some (if redundant then k ∷ rest else rest)

  abbrev pub remove_keys : List ℕ → Map (Proposal S) → Map (Proposal S)
  remove_keys [] m = m
  remove_keys (k ∷ ks) m = remove_keys ks (remove k m)

  pub purge : ProposalCache S → Option (ProposalCache S)
  unfolding height keys_to_remove
  purge c = do
    confirmed_height ← height c
    keys ← keys_to_remove c confirmed_height c.proposals
    some (record c { proposals = remove_keys keys c.proposals })

  pub confirm : ℕ → ProposalCache S → Option (ProposalCache S)
  unfolding purge
  confirm hash c = purge (record c { last_confirmed_proposal_hash = hash })
