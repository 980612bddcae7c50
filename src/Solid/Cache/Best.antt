-- ===== src/Solid/Cache/Best.antt =====
-- What `max_by` of cache.rs finds: an element of the list that none exceeds.
use zerosats.Prelude.{◌≡◌, true, false, List, [], ◌∷◌, arith, All, if◌then◌else◌}
use zerosats.Solid.Proposal.{Proposal}
use zerosats.Solid.Cache.{exceeds, max_from}

module _ {S : Type 0} where
  abbrev better : Proposal S → Proposal S → Proposal S
  better best p = if exceeds best p then best else p

  better-one : (P : Proposal S → Type 0) (best p : Proposal S) → P best → P p → P (better best p)
  better-one P best p b h = elim (exceeds best p) as (λ x. P (if x then best else p)) [
    | true ↦ b
    | false ↦ h
  ]

  better-ge : (q best p : Proposal S) → exceeds q best ≡ false → exceeds q (better best p) ≡ false
  better-ge q best p h = ground arith

  better-ge_new : (best p : Proposal S) → exceeds p (better best p) ≡ false
  better-ge_new best p = ground arith

  pub max_from-All :
      (P : Proposal S → Type 0) (best : Proposal S) (ps : List (Proposal S))
      → P best
      → All P ps
      → P (max_from best ps)
  max_from-All P best [] b h = b
  max_from-All P best (p ∷ ps) b h =
      max_from-All P (better best p) ps (better-one P best p b h.0) h.1

  max_from-ge :
      (q best : Proposal S) (ps : List (Proposal S))
      → exceeds q best ≡ false
      → exceeds q (max_from best ps) ≡ false
  max_from-ge q best [] h = h
  max_from-ge q best (p ∷ ps) h = max_from-ge q (better best p) ps (better-ge q best p h)

  pub max_from-max :
      (best : Proposal S) (ps : List (Proposal S))
      → All (λ q. exceeds q (max_from best ps) ≡ false) (best ∷ ps)
  max_from-max best [] = (ground arith, tt)
  max_from-max best (p ∷ ps) = (
    max_from-ge best (better best p) ps (better-ge best best p (ground arith)),
    (max_from-ge p (better best p) ps (better-ge_new best p), (max_from-max (better best p) ps).1),
  )
