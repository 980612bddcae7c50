-- ===== src/Pagination/Collected.antt =====
-- What a `Paginator` reports of the items that it has passed (ciphera/pkg/primitives/src/pagination.rs).
use zerosats.Prelude.{◌≡◌, refl, ap, Option, none, some, List, [], ◌∷◌, arith}
use mathlib.Core.Option.{map}
use zerosats.Pagination.{after, before, Paginator, paginator, run, pass, collect_page}

module _ {κ} {Pos : Type κ} where
  abbrev pub first_of : List Pos → Option Pos
  first_of [] = none
  first_of (p ∷ ps) = some p

  abbrev pub last_of : List Pos → Option Pos
  last_of [] = none
  last_of (p ∷ ps) = elim (last_of ps) [ none ↦ some p | some q ↦ some q ]

module _ {ℓ κ} {I : Type ℓ} {Pos : Type κ} where
  -- The positions of the items that have one
  abbrev pub positions : (I → Option Pos) → List I → List Pos
  positions f [] = []
  positions f (x ∷ xs) = elim (f x) [ none ↦ positions f xs | some pos ↦ pos ∷ positions f xs ]

  run-items : (xs : List I) (p : Paginator I Pos) → (run xs p).1 ≡ xs
  run-items [] p = refl
  run-items (x ∷ xs) p = ap (λ (t : List I). x ∷ t) (run-items xs (pass x xs p))

  run-after :
      (xs : List I) (p : Paginator I Pos)
      → (run xs p).0.after
        ≡ elim (last_of (positions p.item_to_pos xs)) [ none ↦ p.after | some q ↦ some (after q) ]
  run-after [] p = refl
  run-after (x ∷ xs) p = ground (arith, run-after xs (pass x xs p))

  run-before :
      (xs : List I) (p : Paginator I Pos)
      → (run xs p).0.before ≡ elim p.before [
        | none ↦ map before (first_of (positions p.item_to_pos xs))
        | some c ↦ some c
      ]
  run-before [] p = ground arith
  run-before (x ∷ xs) p = ground (arith, run-before xs (pass x xs p))

  -- A paginator passes the items on as they come. Its cursor leads behind the last position that
  -- it has seen and before the first, and is empty where no item has a position.
  pub collect_page_lem :
      (f : I → Option Pos) (xs : List I)
      → ((collect_page (paginator xs f)).1 ≡ xs)
        × ((collect_page (paginator xs f)).0.after ≡ map after (last_of (positions f xs)))
        × ((collect_page (paginator xs f)).0.before ≡ map before (first_of (positions f xs)))
  unfolding collect_page
  collect_page_lem f xs = (
    run-items xs (paginator xs f),
    ground (arith, run-after xs (paginator xs f)),
    run-before xs (paginator xs f),
  )
