-- ===== src/BlockStore/Listing/Unique.antt =====
-- Rows are determined by what they hold under each height
-- (ciphera/pkg/block-store/src/list.rs).
use zerosats.Prelude.{ℕ, ◌^◌, ◌<◌, ◌≡◌, refl, List, [], ◌∷◌, All, arith}
use zerosats.Prelude.Maps
use zerosats.Prelude.Ordered.{put, Above, IsOrdered, get-Above}
use zerosats.BlockStore.Listing.{lowest_to_highest}
use zerosats.BlockStore.Listing.Pages.{IsInOrder, AllBehind}

-- Rows in the order of their heights, which are `u64`s
abbrev pub AreRowsBelow {ℓ} : {V : Type ℓ} → List (ℕ × V) → Type 0
AreRowsBelow rows = IsOrdered rows × All (λ row. row.0 < 256 ^ 8) rows

AllBehind-Above {ℓ} :
    {V : Type ℓ} (k : ℕ) (rows : List (ℕ × V)) → AllBehind lowest_to_highest k rows → Above k rows
AllBehind-Above k [] a = tt
AllBehind-Above k (row ∷ rows) a = (ground (arith, a.0), AllBehind-Above k rows a.1)

pub in_order_rows {ℓ} :
    {V : Type ℓ} (rows : List (ℕ × V)) → IsInOrder lowest_to_highest rows → IsOrdered rows
in_order_rows [] s = tt
in_order_rows (row ∷ rows) s = (AllBehind-Above row.0 rows s.0, in_order_rows rows s.1)

pub put-below {ℓ} :
    {V : Type ℓ} (k : ℕ) (v : V) (rows : List (ℕ × V))
    → k < 256 ^ 8
    → All (λ row. row.0 < 256 ^ 8) rows
    → All (λ row. row.0 < 256 ^ 8) (put k v rows)
put-below k v [] lt a = (lt, tt)
put-below k v (row ∷ rows) lt a = ground (arith, put-below k v rows lt a.1, a.0)

-- Such rows are the same where they hold the same under every height.
pub rows_extensional :
    {V : Type 0} (xs ys : List (ℕ × V))
    → AreRowsBelow xs
    → AreRowsBelow ys
    → ((h : ℕ) → h < 256 ^ 8 → Maps.get h xs ≡ Maps.get h ys)
    → xs ≡ ys
rows_extensional [] [] a b same = refl
rows_extensional [] (y ∷ ys) a b same = absurd (ground (arith, same y.0 b.1.0))
rows_extensional (x ∷ xs) [] a b same = absurd (ground (arith, same x.0 a.1.0))
rows_extensional (x ∷ xs) (y ∷ ys) a b same =
    let first : (x.0 ≡ y.0) × (x.1 ≡ y.1) =
      ground (arith, same x.0 a.1.0, same y.0 b.1.0, get-Above x.0 y.0 ys, get-Above y.0 x.0 xs) in
    let rest : xs ≡ ys =
      rows_extensional xs ys (a.0.1, a.1.1) (b.0.1, b.1.1)
        λ h lt. ground (arith, same h lt, get-Above h x.0 xs, get-Above h y.0 ys, first.0) in
    cc (first.0, first.1, rest)
