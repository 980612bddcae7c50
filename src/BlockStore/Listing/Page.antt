-- ===== src/BlockStore/Listing/Page.antt =====
-- What a listing by pages returns (ciphera/pkg/block-store/src/{keys,list}.rs).
use zerosats.Prelude.{
  ℕ, ◌^◌, ◌<◌, ◌≡◌, refl, sym, ap, ◌∙◌, Bool, true, false, Option, none, some, List, [], ◌∷◌, take,
  filter, if◌then◌else◌, arith, ltb, leb,
}
use zerosats.Pagination.{
  Bound, included, excluded, unbounded, CursorChoice, choose_after, choose_before, inner, after,
  after_inclusive, before, before_inclusive,
}
use zerosats.BlockStore.Types.{ok, ◌>>=◌, collect}
use zerosats.BlockStore.Rocks.{Rocks, Codec}
use zerosats.BlockStore.Listing.{
  ListableKey, BlockListOrder, lowest_to_highest, highest_to_lowest, reverse_order, into_iterator,
  narrow_row, list_paginated,
}
use zerosats.BlockStore.Listing.Decoded.{IsListable, keyed_row, shown_row}
use zerosats.BlockStore.Listing.Range.{IsBound, between, range_listing}
use mathlib.Core.List.{reverse, map, reverse-reverse}
use zerosats.Prelude.Filter.{map-reverse, filter-reverse, filter_same, filter_all}
use zerosats.BlockStore.Listing.Whole.{in_order, Shows, iterate-AreRows, take-decode, narrow_rows}

collect-ok {ℓ κ} :
    {A : Type ℓ} {B : Type κ} (f : A → B) (xs : List A)
    → collect (map (λ x. ok (f x)) xs) ≡ ok (map f xs)
collect-ok f [] = refl
collect-ok f (x ∷ xs) = cc (collect-ok f xs)

in_order-reverse {ℓ} :
    {A : Type ℓ} (order : BlockListOrder) (xs : List A)
    → in_order (reverse_order order) xs ≡ reverse (in_order order xs)
in_order-reverse lowest_to_highest xs = refl
in_order-reverse highest_to_lowest xs = sym (reverse-reverse xs)

filter-in_order {ℓ} :
    {A : Type ℓ} (order : BlockListOrder) (p : A → Bool) (xs : List A)
    → filter p (in_order order xs) ≡ in_order order (filter p xs)
filter-in_order lowest_to_highest p xs = refl
filter-in_order highest_to_lowest p xs = filter-reverse p xs

-- The heights that a cursor leads to
abbrev pub leads_to : BlockListOrder → CursorChoice ℕ → ℕ → Bool
leads_to lowest_to_highest (choose_after (after k)) h = ltb k h
leads_to lowest_to_highest (choose_after (after_inclusive k)) h = leb k h
leads_to lowest_to_highest (choose_before (before k)) h = ltb h k
leads_to lowest_to_highest (choose_before (before_inclusive k)) h = leb h k
leads_to highest_to_lowest (choose_after (after k)) h = ltb h k
leads_to highest_to_lowest (choose_after (after_inclusive k)) h = leb h k
leads_to highest_to_lowest (choose_before (before k)) h = ltb k h
leads_to highest_to_lowest (choose_before (before_inclusive k)) h = leb k h

-- The page of a listing: the first rows behind the cursor, or the last before it
abbrev pub page {ℓ} :
    {V : Type ℓ} → Option (CursorChoice ℕ) → BlockListOrder → ℕ → List (ℕ × V) → List (ℕ × V)
page none order limit rows = take limit (in_order order rows)
page (some (choose_after c)) order limit rows =
    take limit (filter (λ row. leads_to order (choose_after c) row.0) (in_order order rows))
page (some (choose_before c)) order limit rows = reverse (
    take limit
      (reverse (filter (λ row. leads_to order (choose_before c) row.0) (in_order order rows))))

abbrev pub IsCursor : Option (CursorChoice ℕ) → Type 0
IsCursor none = Unit
IsCursor (some c) = inner c < 256 ^ 8

module _ (r : Rocks) {V : Type 0} (c : Codec V) {K : Type 0} {d : ListableKey K} (i : IsListable d)
    (db : r.Db) (rows : List (ℕ × V)) (shows : Shows r c i db rows) where
  piece :
      (limit : ℕ) (start end : Bound ℕ) (order : BlockListOrder)
      → IsBound start
      → IsBound end
      → collect (take limit (into_iterator r c (range_listing i start end order) db))
        ≡ ok (
            map
              (keyed_row r c i)
              (take limit (in_order order (filter (λ row. between start end row.0) rows))))
  piece limit start end order bs be =
      ap collect
        (take-decode r c i limit _ _ (iterate-AreRows r c i db rows shows start end order bs be))
      ∙ collect-ok (keyed_row r c i)
          (take limit (in_order order (filter (λ row. between start end row.0) rows)))

  -- The rows of a page as the code collects them
  abbrev collected : Bool → ℕ → Bound ℕ → Bound ℕ → BlockListOrder → List (ℕ × V)
  collected back limit start end order =
      let found = take limit (in_order order (filter (λ row. between start end row.0) rows)) in
      if back then reverse found else found

  finish :
      (back : Bool) (limit : ℕ) (start end : Bound ℕ) (order : BlockListOrder)
      → IsBound start
      → IsBound end
      → (collect (take limit (into_iterator r c (range_listing i start end order) db))
          >>= (λ results. ok (if back then reverse results else results))
          >>= λ found. ok (map (narrow_row r c d) found))
        ≡ ok (map (shown_row r c i) (collected back limit start end order))
  finish false limit start end order bs be =
      cc (
        piece limit start end order bs be,
        narrow_rows r c i (collected false limit start end order),
      )
  finish true limit start end order bs be = cc (
    piece limit start end order bs be,
    map-reverse (keyed_row r c i) (collected false limit start end order),
    narrow_rows r c i (collected true limit start end order),
  )

  -- The rows that the code collects are those of the page.
  forward :
      (order : BlockListOrder) (limit : ℕ) (start end : Bound ℕ) (p : ℕ × V → Bool)
      → ((row : ℕ × V) → between start end row.0 ≡ p row)
      → collected false limit start end order ≡ take limit (filter p (in_order order rows))
  forward order limit start end p same =
      ap (λ t. take limit (in_order order t)) (filter_same _ p same rows)
      ∙ ap (take limit) (sym (filter-in_order order p rows))

  backward :
      (order : BlockListOrder) (limit : ℕ) (start end : Bound ℕ) (p : ℕ × V → Bool)
      → ((row : ℕ × V) → between start end row.0 ≡ p row)
      → collected true limit start end (reverse_order order)
        ≡ reverse (take limit (reverse (filter p (in_order order rows))))
  backward order limit start end p same =
      ap (λ t. reverse (take limit (in_order (reverse_order order) t))) (filter_same _ p same rows)
      ∙ ap (λ t. reverse (take limit t)) (in_order-reverse order (filter p rows))
      ∙ ap (λ t. reverse (take limit (reverse t))) (sym (filter-in_order order p rows))

  whole :
      (order : BlockListOrder) (limit : ℕ)
      → collected false limit unbounded unbounded order ≡ take limit (in_order order rows)
  whole order limit = ap (λ t. take limit (in_order order t)) (filter_all _ (λ row. refl) rows)

  -- The page behind a cursor, and the one before it
  page_after :
      (order : BlockListOrder) (limit : ℕ) (start end : Bound ℕ) (cursor : CursorChoice ℕ)
      → IsBound start
      → IsBound end
      → ((row : ℕ × V) → between start end row.0 ≡ leads_to order cursor row.0)
      → (collect (take limit (into_iterator r c (range_listing i start end order) db))
          >>= (λ results. ok results)
          >>= λ found. ok (map (narrow_row r c d) found))
        ≡ ok (
            map
              (shown_row r c i)
              (take limit (filter (λ row. leads_to order cursor row.0) (in_order order rows))))
  page_after order limit start end cursor bs be same =
      finish false limit start end order bs be
      ∙ ap (λ t. ok (map (shown_row r c i) t))
          (forward order limit start end (λ row. leads_to order cursor row.0) same)

  page_before :
      (order : BlockListOrder) (limit : ℕ) (start end : Bound ℕ) (cursor : CursorChoice ℕ)
      → IsBound start
      → IsBound end
      → ((row : ℕ × V) → between start end row.0 ≡ leads_to order cursor row.0)
      → (collect
            (take limit (into_iterator r c (range_listing i start end (reverse_order order)) db))
          >>= (λ results. ok (reverse results))
          >>= λ found. ok (map (narrow_row r c d) found))
        ≡ ok (
            map (shown_row r c i) (
              reverse (
                take limit
                  (reverse (filter (λ row. leads_to order cursor row.0) (in_order order rows))))))
  page_before order limit start end cursor bs be same =
      finish true limit start end (reverse_order order) bs be
      ∙ ap (λ t. ok (map (shown_row r c i) t))
          (backward order limit start end (λ row. leads_to order cursor row.0) same)

  -- Under a limit, in either order and from any cursor, `list_paginated` returns the page of the
  -- rows of the store: the first `limit` rows, the first `limit` behind the cursor, or the last
  -- `limit` before it, in the order that is asked for, each under its height and with no error.
  pub list_paginated-page :
      (cursor : Option (CursorChoice ℕ)) (order : BlockListOrder) (limit : ℕ)
      → IsCursor cursor
      → list_paginated r c d cursor order limit db
        ≡ ok (map (shown_row r c i) (page cursor order limit rows))
  unfolding list_paginated
  list_paginated-page none lowest_to_highest limit h =
      finish false limit unbounded unbounded lowest_to_highest tt tt
      ∙ ap (λ t. ok (map (shown_row r c i) t)) (whole lowest_to_highest limit)
  list_paginated-page none highest_to_lowest limit h =
      finish false limit unbounded unbounded highest_to_lowest tt tt
      ∙ ap (λ t. ok (map (shown_row r c i) t)) (whole highest_to_lowest limit)
  list_paginated-page (some (choose_after (after k))) lowest_to_highest limit h =
      page_after lowest_to_highest limit (excluded k) unbounded (choose_after (after k)) h tt
        (λ row. ground arith)
  list_paginated-page (some (choose_after (after k))) highest_to_lowest limit h =
      page_after highest_to_lowest limit unbounded (excluded k) (choose_after (after k)) tt h
        (λ row. ground arith)
  list_paginated-page (some (choose_after (after_inclusive k))) lowest_to_highest limit h =
      page_after lowest_to_highest limit (included k) unbounded (choose_after (after_inclusive k)) h
        tt (λ row. ground arith)
  list_paginated-page (some (choose_after (after_inclusive k))) highest_to_lowest limit h =
      page_after highest_to_lowest limit unbounded (included k) (choose_after (after_inclusive k))
        tt h (λ row. ground arith)
  list_paginated-page (some (choose_before (before k))) lowest_to_highest limit h =
      page_before lowest_to_highest limit unbounded (excluded k) (choose_before (before k)) tt h
        (λ row. ground arith)
  list_paginated-page (some (choose_before (before k))) highest_to_lowest limit h =
      page_before highest_to_lowest limit (excluded k) unbounded (choose_before (before k)) h tt
        (λ row. ground arith)
  list_paginated-page (some (choose_before (before_inclusive k))) lowest_to_highest limit h =
      page_before lowest_to_highest limit unbounded (included k)
        (choose_before (before_inclusive k)) tt h (λ row. ground arith)
  list_paginated-page (some (choose_before (before_inclusive k))) highest_to_lowest limit h =
      page_before highest_to_lowest limit (included k) unbounded
        (choose_before (before_inclusive k)) h tt (λ row. ground arith)
