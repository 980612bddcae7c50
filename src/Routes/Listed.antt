-- ===== src/Routes/Listed.antt =====
-- What the node answers to a listing of blocks (ciphera/pkg/node/src/rpc/routes/blocks.rs).
use zerosats.Prelude.{
  ℕ, ◌≡◌, refl, ap, ◌∙◌, Bool, true, false, Option, none, some, List, [], ◌∷◌, All, if◌then◌else◌,
}
use zerosats.Pagination.{
  Cursor, CursorChoice, choose_after, choose_before, before, after, paginator, collect_page,
}
use zerosats.Pagination.Collected.{positions, first_of, last_of, collect_page_lem}
use zerosats.BlockStore.Types.{Outcome, ok, ◌>>=◌, collect}
use zerosats.Prelude.Filter.{All-take, All-filter, All-reverse}
use zerosats.BlockStore.Listing.{
  BlockListOrder, lowest_to_highest, highest_to_lowest, ListableKey, block_keys, non_empty_keys,
}
use zerosats.BlockStore.Listing.Decoded.{
  IsListable, shown_row, block_keys-IsListable, non_empty_keys-IsListable,
}
use zerosats.BlockStore.Listing.Whole.{Shows, in_order}
use zerosats.BlockStore.Listing.Page.{page, IsCursor, list_paginated-page}
use zerosats.BlockStore.Store.{Backend}
use zerosats.Routes.{
  ListBlocksQuery, to_order, page_limit, only_block, fetch_blocks_paginated, position, convert_item,
  respond, list_blocks,
}
use mathlib.Core.Option
use mathlib.Core.List.{map}

in_order-All {ℓ κ} :
    {A : Type ℓ} (order : BlockListOrder) (P : A → Type κ) (xs : List A)
    → All P xs
    → All P (in_order order xs)
in_order-All lowest_to_highest P xs a = a
in_order-All highest_to_lowest P xs a = All-reverse P xs a

-- What all rows have, those of a page have.
pub page-All {ℓ κ} :
    {V : Type ℓ} (P : ℕ × V → Type κ) (cursor : Option (CursorChoice ℕ)) (order : BlockListOrder)
    (limit : ℕ) (rows : List (ℕ × V))
    → All P rows
    → All P (page cursor order limit rows)
page-All P none order limit rows a = All-take _ limit _ (in_order-All order _ rows a)
page-All P (some (choose_after c)) order limit rows a =
    All-take _ limit _ (All-filter _ _ _ (in_order-All order _ rows a))
page-All P (some (choose_before c)) order limit rows a =
    All-reverse _ _
      (All-take _ limit _ (All-reverse _ _ (All-filter _ _ _ (in_order-All order _ rows a))))

-- The rows that a query is about
abbrev pub ShowsFor : {B T : Type 0} (s : Backend B T) → Bool → s.rocks.Db → List (ℕ × B) → Type 0
ShowsFor s true db rows = Shows s.rocks s.blocks non_empty_keys-IsListable db rows
ShowsFor s false db rows = Shows s.rocks s.blocks block_keys-IsListable db rows

module _ {B T W : Type 0} (s : Backend B T) (present : B → W) (height : W → ℕ) where
  abbrev pub convert : B → Outcome W
  convert b = ok (present b)

  -- The rows as they are answered
  abbrev pub answers : List (ℕ × B) → List W
  answers rows = map (λ row. present row.1) rows

  -- The blocks are answered with the heights under which they are stored.
  abbrev pub AreAtHeight : List (ℕ × B) → Type 0
  AreAtHeight rows = All (λ row. height (present row.1) ≡ row.0) rows

  -- The cursor of a response: before the first height of the page and behind the last
  abbrev pub cursor_of : List (ℕ × B) → Cursor ℕ
  cursor_of rows =
      let heights = positions (λ row. some row.0) rows in
      record {
        after = Option.map after (last_of heights);
        before = Option.map before (first_of heights);
      }

  converted :
      {K : Type 0} {d : ListableKey K} (i : IsListable d) (rows : List (ℕ × B))
      → map
          (convert_item s convert height)
          (map (only_block s) (map (shown_row s.rocks s.blocks i) rows))
        ≡ map (λ w. ok w) (answers rows)
  converted i [] = refl
  converted i (row ∷ rows) = ap (λ t. ok (present row.1) ∷ t) (converted i rows)

  positions_lem :
      (rows : List (ℕ × B))
      → AreAtHeight rows
      → positions (position s convert height) (map (λ w. ok w) (answers rows))
        ≡ positions (λ row. some row.0) rows
  positions_lem [] a = refl
  positions_lem (row ∷ rows) a = cc (a.0, positions_lem rows a.1)

  collect-answers : (ws : List W) → collect (map (λ w. ok w) ws) ≡ ok ws
  collect-answers [] = refl
  collect-answers (w ∷ ws) = cc (collect-answers ws)

  -- What the paginator makes of items without an error
  module _ (rows : List (ℕ × B)) (a : AreAtHeight rows) where
    passed : Cursor ℕ × List (Outcome W)
    passed = collect_page (paginator (map (λ w. ok w) (answers rows)) (position s convert height))

    passed-cursor : passed.0 ≡ cursor_of rows
    unfolding passed
    passed-cursor =
        let l = collect_page_lem (position s convert height) (map (λ w. ok w) (answers rows)) in
        let heights = positions_lem rows a in
        let p : passed.0.after ≡ (cursor_of rows).after =
          l.1 ∙ ap (λ hs. Option.map after (last_of hs)) heights in
        let q : passed.0.before ≡ (cursor_of rows).before =
          l.2 ∙ ap (λ hs. Option.map before (first_of hs)) heights in
        λ i. record { after = p i; before = q i }

    passed-blocks : collect passed.1 ≡ ok (answers rows)
    unfolding passed
    passed-blocks =
        ap collect (collect_page_lem (position s convert height) (map (λ w. ok w) (answers rows))).0
        ∙ collect-answers (answers rows)

  respond_lem :
      {K : Type 0} {d : ListableKey K} (i : IsListable d) (rows : List (ℕ × B))
      → AreAtHeight rows
      → respond s convert height (ok (map (only_block s) (map (shown_row s.rocks s.blocks i) rows)))
        ≡ ok (cursor_of rows, answers rows)
  unfolding passed
  respond_lem i rows a =
      ap
        (λ xs.
          let page = collect_page (paginator xs (position s convert height)) in
          collect page.1 >>= λ blocks. ok (page.0, blocks))
        (converted i rows)
      ∙ ap (λ m. m >>= λ blocks. ok ((passed rows a).0, blocks)) (passed-blocks rows a)
      ∙ ap (λ c. ok (c, answers rows)) (passed-cursor rows a)

  module _ (db : s.rocks.Db) (rows : List (ℕ × B)) (a : AreAtHeight rows) where
    answered :
        {K : Type 0} {d : ListableKey K} (i : IsListable d) (order : BlockListOrder) (limit : ℕ)
        (cursor : Option (CursorChoice ℕ))
        → Shows s.rocks s.blocks i db rows
        → IsCursor cursor
        → respond s convert height (fetch_blocks_paginated s d cursor order limit db)
          ≡ ok (cursor_of (page cursor order limit rows), answers (page cursor order limit rows))
    answered i order limit cursor shows h =
        ap (λ t. respond s convert height (t >>= λ found. ok (map (only_block s) found)))
          (list_paginated-page s.rocks s.blocks i db rows shows cursor order limit h)
        ∙ respond_lem i (page cursor order limit rows) (page-All _ cursor order limit rows a)

    -- The answer to a query, with or without the empty blocks: the page of the stored blocks under
    -- the limit, which is 10 where the query has none and at most 100, and a cursor that leads
    -- behind its last height and before its first.
    pub list_blocks-page :
        (q : ListBlocksQuery)
        → ShowsFor s q.skip_empty db rows
        → IsCursor q.cursor
        → let found = page q.cursor (to_order q.order) (page_limit q.limit) rows in
          list_blocks s convert height q db ≡ ok (cursor_of found, answers found)
    unfolding list_blocks
    list_blocks-page q shows h = by_kind q.skip_empty shows
      where
        by_kind :
            (skip : Bool)
            → ShowsFor s skip db rows
            → let found = page q.cursor (to_order q.order) (page_limit q.limit) rows in
              respond s convert height (
                if skip
                then fetch_blocks_paginated s non_empty_keys q.cursor
                    (to_order q.order)
                    (page_limit q.limit)
                    db
                else fetch_blocks_paginated s block_keys q.cursor
                    (to_order q.order)
                    (page_limit q.limit)
                    db)
              ≡ ok (cursor_of found, answers found)
        by_kind true w =
            answered non_empty_keys-IsListable (to_order q.order) (page_limit q.limit) q.cursor w h
        by_kind false w =
            answered block_keys-IsListable (to_order q.order) (page_limit q.limit) q.cursor w h
