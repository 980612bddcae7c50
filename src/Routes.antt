-- ===== src/Routes.antt =====
-- The listing of blocks that the node serves: ciphera/pkg/node/src/rpc/routes/blocks.rs,
-- ciphera/pkg/node/src/node.rs.
pub mod Listed
pub mod Walk
mod Examples
use zerosats.Prelude.{ℕ, Bool, true, false, Option, none, some, List, [], ◌∷◌, min, if◌then◌else◌}
use zerosats.Pagination.{Cursor, CursorChoice, paginator, collect_page}
use zerosats.BlockStore.Types.{Outcome, ok, err, panic, ◌>>=◌, collect}
use zerosats.BlockStore.Listing.{
  BlockListOrder, lowest_to_highest, highest_to_lowest, ListableKey, block_keys, non_empty_keys,
  list_paginated,
}
use zerosats.BlockStore.Store.{Backend}
use mathlib.Core.List.{map}

pub data ListBlocksOrder : Type 0 where
  from_lowest : ListBlocksOrder
  from_highest : ListBlocksOrder

-- `From<ListBlocksOrder> for BlockListOrder`
abbrev pub to_order : ListBlocksOrder → BlockListOrder
to_order from_lowest = lowest_to_highest
to_order from_highest = highest_to_lowest

pub record ListBlocksQuery : Type 0 where
  pub limit : Option ℕ
  pub cursor : Option (CursorChoice ℕ)
  pub order : ListBlocksOrder
  pub skip_empty : Bool

-- `unwrap_or(10).min(100)`
abbrev pub page_limit : Option ℕ → ℕ
page_limit none = 10
page_limit (some n) = min n 100

module _ {B T : Type 0} (s : Backend B T) where
  -- `let (_, block) = r?; Ok(block)`
  abbrev pub only_block {ℓ} : {K : Type ℓ} → Outcome (K × B) → Outcome B
  only_block r = r >>= λ row. ok row.1

  -- `NodeShared::fetch_blocks_paginated` and `fetch_blocks_non_empty_paginated`
  abbrev pub fetch_blocks_paginated :
      {K : Type 0}
      → ListableKey K
      → Option (CursorChoice ℕ)
      → BlockListOrder
      → ℕ
      → s.rocks.Db
      → Outcome (List (Outcome B))
  fetch_blocks_paginated d cursor order limit db = do
    rows ← list_paginated s.rocks s.blocks d cursor order limit db
    ok (map only_block rows)

-- `W` is what a block becomes in the response, and `convert` the upgrade of its format with the
-- conversion.
module _ {B T W : Type 0} (s : Backend B T) (convert : B → Outcome W) (height : W → ℕ) where
  abbrev pub position : Outcome W → Option ℕ
  position (ok w) = some (height w)
  position (err e) = none
  position panic = none

  abbrev pub convert_item : Outcome B → Outcome W
  convert_item r = r >>= convert

  abbrev pub respond : Outcome (List (Outcome B)) → Outcome (Cursor ℕ × List W)
  respond fetched = do
    items ← fetched
    let page = collect_page (paginator (map convert_item items) position)
    blocks ← collect page.1
    ok (page.0, blocks)

  unfoldable pub list_blocks : ListBlocksQuery → s.rocks.Db → Outcome (Cursor ℕ × List W)
  list_blocks q db =
      let order = to_order q.order in
      let limit = page_limit q.limit in
      respond (
        if q.skip_empty
        then fetch_blocks_paginated s non_empty_keys q.cursor order limit db
        else fetch_blocks_paginated s block_keys q.cursor order limit db)
