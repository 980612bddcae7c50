-- ===== src/BlockStore/Examples.antt =====
-- The block store at concrete inputs (ciphera/pkg/block-store/src). A block is its height and holds
-- one transaction, or none at height 3; a transaction is the number of its hash.
use zerosats.Prelude.{◌^◌, ◌<◌, ◌≡◌, refl, some, [], ◌∷◌, ◌++◌, arith, All}
use zerosats.Pagination.{excluded, unbounded, choose_after, choose_before, after, before_inclusive}
use zerosats.BlockStore.Types.{ok, panic}
use zerosats.BlockStore.Keys.{element_history, output, serialize, deserialize}
use zerosats.BlockStore.Keys.RoundTrip.{deserialize-serialize, deserialize_panics}
use zerosats.BlockStore.Rocks.Sorted.{no_entries, put_all}
use zerosats.BlockStore.Listing.{
  lowest_to_highest, highest_to_lowest, block_keys, list, list_paginated,
}
use zerosats.BlockStore.Listing.Decoded.{block_keys-IsListable, shown_row}
use zerosats.BlockStore.Listing.Whole.{Shows, list-between}
use zerosats.BlockStore.Listing.Page.{page, list_paginated-page}
use zerosats.BlockStore.Store.{
  create, set, get_max_height, txn_entries, history_entries, element_entries,
}
use zerosats.BlockStore.Store.Refine.{put_block, Refines, set-Refines}
use zerosats.BlockStore.Store.Total.{IsEncodable, set_each}
use zerosats.BlockStore.Store.Stored.{HasWidths}
use zerosats.BlockStore.Chain.{nothing, put_rows, create-Refines, list_paginated-set_each}
use zerosats.BlockStore.Demo.{demo, three_blocks, or_else}
use mathlib.Core.List.{map}

deserialize-serialize_example :
    deserialize (serialize (element_history 7 output) ++ 9 ∷ []) ≡ ok (element_history 7 output)
deserialize-serialize_example =
    deserialize-serialize (element_history 7 output) (9 ∷ []) (omega arith)

-- A block key that is cut off
deserialize_panics_example : deserialize (0 ∷ 0 ∷ 0 ∷ []) ≡ panic
deserialize_panics_example = deserialize_panics 0 (0 ∷ 0 ∷ []) (omega arith)

three-IsEncodable : All (λ b. IsEncodable demo b × (b < 256 ^ 8)) three_blocks
three-IsEncodable = ((five, omega arith), ((three, omega arith), ((eight, omega arith), tt)))
  where
    five : IsEncodable demo 5
    five = record {
      block = (5 ∷ [], refl);
      txns = ((6 ∷ [], refl), tt);
      history = λ v. (_, refl);
      mint = λ v. (_, refl);
    }

    three : IsEncodable demo 3
    three = record {
      block = (3 ∷ [], refl);
      txns = tt;
      history = λ v. (_, refl);
      mint = λ v. (_, refl);
    }

    eight : IsEncodable demo 8
    eight = record {
      block = (8 ∷ [], refl);
      txns = ((9 ∷ [], refl), tt);
      history = λ v. (_, refl);
      mint = λ v. (_, refl);
    }

three-HasWidths : All (HasWidths demo.ops demo.txn_ops) three_blocks
three-HasWidths = (
  record { height = omega arith; hash = refl; txns = omega arith },
  (
    record { height = omega arith; hash = refl; txns = tt },
    (record { height = omega arith; hash = refl; txns = omega arith }, tt),
  ),
)

-- The two blocks up to height 8 that come last, in ascending order
list_paginated-set_each_example :
    (db' : demo.rocks.Db) × (set_each demo three_blocks (create demo no_entries) ≡ ok db')
    × (list_paginated demo.rocks demo.blocks block_keys
          (some (choose_before (before_inclusive 8)))
          lowest_to_highest
          2
          db'
        ≡ ok (
            map (shown_row demo.rocks demo.blocks block_keys-IsListable) (
              page
                (some (choose_before (before_inclusive 8)))
                lowest_to_highest
                2
                (put_rows demo three_blocks []))))
list_paginated-set_each_example =
    list_paginated-set_each demo no_entries three_blocks (some (choose_before (before_inclusive 8)))
      lowest_to_highest 2 refl three-IsEncodable three-HasWidths (omega arith)

two_last :
    page
      (some (choose_before (before_inclusive 8)))
      lowest_to_highest
      2
      (put_rows demo three_blocks [])
    ≡ (5, 5) ∷ (8, 8) ∷ []
two_last = refl

abbrev created : demo.rocks.Db
created = create demo no_entries

abbrev stored : demo.rocks.Db
stored = or_else (set demo 5 created) created

stored_lem : set demo 5 created ≡ ok stored
unfolding set get_max_height txn_entries history_entries element_entries create put_all serialize
stored_lem = refl

set-Refines_example : Refines demo stored (put_block demo.ops 5 nothing)
set-Refines_example =
    set-Refines demo 5 created stored nothing (omega arith) (create-Refines demo no_entries refl)
      stored_lem

stored_shows : Shows demo.rocks demo.blocks block_keys-IsListable stored ((5, 5) ∷ [])
unfolding set get_max_height txn_entries history_entries element_entries create put_all serialize
    block_keys-IsListable
stored_shows = ((omega arith, refl, refl), tt)

list-between_example :
    list demo.rocks demo.blocks block_keys (excluded 4) unbounded lowest_to_highest stored
    ≡ map (shown_row demo.rocks demo.blocks block_keys-IsListable) ((5, 5) ∷ [])
list-between_example =
    list-between demo.rocks demo.blocks block_keys-IsListable stored ((5, 5) ∷ []) stored_shows
      (excluded 4) unbounded lowest_to_highest (omega arith) tt

list_paginated-page_example :
    list_paginated demo.rocks demo.blocks block_keys
      (some (choose_after (after 5)))
      highest_to_lowest
      10
      stored
    ≡ ok []
list_paginated-page_example =
    list_paginated-page demo.rocks demo.blocks block_keys-IsListable stored ((5, 5) ∷ [])
      stored_shows (some (choose_after (after 5))) highest_to_lowest 10 (omega arith)
