-- ===== src/Routes/Examples.antt =====
-- The listing of blocks at concrete inputs (ciphera/pkg/node/src/rpc/routes/blocks.rs).
use zerosats.Prelude.{ℕ, ◌+◌, ◌≡◌, refl, true, false, none, some, List, [], ◌∷◌, ◌++◌, arith}
use zerosats.Pagination.{Cursor, after, before}
use zerosats.BlockStore.Types.{ok}
use zerosats.BlockStore.Keys.{serialize}
use zerosats.BlockStore.Rocks.Sorted.{no_entries, put_all}
use zerosats.BlockStore.Listing.Decoded.{block_keys-IsListable, non_empty_keys-IsListable}
use zerosats.BlockStore.Listing.Page.{page}
use zerosats.BlockStore.Store.{
  create, set, get_max_height, txn_entries, history_entries, element_entries,
}
use zerosats.BlockStore.Store.Total.{set_each}
use zerosats.BlockStore.Demo.{demo, three_blocks, or_else}
use zerosats.Routes.{ListBlocksQuery, from_highest, from_lowest, to_order, page_limit, list_blocks}
use zerosats.Routes.Listed.{ShowsFor, convert, answers, list_blocks-page}
use zerosats.Routes.Walk.{next_query, list_blocks-next}

abbrev stored : demo.rocks.Db
stored = or_else (set_each demo three_blocks (create demo no_entries)) no_entries

abbrev all_rows : List (ℕ × ℕ)
all_rows = (3, 3) ∷ (5, 5) ∷ (8, 8) ∷ []

abbrev rows_with_txns : List (ℕ × ℕ)
rows_with_txns = (5, 5) ∷ (8, 8) ∷ []

stored_shows : ShowsFor demo false stored all_rows
unfolding set_each set get_max_height txn_entries history_entries element_entries create put_all
    serialize block_keys-IsListable
stored_shows =
    ((omega arith, refl, refl), ((omega arith, refl, refl), ((omega arith, refl, refl), tt)))

stored_shows_txns : ShowsFor demo true stored rows_with_txns
unfolding set_each set get_max_height txn_entries history_entries element_entries create put_all
    serialize non_empty_keys-IsListable
stored_shows_txns = ((omega arith, refl, refl), ((omega arith, refl, refl), tt))

-- The two highest blocks
abbrev first_query : ListBlocksQuery
first_query = record { limit = some 2; cursor = none; order = from_highest; skip_empty = false }

abbrev show : ℕ → ℕ
show b = b

abbrev at_height : ℕ → ℕ
at_height w = w

list_blocks-page_example :
    list_blocks demo
      (convert demo show at_height)
      at_height
      (record { limit = none; cursor = none; order = from_lowest; skip_empty = true })
      stored
    ≡ ok (record { after = some (after 8); before = some (before 5) }, 5 ∷ 8 ∷ [])
list_blocks-page_example =
    list_blocks-page demo show at_height stored rows_with_txns (refl, (refl, tt))
      (record { limit = none; cursor = none; order = from_lowest; skip_empty = true })
      stored_shows_txns tt

list_blocks-next_example :
    (cursor' : Cursor ℕ) × (ws' : List ℕ) × (list_blocks demo
        (convert demo show at_height)
        at_height
        (next_query demo show at_height first_query (after 5) none)
        stored
      ≡ ok (cursor', ws'))
    × ((8 ∷ 5 ∷ []) ++ ws'
        ≡ answers demo show at_height
            (page none (to_order from_highest) (page_limit (some 2) + page_limit none) all_rows))
list_blocks-next_example =
    list_blocks-next demo show at_height stored all_rows first_query none
      (record { after = some (after 5); before = some (before 8) }) (after 5) (8 ∷ 5 ∷ [])
      (refl, (refl, (refl, tt))) stored_shows tt tt
      (list_blocks-page demo show at_height stored all_rows (refl, (refl, (refl, tt))) first_query
        stored_shows tt)
      refl
