-- ===== src/BlockStore/Migration/Examples.antt =====
-- The migration at a store that holds one block and no version
-- (ciphera/pkg/block-store/src/migration.rs).
use zerosats.Prelude.{ℕ, ◌≡◌, refl, some, [], ◌∷◌, All, arith}
use zerosats.BlockStore.Types.{ok, err, invalid_version}
use zerosats.BlockStore.Keys.{block, serialize}
use zerosats.BlockStore.Rocks.Sorted.{no_entries, put_all}
use zerosats.BlockStore.Listing.Decoded.{block_keys-IsListable}
use zerosats.BlockStore.Listing.Whole.{Shows}
use zerosats.BlockStore.Store.{get_store_version, set_store_version}
use zerosats.BlockStore.Migration.{migrate}
use zerosats.BlockStore.Migration.Indexed.{IsIndexed}
use zerosats.BlockStore.Migration.Migrated.{migrate-IsIndexed}
use zerosats.BlockStore.Demo.{demo}

-- The block at height 5
abbrev unversioned : demo.rocks.Db
unversioned =
    demo.rocks.write ((serialize (block (record { block_height = 5 })), 5 ∷ []) ∷ []) no_entries

unversioned_shows : Shows demo.rocks demo.blocks block_keys-IsListable unversioned ((5, 5) ∷ [])
unfolding put_all serialize block_keys-IsListable
unversioned_shows = ((omega arith, refl, refl), tt)

unversioned_lem : get_store_version demo unversioned ≡ ok 0
unfolding get_store_version put_all serialize
unversioned_lem = refl

newer :
    migrate demo 1 (set_store_version demo 2 no_entries)
    ≡ some (set_store_version demo 2 no_entries, err (invalid_version 2))
unfolding migrate get_store_version set_store_version put_all serialize
newer = refl

migrate-IsIndexed_example :
    (db : demo.rocks.Db) × (migrate demo 2 unversioned ≡ some (db, ok tt))
    × (get_store_version demo db ≡ ok 1)
    × All (λ (row : ℕ × ℕ). IsIndexed demo db row.1) ((5, 5) ∷ [])
migrate-IsIndexed_example =
    migrate-IsIndexed demo unversioned ((5, 5) ∷ []) unversioned_shows
      (((5 ∷ [], refl), ((6 ∷ [], refl), tt)), tt) unversioned_lem
