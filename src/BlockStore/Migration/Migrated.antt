-- ===== src/BlockStore/Migration/Migrated.antt =====
-- What a migration leaves in the store (ciphera/pkg/block-store/src/migration.rs).
use zerosats.Prelude.{
  ℕ, suc, ◌^◌, ◌<◌, ◌≡◌, refl, ap, ◌∙◌, none, some, List, [], ◌∷◌, All, if◌then◌else◌, arith,
}
use zerosats.Prelude.Filter.{filter_all}
use zerosats.Prelude.Bytes.{be_bytes, bytes_eq_refl}
use zerosats.Pagination.{unbounded}
use zerosats.BlockStore.Types.{ok, Outcome}
use zerosats.BlockStore.Keys.{KeyBlock, store_version, serialize}
use zerosats.BlockStore.Listing.{lowest_to_highest, block_keys, list}
use zerosats.BlockStore.Listing.Decoded.{block_keys-IsListable, shown_row}
use zerosats.BlockStore.Listing.Whole.{Shows, list-between}
use zerosats.BlockStore.Store.{Backend, get_store_version, set_store_version, read_word}
use zerosats.BlockStore.Store.Refine.{read_word-be_bytes}
use zerosats.BlockStore.Migration.{
  migrate_blocks, migrate_to_v1, migrate, and_then, set_version_one, go_on, by_version,
}
use zerosats.BlockStore.Migration.Indexed.{
  Grows, IsIndexed, CanIndex, IsIndexed-Grows, migrate_block-IsIndexed, write-IsPresent,
}
use mathlib.Core.List.{map}

module _ {B T : Type 0} (s : Backend B T) where
  open s use {rocks, blocks}

  abbrev AllIndexed : rocks.Db → List (ℕ × B) → Type 0
  AllIndexed db rows = All (λ row. IsIndexed s db row.1) rows

  AllIndexed-Grows :
      (db db' : rocks.Db)
      → Grows s db db'
      → (rows : List (ℕ × B)) → AllIndexed db rows
      → AllIndexed db' rows
  AllIndexed-Grows db db' g [] a = tt
  AllIndexed-Grows db db' g (row ∷ rows) a =
      (IsIndexed-Grows s db db' row.1 g a.0, AllIndexed-Grows db db' g rows a.1)

  abbrev shown : List (ℕ × B) → List (Outcome (KeyBlock × B))
  shown rows = map (shown_row rocks blocks block_keys-IsListable) rows

  migrate_blocks-shown :
      (rows : List (ℕ × B)) (db : rocks.Db)
      → All (λ row. CanIndex s row.1) rows
      → (db' : rocks.Db) × (migrate_blocks s (shown rows) db ≡ (db', ok tt))
        × AllIndexed db' rows
        × Grows s db db'
  unfolding migrate_blocks
  migrate_blocks-shown [] db a = (db, refl, tt, λ k p. p)
  migrate_blocks-shown ((h, b) ∷ rows) db a =
      let (mid, e, i, g) = migrate_block-IsIndexed s b db a.0 in
      let (db', f, is, g') = migrate_blocks-shown rows mid a.1 in
      (
        db',
        ap (λ r. and_then s db r (migrate_blocks s (shown rows))) e ∙ f,
        (IsIndexed-Grows s mid db' b g' i, is),
        λ k p. g' k (g k p),
      )

  get_store_version-set :
      (v : ℕ) (db : rocks.Db) → v < 256 ^ 4 → get_store_version s (set_store_version s v db) ≡ ok v
  unfolding get_store_version set_store_version
  get_store_version-set v db lt =
      ap (λ o. elim o as (λ _. Outcome ℕ) [ none ↦ ok 0 | some version ↦ read_word 4 version ])
        (rocks.get_write (serialize store_version) ((serialize store_version, be_bytes 4 v) ∷ []) db
          ∙ ap (λ t. if t then some (be_bytes 4 v) else rocks.get (serialize store_version) db)
              (bytes_eq_refl (serialize store_version)))
      ∙ read_word-be_bytes 4 v lt

  -- The listing of everything is the rows.
  list-all :
      (db : rocks.Db) (rows : List (ℕ × B))
      → Shows rocks blocks block_keys-IsListable db rows
      → list rocks blocks block_keys unbounded unbounded lowest_to_highest db ≡ shown rows
  list-all db rows shows =
      list-between rocks blocks block_keys-IsListable db rows shows unbounded unbounded
        lowest_to_highest tt tt
      ∙ ap shown (filter_all _ (λ row. refl) rows)

  -- A round of the loop
  migrate_round :
      (fuel : ℕ) (db db' : rocks.Db)
      → get_store_version s db ≡ ok 0
      → migrate_to_v1 s db ≡ (db', ok tt)
      → migrate s (suc fuel) db ≡ migrate s fuel db'
  unfolding migrate
  migrate_round fuel db db' zeroth e =
      ap (by_version s (migrate s fuel) db) zeroth ∙ ap (go_on s (migrate s fuel)) e

  migrate_done :
      (fuel : ℕ) (db : rocks.Db)
      → get_store_version s db ≡ ok 1
      → migrate s (suc fuel) db ≡ some (db, ok tt)
  unfolding migrate
  migrate_done fuel db first = ap (by_version s (migrate s fuel) db) first

  -- A store that has no version yet, whose blocks and transactions can be encoded, migrates to
  -- version 1 and is done: the loop needs no third round. In the store that is left, there is an
  -- entry for the hash of each transaction of each listed block, and one in the index of the blocks
  -- that are not empty for each listed block that has a transaction.
  pub migrate-IsIndexed :
      (db : rocks.Db) (rows : List (ℕ × B))
      → Shows rocks blocks block_keys-IsListable db rows
      → All (λ row. CanIndex s row.1) rows
      → get_store_version s db ≡ ok 0
      → (db' : rocks.Db) × (migrate s 2 db ≡ some (db', ok tt))
        × (get_store_version s db' ≡ ok 1)
        × All (λ row. IsIndexed s db' row.1) rows
  unfolding migrate_to_v1 set_store_version
  migrate-IsIndexed db rows shows can zeroth =
      let (mid, e, is, g) = migrate_blocks-shown rows db can in
      let after = set_store_version s 1 mid in
      let first = get_store_version-set 1 mid (omega arith) in
      let done =
        ap (λ r. set_version_one s (migrate_blocks s r db)) (list-all db rows shows)
        ∙ ap (set_version_one s) e in
      (
        after,
        migrate_round 1 db after zeroth done ∙ migrate_done 0 after first,
        first,
        AllIndexed-Grows mid after
            (write-IsPresent s ((serialize store_version, be_bytes 4 1) ∷ []) mid) rows is,
      )
