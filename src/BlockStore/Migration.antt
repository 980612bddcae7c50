-- ===== src/BlockStore/Migration.antt =====
-- The migration of a store: ciphera/pkg/block-store/src/migration.rs.
mod Examples
pub mod Indexed
pub mod Migrated
use zerosats.Prelude.{
  ℕ, zero, suc, Bool, true, false, Option, none, some, List, [], ◌∷◌, ◌++◌, ◌==◌, if◌then◌else◌,
}
use zerosats.Pagination.{unbounded}
use zerosats.BlockStore.Types.{Error, invalid_version, Outcome, ok, err, panic, ◌>>=◌}
use zerosats.BlockStore.Keys.{KeyBlock}
use zerosats.BlockStore.Listing.{lowest_to_highest, block_keys, list}
use zerosats.BlockStore.Store.{
  Backend, txn_entries, non_empty_entry, get_store_version, set_store_version,
}

module _ {B T : Type 0} (s : Backend B T) where
  open s use {rocks, ops, blocks}

  -- What the loop of `migrate_to_v1` does with a block: one batch of its index
  unfoldable pub migrate_block : B → rocks.Db → Outcome rocks.Db
  migrate_block b db = do
    txns ← txn_entries s (ops.txns b)
    full ← non_empty_entry s b
    ok (rocks.write (txns ++ full) db)

  -- What a step leaves behind: the batches that were written before an error stay written.
  abbrev pub Left : Type 0
  Left = rocks.Db × Outcome (Unit {0})

  abbrev pub and_then : rocks.Db → Outcome rocks.Db → (rocks.Db → Left) → Left
  and_then before (ok db) rest = rest db
  and_then before (err e) rest = (before, err e)
  and_then before panic rest = (before, panic)

  unfoldable pub migrate_blocks : List (Outcome (KeyBlock × B)) → rocks.Db → Left
  unfolding migrate_block
  migrate_blocks [] db = (db, ok tt)
  migrate_blocks (ok (k, b) ∷ rest) db = and_then db (migrate_block b db) (migrate_blocks rest)
  migrate_blocks (err e ∷ rest) db = (db, err e)
  migrate_blocks (panic ∷ rest) db = (db, panic)

  abbrev pub set_version_one : Left → Left
  set_version_one (db, ok _) = (set_store_version s 1 db, ok tt)
  set_version_one (db, err e) = (db, err e)
  set_version_one (db, panic) = (db, panic)

  -- The listing reads the store as it was when the loop began.
  unfoldable pub migrate_to_v1 : rocks.Db → Left
  unfolding migrate_blocks
  migrate_to_v1 db =
      set_version_one
        (migrate_blocks (list rocks blocks block_keys unbounded unbounded lowest_to_highest db) db)

  abbrev pub go_on : (rocks.Db → Option Left) → Left → Option Left
  go_on again (db, ok _) = again db
  go_on again (db, err e) = some (db, err e)
  go_on again (db, panic) = some (db, panic)

  -- The branches of `match version`
  abbrev pub by_version : (rocks.Db → Option Left) → rocks.Db → Outcome ℕ → Option Left
  by_version again db (err e) = some (db, err e)
  by_version again db panic = some (db, panic)
  by_version again db (ok version) =
      if version == 0
      then go_on again (migrate_to_v1 db)
      else if version == 1
      then some (db, ok tt)
      else some (db, err (invalid_version version))

  -- The loop of `migrate`, on fuel
  unfoldable pub migrate : ℕ → rocks.Db → Option Left
  unfolding migrate_to_v1
  migrate zero db = none
  migrate (suc fuel) db = by_version (migrate fuel) db (get_store_version s db)
