-- ===== src/BlockStore/Rocks.antt =====
-- The database under the block store, as the store uses it: a parameter, whose laws state what
-- RocksDB documents. Its own failures are left out. The codec of a value is a parameter as well.
pub mod Sorted
use zerosats.Prelude.{
  ◌≡◌, Bool, true, false, not, ◌&&◌, Option, none, some, List, [], ◌∷◌, if◌then◌else◌, arith,
}
use zerosats.Prelude.{All, filter}
use zerosats.Prelude.Bytes.{Bytes, bytes_eq, bytes_lt}
use zerosats.BlockStore.Types.{Outcome, ok}
use mathlib.Core.List.{reverse}

abbrev pub Entry : Type 0
Entry = Bytes × Bytes

-- The value of the first entry with the key
abbrev pub find : Bytes → List Entry → Option Bytes
find k [] = none
find k ((j, v) ∷ es) = if bytes_eq k j then some v else find k es

-- What the puts of a batch leave under a key: the last one counts.
abbrev pub last_put : Bytes → List Entry → Option Bytes → Option Bytes
last_put k [] old = old
last_put k ((j, v) ∷ batch) old = last_put k batch (if bytes_eq k j then some v else old)

-- From the lower bound on, and below the upper bound
abbrev pub within : Bytes → Bytes → Entry → Bool
within lower upper e = not (bytes_lt e.0 lower) && bytes_lt e.0 upper

abbrev pub AllAfter : Bytes → List Entry → Type 0
AllAfter k es = All (λ e. bytes_lt k e.0 ≡ true) es

-- In strictly ascending order of the keys
abbrev pub IsAscending : List Entry → Type 0
IsAscending [] = Unit
IsAscending (e ∷ es) = AllAfter e.0 es × IsAscending es

pub record Rocks : Type 1 where
  pub Db : Type 0
  pub get : Bytes → Db → Option Bytes
  pub write : List Entry → Db → Db
  -- The lower and the upper bound, and whether the iteration begins at the start
  pub iterate : Bytes → Bytes → Bool → Db → List Entry
  -- All entries, in the order of the keys
  pub entries : Db → List Entry
  pub get_entries : (k : Bytes) (db : Db) → get k db ≡ find k (entries db)
  pub ascending : (db : Db) → IsAscending (entries db)
  pub get_write :
      (k : Bytes) (batch : List Entry) (db : Db)
      → get k (write batch db) ≡ last_put k batch (get k db)
  pub iterate_start :
      (lower upper : Bytes) (db : Db)
      → iterate lower upper true db ≡ filter (within lower upper) (entries db)
  pub iterate_end :
      (lower upper : Bytes) (db : Db)
      → iterate lower upper false db ≡ reverse (filter (within lower upper) (entries db))

-- `WireMessage`: `to_bytes` and `from_bytes`
pub record Codec (V : Type 0) : Type 0 where
  pub to_bytes : V → Outcome Bytes
  pub from_bytes : Bytes → Outcome V
  pub from_bytes_to_bytes : (v : V) (b : Bytes) → to_bytes v ≡ ok b → from_bytes b ≡ ok v
