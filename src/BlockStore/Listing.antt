-- ===== src/BlockStore/Listing.antt =====
-- Listings of the store, whole and page by page: ciphera/pkg/block-store/src/{keys,list}.rs.
pub mod Decoded
pub mod Range
pub mod Whole
pub mod Page
pub mod Pages
pub mod Rows
pub mod Exists
pub mod Unique
use zerosats.Prelude.{
  ℕ, zero, suc, ◌^◌, ◌-◌, Bool, true, false, not, Option, none, some, List, [], ◌∷◌, take,
  if◌then◌else◌,
}
use zerosats.Prelude.Bytes.{Bytes}
use zerosats.Pagination.{
  Bound, included, excluded, unbounded, CursorChoice, choose_after, choose_before, to_bound_after,
  to_bound_before, map_pos,
}
use zerosats.BlockStore.Types.{Error, invalid_key, Outcome, ok, err, panic, ◌>>=◌, collect}
use zerosats.BlockStore.Keys.{
  Key, KeyBlock, KeyNonEmptyBlock, block, non_empty_block, txn_by_hash, max_height, serialize,
  serialize_immediate_successor, deserialize,
}
use zerosats.BlockStore.Rocks.{Entry, Rocks, Codec}
use mathlib.Core.Option
use mathlib.Core.List.{reverse, map}

pub data BlockListOrder : Type 0 where
  lowest_to_highest : BlockListOrder
  highest_to_lowest : BlockListOrder

abbrev pub is_indexed_order : BlockListOrder → Bool
is_indexed_order lowest_to_highest = true
is_indexed_order highest_to_lowest = false

abbrev pub reverse_order : BlockListOrder → BlockListOrder
reverse_order lowest_to_highest = highest_to_lowest
reverse_order highest_to_lowest = lowest_to_highest

-- A kind of key that can be listed. `narrow` is the match on the key in `BlockStore::list` and
-- its siblings.
pub record ListableKey (K : Type 0) : Type 0 where
  pub of_height : ℕ → K
  pub to_key : K → Key
  pub min_value : K
  pub max_value : K
  pub narrow : Key → Outcome K

abbrev narrow_block : Key → Outcome KeyBlock
narrow_block (block k) = ok k
narrow_block _ = err invalid_key

abbrev narrow_non_empty : Key → Outcome KeyNonEmptyBlock
narrow_non_empty (non_empty_block k) = ok k
narrow_non_empty _ = err invalid_key

unfoldable pub block_keys : ListableKey KeyBlock
block_keys = record {
  of_height = λ h. record { block_height = h };
  to_key = block;
  min_value = record { block_height = 0 };
  max_value = record { block_height = 2 ^ 64 - 1 };
  narrow = narrow_block;
}

unfoldable pub non_empty_keys : ListableKey KeyNonEmptyBlock
non_empty_keys = record {
  of_height = λ h. record { block_height = h };
  to_key = non_empty_block;
  min_value = record { block_height = 0 };
  max_value = record { block_height = 2 ^ 64 - 1 };
  narrow = narrow_non_empty;
}

-- The struct `List`, without the database
pub record Listing : Type 0 where
  pub start_key : Key
  pub end_key : Key
  pub lower_exclusive : Bool
  pub upper_inclusive : Bool
  pub start_to_end : Bool

-- `Bound::map`
abbrev pub map_bound {ℓ} : {K : Type ℓ} → (ℕ → K) → Bound ℕ → Bound K
map_bound f (included h) = included (f h)
map_bound f (excluded h) = excluded (f h)
map_bound f unbounded = unbounded

-- `ListableKey::list`
module _ {K : Type 0} (d : ListableKey K) where
  abbrev pub bound_key : K → Bound K → Key
  bound_key other (included k) = d.to_key k
  bound_key other (excluded k) = d.to_key k
  bound_key other unbounded = d.to_key other

  abbrev pub is_excluded : Bound K → Bool
  is_excluded (excluded k) = true
  is_excluded _ = false

  abbrev pub list_keys : Bound K → Bound K → BlockListOrder → Listing
  list_keys start end order = record {
    start_key = bound_key d.min_value start;
    end_key = bound_key d.max_value end;
    lower_exclusive = is_excluded start;
    upper_inclusive = not (is_excluded end);
    start_to_end = is_indexed_order order;
  }

-- `List::reverse`
abbrev pub reverse_listing : Listing → Listing
reverse_listing l = record l { start_to_end = not l.start_to_end }

abbrev pub lower_bound : Listing → Bytes
lower_bound l =
    if l.lower_exclusive then serialize_immediate_successor l.start_key else serialize l.start_key

abbrev pub upper_bound : Listing → Bytes
upper_bound l =
    if l.upper_inclusive then serialize_immediate_successor l.end_key else serialize l.end_key

-- `map_err(|_| Error::InvalidKey)`
abbrev pub as_invalid_key {ℓ} : {A : Type ℓ} → Outcome A → Outcome A
as_invalid_key (ok a) = ok a
as_invalid_key (err e) = err invalid_key
as_invalid_key panic = panic

module _ (r : Rocks) {V : Type 0} (c : Codec V) where
  -- The closure that `List::into_iterator` maps over the entries
  abbrev pub decode_entry : Entry → Outcome (Key × V)
  decode_entry e = do
    key ← as_invalid_key (deserialize e.0)
    value ← c.from_bytes e.1
    ok (key, value)

  abbrev pub into_iterator : Listing → r.Db → List (Outcome (Key × V))
  into_iterator l db =
      map decode_entry (r.iterate (lower_bound l) (upper_bound l) l.start_to_end db)

module _ {ℓ} {K : Type ℓ} where
  -- The two bounds that a cursor stands for, in the order that is asked for
  abbrev pub cursor_bounds : Option (CursorChoice K) → Bound K × Bound K
  cursor_bounds none = (unbounded, unbounded)
  cursor_bounds (some (choose_before c')) = (unbounded, to_bound_before c')
  cursor_bounds (some (choose_after c')) = (to_bound_after c', unbounded)

  abbrev pub order_bounds : BlockListOrder → Bound K × Bound K → Bound K × Bound K
  order_bounds order (start, end) = if is_indexed_order order then (start, end) else (end, start)

  -- Whether the results are reversed, and the order of the iteration
  abbrev pub direction : Option (CursorChoice K) → BlockListOrder → Bool × BlockListOrder
  direction none order = (false, order)
  direction (some (choose_after _)) order = (false, order)
  direction (some (choose_before _)) order = (true, reverse_order order)

module _ (r : Rocks) {V : Type 0} (c : Codec V) {K : Type 0} (d : ListableKey K) where
  -- `ListableKey::list_paginated`
  unfoldable pub list_keys_paginated :
      Option (CursorChoice K) → BlockListOrder → ℕ → r.Db → Outcome (List (Key × V))
  list_keys_paginated cursor order limit db =
      let (start, end) = order_bounds order (cursor_bounds cursor) in
      let (reverse_results, order') = direction cursor order in
      do
        results ← collect (take limit (into_iterator r c (list_keys d start end order') db))
        ok (if reverse_results then reverse results else results)

  -- The match on the key
  abbrev pub narrow_row : Key × V → Outcome (K × V)
  narrow_row (k, v) = do key ← d.narrow k; ok (key, v)

  -- `BlockStore::list` and `list_non_empty`
  unfoldable pub list : Bound ℕ → Bound ℕ → BlockListOrder → r.Db → List (Outcome (K × V))
  list start end order db =
      map (λ row. row >>= narrow_row)
        (into_iterator r c
          (list_keys d (map_bound d.of_height start) (map_bound d.of_height end) order) db)

  -- `BlockStore::list_paginated` and `list_non_empty_paginated`
  unfoldable pub list_paginated :
      Option (CursorChoice ℕ) → BlockListOrder → ℕ → r.Db → Outcome (List (Outcome (K × V)))
  unfolding list_keys_paginated
  list_paginated cursor order limit db = do
    rows ← list_keys_paginated (Option.map (map_pos d.of_height) cursor) order limit db
    ok (map narrow_row rows)

-- `[b; n]`
abbrev pub fill : ℕ → ℕ → Bytes
fill zero b = []
fill (suc n) b = b ∷ fill n b

-- `BlockStore::list_txns`
unfoldable pub list_txns : (r : Rocks) {T : Type 0} → Codec T → r.Db → List (Outcome T)
list_txns r c db =
    map (λ e. c.from_bytes e.1)
      (r.iterate (serialize (txn_by_hash (fill 32 0)))
        (serialize_immediate_successor (txn_by_hash (fill 32 255))) true db)
