-- ===== src/BlockStore/Listing/Whole.antt =====
-- What a listing of a range returns (ciphera/pkg/block-store/src/{keys,list}.rs).
use zerosats.Prelude.{ℕ, ◌≡◌, refl, sym, ap, subst, ◌∙◌, List, [], ◌∷◌, take, filter, if◌then◌else◌}
use zerosats.Pagination.{Bound}
use zerosats.BlockStore.Types.{ok, ◌>>=◌}
use zerosats.BlockStore.Rocks.{Entry, Rocks, Codec}
use zerosats.BlockStore.Listing.{
  ListableKey, BlockListOrder, lowest_to_highest, highest_to_lowest, is_indexed_order, lower_bound,
  upper_bound, decode_entry, narrow_row, list,
}
use zerosats.BlockStore.Listing.Decoded.{
  IsListable, AreRows, keyed_row, shown_row, decode_entries, narrow_keyed, take-AreRows,
  reverse-AreRows, filter-AreRows,
}
use zerosats.BlockStore.Listing.Range.{
  IsBound, between, has_tag, in_bounds, in_bounds_lem, in_bounds_tagged, range_listing,
}
use mathlib.Core.List.{reverse, map}
use zerosats.Prelude.Filter.{take-map}

-- The order that a listing is asked for
abbrev pub in_order {ℓ} : {A : Type ℓ} → BlockListOrder → List A → List A
in_order order xs = if is_indexed_order order then xs else reverse xs

module _ (r : Rocks) {V : Type 0} (c : Codec V) {K : Type 0} {d : ListableKey K}
    (i : IsListable d) where
  -- The entries of the store under keys of the kind are these rows, by ascending height.
  abbrev pub Shows : r.Db → List (ℕ × V) → Type 0
  Shows db rows = AreRows r c i (filter (has_tag i.tag) (r.entries db)) rows

  narrow_all :
      (rows : List (ℕ × V))
      → map (λ row. row >>= narrow_row r c d) (map (λ row. ok (keyed_row r c i row)) rows)
        ≡ map (shown_row r c i) rows
  narrow_all [] = refl
  narrow_all (row ∷ rows) = cc (narrow_keyed r c i row, narrow_all rows)

  pub narrow_rows :
      (rows : List (ℕ × V))
      → map (narrow_row r c d) (map (keyed_row r c i) rows) ≡ map (shown_row r c i) rows
  narrow_rows [] = refl
  narrow_rows (row ∷ rows) = cc (narrow_keyed r c i row, narrow_rows rows)

  pub take-decode :
      (n : ℕ) (es : List Entry) (rows : List (ℕ × V))
      → AreRows r c i es rows
      → take n (map (decode_entry r c) es) ≡ map (λ row. ok (keyed_row r c i row)) (take n rows)
  take-decode n es rows a =
      take-map (decode_entry r c) n es
      ∙ decode_entries r c i (take n es) (take n rows) (take-AreRows r c i n es rows a)

  module _ (db : r.Db) (rows : List (ℕ × V)) (shows : Shows db rows) where
    filter-Shows :
        (start end : Bound ℕ) (order : BlockListOrder)
        → IsBound start
        → IsBound end
        → AreRows r c i
            (filter (in_bounds r c i start end order) (r.entries db))
            (filter (λ row. between start end row.0) rows)
    filter-Shows start end order bs be =
        subst (λ es. AreRows r c i es (filter (λ row. between start end row.0) rows))
          (in_bounds_tagged r c i start end order (r.entries db))
          (filter-AreRows r c i (in_bounds r c i start end order) (λ row. between start end row.0)
            (in_bounds_lem r c i start end order bs be) (filter (has_tag i.tag) (r.entries db)) rows
            shows)

    pub iterate-AreRows :
        (start end : Bound ℕ) (order : BlockListOrder)
        → IsBound start
        → IsBound end
        → let l = range_listing i start end order in
          AreRows r c i
            (r.iterate (lower_bound l) (upper_bound l) l.start_to_end db)
            (in_order order (filter (λ row. between start end row.0) rows))
    iterate-AreRows start end lowest_to_highest bs be =
        subst
          (λ es.
            AreRows r c i es
              (in_order lowest_to_highest (filter (λ row. between start end row.0) rows)))
          (sym (r.iterate_start _ _ db)) (filter-Shows start end lowest_to_highest bs be)
    iterate-AreRows start end highest_to_lowest bs be =
        subst
          (λ es.
            AreRows r c i es
              (in_order highest_to_lowest (filter (λ row. between start end row.0) rows)))
          (sym (r.iterate_end _ _ db))
          (reverse-AreRows r c i _ _ (filter-Shows start end highest_to_lowest bs be))

    -- A listing of a range shows the rows whose heights lie between its bounds, in the order that
    -- is asked for, and no error.
    pub list-between :
        (start end : Bound ℕ) (order : BlockListOrder)
        → IsBound start
        → IsBound end
        → list r c d start end order db
          ≡ map (shown_row r c i) (in_order order (filter (λ row. between start end row.0) rows))
    unfolding list
    list-between start end order bs be =
        ap (map (λ row. row >>= narrow_row r c d))
          (decode_entries r c i _ _ (iterate-AreRows start end order bs be))
        ∙ narrow_all (in_order order (filter (λ row. between start end row.0) rows))
