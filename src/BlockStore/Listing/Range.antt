-- ===== src/BlockStore/Listing/Range.antt =====
-- The bounds of a listing in bytes, and the heights that lie between them
-- (ciphera/pkg/block-store/src/{keys,list}.rs).
use zerosats.Prelude.{
  ℕ, ◌^◌, ◌-◌, ◌<◌, ◌≡◌, sym, ap, ◌∙◌, Bool, true, false, not, ◌&&◌, List, [], ◌∷◌, ◌++◌, filter,
  arith, ltb, leb, ◌==◌, ==_refl,
}
use zerosats.Prelude.Bytes.{
  Bytes, be_bytes, length-be_bytes, bytes_lt, bytes_lt-append, bytes_lt-be_bytes, bytes_eq-be_bytes,
}
use zerosats.Pagination.{Bound, included, excluded, unbounded}
use zerosats.BlockStore.Keys.{serialize_immediate_successor}
use zerosats.BlockStore.Rocks.{Entry, Rocks, Codec, within}
use zerosats.BlockStore.Listing.{
  ListableKey, Listing, BlockListOrder, list_keys, map_bound, lower_bound, upper_bound,
}
use zerosats.BlockStore.Listing.Decoded.{IsListable, IsRow}
use mathlib.Core.List.{append-nil}
use zerosats.Prelude.Filter.{filter-filter}

-- The height lies behind the bound where the listing starts, and before the one where it ends.
abbrev pub above : Bound ℕ → ℕ → Bool
above (included k) h = leb k h
above (excluded k) h = ltb k h
above unbounded h = true

abbrev pub below : Bound ℕ → ℕ → Bool
below (included k) h = leb h k
below (excluded k) h = ltb h k
below unbounded h = true

-- The bound is a `u64`.
abbrev pub IsBound : Bound ℕ → Type 0
IsBound (included k) = k < 256 ^ 8
IsBound (excluded k) = k < 256 ^ 8
IsBound unbounded = Unit

-- The bytes of the two bounds, behind the tag
abbrev start_bytes : Bound ℕ → Bytes
start_bytes (included k) = be_bytes 8 k
start_bytes (excluded k) = be_bytes 8 k ++ 0 ∷ []
start_bytes unbounded = be_bytes 8 0

abbrev end_bytes : Bound ℕ → Bytes
end_bytes (included k) = be_bytes 8 k ++ 0 ∷ []
end_bytes (excluded k) = be_bytes 8 k
end_bytes unbounded = be_bytes 8 (2 ^ 64 - 1) ++ 0 ∷ []

abbrev pub has_tag : ℕ → Entry → Bool
has_tag tag e = elim e.0 [ [] ↦ false | b ∷ bs ↦ b == tag ]

within-has_tag :
    (tag : ℕ) (lower upper : Bytes) (e : Entry)
    → within (tag ∷ lower) (tag ∷ upper) e ≡ true
    → has_tag tag e ≡ true
within-has_tag tag lower upper ([], v) h = cc
within-has_tag tag lower upper (b ∷ bs, v) h = ground arith

module _ (tag h k : ℕ) (hh : h < 256 ^ 8) (hk : k < 256 ^ 8) where
  pub lt_key : bytes_lt (tag ∷ be_bytes 8 h) (tag ∷ be_bytes 8 k) ≡ ltb h k
  lt_key = rw (==_refl tag) (bytes_lt-be_bytes 8 h k hh hk)

  lt_successor : bytes_lt (tag ∷ be_bytes 8 h) (tag ∷ (be_bytes 8 k ++ 0 ∷ [])) ≡ leb h k
  lt_successor = ground (
    arith,
    ==_refl tag,
    ap (λ (t : Bytes). bytes_lt t (be_bytes 8 k ++ 0 ∷ [])) (append-nil (be_bytes 8 h)),
    bytes_lt-append (be_bytes 8 h) (be_bytes 8 k) [] (0 ∷ [])
        (length-be_bytes 8 h ∙ sym (length-be_bytes 8 k)),
    bytes_eq-be_bytes 8 h k hh hk,
    bytes_lt-be_bytes 8 h k hh hk,
  )

start_lem :
    (tag h : ℕ) (start : Bound ℕ)
    → h < 256 ^ 8
    → IsBound start
    → not (bytes_lt (tag ∷ be_bytes 8 h) (tag ∷ start_bytes start)) ≡ above start h
start_lem tag h (included k) lt b = ground (arith, lt_key tag h k lt b)
start_lem tag h (excluded k) lt b = ground (arith, lt_successor tag h k lt b)
start_lem tag h unbounded lt b = ground (arith, lt_key tag h 0 lt (omega arith))

end_lem :
    (tag h : ℕ) (end : Bound ℕ)
    → h < 256 ^ 8
    → IsBound end
    → bytes_lt (tag ∷ be_bytes 8 h) (tag ∷ end_bytes end) ≡ below end h
end_lem tag h (included k) lt b = lt_successor tag h k lt b
end_lem tag h (excluded k) lt b = lt_key tag h k lt b
end_lem tag h unbounded lt b = ground (arith, lt_successor tag h (2 ^ 64 - 1) lt (omega arith))

-- The bounds of a listing
abbrev pub between : Bound ℕ → Bound ℕ → ℕ → Bool
between start end h = above start h && below end h

module _ {K : Type 0} {d : ListableKey K} (i : IsListable d) where
  abbrev pub range_listing : Bound ℕ → Bound ℕ → BlockListOrder → Listing
  range_listing start end order =
      list_keys d (map_bound d.of_height start) (map_bound d.of_height end) order

  successor_bytes :
      (h : ℕ)
      → serialize_immediate_successor (d.to_key (d.of_height h)) ≡ i.tag ∷ (be_bytes 8 h ++ 0 ∷ [])
  unfolding serialize_immediate_successor
  successor_bytes h = ap (λ (t : Bytes). t ++ 0 ∷ []) (i.bytes h)

  lower_bound_lem :
      (start end : Bound ℕ) (order : BlockListOrder)
      → lower_bound (range_listing start end order) ≡ i.tag ∷ start_bytes start
  lower_bound_lem (included k) end order = i.bytes k
  lower_bound_lem (excluded k) end order = successor_bytes k
  lower_bound_lem unbounded end order = rw i.lowest (i.bytes 0)

  upper_bound_lem :
      (start end : Bound ℕ) (order : BlockListOrder)
      → upper_bound (range_listing start end order) ≡ i.tag ∷ end_bytes end
  upper_bound_lem start (included k) order = successor_bytes k
  upper_bound_lem start (excluded k) order = i.bytes k
  upper_bound_lem start unbounded order = rw i.highest (successor_bytes (2 ^ 64 - 1))

module _ (r : Rocks) {V : Type 0} (c : Codec V) {K : Type 0} {d : ListableKey K} (i : IsListable d)
    (start end : Bound ℕ) (order : BlockListOrder) where
  abbrev pub in_bounds : Entry → Bool
  in_bounds =
      within (lower_bound (range_listing i start end order))
        (upper_bound (range_listing i start end order))

  -- In bytes, exactly the keys between the heights lie between the bounds.
  pub in_bounds_lem :
      IsBound start
      → IsBound end
      → (e : Entry) (row : ℕ × V) → IsRow r c i e row
      → in_bounds e ≡ between start end row.0
  in_bounds_lem bs be e row (lt, key, value) =
      rw (key, lower_bound_lem i start end order, upper_bound_lem i start end order)
        (ground (arith, start_lem i.tag row.0 start lt bs, end_lem i.tag row.0 end lt be))

  -- No key of another kind does.
  pub in_bounds_tagged :
      (es : List Entry) → filter in_bounds (filter (has_tag i.tag) es) ≡ filter in_bounds es
  in_bounds_tagged = filter-filter in_bounds (has_tag i.tag) λ e h.
      within-has_tag i.tag (start_bytes start) (end_bytes end) e
        (rw (lower_bound_lem i start end order, upper_bound_lem i start end order) at h)
