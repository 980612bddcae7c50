-- ===== src/BlockStore/Listing/Rows.antt =====
-- The rows of a store: in the order of their heights, and found by their heights
-- (ciphera/pkg/block-store/src/{keys,list,lib}.rs).
use zerosats.Prelude.{
  ℕ, ◌^◌, ◌<◌, ◌≡◌, refl, sym, ap, subst, ◌∙◌, Bool, Option, none, some, List, [], ◌∷◌, filter, All,
  arith, Bool-cases, inl, inr, ◌==◌,
}
use zerosats.Prelude.Bytes.{Bytes, be_bytes, bytes_eq, bytes_eq-be_bytes}
use zerosats.Prelude.Maps
use zerosats.BlockStore.Types.{ok}
use zerosats.BlockStore.Keys.{serialize}
use zerosats.BlockStore.Rocks.{Entry, Rocks, Codec, IsAscending, AllAfter, find}
use zerosats.BlockStore.Listing.{ListableKey, lowest_to_highest}
use zerosats.BlockStore.Listing.Decoded.{IsListable, IsRow, AreRows}
use zerosats.BlockStore.Listing.Range.{has_tag, lt_key}
use zerosats.BlockStore.Listing.Whole.{Shows}
use zerosats.BlockStore.Listing.Pages.{AllBehind, IsInOrder}

filter-AllAfter :
    (p : Entry → Bool) (k : Bytes) (es : List Entry) → AllAfter k es → AllAfter k (filter p es)
filter-AllAfter p k [] a = tt
filter-AllAfter p k (e ∷ es) a = ground (arith, filter-AllAfter p k es a.1, a.0)

filter-IsAscending :
    (p : Entry → Bool) (es : List Entry) → IsAscending es → IsAscending (filter p es)
filter-IsAscending p [] a = tt
filter-IsAscending p (e ∷ es) a =
    ground (arith, filter-AllAfter p e.0 es a.0, filter-IsAscending p es a.1)

module _ (r : Rocks) {V : Type 0} (c : Codec V) {K : Type 0} {d : ListableKey K}
    (i : IsListable d) where
  AreRows-AllBehind :
      (e : Entry) (row : ℕ × V) (es : List Entry) (rows : List (ℕ × V))
      → IsRow r c i e row
      → AllAfter e.0 es
      → AreRows r c i es rows
      → AllBehind lowest_to_highest row.0 rows
  AreRows-AllBehind e row [] [] h a b = tt
  AreRows-AllBehind e row [] (x ∷ rows) h a b = absurd b
  AreRows-AllBehind e row (f ∷ es) [] h a b = absurd b
  AreRows-AllBehind e row (f ∷ es) (x ∷ rows) (lt, key, v) a ((lt', key', v'), b) = (
    sym (lt_key i.tag row.0 x.0 lt lt') ∙ rw (key, key') at a.0,
    AreRows-AllBehind e row es rows (lt, key, v) a.1 b,
  )

  AreRows-IsInOrder :
      (es : List Entry) (rows : List (ℕ × V))
      → IsAscending es
      → AreRows r c i es rows
      → IsInOrder lowest_to_highest rows
  AreRows-IsInOrder [] [] a b = tt
  AreRows-IsInOrder [] (row ∷ rows) a b = absurd b
  AreRows-IsInOrder (e ∷ es) [] a b = absurd b
  AreRows-IsInOrder (e ∷ es) (row ∷ rows) a (h, b) =
      (AreRows-AllBehind e row es rows h a.0 b, AreRows-IsInOrder es rows a.1 b)

  -- The rows of a store are in the order of their heights.
  pub Shows-IsInOrder :
      (db : r.Db) (rows : List (ℕ × V)) → Shows r c i db rows → IsInOrder lowest_to_highest rows
  Shows-IsInOrder db rows s =
      AreRows-IsInOrder (filter (has_tag i.tag) (r.entries db)) rows
        (filter-IsAscending (has_tag i.tag) (r.entries db) (r.ascending db)) s

  AreRows-heights :
      (es : List Entry) (rows : List (ℕ × V))
      → AreRows r c i es rows
      → All (λ row. row.0 < 256 ^ 8) rows
  AreRows-heights [] [] a = tt
  AreRows-heights [] (row ∷ rows) a = absurd a
  AreRows-heights (e ∷ es) [] a = absurd a
  AreRows-heights (e ∷ es) (row ∷ rows) (h, a) = (h.0, AreRows-heights es rows a)

  pub Shows-heights :
      (db : r.Db) (rows : List (ℕ × V)) → Shows r c i db rows → All (λ row. row.0 < 256 ^ 8) rows
  Shows-heights db rows s = AreRows-heights (filter (has_tag i.tag) (r.entries db)) rows s

  find-tagged :
      (k : Bytes) (es : List Entry)
      → find (i.tag ∷ k) (filter (has_tag i.tag) es) ≡ find (i.tag ∷ k) es
  find-tagged k [] = refl
  find-tagged k (([], v) ∷ es) = find-tagged k es
  find-tagged k ((b ∷ bs, v) ∷ es) = ground (arith, find-tagged k es)

  -- What is read under the key of a height is decoded to the value of the row with that height.
  abbrev pub Reads : Option Bytes → Option V → Type 0
  Reads none none = Unit
  Reads none (some v) = ⊥
  Reads (some b) none = ⊥
  Reads (some b) (some v) = c.from_bytes b ≡ ok v

  find-AreRows :
      (h : ℕ) (es : List Entry) (rows : List (ℕ × V))
      → h < 256 ^ 8
      → AreRows r c i es rows
      → Reads (find (i.tag ∷ be_bytes 8 h) es) (Maps.get h rows)
  find-AreRows h [] [] lt a = tt
  find-AreRows h [] (row ∷ rows) lt a = absurd a
  find-AreRows h (e ∷ es) [] lt a = absurd a
  find-AreRows h ((k, b) ∷ es) ((j, v) ∷ rows) lt ((lt', key, value), a) =
      let same : bytes_eq (i.tag ∷ be_bytes 8 h) k ≡ (h == j) =
        rw key (ground (arith, bytes_eq-be_bytes 8 h j lt lt')) in
      elim (Bool-cases (h == j)) [
        | inl y ↦ rw (same, y) value
        | inr n ↦ rw (same, n) (find-AreRows h es rows lt a)
      ]

  -- A read by height finds what the listing shows under the height, and nothing where it shows
  -- nothing.
  pub get-Shows :
      (db : r.Db) (rows : List (ℕ × V)) (h : ℕ)
      → Shows r c i db rows
      → h < 256 ^ 8
      → Reads (r.get (serialize (d.to_key (d.of_height h))) db) (Maps.get h rows)
  get-Shows db rows h s lt =
      let e : r.get (serialize (d.to_key (d.of_height h))) db
          ≡ find (i.tag ∷ be_bytes 8 h) (filter (has_tag i.tag) (r.entries db)) =
        r.get_entries _ db
        ∙ ap (λ (k : Bytes). find k (r.entries db)) (i.bytes h)
        ∙ sym (find-tagged (be_bytes 8 h) (r.entries db)) in
      subst (λ (o : Option Bytes). Reads o (Maps.get h rows)) (sym e)
        (find-AreRows h (filter (has_tag i.tag) (r.entries db)) rows lt s)
