-- ===== src/BlockStore/Listing/Exists.antt =====
-- A store whose keys are keys and whose values decode has rows
-- (ciphera/pkg/block-store/src/{keys,list}.rs).
use zerosats.Prelude.{
  ℕ, ◌^◌, ◌<◌, ◌≡◌, refl, ap, ◌∙◌, true, false, some, List, [], ◌∷◌, All, filter, inl, inr,
  Bool-cases, ==_iff,
}
use zerosats.Prelude.Bytes.{Bytes, bytes_eq, bytes_eq_iff, bytes_eq_refl, bytes_lt, bytes_lt_irrefl}
use zerosats.BlockStore.Types.{Returns}
use zerosats.BlockStore.Keys.{Key, kind, serialize, IsKey}
use zerosats.BlockStore.Rocks.{Entry, Rocks, Codec, find, IsAscending, AllAfter}
use zerosats.BlockStore.Listing.{ListableKey}
use zerosats.BlockStore.Listing.Decoded.{IsListable, IsRow, AreRows}
use zerosats.BlockStore.Listing.Range.{has_tag}
use zerosats.BlockStore.Listing.Whole.{Shows}

lt_ne : (j k : Bytes) → bytes_lt j k ≡ true → bytes_eq k j ≡ false
lt_ne j k h = elim (Bool-cases (bytes_eq k j)) [
  | inl e ↦
      absurd (let same : k ≡ j = (bytes_eq_iff k j).0 e in cc (rw same at h, bytes_lt_irrefl j))
  | inr n ↦ n
]

-- Every entry of a list in order is found by its key.
abbrev AreFound : List Entry → List Entry → Type 0
AreFound whole es = All (λ e. find e.0 whole ≡ some e.1) es

AreFound-cons :
    (f : Entry) (whole es : List Entry)
    → AllAfter f.0 es
    → AreFound whole es
    → AreFound (f ∷ whole) es
AreFound-cons f whole [] a h = tt
AreFound-cons f whole (e ∷ es) a h = (rw (lt_ne f.0 e.0 a.0) h.0, AreFound-cons f whole es a.1 h.1)

entries-AreFound : (es : List Entry) → IsAscending es → AreFound es es
entries-AreFound [] a = tt
entries-AreFound (e ∷ es) a =
    (rw (bytes_eq_refl e.0) refl, AreFound-cons e es es a.0 (entries-AreFound es a.1))

filter-tagged :
    (whole es : List Entry) (tag : ℕ)
    → AreFound whole es
    → All (λ e. (find e.0 whole ≡ some e.1) × (has_tag tag e ≡ true)) (filter (has_tag tag) es)
filter-tagged whole [] tag a = tt
filter-tagged whole (e ∷ es) tag a = elim (Bool-cases (has_tag tag e)) [
  | inl y ↦ rw y ((a.0, y), filter-tagged whole es tag a.1)
  | inr n ↦ rw n (filter-tagged whole es tag a.1)
]

kind_of_tag :
    (tag : ℕ) (key : Key) (v : Bytes) → has_tag tag (serialize key, v) ≡ true → kind key ≡ tag
unfolding serialize
kind_of_tag tag key v h = (==_iff (kind key) tag).0 h

module _ (r : Rocks) {V : Type 0} (c : Codec V) {K : Type 0} {d : ListableKey K}
    (i : IsListable d) where
  build :
      (es : List Entry)
      → All (λ e. (row : ℕ × V) × IsRow r c i e row) es
      → (rows : List (ℕ × V)) × AreRows r c i es rows
  build [] a = ([], tt)
  build (e ∷ es) ((row, h), a) = let (rows, b) = build es a in (row ∷ rows, (h, b))

  module _ (db : r.Db)
      (keyed : (k v : Bytes) → r.get k db ≡ some v → (key : Key) × IsKey key × (k ≡ serialize key))
      (decodes : (h : ℕ) (v : Bytes)
        → h < 256 ^ 8
        → r.get (serialize (d.to_key (d.of_height h))) db ≡ some v
        → Returns (c.from_bytes v)) where
    IsRow-of :
        (e : Entry)
        → find e.0 (r.entries db) ≡ some e.1
        → has_tag i.tag e ≡ true
        → (row : ℕ × V) × IsRow r c i e row
    IsRow-of (k, v) found tagged =
        let got : r.get k db ≡ some v = r.get_entries k db ∙ found in
        let (key, valid, e) = keyed k v got in
        let (h, lt, f) = i.only key valid (kind_of_tag i.tag key v (rw e at tagged)) in
        let same : k ≡ serialize (d.to_key (d.of_height h)) = e ∙ ap serialize f in
        let (value, g) = decodes h v lt (rw same at got) in ((h, value), (lt, same ∙ i.bytes h, g))

    IsRow-of_each :
        (es : List Entry)
        → All (λ e. (find e.0 (r.entries db) ≡ some e.1) × (has_tag i.tag e ≡ true)) es
        → All (λ e. (row : ℕ × V) × IsRow r c i e row) es
    IsRow-of_each [] a = tt
    IsRow-of_each (e ∷ es) ((found, tagged), a) = (IsRow-of e found tagged, IsRow-of_each es a)

    -- The entries of such a store that stand under keys of a kind are rows.
    pub Shows_exists : (rows : List (ℕ × V)) × Shows r c i db rows
    Shows_exists = build (filter (has_tag i.tag) (r.entries db)) (
        IsRow-of_each (filter (has_tag i.tag) (r.entries db)) (
          filter-tagged (r.entries db) (r.entries db) i.tag
            (entries-AreFound (r.entries db) (r.ascending db))))
