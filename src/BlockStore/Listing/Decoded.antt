-- ===== src/BlockStore/Listing/Decoded.antt =====
-- The entries of the store that hold the blocks of a listing, in the order of their heights
-- (ciphera/pkg/block-store/src/{keys,list}.rs).
use zerosats.Prelude.{
  ℕ, zero, suc, ◌^◌, ◌-◌, ◌<◌, ◌≡◌, refl, Bool, List, [], ◌∷◌, ◌++◌, take, filter, arith,
  Bool-cases, inl, inr,
}
use zerosats.Prelude.Bytes.{be_bytes}
use zerosats.BlockStore.Types.{Outcome, ok}
use zerosats.BlockStore.Keys.{Key, block, non_empty_block, kind, serialize, IsKey}
use zerosats.BlockStore.Keys.RoundTrip.{deserialize-serialize}
use zerosats.BlockStore.Rocks.{Entry, Rocks, Codec}
use zerosats.BlockStore.Listing.{ListableKey, block_keys, non_empty_keys, decode_entry, narrow_row}
use mathlib.Core.List.{reverse, map, append-nil, reverse-cons}

-- What the proofs use of a kind of key: its bytes, and that no other key has its kind.
pub record IsListable {K : Type 0} (d : ListableKey K) : Type 0 where
  pub tag : ℕ
  pub bytes : (h : ℕ) → serialize (d.to_key (d.of_height h)) ≡ tag ∷ be_bytes 8 h
  pub valid : (h : ℕ) → h < 256 ^ 8 → IsKey (d.to_key (d.of_height h))
  pub lowest : d.min_value ≡ d.of_height 0
  pub highest : d.max_value ≡ d.of_height (2 ^ 64 - 1)
  pub narrowed : (h : ℕ) → d.narrow (d.to_key (d.of_height h)) ≡ ok (d.of_height h)
  pub only :
      (key : Key)
      → IsKey key
      → kind key ≡ tag
      → (h : ℕ) × (h < 256 ^ 8) × (key ≡ d.to_key (d.of_height h))

pub block_only :
    (key : Key)
    → IsKey key
    → kind key ≡ 0
    → (h : ℕ) × (h < 256 ^ 8) × (key ≡ block (record { block_height = h }))
block_only (block k) v e = (k.block_height, v, refl)
block_only _ v e = absurd (omega arith)

pub non_empty_only :
    (key : Key)
    → IsKey key
    → kind key ≡ 6
    → (h : ℕ) × (h < 256 ^ 8) × (key ≡ non_empty_block (record { block_height = h }))
non_empty_only (non_empty_block k) v e = (k.block_height, v, refl)
non_empty_only _ v e = absurd (omega arith)

unfoldable pub block_keys-IsListable : IsListable block_keys
unfolding block_keys serialize
block_keys-IsListable = record {
  tag = 0;
  bytes = λ h. refl;
  valid = λ h lt. lt;
  lowest = refl;
  highest = refl;
  narrowed = λ h. refl;
  only = block_only;
}

unfoldable pub non_empty_keys-IsListable : IsListable non_empty_keys
unfolding non_empty_keys serialize
non_empty_keys-IsListable = record {
  tag = 6;
  bytes = λ h. refl;
  valid = λ h lt. lt;
  lowest = refl;
  highest = refl;
  narrowed = λ h. refl;
  only = non_empty_only;
}

module _ (r : Rocks) {V : Type 0} (c : Codec V) {K : Type 0} {d : ListableKey K}
    (i : IsListable d) where
  -- The entry holds a value under the key of a height.
  abbrev pub IsRow : Entry → ℕ × V → Type 0
  IsRow e row = (row.0 < 256 ^ 8) × (e.0 ≡ i.tag ∷ be_bytes 8 row.0) × (c.from_bytes e.1 ≡ ok row.1)

  abbrev pub AreRows : List Entry → List (ℕ × V) → Type 0
  AreRows [] [] = Unit
  AreRows [] (row ∷ rows) = ⊥
  AreRows (e ∷ es) [] = ⊥
  AreRows (e ∷ es) (row ∷ rows) = IsRow e row × AreRows es rows

  -- The row with its key, and with the key that a listing of the block store shows
  abbrev pub keyed_row : ℕ × V → Key × V
  keyed_row row = (d.to_key (d.of_height row.0), row.1)

  abbrev pub shown_row : ℕ × V → Outcome (K × V)
  shown_row row = ok (d.of_height row.0, row.1)

  decode_entry_lem :
      (e : Entry) (row : ℕ × V) → IsRow e row → decode_entry r c e ≡ ok (keyed_row row)
  decode_entry_lem e row (lt, key, value) = cc (
    key,
    value,
    i.bytes row.0,
    deserialize-serialize (d.to_key (d.of_height row.0)) [] (i.valid row.0 lt),
    append-nil (serialize (d.to_key (d.of_height row.0))),
  )

  pub decode_entries :
      (es : List Entry) (rows : List (ℕ × V))
      → AreRows es rows
      → map (decode_entry r c) es ≡ map (λ row. ok (keyed_row row)) rows
  decode_entries [] [] a = refl
  decode_entries [] (row ∷ rows) a = absurd a
  decode_entries (e ∷ es) [] a = absurd a
  decode_entries (e ∷ es) (row ∷ rows) (first, rest) =
      cc (decode_entry_lem e row first, decode_entries es rows rest)

  pub narrow_keyed : (row : ℕ × V) → narrow_row r c d (keyed_row row) ≡ shown_row row
  narrow_keyed row = cc (i.narrowed row.0)

  pub take-AreRows :
      (n : ℕ) (es : List Entry) (rows : List (ℕ × V))
      → AreRows es rows
      → AreRows (take n es) (take n rows)
  take-AreRows zero es rows a = tt
  take-AreRows (suc n) [] [] a = tt
  take-AreRows (suc n) [] (row ∷ rows) a = absurd a
  take-AreRows (suc n) (e ∷ es) [] a = absurd a
  take-AreRows (suc n) (e ∷ es) (row ∷ rows) (first, rest) = (first, take-AreRows n es rows rest)

  append-AreRows :
      (es fs : List Entry) (rows others : List (ℕ × V))
      → AreRows es rows
      → AreRows fs others
      → AreRows (es ++ fs) (rows ++ others)
  append-AreRows [] fs [] others a b = b
  append-AreRows [] fs (row ∷ rows) others a b = absurd a
  append-AreRows (e ∷ es) fs [] others a b = absurd a
  append-AreRows (e ∷ es) fs (row ∷ rows) others (first, rest) b =
      (first, append-AreRows es fs rows others rest b)

  pub reverse-AreRows :
      (es : List Entry) (rows : List (ℕ × V))
      → AreRows es rows
      → AreRows (reverse es) (reverse rows)
  reverse-AreRows [] [] a = tt
  reverse-AreRows [] (row ∷ rows) a = absurd a
  reverse-AreRows (e ∷ es) [] a = absurd a
  reverse-AreRows (e ∷ es) (row ∷ rows) (first, rest) =
      rw (reverse-cons e es, reverse-cons row rows)
        (append-AreRows (reverse es) (e ∷ []) (reverse rows) (row ∷ [])
          (reverse-AreRows es rows rest) (first, tt))

  -- A test of the entries that agrees with a test of the rows
  pub filter-AreRows :
      (p : Entry → Bool) (q : ℕ × V → Bool)
      → ((e : Entry) (row : ℕ × V) → IsRow e row → p e ≡ q row)
      → (es : List Entry) (rows : List (ℕ × V)) → AreRows es rows
      → AreRows (filter p es) (filter q rows)
  filter-AreRows p q agree [] [] a = tt
  filter-AreRows p q agree [] (row ∷ rows) a = absurd a
  filter-AreRows p q agree (e ∷ es) [] a = absurd a
  filter-AreRows p q agree (e ∷ es) (row ∷ rows) (first, rest) = elim (Bool-cases (q row)) [
    | inl y ↦ rw (agree e row first, y) ((first, filter-AreRows p q agree es rows rest))
    | inr n ↦ rw (agree e row first, n) (filter-AreRows p q agree es rows rest)
  ]
