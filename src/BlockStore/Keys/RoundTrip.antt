-- ===== src/BlockStore/Keys/RoundTrip.antt =====
-- What `deserialize` reads back, and what it makes of other bytes
-- (ciphera/pkg/block-store/src/keys.rs).
use zerosats.Prelude.{
  ℕ, zero, suc, ◌^◌, ◌≤◌, ◌<◌, ◌≡◌, ◌≢◌, ◌⊎◌, ◌↔◌, inl, inr, refl, ap, ◌∙◌, Option, none, some, [],
  ◌∷◌, ◌++◌, ◌==◌, leb, length, length-append, take, get_elem?, if◌then◌else◌, arith,
}
use zerosats.Prelude.Bytes.{Bytes, be_bytes, from_be_bytes, length-be_bytes, from_be_bytes-be_bytes}
use mathlib.Core.List.{append_assoc}
use mathlib.Core.Bool.{◌||◌}
use zerosats.Prelude.{Bool-cases}
use zerosats.BlockStore.Types.{invalid_key, ok, err, panic, slice_to, unwrap}
use zerosats.BlockStore.Keys.{
  Key, ElementHistoryKind, input, output, block, max_height, block_hash_to_height, pending_block,
  txn_by_hash, store_version, non_empty_block, locked_element, element_history, mint_hash,
  serialize, deserialize, IsKey, to_byte, from_byte, read_height, read_hash, read_history,
}

take-append : (n : ℕ) (xs ys : Bytes) → length xs ≡ n → take n (xs ++ ys) ≡ xs
take-append zero [] ys h = refl
take-append (suc n) [] ys h = absurd (omega arith)
take-append zero (x ∷ xs) ys h = absurd (omega arith)
take-append (suc n) (x ∷ xs) ys h = ap (λ (t : Bytes). x ∷ t) (take-append n xs ys (omega arith))

get_elem?-append : (n : ℕ) (xs ys : Bytes) → length xs ≡ n → get_elem? (xs ++ ys) n ≡ get_elem? ys 0
get_elem?-append zero [] ys h = refl
get_elem?-append (suc n) [] ys h = absurd (omega arith)
get_elem?-append zero (x ∷ xs) ys h = absurd (omega arith)
get_elem?-append (suc n) (x ∷ xs) ys h = get_elem?-append n xs ys (omega arith)

slice_to-append : (n : ℕ) (xs ys : Bytes) → length xs ≡ n → slice_to n (xs ++ ys) ≡ ok xs
slice_to-append n xs ys h = ground (arith, take-append n xs ys h, length-append xs ys)

read_height-append :
    (make : ℕ → Key) (h : ℕ) (rest : Bytes)
    → h < 256 ^ 8
    → read_height make (be_bytes 8 h ++ rest) ≡ ok (make h)
read_height-append make h rest lt =
    cc (slice_to-append 8 (be_bytes 8 h) rest (length-be_bytes 8 h), from_be_bytes-be_bytes 8 h lt)

read_hash-append :
    (make : Bytes → Key) (hash rest : Bytes)
    → length hash ≡ 32
    → read_hash make (hash ++ rest) ≡ ok (make hash)
read_hash-append make hash rest h = cc (slice_to-append 32 hash rest h)

read_element :
    (e : ℕ) (rest : Bytes)
    → e < 256 ^ 32
    → read_hash (λ bs. mint_hash (from_be_bytes bs)) (be_bytes 32 e ++ rest) ≡ ok (mint_hash e)
read_element e rest lt =
    read_hash-append (λ bs. mint_hash (from_be_bytes bs)) (be_bytes 32 e) rest
      (length-be_bytes 32 e)
    ∙ ap (λ (n : ℕ). ok (mint_hash n)) (from_be_bytes-be_bytes 32 e lt)

from_byte-to_byte : (k : ElementHistoryKind) → from_byte (to_byte k) ≡ some k
from_byte-to_byte input = refl
from_byte-to_byte output = refl

read_history-append :
    (e : ℕ) (k : ElementHistoryKind) (rest : Bytes)
    → e < 256 ^ 32
    → read_history (be_bytes 32 e ++ (to_byte k ∷ rest)) ≡ ok (element_history e k)
read_history-append e k rest lt = cc (
  slice_to-append 32 (be_bytes 32 e) (to_byte k ∷ rest) (length-be_bytes 32 e),
  from_be_bytes-be_bytes 32 e lt,
  from_byte-to_byte k,
)

-- Every key whose fields have the widths of their types is read back from its bytes, and bytes
-- that follow the key are not looked at.
pub deserialize-serialize :
    (k : Key) (rest : Bytes) → IsKey k → deserialize (serialize k ++ rest) ≡ ok k
unfolding deserialize serialize
deserialize-serialize (block k) rest h =
    read_height-append (λ n. block (record { block_height = n })) k.block_height rest h
deserialize-serialize max_height rest h = refl
deserialize-serialize (block_hash_to_height hash) rest h =
    read_hash-append block_hash_to_height hash rest h
deserialize-serialize pending_block rest h = refl
deserialize-serialize (txn_by_hash hash) rest h = read_hash-append txn_by_hash hash rest h
deserialize-serialize store_version rest h = refl
deserialize-serialize (non_empty_block k) rest h =
    read_height-append (λ n. non_empty_block (record { block_height = n })) k.block_height rest h
deserialize-serialize (locked_element e) rest h = read_hash-append locked_element e rest h
deserialize-serialize (element_history e k) rest h =
    ap read_history (append_assoc (be_bytes 32 e) (to_byte k ∷ []) rest)
    ∙ read_history-append e k rest h
deserialize-serialize (mint_hash e) rest h = read_element e rest h

-- Two keys of the right widths with the same bytes are the same key.
pub serialize_injective : (j k : Key) → IsKey j → IsKey k → serialize j ≡ serialize k → j ≡ k
serialize_injective j k hj hk e = cc (
  deserialize-serialize j [] hj,
  deserialize-serialize k [] hk,
  ap (λ (b : Bytes). deserialize (b ++ [])) e,
)

-- How many bytes `deserialize` wants behind a kind
abbrev pub width : ℕ → ℕ
width b =
    if b == 0 || b == 6
    then 8
    else if b == 8
    then 33
    else if b == 2 || b == 4 || b == 7 || b == 9
    then 32
    else 0

slice_to_cases :
    (n : ℕ) (bs : Bytes)
    → ((n ≤ length bs) × (slice_to n bs ≡ ok (take n bs)))
      ⊎ ((length bs < n) × (slice_to n bs ≡ panic))
slice_to_cases n bs = elim (Bool-cases (leb n (length bs))) [
  | inl e ↦ inl (ground arith, rw e)
  | inr e ↦ inr (ground arith, rw e)
]

read_height_short :
    (make : ℕ → Key) (bs : Bytes)
    → (read_height make bs ≢ err invalid_key) × (length bs < 8 → read_height make bs ≡ panic)
read_height_short make bs = elim (slice_to_cases 8 bs) [
  | inl (le, e) ↦ (λ x. cc, λ lt. absurd (omega arith))
  | inr (gt, e) ↦ (λ x. cc, λ lt. cc)
]

read_hash_short :
    (make : Bytes → Key) (bs : Bytes)
    → (read_hash make bs ≢ err invalid_key) × (length bs < 32 → read_hash make bs ≡ panic)
read_hash_short make bs = elim (slice_to_cases 32 bs) [
  | inl (le, e) ↦ (λ x. cc, λ lt. absurd (omega arith))
  | inr (gt, e) ↦ (λ x. cc, λ lt. cc)
]

get_elem?_end : (n : ℕ) (bs : Bytes) → length bs ≤ n → get_elem? bs n ≡ none
get_elem?_end n [] h = refl
get_elem?_end zero (x ∷ xs) h = absurd (omega arith)
get_elem?_end (suc n) (x ∷ xs) h = get_elem?_end n xs (omega arith)

unwrap_cases {ℓ} :
    {A : Type ℓ} (o : Option A)
    → ((o ≡ none) × (unwrap o ≡ panic)) ⊎ ((a : A) × (o ≡ some a) × (unwrap o ≡ ok a))
unwrap_cases none = inl (refl, refl)
unwrap_cases (some a) = inr (a, refl, refl)

read_history_short :
    (bs : Bytes) → (read_history bs ≢ err invalid_key) × (length bs < 33 → read_history bs ≡ panic)
read_history_short bs = elim (slice_to_cases 32 bs) [
  | inr (gt, e) ↦ (λ x. cc, λ lt. cc)
  | inl (le, e) ↦ elim (unwrap_cases (get_elem? bs 32)) [
    | inl (out, p) ↦ (λ x. cc, λ lt. cc)
    | inr (byte, there, p) ↦ (
      elim (unwrap_cases (from_byte byte)) [
        | inl (unknown, q) ↦ λ x. cc
        | inr (k, known, q) ↦ λ x. cc
      ],
      λ lt. absurd (cc (there, get_elem?_end 32 bs (omega arith))),
    )
  ]
]

-- A key is answered with `InvalidKey` exactly where it is empty or its kind is not known.
pub deserialize_err_iff :
    (b : ℕ) (bytes : Bytes)
    → (deserialize [] ≡ err invalid_key) × ((deserialize (b ∷ bytes) ≡ err invalid_key) ↔ (9 < b))
unfolding deserialize
deserialize_err_iff b bytes = (
  refl,
  ground (
    arith,
    read_height_short (λ h. block (record { block_height = h })) bytes,
    read_height_short (λ h. non_empty_block (record { block_height = h })) bytes,
    read_hash_short block_hash_to_height bytes,
    read_hash_short txn_by_hash bytes,
    read_hash_short locked_element bytes,
    read_hash_short (λ bs. mint_hash (from_be_bytes bs)) bytes,
    read_history_short bytes,
  ),
)

-- A key of a known kind with too few bytes behind it is not answered with `InvalidKey`:
-- `deserialize` panics on it.
pub deserialize_panics :
    (b : ℕ) (bytes : Bytes) → length bytes < width b → deserialize (b ∷ bytes) ≡ panic
unfolding deserialize
deserialize_panics b bytes short = ground (
  arith,
  read_height_short (λ h. block (record { block_height = h })) bytes,
  read_height_short (λ h. non_empty_block (record { block_height = h })) bytes,
  read_hash_short block_hash_to_height bytes,
  read_hash_short txn_by_hash bytes,
  read_hash_short locked_element bytes,
  read_hash_short (λ bs. mint_hash (from_be_bytes bs)) bytes,
  read_history_short bytes,
)
