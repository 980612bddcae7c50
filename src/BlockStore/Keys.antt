-- ===== src/BlockStore/Keys.antt =====
-- The keys of the store and their bytes: ciphera/pkg/block-store/src/keys.rs.
-- A hash is its bytes, an element and a height are numbers.
pub mod RoundTrip
use zerosats.Prelude.{
  ℕ, ◌^◌, ◌-◌, ◌<◌, ◌≡◌, Bool, true, false, Option, none, some, List, [], ◌∷◌, ◌++◌, ◌==◌, length,
  if◌then◌else◌,
}
use zerosats.Prelude.Bytes.{Bytes, be_bytes, from_be_bytes}
use zerosats.BlockStore.Types.{Error, invalid_key, Outcome, ok, err, ◌>>=◌, slice_to, unwrap, index}

pub record KeyBlock : Type 0 where
  pub block_height : ℕ

pub record KeyNonEmptyBlock : Type 0 where
  pub block_height : ℕ

pub data ElementHistoryKind : Type 0 where
  input : ElementHistoryKind
  output : ElementHistoryKind

pub data Key : Type 0 where
  block : KeyBlock → Key
  max_height : Key
  block_hash_to_height : Bytes → Key
  pending_block : Key
  txn_by_hash : Bytes → Key
  store_version : Key
  non_empty_block : KeyNonEmptyBlock → Key
  locked_element : Bytes → Key
  element_history : ℕ → ElementHistoryKind → Key
  mint_hash : ℕ → Key

abbrev pub to_byte : ElementHistoryKind → ℕ
to_byte input = 0
to_byte output = 1

abbrev pub from_byte : ℕ → Option ElementHistoryKind
from_byte byte = if byte == 0 then some input else if byte == 1 then some output else none

abbrev pub kind : Key → ℕ
kind (block _) = 0
kind max_height = 1
kind (block_hash_to_height _) = 2
kind pending_block = 3
kind (txn_by_hash _) = 4
kind store_version = 5
kind (non_empty_block _) = 6
kind (locked_element _) = 7
kind (element_history _ _) = 8
kind (mint_hash _) = 9

-- `KeyBlock` and `KeyNonEmptyBlock`: `serialize_to`
abbrev pub height_bytes : ℕ → Bytes
height_bytes h = be_bytes 8 h

-- What `serialize` writes behind the kind
abbrev pub payload : Key → Bytes
payload (block k) = height_bytes k.block_height
payload max_height = []
payload (block_hash_to_height hash) = hash
payload pending_block = []
payload (txn_by_hash hash) = hash
payload store_version = []
payload (non_empty_block k) = height_bytes k.block_height
payload (locked_element e) = e
payload (element_history e k) = be_bytes 32 e ++ to_byte k ∷ []
payload (mint_hash e) = be_bytes 32 e

unfoldable pub serialize : Key → Bytes
serialize k = kind k ∷ payload k

unfoldable pub serialize_immediate_successor : Key → Bytes
unfolding serialize
serialize_immediate_successor k = serialize k ++ 0 ∷ []

-- `KeyBlock::deserialize` and `KeyNonEmptyBlock::deserialize`, with the key that they make
abbrev pub read_height : (ℕ → Key) → Bytes → Outcome Key
read_height make bytes = do u64_bytes ← slice_to 8 bytes; ok (make (from_be_bytes u64_bytes))

-- The branches of `deserialize` that read a hash
abbrev pub read_hash : (Bytes → Key) → Bytes → Outcome Key
read_hash make bytes = do hash ← slice_to 32 bytes; ok (make hash)

-- The branch of `deserialize` that reads the history of an element
abbrev pub read_history : Bytes → Outcome Key
read_history bytes = do
  element_arr ← slice_to 32 bytes
  byte ← index 32 bytes
  k ← unwrap (from_byte byte)
  ok (element_history (from_be_bytes element_arr) k)

unfoldable pub deserialize : Bytes → Outcome Key
deserialize [] = err invalid_key
deserialize (b ∷ bytes) =
    if b == 0
    then read_height (λ h. block (record { block_height = h })) bytes
    else if b == 1
    then ok max_height
    else if b == 2
    then read_hash block_hash_to_height bytes
    else if b == 3
    then ok pending_block
    else if b == 4
    then read_hash txn_by_hash bytes
    else if b == 5
    then ok store_version
    else if b == 6
    then read_height (λ h. non_empty_block (record { block_height = h })) bytes
    else if b == 7
    then read_hash locked_element bytes
    else if b == 8
    then read_history bytes
    else if b == 9
    then read_hash (λ bs. mint_hash (from_be_bytes bs)) bytes
    else err invalid_key

-- The fields have the widths of their types.
abbrev pub IsKey : Key → Type 0
IsKey (block k) = k.block_height < 256 ^ 8
IsKey (block_hash_to_height hash) = length hash ≡ 32
IsKey (txn_by_hash hash) = length hash ≡ 32
IsKey (non_empty_block k) = k.block_height < 256 ^ 8
IsKey (locked_element e) = length e ≡ 32
IsKey (element_history e k) = e < 256 ^ 32
IsKey (mint_hash e) = e < 256 ^ 32
IsKey _ = Unit
