-- ===== src/BlockStore/Demo.antt =====
-- A store to try: a block is its height and holds one transaction, or none at height 3; a
-- transaction is a number. The database is the sorted list of BlockStore/Rocks/Sorted.
use zerosats.Prelude.{ℕ, ◌+◌, ◌≡◌, some, List, [], ◌∷◌, ◌==◌, if◌then◌else◌}
use zerosats.Prelude.Bytes.{Bytes}
use zerosats.BlockStore.Types.{Outcome, ok, err, panic, invalid_key}
use zerosats.BlockStore.Rocks.{Codec}
use zerosats.BlockStore.Rocks.Sorted.{sorted}
use zerosats.BlockStore.Listing.{fill}
use zerosats.BlockStore.Store.{Backend, ElementHistoryValue, v1, MintHashValue, mint_v1}

abbrev pub read_number : Bytes → Outcome ℕ
read_number [] = err invalid_key
read_number (n ∷ bs) = ok n

pub number_law :
    (v : ℕ) (b : Bytes) → ◌≡◌ {A = Outcome Bytes} (ok (v ∷ [])) (ok b) → read_number b ≡ ok v
number_law v [] e = cc
number_law v (n ∷ bs) e = cc

abbrev pub numbers : Codec ℕ
numbers = record {
  to_bytes = λ v. ok (v ∷ []);
  from_bytes = read_number;
  from_bytes_to_bytes = number_law;
}

abbrev pub history_bytes : ElementHistoryValue → Bytes
history_bytes (v1 d) = d.block_height ∷ d.block_hash

abbrev pub read_history_value : Bytes → Outcome ElementHistoryValue
read_history_value [] = err invalid_key
read_history_value (n ∷ bs) = ok (v1 (record { block_hash = bs; block_height = n }))

pub history_law :
    (v : ElementHistoryValue) (b : Bytes)
    → ok (history_bytes v) ≡ ok b
    → read_history_value b ≡ ok v
history_law (v1 d) [] e = absurd (cc)
history_law (v1 d) (n ∷ bs) e = cc

abbrev pub histories : Codec ElementHistoryValue
histories = record {
  to_bytes = λ v. ok (history_bytes v);
  from_bytes = read_history_value;
  from_bytes_to_bytes = history_law;
}

abbrev pub mint_bytes : MintHashValue → Bytes
mint_bytes (mint_v1 d) = d.block_height ∷ d.block_hash

abbrev pub read_mint_value : Bytes → Outcome MintHashValue
read_mint_value [] = err invalid_key
read_mint_value (n ∷ bs) = ok (mint_v1 (record { block_hash = bs; block_height = n }))

pub mint_law : (v : MintHashValue) (b : Bytes) → ok (mint_bytes v) ≡ ok b → read_mint_value b ≡ ok v
mint_law (mint_v1 d) [] e = absurd (cc)
mint_law (mint_v1 d) (n ∷ bs) e = cc

abbrev pub mints : Codec MintHashValue
mints = record {
  to_bytes = λ v. ok (mint_bytes v);
  from_bytes = read_mint_value;
  from_bytes_to_bytes = mint_law;
}

abbrev pub demo : Backend ℕ ℕ
demo = record {
  rocks = sorted;
  ops = record {
    block_height = λ b. b;
    block_hash = λ b. fill 32 b;
    txns = λ b. if b == 3 then [] else (b + 1) ∷ [];
  };
  txn_ops = record {
    txn_hash = λ t. fill 32 t;
    input_elements = λ t. t ∷ [];
    output_elements = λ t. (t + 1) ∷ [];
    mint_hash_of = λ t. some t;
  };
  blocks = numbers;
  transactions = numbers;
  histories = histories;
  mints = mints;
}

-- The blocks at the heights 5, 3 and 8, in the order in which they are set
abbrev pub three_blocks : List ℕ
three_blocks = 5 ∷ 3 ∷ 8 ∷ []

abbrev pub or_else : Outcome demo.rocks.Db → demo.rocks.Db → demo.rocks.Db
or_else (ok db) other = db
or_else (err e) other = other
or_else panic other = other
