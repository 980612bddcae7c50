-- ===== src/Smirk/Path.antt =====
-- Merkle paths: ciphera/pkg/smirk/src/tree/path.rs, hash/src/path.rs. `none` is a panic.
pub mod Slot
pub mod Proved
pub mod Insert
mod Examples
use zerosats.Prelude.{
  ℕ, zero, suc, ◌-◌, Bool, true, false, Option, none, some, List, [], ◌∷◌, ◌++◌, length, ◌==◌,
  if◌then◌else◌, ◌>>=◌,
}
use zerosats.Prelude.Bytes.{Bytes}
use zerosats.Prelude.Bits.{to_bits}
use zerosats.Smirk.Node.{Node, leaf, empty, parent, null_hash, hash, empty_tree_hash}
use zerosats.Smirk.Tree.{Tree, root_hash}
use mathlib.Core.List.{reverse}

-- The siblings with the deepest ones first
pub record MerklePath : Type 0 where
  pub siblings : List ℕ
  pub element : ℕ
  pub root_hash : ℕ

-- Of two lists of different lengths, the rest of the longer one is dropped.
abbrev pub zip : List ℕ → List ℕ → List (ℕ × ℕ)
zip [] bs = []
zip (s ∷ ss) [] = []
zip (s ∷ ss) (b ∷ bs) = (s, b) ∷ zip ss bs

abbrev pub least_significant_bits : ℕ → ℕ → Bytes
least_significant_bits element depth = reverse (to_bits depth element)

-- The slots that are not written keep the null hash; to write past the end is a panic.
abbrev pub fill : ℕ → List ℕ → Option (List ℕ)
fill zero [] = some []
fill zero (s ∷ ss) = none
fill (suc n) [] = do rest ← fill n []; some (null_hash ∷ rest)
fill (suc n) (s ∷ ss) = do rest ← fill n ss; some (s ∷ rest)

module _ (hash_merge : ℕ → ℕ → ℕ) where
  abbrev pub merge_at : ℕ → ℕ × ℕ → ℕ
  merge_at value (sibling, bit) =
      if bit == 1 then hash_merge sibling value else hash_merge value sibling

  abbrev pub compute_merkle_root_from_iter : ℕ → List (ℕ × ℕ) → ℕ
  compute_merkle_root_from_iter value [] = value
  compute_merkle_root_from_iter value (s ∷ siblings) =
      compute_merkle_root_from_iter (merge_at value s) siblings

  abbrev pub compute_merkle_root : ℕ → ℕ → List ℕ → ℕ
  compute_merkle_root value path_element siblings =
      compute_merkle_root_from_iter value
        (zip siblings (least_significant_bits path_element (length siblings)))

  abbrev pub compute_null_root : ℕ → List ℕ → ℕ
  compute_null_root value siblings =
      compute_merkle_root_from_iter null_hash
        (zip siblings (least_significant_bits value (length siblings)))

  abbrev pub merkle_path_from : ℕ → List (ℕ × ℕ) → List ℕ
  merkle_path_from h [] = []
  merkle_path_from h (s ∷ siblings) = merge_at h s ∷ merkle_path_from (merge_at h s) siblings

  abbrev pub compute_merkle_path_for_leaf : ℕ → List ℕ → List ℕ
  compute_merkle_path_for_leaf value siblings =
      value ∷ merkle_path_from value (zip siblings (least_significant_bits value (length siblings)))

  abbrev pub null_siblings : ℕ → List (ℕ × ℕ)
  null_siblings zero = []
  null_siblings (suc n) = (null_hash, 0) ∷ null_siblings n

  abbrev pub empty_tree_root : ℕ → Option ℕ
  empty_tree_root zero = none
  empty_tree_root (suc n) = some (compute_merkle_root_from_iter null_hash (null_siblings n))

  abbrev pub compute_root_hash : ℕ → MerklePath → ℕ
  compute_root_hash element p = compute_merkle_root element p.element p.siblings

  abbrev pub proves : ℕ → MerklePath → Bool
  proves element p = compute_root_hash element p == p.root_hash

  -- The siblings below an empty node
  abbrev pub empty_siblings : ℕ → Option (List ℕ)
  empty_siblings zero = some []
  empty_siblings (suc zero) = some []
  empty_siblings (suc (suc n)) = do
    s ← empty_tree_hash hash_merge (suc n)
    rest ← empty_siblings (suc n)
    some (s ∷ rest)

  abbrev sibling_and : Option ℕ → Option (List ℕ) → Option (List ℕ)
  sibling_and sibling rest = do s ← sibling; ss ← rest; some (s ∷ ss)

  -- The loop of `path_for`, from the root down
  unfoldable pub siblings_along : Node → Bytes → Option (List ℕ)
  siblings_along (leaf e) [] = some []
  siblings_along (leaf e) (b ∷ bits) = none
  siblings_along (empty depth) [] = some []
  siblings_along (empty depth) (b ∷ bits) = do
    ss ← empty_siblings depth
    fill (length (b ∷ bits)) ss
  siblings_along (parent left right h dirty) [] = some []
  siblings_along (parent left right h dirty) (b ∷ bits) = elim (b == 1) [
    | false ↦ sibling_and (hash hash_merge right) (siblings_along left bits)
    | true ↦ sibling_and (hash hash_merge left) (siblings_along right bits)
  ]

  unfoldable pub path_for : {V : Type 0} → ℕ → ℕ → Tree V → Option MerklePath
  unfolding siblings_along
  path_for depth element t = do
    siblings ← siblings_along t.node (to_bits (depth - 1) element)
    root ← root_hash hash_merge depth t
    some (record { siblings = reverse siblings; element = element; root_hash = root })
