-- ===== src/Smirk/Path/Examples.antt =====
-- Paths in trees of depth 4, with a hash that is easy to compute (ciphera/pkg/smirk/src/tree/path.rs).
use zerosats.Prelude.{ℕ, List, elem, ◌||◌, ◌≡◌, ◌≢◌, refl, inl, true, false, some, [], ◌∷◌, arith}
use zerosats.Prelude.Bits.{to_bits}
use zerosats.Smirk.Batch.{ok}
use zerosats.Smirk.Batch as Batch
use zerosats.Smirk.Collisions.{check_collisions, insert_collisions, remove_collisions}
use zerosats.Smirk.Node.{insert_empty, insert_without_hashing, recalculate_hashes}
use zerosats.Smirk.Tree.{Tree, insert, insert_batch, insert_with_entries}
use zerosats.Smirk.Path.Insert.{insert_with_paths}
use zerosats.Smirk.Path.Insert.Paths.{ProvesAll, insert_with_paths-ProvesAll}
use zerosats.Smirk.Tree.Examples.{
  merge, no_elements, five, turn, one, adding, adding-IsApart, added_five, turn-IsApart, turned,
}
use zerosats.Smirk.Path.{
  MerklePath, empty_tree_root, compute_null_root, compute_merkle_path_for_leaf, proves,
  siblings_along, path_for,
}
use zerosats.Smirk.Path.Proved.{
  insert_batch-proves, Reached, start, step, path_for-Reached, insert_batch-Reached,
}
use zerosats.Smirk.Node.Clean.{IsClean}
use zerosats.Smirk.Batch.{insert_elements, remove_elements}
use zerosats.Smirk.Tree.{root_hash, contains_element, root_hash_with}
use zerosats.Smirk.Tree.Content.{IsFaithful}
use zerosats.Smirk.Tree.Kept.{Contains}

siblings_of_five : siblings_along merge five.node (to_bits 3 5) ≡ some (6 ∷ 1 ∷ 0 ∷ [])
unfolding siblings_along
siblings_of_five = refl

-- The path of 1 proves that nothing stands there.
absent :
    (p : MerklePath) × (path_for merge 4 1 five ≡ some p)
    × (proves merge 0 p ≡ true)
    × (proves merge 1 p ≡ false)
unfolding path_for siblings_along
absent = (_, refl, refl, refl)

nodes_above_five : compute_merkle_path_for_leaf merge 5 (0 ∷ 1 ∷ 6 ∷ []) ≡ 5 ∷ 16 ∷ 36 ∷ 121 ∷ []
nodes_above_five = refl

null_root : compute_null_root merge 1 (0 ∷ 1 ∷ []) ≡ 6
null_root = refl

-- The root of an empty tree of depth 3 is computed with null hashes at each level; the hash of the
-- empty tree is `merge (merge 0 0) (merge 0 0)`.
empty_root : empty_tree_root merge 3 ≡ some (merge (merge 0 0) 0)
empty_root = refl

five-Reached : Reached merge 4 five
five-Reached = step false no_elements adding five start adding-IsApart added_five

one-Reached : Reached merge 4 one
one-Reached = step false five turn one five-Reached turn-IsApart turned

path_for-Reached_example :
    (p : MerklePath) × (path_for merge 4 5 one ≡ some p)
    × (root_hash merge 4 one ≡ some p.root_hash)
    × (contains_element 5 one ≡ true → proves merge 5 p ≡ true)
    × (contains_element 5 one ≡ false → (x : ℕ) × (x ≢ 5) × (proves merge x p ≡ true))
path_for-Reached_example =
    path_for-Reached merge 4 one 5 (omega arith) one-Reached (λ e. absurd (omega arith))

empty-IsFaithful : IsFaithful 4 no_elements
empty-IsFaithful = record {
  not_null = refl;
  kept = λ e h. absurd (cc);
  only = λ bits width le. inl refl;
}

insert_batch-proves_example :
    IsClean merge 4 five.node
    × IsFaithful 4 five
    × Contains merge 4 no_elements adding.entries adding.remove_entries five
    × ((e : ℕ)
        → contains_element e five ≡ true
        → (p : MerklePath) × (path_for merge 4 e five ≡ some p)
          × (proves merge e p ≡ true)
          × (root_hash_with merge 4 no_elements (insert_elements adding) (remove_elements adding)
              ≡ some p.root_hash))
insert_batch-proves_example =
    insert_batch-proves merge 4 false no_elements adding five (omega arith) (refl, omega arith)
      empty-IsFaithful adding-IsApart added_five

abbrev two_entries : List (ℕ × ℕ)
two_entries = (5, 50) ∷ (1, 10) ∷ []

abbrev two_paths : List MerklePath
two_paths =
    record { siblings = 0 ∷ 1 ∷ 6 ∷ []; element = 5; root_hash = 121 }
    ∷ record { siblings = 0 ∷ 1 ∷ 36 ∷ []; element = 1; root_hash = 133 }
    ∷ []

two_inserted : (insert_with_paths merge 4 false two_entries no_elements).1 ≡ ok two_paths
unfolding insert_with_paths insert Batch.insert path_for siblings_along insert_batch
    check_collisions insert_collisions remove_collisions insert_with_entries insert_without_hashing
    insert_empty recalculate_hashes
two_inserted = refl

insert_with_paths-ProvesAll_example :
    Reached merge 4 (insert_with_paths merge 4 false two_entries no_elements).0
    × ProvesAll merge 4 two_entries two_paths
    × ((e : ℕ)
        → (elem e (5 ∷ 1 ∷ []) || contains_element e no_elements) ≡ true
        → contains_element e (insert_with_paths merge 4 false two_entries no_elements).0 ≡ true)
insert_with_paths-ProvesAll_example =
    insert_with_paths-ProvesAll merge 4 false two_entries no_elements two_paths (omega arith) start
      two_inserted

insert_batch-Reached_example :
    (t' : Tree ℕ) × (insert_batch merge 4 true five turn ≡ ok t') × Reached merge 4 t'
insert_batch-Reached_example =
    insert_batch-Reached merge 4 true five turn (omega arith) five-Reached turn-IsApart
      (record { apart = (refl, tt); present = (refl, tt); not_null = refl })
