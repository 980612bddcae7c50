-- ===== src/Smirk/Tree/Examples.antt =====
-- Trees of depth 4, with a hash that is easy to compute (ciphera/pkg/smirk/src/tree).
use zerosats.Prelude.{ℕ, ◌+◌, ◌*◌, ◌≡◌, refl, false, [], ◌∷◌, arith}
use zerosats.Smirk.Batch.{ok, panic, Batch, insert_elements, remove_elements}
use zerosats.Smirk.Batch.Valid.{IsApart}
use zerosats.Smirk.Collisions.{check_collisions, insert_collisions, remove_collisions}
use zerosats.Smirk.Node.{
  leaf, empty, parent, insert_empty, insert_without_hashing, recalculate_hashes,
}
use zerosats.Smirk.Node.Clean.{IsClean}
use zerosats.Smirk.Tree.{
  Tree, empty_tree, root_hash, root_hash_with, insert_with_entries, insert_batch,
}
use zerosats.Smirk.Tree.Foreseen.{insert_batch-root_hash_with}

abbrev pub merge : ℕ → ℕ → ℕ
merge a b = 2 * a + 3 * b + 1

abbrev pub no_elements : Tree ℕ
no_elements = empty_tree merge 4

-- The element 5
abbrev pub five : Tree ℕ
five = record {
  node =
      parent (empty 3) (parent (parent (empty 1) (leaf 5) 16 false) (empty 2) 36 false) 121 false;
  entries = (5, 50) ∷ [];
}

pub five-IsClean : IsClean merge 4 five.node
five-IsClean = (
  refl,
  (refl, omega arith),
  (refl, (refl, (refl, omega arith), refl, refl), (refl, omega arith), refl),
  refl,
)

abbrev pub adding : Batch ℕ
adding = record { entries = (5, 50) ∷ []; remove_entries = []; lsbs = 5 ∷ [] }

pub adding-IsApart : IsApart 4 adding
adding-IsApart = λ l. ground arith

pub added_five : insert_batch merge 4 false no_elements adding ≡ ok five
unfolding insert_batch check_collisions insert_collisions remove_collisions insert_with_entries
    insert_without_hashing insert_empty recalculate_hashes
added_five = refl

-- The elements 1 and 5 take turns.
abbrev pub turn : Batch ℕ
turn = record { entries = (1, 10) ∷ []; remove_entries = 5 ∷ []; lsbs = 5 ∷ 1 ∷ [] }

pub turn-IsApart : IsApart 4 turn
turn-IsApart = λ l. ground arith

abbrev pub one : Tree ℕ
one = record {
  node =
      parent (parent (parent (empty 1) (leaf 1) 4 false) (empty 2) 12 false)
        (parent (parent (empty 1) (empty 1) 1 false) (empty 2) 6 false) 43 false;
  entries = (1, 10) ∷ [];
}

pub turned : insert_batch merge 4 false five turn ≡ ok one
unfolding insert_batch check_collisions insert_collisions remove_collisions insert_with_entries
    insert_without_hashing insert_empty recalculate_hashes
turned = refl

-- 13 is not in the tree, but has the handle of 5: the check of the batch passes, and the insertion
-- panics.
absent_removal :
    insert_batch merge 4 false five
      (record { entries = []; remove_entries = 13 ∷ []; lsbs = 5 ∷ [] })
    ≡ panic
unfolding insert_batch check_collisions insert_collisions remove_collisions insert_with_entries
    insert_without_hashing insert_empty recalculate_hashes
absent_removal = refl

foreseen : root_hash_with merge 4 five (1 ∷ []) (5 ∷ []) ≡ root_hash merge 4 one
unfolding root_hash_with
foreseen = refl

insert_batch-root_hash_with_example :
    (root_hash merge 4 one
      ≡ root_hash_with merge 4 five (insert_elements turn) (remove_elements turn))
    × IsClean merge 4 one.node
insert_batch-root_hash_with_example =
    insert_batch-root_hash_with merge 4 false five turn one (omega arith) five-IsClean turn-IsApart
      turned
