-- ===== src/Smirk/Collisions.antt =====
-- Whether a batch fits a tree: ciphera/pkg/smirk/src/tree/batch.rs.
pub mod Fits
mod Examples
use zerosats.Prelude.{
  ℕ, ◌-◌, Bool, true, false, Option, none, some, List, [], ◌∷◌, ◌++◌, map, elem, if◌then◌else◌,
  ◌>>=◌,
}
use zerosats.Smirk.Batch.{
  lsb, Collision, tree, Checked, ok, err, panic, Batch, insert_elements, remove_elements, extend,
  find_lsb,
}

abbrev pub answer : Option (List Collision) → Checked (Unit {0})
answer none = panic
answer (some []) = ok tt
answer (some (c ∷ cs)) = err (c ∷ cs)

module _ (depth : ℕ) where
  -- The collision of an element of the tree, once the element of the batch is found
  abbrev pub tree_collision : ℕ → Option ℕ → Option Collision
  tree_collision in_tree none = none
  tree_collision in_tree (some inserted) =
      some (record { in_tree = in_tree; inserted = inserted; depth = depth; struct_name = tree })

  module _ {V : Type 0} (b : Batch V) where
    -- The loop over the elements of the tree; `none` is a panic.
    unfoldable pub insert_collisions : List ℕ → Option (List Collision)
    insert_collisions [] = some []
    insert_collisions (t ∷ ts) =
        let rest = insert_collisions ts in
        if elem (lsb (depth - 1) t) (map (lsb (depth - 1)) (insert_elements b))
        then (do
          c ←
              tree_collision t
                (find_lsb depth (lsb (depth - 1) t) (insert_elements b ++ remove_elements b))
          cs ← rest
          some (c ∷ cs))
        else rest

  -- The loop over the set of the elements to remove. One that no element of the tree matches is
  -- `todo!()`, unless the build sets `TEMP_NOIR`.
  unfoldable pub remove_collisions : Bool → List ℕ → List ℕ → Option (List Collision)
  remove_collisions temp_noir keys [] = some []
  remove_collisions temp_noir keys (e ∷ es) =
      let rest = remove_collisions temp_noir keys es in
      if elem (lsb (depth - 1) e) (map (lsb (depth - 1)) keys)
      then rest
      else if temp_noir
      then (do c ← tree_collision 0 (some e); cs ← rest; some (c ∷ cs))
      else none

  unfoldable pub check_collisions : {V : Type 0} → Bool → List ℕ → Batch V → Checked (Unit {0})
  unfolding insert_collisions remove_collisions
  check_collisions temp_noir keys b = answer (do
    cs ← insert_collisions b keys
    ds ← remove_collisions temp_noir keys (extend [] (remove_elements b))
    some (cs ++ ds))
