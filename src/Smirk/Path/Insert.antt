-- ===== src/Smirk/Path/Insert.antt =====
-- Insertion of elements one after the other, each with its path
-- (ciphera/pkg/smirk/src/tree/insert.rs).
pub mod Paths
use zerosats.Prelude.{
  ℕ, ◌≤◌, ◌≡◌, refl, sym, subst, Bool, true, Option, none, some, List, [], ◌∷◌, map, elem, ◌||◌,
  arith,
}
use zerosats.Smirk.Batch.{Checked, ok, err, panic, Batch, elements_of, new, added}
use zerosats.Smirk.Batch as Batch
use zerosats.Smirk.Batch.Valid.{IsApart}
use zerosats.Smirk.Tree.{Tree, insert, contains_element}
use zerosats.Smirk.Path.{MerklePath, proves, path_for}
use zerosats.Smirk.Path.Proved.{insert_batch-proves, Reached, step, Reached-IsClean}

-- The tree that is left, and the paths; insertions before a collision stay.
abbrev pub Inserting : Type 0 → Type 0
Inserting V = Tree V × Checked (List MerklePath)

module _ {V : Type 0} where
  abbrev pub push_path : Option MerklePath → Inserting V → Inserting V
  push_path none (t, rest) = (t, panic)
  push_path (some p) (t, ok paths) = (t, ok (p ∷ paths))
  push_path (some p) (t, err collisions) = (t, err collisions)
  push_path (some p) (t, panic) = (t, panic)

module _ (hash_merge : ℕ → ℕ → ℕ) (depth : ℕ) {V : Type 0} where
  unfoldable pub inserted_next :
      ℕ → Tree V → (Tree V → Inserting V) → Checked (Tree V) → Inserting V
  unfolding path_for
  inserted_next e t next panic = (t, panic)
  inserted_next e t next (err collisions) = (t, err collisions)
  inserted_next e t next (ok t') = push_path (path_for hash_merge depth e t') (next t')

  unfoldable pub insert_with_paths : Bool → List (ℕ × V) → Tree V → Inserting V
  unfolding inserted_next insert
  insert_with_paths temp_noir [] t = (t, ok [])
  insert_with_paths temp_noir ((e, v) ∷ es) t =
      inserted_next e t (insert_with_paths temp_noir es) (insert hash_merge depth temp_noir t e v)

  abbrev pub insert_with_paths_default : V → Bool → List ℕ → Tree V → Inserting V
  unfolding insert_with_paths
  insert_with_paths_default default temp_noir es t =
      insert_with_paths temp_noir (map (λ e. (e, default)) es) t
