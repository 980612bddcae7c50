-- ===== src/Smirk/Tree.antt =====
-- The tree with its entries: ciphera/pkg/smirk/src/tree/{mod,raw_api,batch,insert,remove}.rs, and
-- `hash_with` of tree_repr.rs.
pub mod Paths
pub mod Arrived
pub mod Sorted
pub mod Arrivals
pub mod Ran
pub mod Foreseen
pub mod Content
pub mod Kept
pub mod Suited
pub mod Total
pub mod NotNull
pub mod Examples
use zerosats.Prelude.{
  ℕ, ◌-◌, Bool, true, false, Option, none, some, List, [], ◌∷◌, ◌++◌, map, elem, ◌==◌, ◌⊎◌, inl,
  inr, length, if◌then◌else◌,
}
use zerosats.Prelude.{◌>>=◌}
use zerosats.Prelude.Maps.{Map, contains_key}
use zerosats.Prelude.Maps as Maps
use zerosats.Prelude.Bytes.{bytes_lt}
use zerosats.Prelude.Bits.{to_bits}
use zerosats.Smirk.Batch.{
  Collision, tree, Checked, ok, err, panic, Batch, elements_of, new, insert_elements,
  remove_elements,
}
use zerosats.Smirk.Batch as Batch
use zerosats.Smirk.Collisions.{check_collisions}
use zerosats.Smirk.Node.{
  Node, empty, Change, insert_change, remove_change, Step, null_hash, hash, hash_with_inner,
  insert_without_hashing, recalculate_hashes,
}

pub record Tree (V : Type 0) : Type 0 where
  pub node : Node
  pub entries : Map V

-- `sort_unstable_by` on the paths; paths that are equal may come in any order.
abbrev pub sort_insert : Step → List Step → List Step
sort_insert c [] = c ∷ []
sort_insert c (d ∷ ds) =
    let rest = sort_insert c ds in if bytes_lt d.bits c.bits then d ∷ rest else c ∷ d ∷ ds

abbrev pub sort : List Step → List Step
sort [] = []
sort (c ∷ cs) = sort_insert c (sort cs)

abbrev pub change_with_bits : ℕ → Change → ℕ → Step
change_with_bits depth change e = record {
  change = change;
  element = e;
  bits = to_bits (depth - 1) e;
}

-- The changes, each with the path of its element, in the order of the paths
abbrev pub changes : ℕ → List ℕ → List ℕ → List Step
changes depth inserts removes = sort (
    map (change_with_bits depth insert_change) inserts
    ++ map (change_with_bits depth remove_change) removes)

module _ {V : Type 0} where
  abbrev pub keys_of : Map V → List ℕ
  keys_of entries = map (λ entry. entry.0) entries

  abbrev pub insert_entries : List (ℕ × V) → Map V → Map V
  insert_entries [] m = m
  insert_entries ((e, v) ∷ es) m = insert_entries es (Maps.insert e v m)

  abbrev pub remove_entries : List ℕ → Map V → Map V
  remove_entries [] m = m
  remove_entries (e ∷ es) m = remove_entries es (Maps.remove e m)

  abbrev first_held : Map V → List ℕ → Option ℕ
  first_held m [] = none
  first_held m (e ∷ es) = if contains_key e m then some e else first_held m es

  abbrev first_missing : Map V → List ℕ → Option ℕ
  first_missing m [] = none
  first_missing m (e ∷ es) = if contains_key e m then first_missing m es else some e

  abbrev pub get : ℕ → Tree V → Option V
  get e t = Maps.get e t.entries

  abbrev pub contains_element : ℕ → Tree V → Bool
  contains_element e t = contains_key e t.entries

  abbrev pub len : Tree V → ℕ
  len t = length t.entries

abbrev is_nil : List ℕ → Bool
is_nil [] = true
is_nil (e ∷ es) = false

module _ (hash_merge : ℕ → ℕ → ℕ) (depth : ℕ) where
  abbrev pub hash_with : Node → List ℕ → List ℕ → Option ℕ
  unfolding hash_with_inner
  hash_with node inserts removes = hash_with_inner hash_merge node (changes depth inserts removes) 0

  abbrev tree_collision : ℕ → Collision
  tree_collision e = record { in_tree = e; inserted = e; depth = depth; struct_name = tree }

  module _ {V : Type 0} where
    abbrev pub empty_tree : Tree V
    empty_tree = record { node = empty depth; entries = [] }

    abbrev pub root_hash : Tree V → Option ℕ
    root_hash t = hash hash_merge t.node

    abbrev pub root_hash_with : Tree V → List ℕ → List ℕ → Option ℕ
    unfolding hash_with
    root_hash_with t inserts removes = hash_with t.node inserts removes

    -- `Ok(true)` changes the entries as well; `Ok(false)` is unreachable.
    abbrev change_entries :
        Map V → List (ℕ × V) → List ℕ → Node × (Collision ⊎ Bool) → Option (Collision ⊎ Tree V)
    change_entries m inserts removes (node, inl c) = some (inl c)
    change_entries m inserts removes (node, inr false) = none
    change_entries m inserts removes (node, inr true) =
        some (
          inr (record { node = node; entries = remove_entries removes (insert_entries inserts m) }))

    abbrev insert_checked :
        Tree V → List (ℕ × V) → List ℕ → Option ℕ → Option ℕ → Option (Collision ⊎ Tree V)
    unfolding insert_without_hashing
    insert_checked t inserts removes (some e) missing = some (inl (tree_collision e))
    insert_checked t inserts removes none (some e) = none
    insert_checked t inserts removes none none = do
      inserted ←
          insert_without_hashing hash_merge depth t.node
            (changes depth (elements_of inserts) removes) 0
      change_entries t.entries inserts removes inserted

    abbrev insert_non_null : Tree V → List (ℕ × V) → List ℕ → Bool → Option (Collision ⊎ Tree V)
    unfolding insert_checked
    insert_non_null t inserts removes true = some (inl (tree_collision null_hash))
    insert_non_null t inserts removes false =
        insert_checked t inserts removes (first_held t.entries (elements_of inserts))
          (first_missing t.entries removes)

    -- `insert_without_hashing` of the tree
    unfoldable pub insert_with_entries :
        Tree V → List (ℕ × V) → List ℕ → Option (Collision ⊎ Tree V)
    unfolding insert_non_null
    insert_with_entries t inserts removes = elim (is_nil (elements_of inserts ++ removes)) [
      | true ↦ some (inr t)
      | false ↦ insert_non_null t inserts removes (elem null_hash (elements_of inserts ++ removes))
    ]

    abbrev with_node : Tree V → Option Node → Checked (Tree V)
    with_node t none = panic
    with_node t (some node) = ok (record t { node = node })

    -- The unwrap, and the hashes
    abbrev rehash : Option (Collision ⊎ Tree V) → Checked (Tree V)
    unfolding recalculate_hashes
    rehash none = panic
    rehash (some (inl c)) = panic
    rehash (some (inr t)) = with_node t (recalculate_hashes hash_merge t.node)

    unfoldable pub insert_batch : Bool → Tree V → Batch V → Checked (Tree V)
    unfolding check_collisions insert_with_entries rehash
    insert_batch temp_noir t b =
        Batch.◌>>=◌ (check_collisions depth temp_noir (keys_of t.entries) b)
          (λ _. rehash (insert_with_entries t b.entries b.remove_entries))

    -- `insert`, of one element; the batch is new, so that its own insertion does not fail.
    unfoldable pub insert : Bool → Tree V → ℕ → V → Checked (Tree V)
    unfolding insert_batch
    insert temp_noir t e v = Batch.◌>>=◌ (Batch.insert depth e v new) (insert_batch temp_noir t)

    unfoldable pub remove : Bool → Tree V → ℕ → Checked (Tree V)
    unfolding insert_batch
    remove temp_noir t e = Batch.◌>>=◌ (Batch.remove depth e new) (insert_batch temp_noir t)
