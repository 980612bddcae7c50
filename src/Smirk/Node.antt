-- ===== src/Smirk/Node.antt =====
-- The nodes of the tree: ciphera/pkg/smirk/src/tree/tree_repr.rs, smirk/src/hash.rs.
-- `none` is a panic: an assertion, an index out of range, `unreachable!`, or a depth of zero.
pub mod Clean
pub mod Rehash
pub mod Bottom
pub mod Inserted
pub mod Slots
pub mod Written
pub mod Progress
pub mod NoNull
use zerosats.Prelude.{
  ℕ, zero, suc, ◌-◌, ◌/◌, ◌%◌, ◌^◌, Bool, true, false, ◌&&◌, ◌||◌, Option, none, some, List, [],
  ◌∷◌, ◌++◌, map, ◌==◌, leb, ◌⊎◌, inl, inr, ◌>>=◌, ◌>>◌, length, get_elem?, if◌then◌else◌,
}
use zerosats.Prelude.Bytes.{Bytes, bytes_eq, bytes_lt}
use zerosats.Prelude.Bits.{to_bits}
use zerosats.Smirk.Batch.{lsb, Collision, tree}

pub data Node : Type 0 where
  leaf : ℕ → Node
  empty : ℕ → Node
  parent : Node → Node → ℕ → Bool → Node

pub data Change : Type 0 where
  insert_change : Change
  remove_change : Change

-- A change with the path of its element: the slices `elements` and `bits` as one list
pub record Step : Type 0 where
  pub change : Change
  pub element : ℕ
  pub bits : Bytes

abbrev pub null_hash : ℕ
null_hash = 0

-- Where the changes on the right begin, and the slices before and after it
abbrev pub split : ℕ → List Step → Option (List Step × List Step)
split path_depth [] = some ([], [])
split path_depth (c ∷ cs) = do
  b ← get_elem? c.bits path_depth
  elim (b == 1) [
    | true ↦ some ([], c ∷ cs)
    | false ↦ do halves ← split path_depth cs; some (c ∷ halves.0, halves.1)
  ]

abbrev pub at_most_one : List Step → Bool
at_most_one [] = true
at_most_one (c ∷ []) = true
at_most_one (c ∷ d ∷ cs) = false

abbrev pub find_element : ℕ → List Step → Option Step
find_element e [] = none
find_element e (c ∷ cs) = if e == c.element then some c else find_element e cs

abbrev pub any_bits : Bytes → List Step → Bool
any_bits bits [] = false
any_bits bits (c ∷ cs) = bytes_eq c.bits bits || any_bits bits cs

abbrev pub find_handle : ℕ → ℕ → List Step → Option ℕ
find_handle count e [] = none
find_handle count e (c ∷ cs) =
    if lsb count e == lsb count c.element then some c.element else find_handle count e cs

-- What an insertion leaves, and its result
abbrev pub Inserted : Type 0
Inserted = Node × (Collision ⊎ Bool)

abbrev pub is_changed : Collision ⊎ Bool → Bool
is_changed (inl c) = false
is_changed (inr b) = b

-- `right?; left?; Ok(*hash_dirty)`. Where both children have changes, the code has the result of the
-- left child under the name `right`, so a collision of the left child comes first; else at most one
-- of the two results can be a collision.
abbrev pub both_ok : Collision ⊎ Bool → Collision ⊎ Bool → Collision ⊎ Bool
both_ok (inl c) right = inl c
both_ok (inr l) (inl c) = inl c
both_ok (inr l) (inr r) = inr (r || l)

-- The changes go to the two children; a child without changes is not visited.
abbrev pub visit : Node → (List Step → Option Inserted) → List Step → Option Inserted
visit child descend [] = some (child, inr false)
visit child descend (c ∷ cs) = descend (c ∷ cs)

abbrev pub no_changes : List Step → Bool
no_changes [] = true
no_changes (c ∷ cs) = false

abbrev pub insert_parent :
    Node
    → Node
    → ℕ
    → Bool
    → (List Step → Option Inserted)
    → (List Step → Option Inserted)
    → List Step × List Step
    → Option Inserted
insert_parent left right h dirty to_left to_right (ls, rs) = elim (no_changes ls && no_changes rs) [
  | true ↦ some (parent left right h dirty, inr false)
  | false ↦ do
    r ← visit right to_right rs
    l ← visit left to_left ls
    some (parent l.0 r.0 h (is_changed r.1 || is_changed l.1), both_ok l.1 r.1)
]

abbrev pub insert_change_at : Node → Step → Inserted
insert_change_at node c = elim c.change [
  | insert_change ↦ (leaf c.element, inr true)
  | remove_change ↦ (node, inr false)
]

abbrev pub insert_first : List Step → Option Inserted
insert_first [] = none
insert_first (c ∷ []) = some (insert_change_at (empty 1) c)
insert_first (c ∷ d ∷ cs) = none

-- The hash of two children, which a cache of hashes returns as well
module _ (hash_merge : ℕ → ℕ → ℕ) where
  abbrev pub empty_tree_hash : ℕ → Option ℕ
  empty_tree_hash zero = none
  empty_tree_hash (suc zero) = some null_hash
  empty_tree_hash (suc (suc n)) = do h ← empty_tree_hash (suc n); some (hash_merge h h)

  abbrev pub hash : Node → Option ℕ
  hash (leaf h) = some h
  hash (parent left right h dirty) = some h
  hash (empty depth) = empty_tree_hash depth

  abbrev pub changed_leaf : ℕ → List Step → Option ℕ
  changed_leaf e [] = some e
  changed_leaf e (c ∷ cs) = elim c.change [
    | insert_change ↦ some c.element
    | remove_change ↦ if e == c.element then empty_tree_hash 1 else some e
  ]

  abbrev pub changed_empty : List Step → Option ℕ
  changed_empty [] = empty_tree_hash 1
  changed_empty (c ∷ cs) = elim c.change [
    | insert_change ↦ some c.element
    | remove_change ↦ empty_tree_hash 1
  ]

  abbrev pub merge_hashes : Option ℕ → Option ℕ → Option ℕ
  merge_hashes left right = do l ← left; r ← right; some (hash_merge l r)

  -- `hash_with_inner` at an empty node
  unfoldable pub hash_with_empty : ℕ → List Step → ℕ → Option ℕ
  hash_with_empty zero cs path_depth = none
  hash_with_empty (suc zero) cs path_depth = elim (at_most_one cs) [
    | false ↦ none
    | true ↦ changed_empty cs
  ]
  hash_with_empty (suc (suc n)) [] path_depth = empty_tree_hash (suc (suc n))
  hash_with_empty (suc (suc n)) (c ∷ cs) path_depth = do
    halves ← split path_depth (c ∷ cs)
    merge_hashes (hash_with_empty (suc n) halves.0 (suc path_depth))
        (hash_with_empty (suc n) halves.1 (suc path_depth))

  unfoldable pub hash_with_inner : Node → List Step → ℕ → Option ℕ
  unfolding hash_with_empty
  hash_with_inner (leaf e) cs path_depth = elim (at_most_one cs) [
    | false ↦ none
    | true ↦ changed_leaf e cs
  ]
  hash_with_inner (empty depth) cs path_depth = hash_with_empty depth cs path_depth
  hash_with_inner (parent left right h dirty) cs path_depth = do
    halves ← split path_depth cs
    merge_hashes (hash_with_inner left halves.0 (suc path_depth))
        (hash_with_inner right halves.1 (suc path_depth))

  -- An empty node of a greater depth becomes a parent of two empty ones, and the changes are made
  -- there.
  unfoldable pub insert_empty : ℕ → List Step → ℕ → Option Inserted
  insert_empty zero cs path_depth = none
  insert_empty (suc zero) cs path_depth = insert_first cs
  insert_empty (suc (suc n)) cs path_depth = do
    h ← empty_tree_hash (suc (suc n))
    halves ← split path_depth cs
    insert_parent (empty (suc n)) (empty (suc n)) h false
        (λ ls. insert_empty (suc n) ls (suc path_depth))
        (λ rs. insert_empty (suc n) rs (suc path_depth)) halves

  module _ (depth : ℕ) where
    abbrev pub insert_collision : ℕ → Option ℕ → Option Inserted
    insert_collision e none = none
    insert_collision e (some inserted) = some (
      leaf e,
      inl (record { in_tree = e; inserted = inserted; depth = depth; struct_name = tree }),
    )

    abbrev pub found_at_leaf : ℕ → Change → Inserted
    found_at_leaf e insert_change = (leaf e, inr false)
    found_at_leaf e remove_change = (empty 1, inr true)

    -- By the change of the element, where there is one
    abbrev pub insert_at_leaf : ℕ → List Step → Option Step → Option Inserted
    insert_at_leaf e cs (some c) = some (found_at_leaf e c.change)
    insert_at_leaf e cs none = elim (any_bits (to_bits (depth - 1) e) cs) [
      | true ↦ insert_collision e (find_handle (depth - 1) e cs)
      | false ↦ none
    ]

    abbrev pub insert_leaf : ℕ → List Step → Option Inserted
    insert_leaf e cs = insert_at_leaf e cs (find_element e cs)

    unfoldable pub insert_without_hashing : Node → List Step → ℕ → Option Inserted
    unfolding insert_empty
    insert_without_hashing (leaf e) cs path_depth = insert_leaf e cs
    insert_without_hashing (empty n) cs path_depth = insert_empty n cs path_depth
    insert_without_hashing (parent left right h dirty) cs path_depth = do
      halves ← split path_depth cs
      insert_parent left right h dirty (λ ls. insert_without_hashing left ls (suc path_depth))
          (λ rs. insert_without_hashing right rs (suc path_depth)) halves

  -- The callbacks, which report the hashes that are removed and set, are left out.
  unfoldable pub recalculate_hashes : Node → Option Node
  recalculate_hashes (leaf e) = some (leaf e)
  recalculate_hashes (empty n) = some (empty n)
  recalculate_hashes (parent left right h false) = some (parent left right h false)
  recalculate_hashes (parent left right h true) = do
    l ← recalculate_hashes left
    r ← recalculate_hashes right
    m ← merge_hashes (hash l) (hash r)
    some (parent l r m false)
