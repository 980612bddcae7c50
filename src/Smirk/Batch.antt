-- ===== src/Smirk/Batch.antt =====
-- A batch of elements to insert into a tree and to remove from it:
-- ciphera/pkg/smirk/src/batch/{mod,merge}.rs, smirk/src/tree/error.rs, element/src/lsb.rs.
pub mod Valid
pub mod Built
pub mod Merged
mod Examples
use zerosats.Prelude.{
  ℕ, ◌-◌, ◌^◌, ◌%◌, Bool, true, false, ◌&&◌, Option, none, some, List, [], ◌∷◌, ◌++◌, map, filter,
  elem, set_insert, ◌==◌, if◌then◌else◌,
}

-- The bits of a handle, as a number; all handles of a batch have the same count.
abbrev pub lsb : ℕ → ℕ → ℕ
lsb count element = element % 2 ^ count

pub data StructName : Type 0 where
  batch : StructName
  tree : StructName

pub record Collision : Type 0 where
  pub in_tree : ℕ
  pub inserted : ℕ
  pub depth : ℕ
  pub struct_name : StructName

-- `Result` with a `CollisionError`, or a panic
pub data Checked {ℓ} (A : Type ℓ) : Type ℓ where
  ok : A → Checked A
  err : List Collision → Checked A
  panic : Checked A

infixl 5 ◌>>=◌
abbrev pub ◌>>=◌ {ℓ κ} : {A : Type ℓ} {B : Type κ} → Checked A → (A → Checked B) → Checked B
ok a >>= next = next a
err collisions >>= next = err collisions
panic >>= next = panic

-- The set of handles is a list, in the order in which the set is iterated.
pub record Batch (V : Type 0) : Type 0 where
  pub entries : List (ℕ × V)
  pub remove_entries : List ℕ
  pub lsbs : List ℕ

abbrev no_elements : List ℕ → Bool
no_elements [] = true
no_elements (e ∷ es) = false

abbrev pub extend : List ℕ → List ℕ → List ℕ
extend lsbs [] = lsbs
extend lsbs (l ∷ ls) = extend (set_insert l lsbs) ls

module _ {V : Type 0} where
  abbrev pub new : Batch V
  new = record { entries = []; remove_entries = []; lsbs = [] }

  abbrev no_entries : List (ℕ × V) → Bool
  no_entries [] = true
  no_entries (e ∷ es) = false

  abbrev pub is_empty : Batch V → Bool
  is_empty b = no_entries b.entries && no_elements b.remove_entries

  abbrev pub elements_of : List (ℕ × V) → List ℕ
  elements_of entries = map (λ entry. entry.0) entries

  abbrev pub insert_elements : Batch V → List ℕ
  insert_elements b = elements_of b.entries

  abbrev pub remove_elements : Batch V → List ℕ
  remove_elements b = b.remove_entries

  -- A collision before the others
  abbrev pub push : Option Collision → Checked (Batch V) → Checked (Batch V)
  push none rest = panic
  push (some c) (ok b) = ok b
  push (some c) (err cs) = err (c ∷ cs)
  push (some c) panic = panic

module _ (depth : ℕ) where
  abbrev pub find_lsb : ℕ → List ℕ → Option ℕ
  find_lsb l [] = none
  find_lsb l (e ∷ es) = if lsb (depth - 1) e == l then some e else find_lsb l es

  -- The collision of an element, where the other one is found
  abbrev pub collide : ℕ → Option ℕ → Option Collision
  collide inserted none = none
  collide inserted (some in_tree) =
      some (record { in_tree = in_tree; inserted = inserted; depth = depth; struct_name = batch })

  abbrev pub refuse {ℓ} : {A : Type ℓ} → Option Collision → Checked A
  refuse none = panic
  refuse (some collision) = err (collision ∷ [])

  module _ {V : Type 0} where
    abbrev pub find_element_with_lsb : ℕ → Batch V → Option ℕ
    find_element_with_lsb l b = find_lsb l (insert_elements b ++ remove_elements b)

    abbrev pub added : ℕ → V → Batch V → Batch V
    added e v b = record b {
      lsbs = set_insert (lsb (depth - 1) e) b.lsbs;
      entries = b.entries ++ (e, v) ∷ [];
    }

    abbrev pub removed : ℕ → Batch V → Batch V
    removed e b = record b {
      lsbs = set_insert (lsb (depth - 1) e) b.lsbs;
      remove_entries = b.remove_entries ++ e ∷ [];
    }

    unfoldable pub insert : ℕ → V → Batch V → Checked (Batch V)
    insert e v b =
        if elem (lsb (depth - 1) e) b.lsbs
        then refuse (collide e (find_element_with_lsb (lsb (depth - 1) e) b))
        else ok (added e v b)

    unfoldable pub remove : ℕ → Batch V → Checked (Batch V)
    remove e b =
        if elem (lsb (depth - 1) e) b.lsbs
        then refuse (collide e (find_element_with_lsb (lsb (depth - 1) e) b))
        else ok (removed e b)

    unfoldable pub insert_all : List (ℕ × V) → Batch V → Checked (Batch V)
    unfolding insert
    insert_all [] b = ok b
    insert_all ((e, v) ∷ es) b = insert e v b >>= insert_all es

    unfoldable pub remove_all : List ℕ → Batch V → Checked (Batch V)
    unfolding remove
    remove_all [] b = ok b
    remove_all (e ∷ es) b = remove e b >>= remove_all es

    unfoldable pub from_entries : List (ℕ × V) → List ℕ → Checked (Batch V)
    unfolding insert_all remove_all
    from_entries entries remove_entries = insert_all entries new >>= remove_all remove_entries

    -- The collision for a handle that both batches have; the unwraps
    abbrev pub collision_of : Batch V → Batch V → ℕ → Option Collision
    collision_of b other l = elim (find_element_with_lsb l other) [
      | none ↦ none
      | some inserted ↦ collide inserted (find_element_with_lsb l b)
    ]

    abbrev pub collect_collisions : Batch V → Batch V → List ℕ → Checked (Batch V)
    collect_collisions b other [] = err []
    collect_collisions b other (l ∷ ls) =
        push (collision_of b other l) (collect_collisions b other ls)

    abbrev pub merge_with : Batch V → Batch V → List ℕ → Checked (Batch V)
    merge_with b other [] =
        ok (record b { entries = b.entries ++ other.entries; lsbs = extend b.lsbs other.lsbs })
    merge_with b other (l ∷ ls) = collect_collisions b other (l ∷ ls)

    unfoldable pub merge : Batch V → Batch V → Checked (Batch V)
    merge b other = merge_with b other (filter (λ l. elem l other.lsbs) b.lsbs)
