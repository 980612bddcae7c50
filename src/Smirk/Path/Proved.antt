-- ===== src/Smirk/Path/Proved.antt =====
-- After a batch, the paths of the elements of the tree prove them
-- (ciphera/pkg/smirk/src/tree/{batch,path}.rs).
use zerosats.Prelude.{
  ℕ, ◌-◌, ◌≤◌, ◌≡◌, ◌≢◌, refl, sym, subst, ◌∙◌, inl, inr, Bool, true, false, some,
}
use zerosats.Prelude.Bits.{to_bits, length-to_bits, to_bits-le}
use zerosats.Smirk.Batch.{Batch, ok, insert_elements, remove_elements}
use zerosats.Smirk.Batch.Valid.{IsApart}
use zerosats.Smirk.Node.{null_hash}
use zerosats.Smirk.Node.Clean.{IsClean}
use zerosats.Smirk.Node.Slots.{slot}
use zerosats.Smirk.Tree.{
  Tree, contains_element, empty_tree, root_hash, root_hash_with, insert_batch,
}
use zerosats.Smirk.Tree.Content.{IsFaithful}
use zerosats.Smirk.Tree.Kept.{Contains, insert_batch-IsFaithful}
use zerosats.Smirk.Node.Progress.{HasNoNull}
use zerosats.Smirk.Tree.Suited.{Suits}
use zerosats.Smirk.Tree.Total.{insert_batch-total}
use zerosats.Smirk.Tree.NotNull.{insert_batch-HasNoNull}
use zerosats.Smirk.Tree.Foreseen.{insert_batch-root_hash_with}
use zerosats.Smirk.Path.{MerklePath, proves, path_for}
use zerosats.Smirk.Path.Slot.{path_for-proves}

module _ (hash_merge : ℕ → ℕ → ℕ) (depth : ℕ) {V : Type 0} where
  -- A batch in which no two elements have the same handle, inserted with success into a tree of
  -- depth one or more whose hashes are up to date and whose leaves are its entries, leaves such a
  -- tree. It contains the elements of the old one and those that are inserted, without those that are
  -- removed. For each of them there is a path that proves it, with the root hash that
  -- `root_hash_with` gives for the old tree and the batch.
  pub insert_batch-proves :
      (temp_noir : Bool) (t : Tree V) (b : Batch V) (t' : Tree V)
      → 1 ≤ depth
      → IsClean hash_merge depth t.node
      → IsFaithful depth t
      → IsApart depth b
      → insert_batch hash_merge depth temp_noir t b ≡ ok t'
      → IsClean hash_merge depth t'.node
        × IsFaithful depth t'
        × Contains hash_merge depth t b.entries b.remove_entries t'
        × ((e : ℕ)
            → contains_element e t' ≡ true
            → (p : MerklePath) × (path_for hash_merge depth e t' ≡ some p)
              × (proves hash_merge e p ≡ true)
              × (root_hash_with hash_merge depth t (insert_elements b) (remove_elements b)
                  ≡ some p.root_hash))
  insert_batch-proves temp_noir t b t' pos clean faithful apart h =
      let (foreseen, clean') =
        insert_batch-root_hash_with hash_merge depth temp_noir t b t' pos clean apart h in
      let (faithful', contains) =
        insert_batch-IsFaithful hash_merge depth temp_noir t b t' pos clean faithful apart h in
      (
        clean',
        faithful',
        contains,
        λ e held.
            let (p, found, _, root, proved) = path_for-proves hash_merge depth e t' pos clean' in
            (
              p,
              found,
              subst (λ x. proves hash_merge x p ≡ true) (faithful'.kept e held) proved,
              sym foreseen ∙ root,
            ),
      )

  -- The trees that batches make of the empty one
  pub data Reached : Tree V → Type 0 where
    start : Reached (empty_tree hash_merge depth)
    step :
        (temp_noir : Bool) (t : Tree V) (b : Batch V) (t' : Tree V)
        → Reached t
        → IsApart depth b
        → insert_batch hash_merge depth temp_noir t b ≡ ok t'
        → Reached t'

  -- The hashes of these trees are up to date, their leaves are their entries, and no leaf is null.
  pub Reached-IsClean :
      (t : Tree V)
      → 1 ≤ depth
      → Reached t
      → IsClean hash_merge depth t.node × IsFaithful depth t × HasNoNull t.node
  Reached-IsClean t pos start = (
    (refl, pos),
    record { not_null = refl; kept = λ e h. absurd (cc); only = λ bits width le. inl refl },
    tt,
  )
  Reached-IsClean t pos (step temp_noir s b _ r apart h) =
      let (clean, faithful, full) = Reached-IsClean s pos r in
      let (clean', faithful', _, _) =
        insert_batch-proves temp_noir s b t pos clean faithful apart h in
      (clean', faithful', insert_batch-HasNoNull hash_merge depth temp_noir s b t full h)

  -- A batch without repeated handles is inserted into a tree that such batches have made of the empty
  -- one of depth one or more, whether `TEMP_NOIR` is set or not, if no element of the tree has the
  -- handle of one that is inserted, those that are removed are in the tree, and the null hash is not
  -- inserted: the result is such a tree again, no collision and no panic.
  pub insert_batch-Reached :
      (temp_noir : Bool) (t : Tree V) (b : Batch V)
      → 1 ≤ depth
      → Reached t
      → IsApart depth b
      → Suits depth t (insert_elements b) (remove_elements b)
      → (t' : Tree V) × (insert_batch hash_merge depth temp_noir t b ≡ ok t') × Reached t'
  insert_batch-Reached temp_noir t b pos r apart suits =
      let (clean, faithful, full) = Reached-IsClean t pos r in
      let (t', h) =
        insert_batch-total hash_merge depth t b pos clean full faithful apart suits temp_noir in
      (t', h, step temp_noir t b t' r apart h)

  other_than :
      (e : ℕ) (t : Tree V)
      → e ≢ null_hash
      → IsFaithful depth t
      → contains_element e t ≡ false
      → slot t.node (to_bits (depth - 1) e) ≢ e
  other_than e t n f h at =
      elim (f.only (to_bits (depth - 1) e) (length-to_bits (depth - 1) e)
        (to_bits-le (depth - 1) e)) [
          | inl z ↦ absurd (n (sym at ∙ z))
          | inr (held, _) ↦ absurd (cc (subst (λ x. contains_element x t ≡ true) at held, h))
        ]

  -- In a tree that batches without repeated handles have made of the empty one, of depth one or more,
  -- there is a path for every element but the null hash, with the root hash of the tree. The path
  -- proves the element if the tree contains it, and proves something else in its place if not.
  pub path_for-Reached :
      (t : Tree V) (e : ℕ)
      → 1 ≤ depth
      → Reached t
      → e ≢ null_hash
      → (p : MerklePath) × (path_for hash_merge depth e t ≡ some p)
        × (root_hash hash_merge depth t ≡ some p.root_hash)
        × (contains_element e t ≡ true → proves hash_merge e p ≡ true)
        × (contains_element e t ≡ false → (x : ℕ) × (x ≢ e) × (proves hash_merge x p ≡ true))
  path_for-Reached t e pos r n =
      let (clean, faithful, _) = Reached-IsClean t pos r in
      let (p, found, _, root, proved) = path_for-proves hash_merge depth e t pos clean in
      (
        p,
        found,
        root,
        λ held. subst (λ x. proves hash_merge x p ≡ true) (faithful.kept e held) proved,
        λ h. (slot t.node (to_bits (depth - 1) e), other_than e t n faithful h, proved),
      )
