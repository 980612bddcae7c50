-- ===== src/Smirk/Tree/Foreseen.antt =====
-- The root hash after a batch is the one that `root_hash_with` foresees
-- (ciphera/pkg/smirk/src/tree/{mod,batch,raw_api}.rs).
use zerosats.Prelude.{ℕ, ◌≤◌, ◌≡◌, sym, subst, inl, inr, Bool, true, false, Option, some}
use zerosats.Smirk.Batch.{ok, Batch, insert_elements, remove_elements}
use zerosats.Smirk.Batch.Valid.{IsApart}
use zerosats.Smirk.Node.{Node, hash, hash_with_inner, recalculate_hashes}
use zerosats.Smirk.Node.Clean.{IsClean, IsRehashed, untouched}
use zerosats.Smirk.Node.Inserted.{insert_without_hashing-IsRehashed}
use zerosats.Smirk.Tree.{Tree, changes, hash_with, root_hash, root_hash_with, insert_batch}
use zerosats.Smirk.Tree.Ran.{insert_batch-Ran}
use zerosats.Smirk.Tree.Sorted.{changes-Fits, changes-nil}

module _ (hash_merge : ℕ → ℕ → ℕ) (depth : ℕ) where
  settled :
      (old new after : Node) (b : Bool) (h : Option ℕ)
      → IsRehashed hash_merge depth old new b h
      → recalculate_hashes hash_merge new ≡ some after
      → (hash hash_merge after ≡ h) × IsClean hash_merge depth after
  settled old new after b h s r =
      let same : s.after ≡ after = cc (s.recalculated, r) in
      subst (λ n. (hash hash_merge n ≡ h) × IsClean hash_merge depth n) same (s.same, s.clean)

module _ (hash_merge : ℕ → ℕ → ℕ) (depth : ℕ) {V : Type 0} where
  -- A batch in which no two elements have the same handle, inserted into a tree of depth one or
  -- more whose hashes are up to date: if the insertion succeeds, the root hash is the one that
  -- `root_hash_with` gives for the old tree and the elements of the batch, and the hashes are up to
  -- date again.
  pub insert_batch-root_hash_with :
      (temp_noir : Bool) (t : Tree V) (b : Batch V) (t' : Tree V)
      → 1 ≤ depth
      → IsClean hash_merge depth t.node
      → IsApart depth b
      → insert_batch hash_merge depth temp_noir t b ≡ ok t'
      → (root_hash hash_merge depth t'
          ≡ root_hash_with hash_merge depth t (insert_elements b) (remove_elements b))
        × IsClean hash_merge depth t'.node
  unfolding root_hash_with hash_with
  insert_batch-root_hash_with temp_noir t b t' pos clean apart h =
      let run = insert_batch-Ran hash_merge depth temp_noir t b t' h in
      let cs = changes depth (insert_elements b) (remove_elements b) in
      elim run.made [
        | inl (none_there, same, _) ↦
            settled hash_merge depth t.node run.middle t'.node false _
              (subst
                (λ n.
                  IsRehashed hash_merge depth t.node n false
                    (hash_with_inner hash_merge t.node cs 0))
                (sym same)
                (subst
                  (λ cs.
                    IsRehashed hash_merge depth t.node t.node false
                      (hash_with_inner hash_merge t.node cs 0))
                  (sym (changes-nil depth (insert_elements b) (remove_elements b) none_there))
                  (untouched hash_merge depth 0 t.node clean)))
              run.recalculated
        | inr (q, _, _) ↦
            settled hash_merge depth t.node run.middle t'.node true _
              (insert_without_hashing-IsRehashed hash_merge depth depth 0 t.node cs clean
                (changes-Fits depth (insert_elements b) (remove_elements b) apart pos) run.middle
                true q)
              run.recalculated
      ]
