-- ===== src/Smirk/Tree/Kept.antt =====
-- The insertion of a batch keeps the leaves of the tree the same as its entries
-- (ciphera/pkg/smirk/src/tree/{mod,batch,raw_api}.rs).
use zerosats.Prelude.{
  ℕ, suc, ◌-◌, ◌≤◌, ◌≡◌, sym, ap, subst, ◌∙◌, ◌⊎◌, inl, inr, Bool, true, ◌||◌, ◌&&◌, not, List, [],
  ◌∷◌, ◌++◌, elem, length, arith,
}
use zerosats.Prelude.Bytes.{Bytes}
use zerosats.Prelude.Bits.{to_bits}
use zerosats.Prelude.Maps.{contains_key}
use zerosats.Smirk.Batch.{Batch, ok, elements_of, insert_elements, remove_elements}
use zerosats.Smirk.Batch.Valid.{IsApart}
use zerosats.Smirk.Node.{null_hash}
use zerosats.Smirk.Node.Clean.{Fits, IsClean}
use zerosats.Smirk.Node.Slots.{slot, change_at, Writes}
use zerosats.Smirk.Node.Written.{insert_without_hashing-Writes, slot-recalculate_hashes}
use zerosats.Smirk.Tree.{Tree, contains_element, changes, insert_batch}
use zerosats.Smirk.Tree.Sorted.{changes-Fits}
use zerosats.Smirk.Tree.Ran.{insert_batch-Ran}
use zerosats.Smirk.Tree.Content.{IsFaithful, contains_new, changed-IsFaithful}

module _ (hash_merge : ℕ → ℕ → ℕ) (depth : ℕ) {V : Type 0} where
  -- The elements that a tree contains after the batch
  abbrev pub Contains : Tree V → List (ℕ × V) → List ℕ → Tree V → Type 0
  Contains t es rs t' =
      (e : ℕ)
      → contains_element e t'
        ≡ (not (elem e rs) && (elem e (elements_of es) || contains_element e t))

  nothing_there :
      (t t' : Tree V) (es : List (ℕ × V)) (rs : List ℕ)
      → elements_of es ++ rs ≡ []
      → t'.entries ≡ t.entries
      → Contains t es rs t'
  nothing_there t t' [] [] n same e = ap (contains_key e) same
  nothing_there t t' [] (r ∷ rs) n same e = absurd (cc)
  nothing_there t t' (x ∷ es) rs n same e = absurd (cc)

  same-IsFaithful :
      (t t' : Tree V)
      → t'.entries ≡ t.entries
      → ((bits : Bytes) → slot t'.node bits ≡ slot t.node bits)
      → IsFaithful depth t
      → IsFaithful depth t'
  same-IsFaithful t t' same slots f = record {
    not_null = ap (contains_key null_hash) same ∙ f.not_null;
    kept =
        λ e held. slots (to_bits (depth - 1) e) ∙ f.kept e (sym (ap (contains_key e) same) ∙ held);
    only = λ bits width le.
        subst
          (λ x.
            (x ≡ null_hash) ⊎ ((contains_key x t'.entries ≡ true) × (to_bits (depth - 1) x ≡ bits)))
          (sym (slots bits))
          (subst
            (λ m.
              (slot t.node bits ≡ null_hash)
              ⊎ ((contains_key (slot t.node bits) m ≡ true)
                  × (to_bits (depth - 1) (slot t.node bits) ≡ bits)))
            (sym same) (f.only bits width le));
  }

  -- A batch that is inserted leaves a tree whose leaves are its entries, which are the old ones
  -- without those that are removed, and the new ones.
  pub insert_batch-IsFaithful :
      (temp_noir : Bool) (t : Tree V) (b : Batch V) (t' : Tree V)
      → 1 ≤ depth
      → IsClean hash_merge depth t.node
      → IsFaithful depth t
      → IsApart depth b
      → insert_batch hash_merge depth temp_noir t b ≡ ok t'
      → IsFaithful depth t' × Contains t b.entries b.remove_entries t'
  insert_batch-IsFaithful temp_noir t b t' pos clean f apart h =
      let run = insert_batch-Ran hash_merge depth temp_noir t b t' h in
      let slots : (bits : Bytes) → slot t'.node bits ≡ slot run.middle bits =
        λ bits. slot-recalculate_hashes hash_merge depth run.middle t'.node bits run.recalculated in
      elim run.made [
        | inl (none_there, same, entries) ↦ (
          same-IsFaithful t t' entries (λ bits. slots bits ∙ ap (λ n. slot n bits) same) f,
          nothing_there t t' b.entries b.remove_entries none_there entries,
        )
        | inr (q, entries, no_null) ↦
            let cs = changes depth (insert_elements b) (remove_elements b) in
            let fits = changes-Fits depth (insert_elements b) (remove_elements b) apart pos in
            let writes : (bits : Bytes)
                → length bits ≡ depth - 1
                → Writes (change_at bits 0 cs) (slot t.node bits) (slot t'.node bits) =
              λ bits width.
                let deep : depth ≡ suc (length bits) = omega (arith, pos, width) in
                subst (Writes (change_at bits 0 cs) (slot t.node bits)) (sym (slots bits)) (
                  insert_without_hashing-Writes hash_merge depth bits 0 t.node cs
                    (subst (λ d. IsClean hash_merge d t.node) deep clean)
                    (subst (λ d. Fits d 0 cs) deep fits) run.middle true q) in
            (
              changed-IsFaithful depth t b.entries b.remove_entries t' apart no_null entries writes
                  f,
              contains_new depth t b.entries b.remove_entries t' apart no_null entries writes f,
            )
      ]
