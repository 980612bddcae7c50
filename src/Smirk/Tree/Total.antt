-- ===== src/Smirk/Tree/Total.antt =====
-- A batch that suits a tree is inserted (ciphera/pkg/smirk/src/tree/{batch,raw_api}.rs).
use zerosats.Prelude.{
  ℕ, suc, ◌-◌, ◌≤◌, ◌≡◌, refl, ap, subst, ◌∙◌, ◌⊎◌, inl, inr, Bool, true, false, Option, none, some,
  List, [], ◌∷◌, ◌++◌, All, elem, ◌>>=◌, arith, Bool-cases,
}
use zerosats.Smirk.Batch.{
  lsb, Checked, Collision, ok, Batch, elements_of, insert_elements, remove_elements,
}
use zerosats.Smirk.Batch as Batch
use zerosats.Smirk.Batch.Valid.{handles, IsApart}
use zerosats.Smirk.Collisions.{check_collisions}
use zerosats.Smirk.Collisions.Fits.{check_collisions-eq-ok_iff}
use zerosats.Smirk.Node.{Node, Inserted, null_hash, insert_without_hashing, recalculate_hashes}
use zerosats.Smirk.Node.Clean.{Fits, IsClean, recalculate_hashes-clean}
use zerosats.Smirk.Node.Inserted.{insert_without_hashing-IsRehashed}
use zerosats.Smirk.Node.Progress.{HasNoNull, insert_without_hashing-Changes}
use zerosats.Smirk.Tree.{
  Tree, contains_element, keys_of, changes, first_held, first_missing, is_nil, insert_entries,
  remove_entries, change_entries, insert_checked, insert_non_null, insert_with_entries, with_node,
  rehash, insert_batch,
}
use zerosats.Smirk.Tree.Sorted.{changes-Fits}
use zerosats.Smirk.Tree.Content.{IsFaithful}
use zerosats.Smirk.Tree.Suited.{
  no_changes-changes, elem-handles, elem-keys_of, first_held-eq-none, first_missing-eq-none, Suits,
  not_held, none_null, changes-IsReady,
}

module _ (hash_merge : ℕ → ℕ → ℕ) (depth : ℕ) {V : Type 0} (t : Tree V) (b : Batch V)
    (pos : 1 ≤ depth) (clean : IsClean hash_merge depth t.node) (full : HasNoNull t.node)
    (f : IsFaithful depth t) (apart : IsApart depth b)
    (suits : Suits depth t (insert_elements b) (remove_elements b)) where
  checked : (temp_noir : Bool) → check_collisions depth temp_noir (keys_of t.entries) b ≡ ok tt
  checked temp_noir =
      (check_collisions-eq-ok_iff depth b temp_noir (keys_of t.entries)).1
        (suits.apart, handled (remove_elements b) suits.present)
    where
      handled :
          (es : List ℕ)
          → All (λ e. contains_element e t ≡ true) es
          → All (λ e. elem (lsb (depth - 1) e) (handles depth (keys_of t.entries)) ≡ true) es
      handled [] a = tt
      handled (e ∷ es) a = (
        elem-handles depth e (keys_of t.entries) (elem-keys_of e t.entries ∙ a.0),
        handled es a.1,
      )

  -- The changes of the node, and the new hashes
  changed_node :
      is_nil (insert_elements b ++ remove_elements b) ≡ false
      → (n : Node) × (after : Node) × (insert_without_hashing hash_merge depth t.node
            (changes depth (insert_elements b) (remove_elements b))
            0
          ≡ some (n, inr true))
        × (recalculate_hashes hash_merge n ≡ some after)
  changed_node some_there =
      let cs = changes depth (insert_elements b) (remove_elements b) in
      let fits = changes-Fits depth (insert_elements b) (remove_elements b) apart pos in
      let deep : depth ≡ suc (depth - 1) = omega arith in
      let (n, run) =
        insert_without_hashing-Changes hash_merge depth (depth - 1) 0 t.node cs
          (no_changes-changes depth (insert_elements b) (remove_elements b) some_there)
          (subst (λ d. IsClean hash_merge d t.node) deep clean) full
          (subst (λ d. Fits d 0 cs) deep fits)
          (changes-IsReady depth t (insert_elements b) (remove_elements b) f suits apart) in
      let s =
        insert_without_hashing-IsRehashed hash_merge depth depth 0 t.node cs clean fits n true
          run in
      (n, s.after, run, s.recalculated)

  none_held : first_held t.entries (insert_elements b) ≡ none
  none_held = first_held-eq-none t.entries (insert_elements b) (λ e h.
      elim (Bool-cases (contains_element e t)) [
        | inl held ↦
            absurd
              (not_held depth t (insert_elements b) (remove_elements b) f suits e e held h refl)
        | inr missing ↦ missing
      ])

  -- The insertion without hashes
  inserted :
      (made : Tree V) × (after : Node) × (insert_with_entries hash_merge depth t b.entries
          b.remove_entries
        ≡ some (inr made))
      × (recalculate_hashes hash_merge made.node ≡ some after)
  unfolding insert_with_entries insert_non_null insert_checked
  inserted =
      let go : Bool → Option (Collision ⊎ Tree V) = λ u.
        elim u as (λ _. Option (Collision ⊎ Tree V)) [
          | true ↦ some (inr t)
          | false ↦
              insert_non_null hash_merge depth t b.entries b.remove_entries
                (elem null_hash (insert_elements b ++ remove_elements b))
        ] in
      let entries = remove_entries b.remove_entries (insert_entries b.entries t.entries) in
      elim (Bool-cases (is_nil (insert_elements b ++ remove_elements b))) [
        | inl e ↦ (t, t.node, ap go e, recalculate_hashes-clean hash_merge depth t.node clean)
        | inr e ↦
            let (n, after, run, recalculated) = changed_node e in
            (
              record { node = n; entries = entries },
              after,
              ap go e
                  ∙ ap (insert_non_null hash_merge depth t b.entries b.remove_entries)
                      (none_null depth t (insert_elements b) (remove_elements b) f suits)
                  ∙ ap
                      (λ o.
                        insert_checked hash_merge depth t b.entries b.remove_entries o
                          (first_missing t.entries b.remove_entries))
                      none_held
                  ∙ ap (insert_checked hash_merge depth t b.entries b.remove_entries none)
                      (first_missing-eq-none t.entries b.remove_entries suits.present)
                  ∙ ap
                      (λ (o : Option Inserted). (do
                        x ← o
                        change_entries hash_merge depth t.entries b.entries b.remove_entries x))
                      run,
              recalculated,
            )
      ]

  -- A batch that suits the tree is inserted: nothing collides, and nothing panics.
  pub insert_batch-total :
      (temp_noir : Bool) → (t' : Tree V) × (insert_batch hash_merge depth temp_noir t b ≡ ok t')
  unfolding insert_batch rehash
  insert_batch-total temp_noir =
      let (made, after, run, recalculated) = inserted in
      (
        record made { node = after },
        ap
              (λ c. Batch.◌>>=◌ c (λ _.
                rehash hash_merge depth
                  (insert_with_entries hash_merge depth t b.entries b.remove_entries)))
              (checked temp_noir)
            ∙ ap (rehash hash_merge depth) run
            ∙ ap (with_node hash_merge depth made) recalculated,
      )
