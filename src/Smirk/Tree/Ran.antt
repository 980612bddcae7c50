-- ===== src/Smirk/Tree/Ran.antt =====
-- What an insertion of a batch has done when it succeeds
-- (ciphera/pkg/smirk/src/tree/{batch,raw_api}.rs).
use zerosats.Prelude.{
  ℕ, ◌≡◌, refl, sym, ap, subst, ◌∙◌, ◌⊎◌, inl, inr, Bool, true, false, Option, none, some, List, [],
  ◌∷◌, ◌++◌, elem, ◌>>=◌, Bool-cases,
}
use zerosats.Prelude.Maps.{Map}
use zerosats.Smirk.Batch.{Checked, ok, err, panic, Batch, elements_of, Collision}
use zerosats.Smirk.Batch as Batch
use zerosats.Smirk.Collisions.{check_collisions}
use zerosats.Smirk.Node.{Node, null_hash, insert_without_hashing, recalculate_hashes, Inserted}
use zerosats.Smirk.Tree.{
  Tree, changes, keys_of, first_held, first_missing, is_nil, insert_entries, remove_entries,
  insert_checked, insert_non_null, with_node, change_entries, insert_with_entries, rehash,
  insert_batch,
}

>>=-eq-ok :
    {A B : Type 0} (m : Checked A) (f : A → Checked B) {b : B}
    → Batch.◌>>=◌ m f ≡ ok b
    → (a : A) × (m ≡ ok a) × (f a ≡ ok b)
>>=-eq-ok (ok a) f h = (a, refl, h)
>>=-eq-ok (err cs) f h = absurd (cc)
>>=-eq-ok panic f h = absurd (cc)

is_nil_lem : (es : List ℕ) → is_nil es ≡ true → es ≡ []
is_nil_lem [] h = refl
is_nil_lem (e ∷ es) h = absurd (cc)

module _ (hash_merge : ℕ → ℕ → ℕ) (depth : ℕ) {V : Type 0} where
  -- The changes have been made to the node and to the entries.
  abbrev pub Changed : Tree V → List (ℕ × V) → List ℕ → Node → Map V → Type 0
  Changed t es rs node entries =
      (insert_without_hashing hash_merge depth t.node (changes depth (elements_of es) rs) 0
        ≡ some (node, inr true))
      × (entries ≡ remove_entries rs (insert_entries es t.entries))
      × (elem null_hash (elements_of es ++ rs) ≡ false)

  abbrev pub Unchanged : Tree V → List (ℕ × V) → List ℕ → Node → Map V → Type 0
  Unchanged t es rs node entries =
      (elements_of es ++ rs ≡ []) × (node ≡ t.node) × (entries ≡ t.entries)

  -- The node in the middle is the one before its hashes are brought up to date.
  pub record Ran (t t' : Tree V) (es : List (ℕ × V)) (rs : List ℕ) : Type 0 where
    pub middle : Node
    pub made : Unchanged t es rs middle t'.entries ⊎ Changed t es rs middle t'.entries
    pub recalculated : recalculate_hashes hash_merge middle ≡ some t'.node

  inr_injective :
      {a b : Tree V} → ◌≡◌ {A = Option (Collision ⊎ Tree V)} (some (inr a)) (some (inr b)) → a ≡ b
  inr_injective e = cc

  changed_lem :
      (t t' : Tree V) (es : List (ℕ × V)) (rs : List ℕ) (o : Option Inserted)
      → (do inserted ← o; change_entries hash_merge depth t.entries es rs inserted) ≡ some (inr t')
      → (o ≡ some (t'.node, inr true))
        × (t'.entries ≡ remove_entries rs (insert_entries es t.entries))
  changed_lem t t' es rs none h = absurd (cc)
  changed_lem t t' es rs (some (n, inl c)) h = absurd (cc)
  changed_lem t t' es rs (some (n, inr false)) h = absurd (cc)
  changed_lem t t' es rs (some (n, inr true)) h =
      let at = inr_injective h in
      (ap (λ (t : Tree V). some (t.node, inr true)) at, sym (ap (λ (t : Tree V). t.entries) at))

  checked_lem :
      (t t' : Tree V) (es : List (ℕ × V)) (rs : List ℕ) (held missing : Option ℕ)
      → insert_checked hash_merge depth t es rs held missing ≡ some (inr t')
      → (insert_without_hashing hash_merge depth t.node (changes depth (elements_of es) rs) 0
          ≡ some (t'.node, inr true))
        × (t'.entries ≡ remove_entries rs (insert_entries es t.entries))
  unfolding insert_checked
  checked_lem t t' es rs (some e) missing h = absurd (cc)
  checked_lem t t' es rs none (some e) h = absurd (cc)
  checked_lem t t' es rs none none h = changed_lem t t' es rs _ h

  non_null_lem :
      (t t' : Tree V) (es : List (ℕ × V)) (rs : List ℕ) (null : Bool)
      → null ≡ elem null_hash (elements_of es ++ rs)
      → insert_non_null hash_merge depth t es rs null ≡ some (inr t')
      → Changed t es rs t'.node t'.entries
  unfolding insert_non_null
  non_null_lem t t' es rs true e h = absurd (cc)
  non_null_lem t t' es rs false e h =
      let (run, entries) =
        checked_lem t t' es rs (first_held t.entries (elements_of es)) (first_missing t.entries rs)
          h in
      (run, entries, sym e)

  -- What is inserted when the result is a tree
  inserted_lem :
      (t t' : Tree V) (es : List (ℕ × V)) (rs : List ℕ)
      → insert_with_entries hash_merge depth t es rs ≡ some (inr t')
      → Unchanged t es rs t'.node t'.entries ⊎ Changed t es rs t'.node t'.entries
  unfolding insert_with_entries
  inserted_lem t t' es rs h =
      let go : Bool → Option (Collision ⊎ Tree V) = λ u.
        elim u as (λ _. Option (Collision ⊎ Tree V)) [
          | true ↦ some (inr t)
          | false ↦ insert_non_null hash_merge depth t es rs (elem null_hash (elements_of es ++ rs))
        ] in
      elim (Bool-cases (is_nil (elements_of es ++ rs))) [
        | inl e ↦
            let same = sym (inr_injective (sym (ap go e) ∙ h)) in
            inl (
              is_nil_lem (elements_of es ++ rs) e,
              ap (λ (t : Tree V). t.node) same,
              ap (λ (t : Tree V). t.entries) same,
            )
        | inr e ↦ inr (
            non_null_lem t t' es rs (elem null_hash (elements_of es ++ rs)) refl
              (sym (ap go e) ∙ h))
      ]

  with_node_lem :
      (t t' : Tree V) (o : Option Node)
      → with_node hash_merge depth t o ≡ ok t'
      → (o ≡ some t'.node) × (t'.entries ≡ t.entries)
  with_node_lem t t' none h = absurd (cc)
  with_node_lem t t' (some node) h =
      let at = ok_injective h in
      (ap (λ (t : Tree V). some t.node) at, sym (ap (λ (t : Tree V). t.entries) at))
    where
      ok_injective : {a b : Tree V} → ok a ≡ ok b → a ≡ b
      ok_injective e = cc

  rehash_lem :
      (o : Option (Collision ⊎ Tree V)) (t' : Tree V)
      → rehash hash_merge depth o ≡ ok t'
      → (t : Tree V) × (o ≡ some (inr t))
        × (recalculate_hashes hash_merge t.node ≡ some t'.node)
        × (t'.entries ≡ t.entries)
  unfolding rehash
  rehash_lem none t' h = absurd (cc)
  rehash_lem (some (inl c)) t' h = absurd (cc)
  rehash_lem (some (inr t)) t' h =
      let (node, entries) = with_node_lem t t' (recalculate_hashes hash_merge t.node) h in
      (t, refl, node, entries)

  -- An insertion that succeeds has made the changes to the node and to the entries, or there were
  -- none, and has brought the hashes up to date.
  pub insert_batch-Ran :
      (temp_noir : Bool) (t : Tree V) (b : Batch V) (t' : Tree V)
      → insert_batch hash_merge depth temp_noir t b ≡ ok t'
      → Ran t t' b.entries b.remove_entries
  unfolding insert_batch
  insert_batch-Ran temp_noir t b t' h =
      let (u, _, run) = >>=-eq-ok (check_collisions depth temp_noir (keys_of t.entries) b) _ h in
      let (t1, inserted, recalculated, entries) =
        rehash_lem (insert_with_entries hash_merge depth t b.entries b.remove_entries) t' run in
      record {
        middle = t1.node;
        made =
            subst
              (λ m.
                Unchanged t b.entries b.remove_entries t1.node m
                ⊎ Changed t b.entries b.remove_entries t1.node m)
              (sym entries) (inserted_lem t t1 b.entries b.remove_entries inserted);
        recalculated = recalculated;
      }
