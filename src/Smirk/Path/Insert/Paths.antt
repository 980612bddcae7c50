-- ===== src/Smirk/Path/Insert/Paths.antt =====
-- The paths that are given for elements inserted one after the other prove them
-- (ciphera/pkg/smirk/src/tree/insert.rs).
use zerosats.Prelude.{
  ℕ, ◌≤◌, ◌≡◌, refl, sym, subst, Bool, true, Option, none, some, List, [], ◌∷◌, elem, ◌||◌, arith,
}
use zerosats.Smirk.Batch.{Checked, ok, err, panic, Batch, elements_of, new, added}
use zerosats.Smirk.Batch as Batch
use zerosats.Smirk.Batch.Valid.{IsApart}
use zerosats.Smirk.Tree.{Tree, insert, contains_element}
use zerosats.Smirk.Path.{MerklePath, proves, path_for}
use zerosats.Smirk.Path.Proved.{insert_batch-proves, Reached, step, Reached-IsClean}
use zerosats.Smirk.Path.Insert.{Inserting, push_path, inserted_next, insert_with_paths}

module _ (hash_merge : ℕ → ℕ → ℕ) (depth : ℕ) {V : Type 0} where
  -- Each path proves its element.
  abbrev pub ProvesAll : List (ℕ × V) → List MerklePath → Type 0
  ProvesAll [] [] = Unit
  ProvesAll [] (p ∷ paths) = ⊥
  ProvesAll (entry ∷ es) [] = ⊥
  ProvesAll (entry ∷ es) (p ∷ paths) = (proves hash_merge entry.0 p ≡ true) × ProvesAll es paths

  pushed :
      (o : Option MerklePath) (r : Inserting V) (paths : List MerklePath)
      → (push_path o r).1 ≡ ok paths
      → (p : MerklePath) × (ps : List MerklePath) × (o ≡ some p)
        × (r.1 ≡ ok ps)
        × (paths ≡ p ∷ ps)
        × ((push_path o r).0 ≡ r.0)
  pushed none (t, r) paths h = absurd (cc)
  pushed (some p) (t, ok ps) paths h = (p, ps, refl, refl, sym (cc h), refl)
  pushed (some p) (t, err cs) paths h = absurd (cc)
  pushed (some p) (t, panic) paths h = absurd (cc)

  -- The result of the first insertion
  inserted_first :
      (e : ℕ) (t : Tree V) (next : Tree V → Inserting V) (r : Checked (Tree V))
      (paths : List MerklePath)
      → (inserted_next hash_merge depth e t next r).1 ≡ ok paths
      → (t' : Tree V) × (p : MerklePath) × (ps : List MerklePath) × (r ≡ ok t')
        × (path_for hash_merge depth e t' ≡ some p)
        × ((next t').1 ≡ ok ps)
        × (paths ≡ p ∷ ps)
        × ((inserted_next hash_merge depth e t next r).0 ≡ (next t').0)
  unfolding inserted_next
  inserted_first e t next panic paths h = absurd (cc)
  inserted_first e t next (err cs) paths h = absurd (cc)
  inserted_first e t next (ok t') paths h =
      let (p, ps, found, rest, whole, left) =
        pushed (path_for hash_merge depth e t') (next t') paths h in
      (t', p, ps, refl, found, rest, whole, left)

  one-IsApart : (e : ℕ) (v : V) → IsApart depth (added depth e v new)
  one-IsApart e v = λ l. ground arith

  -- Elements that are inserted one after the other into a tree of depth one or more that batches
  -- without repeated handles have made of the empty one: if all the insertions succeed, there is one
  -- path for each, which proves it, and the tree that is left contains them all and what it
  -- contained.
  pub insert_with_paths-ProvesAll :
      (temp_noir : Bool) (es : List (ℕ × V)) (t : Tree V) (paths : List MerklePath)
      → 1 ≤ depth
      → Reached hash_merge depth t
      → (insert_with_paths hash_merge depth temp_noir es t).1 ≡ ok paths
      → Reached hash_merge depth (insert_with_paths hash_merge depth temp_noir es t).0
        × ProvesAll es paths
        × ((e : ℕ)
            → (elem e (elements_of es) || contains_element e t) ≡ true
            → contains_element e (insert_with_paths hash_merge depth temp_noir es t).0 ≡ true)
  unfolding insert_with_paths insert Batch.insert
  insert_with_paths-ProvesAll temp_noir [] t paths pos r h =
      (r, subst (ProvesAll []) (ok_injective h) tt, λ e c. c)
    where
      ok_injective : {a b : List MerklePath} → ok a ≡ ok b → a ≡ b
      ok_injective e = cc
  insert_with_paths-ProvesAll temp_noir ((e, v) ∷ es) t paths pos r h =
      let (t', p, ps, run, found, rest, whole, left) =
        inserted_first e t (insert_with_paths hash_merge depth temp_noir es)
          (insert hash_merge depth temp_noir t e v) paths h in
      let apart = one-IsApart e v in
      let (clean, faithful, _) = Reached-IsClean hash_merge depth t pos r in
      let (_, _, contains, all) =
        insert_batch-proves hash_merge depth temp_noir t (added depth e v new) t' pos clean faithful
          apart run in
      let (q, found', proved, _) = all e (ground (arith, contains e)) in
      let same : q ≡ p = cc (found, found') in
      let (r', proves_rest, kept) =
        insert_with_paths-ProvesAll temp_noir es t' ps pos
          (step temp_noir t (added depth e v new) t' r apart run) rest in
      (
        subst (Reached hash_merge depth) (sym left) r',
        subst (ProvesAll ((e, v) ∷ es)) (sym whole)
            (subst (λ q. proves hash_merge e q ≡ true) same proved, proves_rest),
        λ x c.
            subst (λ t. contains_element x t ≡ true) (sym left)
              (kept x (ground (arith, c, contains x))),
      )
