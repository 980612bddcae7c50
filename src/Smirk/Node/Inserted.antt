-- ===== src/Smirk/Node/Inserted.antt =====
-- The hash after an insertion, from the bottom of the tree to a node
-- (ciphera/pkg/smirk/src/tree/tree_repr.rs).
use zerosats.Prelude.{
  ℕ, zero, suc, ◌≡◌, refl, sym, ap, subst, ◌∙◌, inr, Bool, true, false, Option, none, some, List,
  [], ◌∷◌, ◌>>=◌, arith,
}
use zerosats.Smirk.Node.{
  Node, leaf, empty, parent, Step, split, Inserted, hash, empty_tree_hash, merge_hashes,
  hash_with_inner, hash_with_empty, visit, insert_parent, insert_empty, insert_without_hashing,
  changed_leaf,
}
use zerosats.Smirk.Node.Clean.{Fits, IsClean, empty_tree_hash-total, IsRehashed, untouched}
use zerosats.Smirk.Node.Rehash.{joined-IsRehashed, insert_parent-eq-joined}
use zerosats.Smirk.Node.Bottom.{leaf_lem, first_place_lem}

module _ (hash_merge : ℕ → ℕ → ℕ) (depth : ℕ) where
  -- A child that is visited or not
  visit-IsRehashed :
      (d path_depth : ℕ) (child : Node) (descend : List Step → Option Inserted) (cs : List Step)
      → IsClean hash_merge d child
      → ((n : Node) (b : Bool)
          → descend cs ≡ some (n, inr b)
          → IsRehashed hash_merge d child n b (hash_with_inner hash_merge child cs path_depth))
      → (n : Node) (b : Bool) → visit child descend cs ≡ some (n, inr b)
      → IsRehashed hash_merge d child n b (hash_with_inner hash_merge child cs path_depth)
  visit-IsRehashed d path_depth child descend [] c go n b h =
      let at : child ≡ n = cc h in
      let same : false ≡ b = cc h in
      subst
        (λ n. IsRehashed hash_merge d child n b (hash_with_inner hash_merge child [] path_depth)) at
        (subst
          (λ b.
            IsRehashed hash_merge d child child b (hash_with_inner hash_merge child [] path_depth))
          same (untouched hash_merge d path_depth child c))
  visit-IsRehashed d path_depth child descend (x ∷ cs) c go n b h = go n b h

  -- The changes at two children
  split-IsRehashed :
      (d path_depth : ℕ) (l r : Node) (h : ℕ) (to_left to_right : List Step → Option Inserted)
      (ls rs : List Step)
      → IsClean hash_merge (suc (suc d)) (parent l r h false)
      → ((n : Node) (b : Bool)
          → to_left ls ≡ some (n, inr b)
          → IsRehashed hash_merge (suc d) l n b (hash_with_inner hash_merge l ls path_depth))
      → ((n : Node) (b : Bool)
          → to_right rs ≡ some (n, inr b)
          → IsRehashed hash_merge (suc d) r n b (hash_with_inner hash_merge r rs path_depth))
      → (n : Node) (b : Bool)
      → insert_parent l r h false to_left to_right (ls, rs) ≡ some (n, inr b)
      → IsRehashed hash_merge (suc (suc d)) (parent l r h false) n b (
          merge_hashes hash_merge
            (hash_with_inner hash_merge l ls path_depth)
            (hash_with_inner hash_merge r rs path_depth))
  split-IsRehashed d path_depth l r h to_left to_right ls rs (e, cl, cr, m) gl gr n b q =
      joined-IsRehashed hash_merge d l r h m (visit l to_left ls) (visit r to_right rs) _ _
        (visit-IsRehashed (suc d) path_depth l to_left ls cl gl)
        (visit-IsRehashed (suc d) path_depth r to_right rs cr gr) n b
        (sym (insert_parent-eq-joined hash_merge d l r h m to_left to_right ls rs) ∙ q)

  with_old :
      (d : ℕ) (old old' new : Node) (b : Bool) (h : Option ℕ)
      → hash hash_merge old ≡ hash hash_merge old'
      → IsRehashed hash_merge d old new b h
      → IsRehashed hash_merge d old' new b h
  with_old d old old' new b h e s = record {
    after = s.after;
    recalculated = s.recalculated;
    clean = s.clean;
    same = s.same;
    unchanged = λ u. ((s.unchanged u).0, (s.unchanged u).1 ∙ e);
  }

  hash_with_empty-nil :
      (n path_depth : ℕ)
      → hash_with_empty hash_merge (suc n) [] path_depth ≡ empty_tree_hash hash_merge (suc n)
  unfolding hash_with_empty
  hash_with_empty-nil zero path_depth = refl
  hash_with_empty-nil (suc n) path_depth = refl

  merge_hashes_same :
      (o : Option ℕ) → merge_hashes hash_merge o o ≡ (do h ← o; some (hash_merge h h))
  merge_hashes_same none = refl
  merge_hashes_same (some h) = refl

  hash_with_empty-split :
      (n path_depth : ℕ) (cs ls rs : List Step)
      → split path_depth cs ≡ some (ls, rs)
      → hash_with_empty hash_merge (suc (suc n)) cs path_depth
        ≡ merge_hashes hash_merge
            (hash_with_empty hash_merge (suc n) ls (suc path_depth))
            (hash_with_empty hash_merge (suc n) rs (suc path_depth))
  unfolding hash_with_empty
  hash_with_empty-split n path_depth [] ls rs e =
      let left : [] ≡ ls = cc e in
      let right : [] ≡ rs = cc e in
      let empty_left =
        ap (λ xs. hash_with_empty hash_merge (suc n) xs (suc path_depth)) (sym left)
        ∙ hash_with_empty-nil n (suc path_depth) in
      let empty_right =
        ap (λ xs. hash_with_empty hash_merge (suc n) xs (suc path_depth)) (sym right)
        ∙ hash_with_empty-nil n (suc path_depth) in
      sym (merge_hashes_same (empty_tree_hash hash_merge (suc n))) ∙ cc (empty_left, empty_right)
  hash_with_empty-split n path_depth (c ∷ cs) ls rs e =
      ap
        (λ (o : Option (List Step × List Step)). do
          halves ← o
          merge_hashes hash_merge (hash_with_empty hash_merge (suc n) halves.0 (suc path_depth))
              (hash_with_empty hash_merge (suc n) halves.1 (suc path_depth)))
        e

  insert_empty-IsRehashed :
      (d path_depth : ℕ) (cs : List Step)
      → Fits (suc d) path_depth cs
      → (n : Node) (b : Bool) → insert_empty hash_merge (suc d) cs path_depth ≡ some (n, inr b)
      → IsRehashed hash_merge
          (suc d)
          (empty (suc d))
          n
          b
          (hash_with_inner hash_merge (empty (suc d)) cs path_depth)
  unfolding insert_empty hash_with_inner hash_with_empty
  insert_empty-IsRehashed zero path_depth cs fits n b h = first_place_lem hash_merge depth cs n b h
  insert_empty-IsRehashed (suc d) path_depth cs (ls, rs, halves, fl, fr) n b h =
      let (m, e) = empty_tree_hash-total hash_merge (suc d) in
      let old = parent (empty (suc d)) (empty (suc d)) m false in
      let clean : IsClean hash_merge (suc (suc d)) old = (
        refl,
        (refl, omega arith),
        (refl, omega arith),
        merge_hashes_same (empty_tree_hash hash_merge (suc d)) ∙ e,
      ) in
      let to_child : List Step → Option Inserted =
        λ xs. insert_empty hash_merge (suc d) xs (suc path_depth) in
      let run : insert_parent (empty (suc d)) (empty (suc d)) m false to_child to_child (ls, rs)
          ≡ some (n, inr b) =
        sym (
          ap
            (λ (o : Option ℕ). do
              x ← o
              xs ← split path_depth cs
              insert_parent (empty (suc d)) (empty (suc d)) x false to_child to_child xs)
            e
          ∙ ap
              (λ (o : Option (List Step × List Step)). do
                xs ← o
                insert_parent (empty (suc d)) (empty (suc d)) m false to_child to_child xs)
              halves)
        ∙ h in
      with_old (suc (suc d)) old (empty (suc (suc d))) n b _ (sym e) (
        subst (IsRehashed hash_merge (suc (suc d)) old n b)
          (sym (hash_with_empty-split d path_depth cs ls rs halves))
          (split-IsRehashed d (suc path_depth) (empty (suc d)) (empty (suc d)) m to_child to_child
            ls rs clean (insert_empty-IsRehashed d (suc path_depth) ls fl)
            (insert_empty-IsRehashed d (suc path_depth) rs fr) n b run))

  -- An insertion into a node whose hashes are up to date, of changes of which at most one comes to
  -- each place, leaves a node that is rehashed to the foreseen hash.
  pub insert_without_hashing-IsRehashed :
      (d path_depth : ℕ) (old : Node) (cs : List Step)
      → IsClean hash_merge d old
      → Fits d path_depth cs
      → (n : Node) (b : Bool)
      → insert_without_hashing hash_merge depth old cs path_depth ≡ some (n, inr b)
      → IsRehashed hash_merge d old n b (hash_with_inner hash_merge old cs path_depth)
  unfolding insert_without_hashing hash_with_inner
  insert_without_hashing-IsRehashed zero path_depth (leaf e) cs c fits n b h = absurd (omega arith)
  insert_without_hashing-IsRehashed (suc zero) path_depth (leaf e) cs c fits n b h =
      subst (IsRehashed hash_merge 1 (leaf e) n b)
        (sym (
          ap (λ t. elim t as (λ _. Option ℕ) [ false ↦ none | true ↦ changed_leaf hash_merge e cs ])
            fits))
        (leaf_lem hash_merge depth e cs n b fits h)
  insert_without_hashing-IsRehashed (suc (suc d)) path_depth (leaf e) cs c fits n b h =
      absurd (omega arith)
  insert_without_hashing-IsRehashed zero path_depth (empty k) cs c fits n b h = absurd (omega arith)
  insert_without_hashing-IsRehashed (suc d) path_depth (empty k) cs c fits n b h =
      subst
        (λ k.
          IsRehashed hash_merge (suc d) (empty k) n b
            (hash_with_inner hash_merge (empty k) cs path_depth))
        (sym c.0)
        (insert_empty-IsRehashed d path_depth cs fits n b
          (sym (ap (λ k. insert_empty hash_merge k cs path_depth) c.0) ∙ h))
  insert_without_hashing-IsRehashed zero path_depth (parent l r m dirty) cs c fits n b h = absurd c
  insert_without_hashing-IsRehashed (suc zero) path_depth (parent l r m dirty) cs c fits n b h =
      absurd c
  insert_without_hashing-IsRehashed (suc (suc d)) path_depth (parent l r m true) cs c fits n b h =
      absurd (cc (c.0))
  insert_without_hashing-IsRehashed (suc (suc d)) path_depth (parent l r m false) cs c
        (ls, rs, halves, fl, fr) n b h =
      let to_left : List Step → Option Inserted =
        λ xs. insert_without_hashing hash_merge depth l xs (suc path_depth) in
      let to_right : List Step → Option Inserted =
        λ xs. insert_without_hashing hash_merge depth r xs (suc path_depth) in
      subst (IsRehashed hash_merge (suc (suc d)) (parent l r m false) n b)
        (sym (
          ap
            (λ (o : Option (List Step × List Step)). do
              xs ← o
              merge_hashes hash_merge (hash_with_inner hash_merge l xs.0 (suc path_depth))
                  (hash_with_inner hash_merge r xs.1 (suc path_depth)))
            halves))
        (split-IsRehashed d (suc path_depth) l r m to_left to_right ls rs c
          (insert_without_hashing-IsRehashed (suc d) (suc path_depth) l ls c.1 fl)
          (insert_without_hashing-IsRehashed (suc d) (suc path_depth) r rs c.2 fr) n b
          (sym (
              ap
                (λ (o : Option (List Step × List Step)). do
                  xs ← o
                  insert_parent l r m false to_left to_right xs)
                halves)
            ∙ h))
