-- ===== src/Smirk/Node/Clean.antt =====
-- Nodes whose hashes are up to date, and what an insertion makes of them
-- (ciphera/pkg/smirk/src/tree/tree_repr.rs).
use zerosats.Prelude.{
  ℕ, zero, suc, ◌≤◌, ◌≡◌, refl, sym, ap, ◌∙◌, Bool, true, false, Option, some, List, [], ◌>>=◌,
  arith,
}
use zerosats.Smirk.Node.{
  Node, leaf, empty, parent, Step, split, at_most_one, hash, empty_tree_hash, merge_hashes,
  hash_with_inner, hash_with_empty, recalculate_hashes,
}

-- At most one change comes to each place at the bottom.
abbrev pub Fits : ℕ → ℕ → List Step → Type 0
Fits zero path_depth cs = Unit
Fits (suc zero) path_depth cs = at_most_one cs ≡ true
Fits (suc (suc d)) path_depth cs =
    (ls : List Step) × (rs : List Step) × (split path_depth cs ≡ some (ls, rs))
    × Fits (suc d) (suc path_depth) ls
    × Fits (suc d) (suc path_depth) rs

module _ (hash_merge : ℕ → ℕ → ℕ) where
  -- A node of this depth whose hashes are those of its children
  abbrev pub IsClean : ℕ → Node → Type 0
  IsClean d (leaf e) = d ≡ 1
  IsClean d (empty n) = (n ≡ d) × (1 ≤ d)
  IsClean zero (parent left right h dirty) = ⊥
  IsClean (suc zero) (parent left right h dirty) = ⊥
  IsClean (suc (suc d)) (parent left right h dirty) =
      (dirty ≡ false)
      × IsClean (suc d) left
      × IsClean (suc d) right
      × (merge_hashes hash_merge (hash hash_merge left) (hash hash_merge right) ≡ some h)

  pub empty_tree_hash-total : (n : ℕ) → (h : ℕ) × (empty_tree_hash hash_merge (suc n) ≡ some h)
  empty_tree_hash-total zero = (_, refl)
  empty_tree_hash-total (suc n) =
      let (h, e) = empty_tree_hash-total n in
      (hash_merge h h, ap (λ (o : Option ℕ). do x ← o; some (hash_merge x x)) e)

  pub hash-total : (d : ℕ) (n : Node) → IsClean d n → (h : ℕ) × (hash hash_merge n ≡ some h)
  hash-total d (leaf e) c = (e, refl)
  hash-total zero (empty n) c = absurd (omega arith)
  hash-total (suc d) (empty n) c =
      let (h, e) = empty_tree_hash-total d in (h, ap (empty_tree_hash hash_merge) c.0 ∙ e)
  hash-total d (parent left right h dirty) c = (h, refl)

  pub recalculate_hashes-clean :
      (d : ℕ) (n : Node) → IsClean d n → recalculate_hashes hash_merge n ≡ some n
  unfolding recalculate_hashes
  recalculate_hashes-clean d (leaf e) c = refl
  recalculate_hashes-clean d (empty n) c = refl
  recalculate_hashes-clean zero (parent left right h dirty) c = absurd c
  recalculate_hashes-clean (suc zero) (parent left right h dirty) c = absurd c
  recalculate_hashes-clean (suc (suc d)) (parent left right h true) c = absurd (cc (c.0))
  recalculate_hashes-clean (suc (suc d)) (parent left right h false) c = refl

  -- Without changes, the hash is the one that the node has.
  hash_with_inner-nil :
      (d path_depth : ℕ) (n : Node)
      → IsClean d n
      → hash_with_inner hash_merge n [] path_depth ≡ hash hash_merge n
  unfolding hash_with_inner hash_with_empty
  hash_with_inner-nil d path_depth (leaf e) c = refl
  hash_with_inner-nil d path_depth (empty zero) c = refl
  hash_with_inner-nil d path_depth (empty (suc zero)) c = refl
  hash_with_inner-nil d path_depth (empty (suc (suc n))) c = refl
  hash_with_inner-nil zero path_depth (parent left right h dirty) c = absurd c
  hash_with_inner-nil (suc zero) path_depth (parent left right h dirty) c = absurd c
  hash_with_inner-nil (suc (suc d)) path_depth (parent left right h dirty) (e, cl, cr, m) =
      ap (λ x. merge_hashes hash_merge x (hash_with_inner hash_merge right [] (suc path_depth)))
        (hash_with_inner-nil (suc d) (suc path_depth) left cl)
      ∙ ap (merge_hashes hash_merge (hash hash_merge left))
          (hash_with_inner-nil (suc d) (suc path_depth) right cr)
      ∙ m

  -- A node after an insertion: its hashes can be brought up to date, and the hash is then the
  -- given one. If nothing has changed, they are up to date, and the hash is the old one.
  pub record IsRehashed (d : ℕ) (old new : Node) (b : Bool) (h : Option ℕ) : Type 0 where
    pub after : Node
    pub recalculated : recalculate_hashes hash_merge new ≡ some after
    pub clean : IsClean d after
    pub same : hash hash_merge after ≡ h
    pub unchanged : b ≡ false → IsClean d new × (hash hash_merge new ≡ hash hash_merge old)

  -- A node that is not visited
  pub untouched :
      (d path_depth : ℕ) (n : Node)
      → IsClean d n
      → IsRehashed d n n false (hash_with_inner hash_merge n [] path_depth)
  untouched d path_depth n c = record {
    after = n;
    recalculated = recalculate_hashes-clean d n c;
    clean = c;
    same = sym (hash_with_inner-nil d path_depth n c);
    unchanged = λ e. (c, refl);
  }
