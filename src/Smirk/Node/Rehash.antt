-- ===== src/Smirk/Node/Rehash.antt =====
-- The hash after an insertion is the one that `hash_with_inner` foresees
-- (ciphera/pkg/smirk/src/tree/tree_repr.rs).
use zerosats.Prelude.{
  ℕ, suc, ◌≡◌, refl, sym, ap, subst, ◌∙◌, inl, inr, Bool, true, false, ◌||◌, Option, none, some,
  List, [], ◌∷◌, ◌>>=◌,
}
use zerosats.Smirk.Node.{
  Node, parent, Step, Inserted, hash, merge_hashes, is_changed, both_ok, visit, insert_parent,
  recalculate_hashes,
}
use zerosats.Smirk.Node.Clean.{hash-total, recalculate_hashes-clean, IsRehashed}

module _ (hash_merge : ℕ → ℕ → ℕ) where
  after_unchanged :
      (d : ℕ) (old new : Node) (h : Option ℕ) (s : IsRehashed hash_merge d old new false h)
      → s.after ≡ new
  after_unchanged d old new h s =
      let (c, e) = s.unchanged refl in
      cc (recalculate_hashes-clean hash_merge d new c, s.recalculated)

  hash-unchanged :
      (d : ℕ) (old new : Node) (h : Option ℕ)
      → IsRehashed hash_merge d old new false h
      → hash hash_merge new ≡ h
  hash-unchanged d old new h s = sym (ap (hash hash_merge) (after_unchanged d old new h s)) ∙ s.same

  module _ (d : ℕ) (l r : Node) (h : ℕ)
      (m : merge_hashes hash_merge (hash hash_merge l) (hash hash_merge r) ≡ some h) where
    -- Two children that have not changed
    both_same :
        (l' r' : Node) (hl hr : Option ℕ)
        → IsRehashed hash_merge (suc d) l l' false hl
        → IsRehashed hash_merge (suc d) r r' false hr
        → IsRehashed hash_merge
            (suc (suc d))
            (parent l r h false)
            (parent l' r' h false)
            false
            (merge_hashes hash_merge hl hr)
    unfolding recalculate_hashes
    both_same l' r' hl hr sl sr =
        let (cl, el) = sl.unchanged refl in
        let (cr, er) = sr.unchanged refl in
        let still : merge_hashes hash_merge (hash hash_merge l') (hash hash_merge r') ≡ some h =
          ap (λ x. merge_hashes hash_merge x (hash hash_merge r')) el
          ∙ ap (merge_hashes hash_merge (hash hash_merge l)) er
          ∙ m in
        record {
          after = parent l' r' h false;
          recalculated = refl;
          clean = (refl, cl, cr, still);
          same =
              sym still
              ∙ ap (λ x. merge_hashes hash_merge x (hash hash_merge r'))
                  (hash-unchanged (suc d) l l' hl sl)
              ∙ ap (merge_hashes hash_merge hl) (hash-unchanged (suc d) r r' hr sr);
          unchanged = λ e. ((refl, cl, cr, still), refl);
        }

    -- A child has changed.
    one_changed :
        (l' r' : Node) (bl br : Bool) (hl hr : Option ℕ)
        → IsRehashed hash_merge (suc d) l l' bl hl
        → IsRehashed hash_merge (suc d) r r' br hr
        → IsRehashed hash_merge
            (suc (suc d))
            (parent l r h false)
            (parent l' r' h true)
            true
            (merge_hashes hash_merge hl hr)
    unfolding recalculate_hashes
    one_changed l' r' bl br hl hr sl sr =
        let (x, ex) = hash-total hash_merge (suc d) sl.after sl.clean in
        let (y, ey) = hash-total hash_merge (suc d) sr.after sr.clean in
        record {
          after = parent sl.after sr.after (hash_merge x y) false;
          recalculated = cc (sl.recalculated, sr.recalculated, ex, ey);
          clean = (refl, sl.clean, sr.clean, cc (ex, ey));
          same = cc (sl.same, sr.same, ex, ey);
          unchanged = λ e. absurd (cc);
        }

    children_IsRehashed :
        (l' r' : Node) (bl br : Bool) (hl hr : Option ℕ)
        → IsRehashed hash_merge (suc d) l l' bl hl
        → IsRehashed hash_merge (suc d) r r' br hr
        → IsRehashed hash_merge
            (suc (suc d))
            (parent l r h false)
            (parent l' r' h (br || bl))
            (br || bl)
            (merge_hashes hash_merge hl hr)
    children_IsRehashed l' r' false false hl hr sl sr = both_same l' r' hl hr sl sr
    children_IsRehashed l' r' true false hl hr sl sr = one_changed l' r' true false hl hr sl sr
    children_IsRehashed l' r' false true hl hr sl sr = one_changed l' r' false true hl hr sl sr
    children_IsRehashed l' r' true true hl hr sl sr = one_changed l' r' true true hl hr sl sr

    -- What the two visits leave, put together
    pub joined : Option Inserted → Option Inserted → Option Inserted
    joined vl vr = do
      y ← vr
      x ← vl
      some (parent x.0 y.0 h (is_changed y.1 || is_changed x.1), both_ok x.1 y.1)

    pub joined-IsRehashed :
        (vl vr : Option Inserted) (hl hr : Option ℕ)
        → ((l' : Node) (b : Bool) → vl ≡ some (l', inr b) → IsRehashed hash_merge (suc d) l l' b hl)
        → ((r' : Node) (b : Bool) → vr ≡ some (r', inr b) → IsRehashed hash_merge (suc d) r r' b hr)
        → (n : Node) (b : Bool) → joined vl vr ≡ some (n, inr b)
        → IsRehashed hash_merge
            (suc (suc d))
            (parent l r h false)
            n
            b
            (merge_hashes hash_merge hl hr)
    unfolding joined
    joined-IsRehashed vl none hl hr sl sr n b e = absurd (cc)
    joined-IsRehashed none (some y) hl hr sl sr n b e = absurd (cc)
    joined-IsRehashed (some (l', inl c)) (some (r', xr)) hl hr sl sr n b e = absurd (cc)
    joined-IsRehashed (some (l', inr bl)) (some (r', inl c)) hl hr sl sr n b e = absurd (cc)
    joined-IsRehashed (some (l', inr bl)) (some (r', inr br)) hl hr sl sr n b e =
        let at : parent l' r' h (br || bl) ≡ n = cc e in
        let changed : (br || bl) ≡ b = cc e in
        subst
          (λ b.
            IsRehashed hash_merge (suc (suc d)) (parent l r h false) n b
              (merge_hashes hash_merge hl hr))
          changed
          (subst
            (λ n.
              IsRehashed hash_merge (suc (suc d)) (parent l r h false) n (br || bl)
                (merge_hashes hash_merge hl hr))
            at (children_IsRehashed l' r' bl br hl hr (sl l' bl refl) (sr r' br refl)))

    pub insert_parent-eq-joined :
        (to_left to_right : List Step → Option Inserted) (ls rs : List Step)
        → insert_parent l r h false to_left to_right (ls, rs)
          ≡ joined (visit l to_left ls) (visit r to_right rs)
    unfolding joined
    insert_parent-eq-joined to_left to_right [] [] = refl
    insert_parent-eq-joined to_left to_right [] (c ∷ rs) = refl
    insert_parent-eq-joined to_left to_right (c ∷ ls) [] = refl
    insert_parent-eq-joined to_left to_right (c ∷ ls) (c' ∷ rs) = refl
