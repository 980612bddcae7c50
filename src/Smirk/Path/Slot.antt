-- ===== src/Smirk/Path/Slot.antt =====
-- A path leads to its slot: with what stands there, the root hash comes out
-- (ciphera/pkg/smirk/src/tree/path.rs, hash/src/path.rs).
use zerosats.Prelude.{
  ℕ, suc, ◌+◌, ◌-◌, ◌≤◌, ◌≡◌, refl, sym, ap, subst, ◌∙◌, inl, inr, Bool, true, false, Option, some,
  List, [], ◌∷◌, ◌++◌, length, length-append, ◌==◌, ==_refl, if◌then◌else◌, ◌>>=◌, arith,
  Bool-cases,
}
use zerosats.Prelude.Bytes.{Bytes}
use zerosats.Prelude.Bits.{to_bits, length-to_bits}
use zerosats.Smirk.Node.{Node, leaf, empty, parent, null_hash, hash, empty_tree_hash, merge_hashes}
use zerosats.Smirk.Node.Clean.{IsClean}
use zerosats.Smirk.Node.Slots.{slot}
use zerosats.Smirk.Tree.{Tree, root_hash}
use zerosats.Smirk.Path.{
  MerklePath, zip, fill, merge_at, compute_merkle_root_from_iter, proves, empty_siblings,
  sibling_and, siblings_along, path_for,
}
use mathlib.Core.List.{reverse, reverse-cons}

length-reverse : (xs : List ℕ) → length (reverse xs) ≡ length xs
length-reverse [] = refl
length-reverse (x ∷ xs) =
    ap length (reverse-cons x xs)
    ∙ omega (arith, length-append (reverse xs) (x ∷ []), length-reverse xs)

zip-append :
    (ss bs us vs : List ℕ)
    → length ss ≡ length bs
    → zip (ss ++ us) (bs ++ vs) ≡ zip ss bs ++ zip us vs
zip-append [] [] us vs h = refl
zip-append [] (b ∷ bs) us vs h = absurd (omega arith)
zip-append (s ∷ ss) [] us vs h = absurd (omega arith)
zip-append (s ∷ ss) (b ∷ bs) us vs h = ap (λ xs. (s, b) ∷ xs) (zip-append ss bs us vs (omega arith))

module _ (hash_merge : ℕ → ℕ → ℕ) where
  -- The root hash, from the siblings and the bits from the root down
  abbrev root_down : ℕ → List ℕ → Bytes → ℕ
  root_down value [] bits = value
  root_down value (s ∷ ss) [] = value
  root_down value (s ∷ ss) (b ∷ bits) = merge_at hash_merge (root_down value ss bits) (s, b)

  from_iter-append :
      (value : ℕ) (xs ys : List (ℕ × ℕ))
      → compute_merkle_root_from_iter hash_merge value (xs ++ ys)
        ≡ compute_merkle_root_from_iter hash_merge
            (compute_merkle_root_from_iter hash_merge value xs)
            ys
  from_iter-append value [] ys = refl
  from_iter-append value (x ∷ xs) ys = from_iter-append (merge_at hash_merge value x) xs ys

  -- From the deepest sibling up, it is the same.
  from_iter-reverse :
      (value : ℕ) (ss bs : List ℕ)
      → length ss ≡ length bs
      → compute_merkle_root_from_iter hash_merge value (zip (reverse ss) (reverse bs))
        ≡ root_down value ss bs
  from_iter-reverse value [] bs h = refl
  from_iter-reverse value (s ∷ ss) [] h = absurd (omega arith)
  from_iter-reverse value (s ∷ ss) (b ∷ bs) h =
      let same : length (reverse ss) ≡ length (reverse bs) =
        omega (arith, length-reverse ss, length-reverse bs) in
      ap (λ xs. compute_merkle_root_from_iter hash_merge value (zip xs (reverse (b ∷ bs))))
        (reverse-cons s ss)
      ∙ ap (λ xs. compute_merkle_root_from_iter hash_merge value (zip (reverse ss ++ s ∷ []) xs))
          (reverse-cons b bs)
      ∙ ap (compute_merkle_root_from_iter hash_merge value)
          (zip-append (reverse ss) (reverse bs) (s ∷ []) (b ∷ []) same)
      ∙ from_iter-append value (zip (reverse ss) (reverse bs)) ((s, b) ∷ [])
      ∙ ap (λ v. merge_at hash_merge v (s, b)) (from_iter-reverse value ss bs (omega arith))

  -- The siblings on the way down lead to the hash of the node.
  record LeadsTo (bits : Bytes) (value : ℕ) (ss : List ℕ) (h : Option ℕ) : Type 0 where
    long : length ss ≡ length bits
    root : h ≡ some (root_down value ss bits)

  fill_whole : (ss : List ℕ) → fill (length ss) ss ≡ some ss
  fill_whole [] = refl
  fill_whole (s ∷ ss) = ap (λ (o : Option (List ℕ)). do rest ← o; some (s ∷ rest)) (fill_whole ss)

  -- Two children with the same hash
  twin : (b h : ℕ) → merge_at hash_merge h (h, b) ≡ hash_merge h h
  twin b h = ground arith

  empty_siblings-LeadsTo :
      (bits : Bytes)
      → (ss : List ℕ) × (empty_siblings hash_merge (suc (length bits)) ≡ some ss)
        × LeadsTo bits null_hash ss (empty_tree_hash hash_merge (suc (length bits)))
  empty_siblings-LeadsTo [] = ([], refl, record { long = refl; root = refl })
  empty_siblings-LeadsTo (b ∷ bits) =
      let (ss, e, l) = empty_siblings-LeadsTo bits in
      let h = root_down null_hash ss bits in
      (
        h ∷ ss,
        ap
              (λ (o : Option ℕ).
                sibling_and hash_merge o (empty_siblings hash_merge (suc (length bits))))
              l.root
            ∙ ap (sibling_and hash_merge (some h)) e,
        record {
          long = ap suc l.long;
          root =
              ap (λ (o : Option ℕ). do x ← o; some (hash_merge x x)) l.root
              ∙ ap some (sym (twin b h));
        },
      )

  turn_merged :
      (x y : ℕ) (ls rs : List ℕ) (bits : Bytes) (h : ℕ) {hl hr : Option ℕ}
      → hl ≡ some (root_down x ls bits)
      → hr ≡ some (root_down y rs bits)
      → merge_hashes hash_merge hl hr ≡ some h
      → some h ≡ some (hash_merge (root_down x ls bits) (root_down y rs bits))
  turn_merged x y ls rs bits h el er m = sym m ∙ cc (el, er)

  -- To the right, and to the left
  turned :
      (b : ℕ) (bits : Bytes) (rs : List ℕ) (x y s h : ℕ)
      → (b == 1) ≡ true
      → some h ≡ some (hash_merge s (root_down y rs bits))
      → some h ≡ some (root_down (if b == 1 then y else x) (s ∷ rs) (b ∷ bits))
  turned b bits rs x y s h t e =
      e
      ∙ sym (
          ap
            (λ u. some (
              if u
              then hash_merge s (root_down (if u then y else x) rs bits)
              else hash_merge (root_down (if u then y else x) rs bits) s))
            t)

  unturned :
      (b : ℕ) (bits : Bytes) (ls : List ℕ) (x y s h : ℕ)
      → (b == 1) ≡ false
      → some h ≡ some (hash_merge (root_down x ls bits) s)
      → some h ≡ some (root_down (if b == 1 then y else x) (s ∷ ls) (b ∷ bits))
  unturned b bits ls x y s h t e =
      e
      ∙ sym (
          ap
            (λ u. some (
              if u
              then hash_merge s (root_down (if u then y else x) ls bits)
              else hash_merge (root_down (if u then y else x) ls bits) s))
            t)

  empty-LeadsTo :
      (d b : ℕ) (bits : Bytes)
      → d ≡ suc (length (b ∷ bits))
      → (ss : List ℕ) × (siblings_along hash_merge (empty d) (b ∷ bits) ≡ some ss)
        × LeadsTo (b ∷ bits) null_hash ss (empty_tree_hash hash_merge d)
  unfolding siblings_along
  empty-LeadsTo d b bits deep =
      let w = length (b ∷ bits) in
      let (ss, e, l) = empty_siblings-LeadsTo (b ∷ bits) in
      (
        ss,
        ap (λ d. empty_siblings hash_merge d >>= fill w) deep
            ∙ ap (λ (o : Option (List ℕ)). o >>= fill w) e
            ∙ ap (λ n. fill n ss) (sym l.long)
            ∙ fill_whole ss,
        record { long = l.long; root = ap (empty_tree_hash hash_merge) deep ∙ l.root },
      )

  siblings_along-LeadsTo :
      (n : Node) (bits : Bytes)
      → IsClean hash_merge (suc (length bits)) n
      → (ss : List ℕ) × (siblings_along hash_merge n bits ≡ some ss)
        × LeadsTo bits (slot n bits) ss (hash hash_merge n)
  unfolding siblings_along
  siblings_along-LeadsTo (leaf e) [] c = ([], refl, record { long = refl; root = refl })
  siblings_along-LeadsTo (leaf e) (b ∷ bits) c = absurd (omega arith)
  siblings_along-LeadsTo (empty d) [] c =
      ([], refl, record { long = refl; root = ap (empty_tree_hash hash_merge) c.0 })
  siblings_along-LeadsTo (empty d) (b ∷ bits) c = empty-LeadsTo d b bits c.0
  siblings_along-LeadsTo (parent l r h dirty) [] c = absurd c
  siblings_along-LeadsTo (parent l r h dirty) (b ∷ bits) (e, cl, cr, m) =
      let (ls, el, left) = siblings_along-LeadsTo l bits cl in
      let (rs, er, right) = siblings_along-LeadsTo r bits cr in
      let whole = turn_merged (slot l bits) (slot r bits) ls rs bits h left.root right.root m in
      let down : Bool → Option (List ℕ) = λ u. elim u as (λ _. Option (List ℕ)) [
        | false ↦ sibling_and hash_merge (hash hash_merge r) (siblings_along hash_merge l bits)
        | true ↦ sibling_and hash_merge (hash hash_merge l) (siblings_along hash_merge r bits)
      ] in
      elim (Bool-cases (b == 1)) [
        | inl t ↦ (
          root_down (slot l bits) ls bits ∷ rs,
          ap down t
              ∙ ap (λ o. sibling_and hash_merge o (siblings_along hash_merge r bits)) left.root
              ∙ ap (sibling_and hash_merge (some (root_down (slot l bits) ls bits))) er,
          record {
            long = ap suc right.long;
            root =
                turned b bits rs (slot l bits) (slot r bits) (root_down (slot l bits) ls bits) h t
                  whole;
          },
        )
        | inr f ↦ (
          root_down (slot r bits) rs bits ∷ ls,
          ap down f
              ∙ ap (λ o. sibling_and hash_merge o (siblings_along hash_merge l bits)) right.root
              ∙ ap (sibling_and hash_merge (some (root_down (slot r bits) rs bits))) el,
          record {
            long = ap suc left.long;
            root =
                unturned b bits ls (slot l bits) (slot r bits) (root_down (slot r bits) rs bits) h f
                  whole;
          },
        )
      ]

  -- In a tree whose hashes are up to date, there is a path for every element. It has one sibling
  -- less than the tree is deep, its root hash is that of the tree, and it proves what stands in the
  -- slot of the element.
  pub path_for-proves :
      {V : Type 0} (depth element : ℕ) (t : Tree V)
      → 1 ≤ depth
      → IsClean hash_merge depth t.node
      → (p : MerklePath) × (path_for hash_merge depth element t ≡ some p)
        × (length p.siblings + 1 ≡ depth)
        × (root_hash hash_merge depth t ≡ some p.root_hash)
        × (proves hash_merge (slot t.node (to_bits (depth - 1) element)) p ≡ true)
  unfolding path_for
  path_for-proves depth element t pos clean =
      let bits = to_bits (depth - 1) element in
      let width = length-to_bits (depth - 1) element in
      let at_depth : depth ≡ suc (length bits) = omega (arith, width) in
      let (ss, e, l) =
        siblings_along-LeadsTo t.node bits
          (subst (λ d. IsClean hash_merge d t.node) at_depth clean) in
      let value = slot t.node bits in
      let long : length (reverse ss) ≡ depth - 1 =
        omega (arith, length-reverse ss, l.long, width) in
      let computed =
        ap
          (λ n.
            compute_merkle_root_from_iter hash_merge value
              (zip (reverse ss) (reverse (to_bits n element))))
          long
        ∙ from_iter-reverse value ss bits l.long in
      (
        record { siblings = reverse ss; element = element; root_hash = root_down value ss bits },
        cc (e, l.root),
        omega (arith, long),
        l.root,
        ap (λ v. v == root_down value ss bits) computed ∙ ==_refl (root_down value ss bits),
      )
