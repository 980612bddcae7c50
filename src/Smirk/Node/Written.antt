-- ===== src/Smirk/Node/Written.antt =====
-- What an insertion into a node puts at the end of a path
-- (ciphera/pkg/smirk/src/tree/tree_repr.rs).
use zerosats.Prelude.{
  ℕ, suc, ◌-◌, ◌≡◌, refl, sym, ap, subst, ◌∙◌, inl, inr, Bool, true, false, Option, none, some,
  List, [], ◌∷◌, ◌==◌, if◌then◌else◌, ◌>>=◌, >>=-eq-some, length, arith, Bool-cases, ==_iff,
}
use zerosats.Prelude.Bytes.{Bytes}
use zerosats.Prelude.Bits.{to_bits}
use zerosats.Smirk.Node.{
  Node, leaf, empty, parent, Change, insert_change, remove_change, Step, null_hash, split,
  at_most_one, Inserted, insert_parent, insert_first, insert_empty, insert_leaf, insert_at_leaf,
  found_at_leaf, find_handle, any_bits, insert_without_hashing, hash, merge_hashes,
  recalculate_hashes,
}
use zerosats.Smirk.Node.Clean.{Fits, IsClean, empty_tree_hash-total}
use zerosats.Smirk.Node.Bottom.{not_ok}
use zerosats.Smirk.Node.Slots.{slot, first, change_at, Puts, Writes, turn-Writes}

first-Writes :
    (cs : List Step) (n : Node) (b : Bool)
    → insert_first cs ≡ some (n, inr b)
    → Writes (first cs) null_hash (slot n [])
first-Writes [] n b h = absurd (cc)
first-Writes (c ∷ d ∷ cs) n b h = absurd (cc)
first-Writes (c ∷ []) n b h = (inl refl, go c.change h)
  where
    go :
        (ch : Change)
        → some (elim ch as (λ _. Inserted) [
          | insert_change ↦ (leaf c.element, inr true)
          | remove_change ↦ (empty 1, inr false)
        ])
          ≡ some (n, inr b)
        → Puts ch c.element (slot n [])
    go insert_change e = let at : n ≡ leaf c.element = cc e in ap (λ n. slot n []) at
    go remove_change e = let at : n ≡ empty 1 = cc e in ap (λ n. slot n []) at

module _ (hash_merge : ℕ → ℕ → ℕ) (depth : ℕ) where
  found-Writes :
      (e : ℕ) (ch : Change) (n : Node) (b : Bool)
      → some (found_at_leaf hash_merge depth e ch) ≡ some (n, inr b)
      → Puts ch e (slot n [])
  found-Writes e insert_change n b h = let at : n ≡ leaf e = cc h in ap (λ n. slot n []) at
  found-Writes e remove_change n b h = let at : n ≡ empty 1 = cc h in ap (λ n. slot n []) at

  leaf-Writes :
      (e : ℕ) (cs : List Step) (n : Node) (b : Bool)
      → at_most_one cs ≡ true
      → insert_leaf hash_merge depth e cs ≡ some (n, inr b)
      → Writes (first cs) e (slot n [])
  leaf-Writes e [] n b one h = absurd (cc)
  leaf-Writes e (c ∷ d ∷ cs) n b one h = absurd (cc)
  leaf-Writes e (c ∷ []) n b one h = elim (Bool-cases (e == c.element)) [
    | inl t ↦
        let same = (==_iff e c.element).0 t in
        let run =
          sym (ap (λ u. insert_at_leaf hash_merge depth e (c ∷ []) (if u then some c else none)) t)
          ∙ h in
        (inr same, subst (λ x. Puts c.change x (slot n [])) same (found-Writes e c.change n b run))
    | inr f ↦ absurd (
        not_ok hash_merge depth e (find_handle (depth - 1) e (c ∷ []))
          (any_bits (to_bits (depth - 1) e) (c ∷ [])) n b
          (sym (ap (λ u. insert_at_leaf hash_merge depth e (c ∷ []) (if u then some c else none)) f)
            ∙ h))
  ]

  same_slots : (b : ℕ) → null_hash ≡ (if b == 1 then null_hash else null_hash)
  same_slots b = ground arith

  insert_empty-Writes :
      (bits : Bytes) (path_depth : ℕ) (cs : List Step)
      → Fits (suc (length bits)) path_depth cs
      → (n : Node) (u : Bool)
      → insert_empty hash_merge (suc (length bits)) cs path_depth ≡ some (n, inr u)
      → Writes (change_at bits path_depth cs) null_hash (slot n bits)
  unfolding insert_empty
  insert_empty-Writes [] path_depth cs fits n u h = first-Writes cs n u h
  insert_empty-Writes (b ∷ bits) path_depth cs (ls, rs, halves, fl, fr) n u h =
      let child = empty (suc (length bits)) in
      let to_child : List Step → Option Inserted =
        λ xs. insert_empty hash_merge (suc (length bits)) xs (suc path_depth) in
      let (m, e) = empty_tree_hash-total hash_merge (suc (length bits)) in
      let run : insert_parent child child m false to_child to_child (ls, rs) ≡ some (n, inr u) =
        sym (
          ap
            (λ (o : Option ℕ). (do
              x ← o
              xs ← split path_depth cs
              insert_parent child child x false to_child to_child xs))
            e
          ∙ ap
              (λ (o : Option (List Step × List Step)). (do
                xs ← o
                insert_parent child child m false to_child to_child xs))
              halves)
        ∙ h in
      subst (λ x. Writes (change_at (b ∷ bits) path_depth cs) x (slot n (b ∷ bits)))
        (sym (same_slots b))
        (turn-Writes child child m false to_child to_child ls rs cs b bits path_depth halves
          (insert_empty-Writes bits (suc path_depth) ls fl)
          (insert_empty-Writes bits (suc path_depth) rs fr) n u run)

  -- After an insertion of changes of which at most one comes to each place, there stands at the end
  -- of each path what the change that comes there has put, or what stood there if none comes.
  pub insert_without_hashing-Writes :
      (bits : Bytes) (path_depth : ℕ) (old : Node) (cs : List Step)
      → IsClean hash_merge (suc (length bits)) old
      → Fits (suc (length bits)) path_depth cs
      → (n : Node) (u : Bool)
      → insert_without_hashing hash_merge depth old cs path_depth ≡ some (n, inr u)
      → Writes (change_at bits path_depth cs) (slot old bits) (slot n bits)
  unfolding insert_without_hashing
  insert_without_hashing-Writes [] path_depth (leaf e) cs c fits n u h = leaf-Writes e cs n u fits h
  insert_without_hashing-Writes (b ∷ bits) path_depth (leaf e) cs c fits n u h =
      absurd (omega arith)
  insert_without_hashing-Writes bits path_depth (empty k) cs c fits n u h =
      insert_empty-Writes bits path_depth cs fits n u
        (sym (ap (λ k. insert_empty hash_merge k cs path_depth) c.0) ∙ h)
  insert_without_hashing-Writes [] path_depth (parent l r m dirty) cs c fits n u h = absurd c
  insert_without_hashing-Writes (b ∷ bits) path_depth (parent l r m dirty) cs c
        (ls, rs, halves, fl, fr) n u h =
      let to_left : List Step → Option Inserted =
        λ xs. insert_without_hashing hash_merge depth l xs (suc path_depth) in
      let to_right : List Step → Option Inserted =
        λ xs. insert_without_hashing hash_merge depth r xs (suc path_depth) in
      turn-Writes l r m dirty to_left to_right ls rs cs b bits path_depth halves
        (insert_without_hashing-Writes bits (suc path_depth) l ls c.1 fl)
        (insert_without_hashing-Writes bits (suc path_depth) r rs c.2 fr) n u
        (sym (
            ap
              (λ (o : Option (List Step × List Step)). (do
                xs ← o
                insert_parent l r m dirty to_left to_right xs))
              halves)
          ∙ h)

  slot-parent :
      (l l' r r' : Node) (m m' : ℕ) (bits : Bytes)
      → ((bits : Bytes) → slot l' bits ≡ slot l bits)
      → ((bits : Bytes) → slot r' bits ≡ slot r bits)
      → slot (parent l' r' m' false) bits ≡ slot (parent l r m true) bits
  slot-parent l l' r r' m m' [] f g = refl
  slot-parent l l' r r' m m' (b ∷ bits) f g = cc (f bits, g bits)

  -- New hashes change no slot.
  pub slot-recalculate_hashes :
      (n n' : Node) (bits : Bytes)
      → recalculate_hashes hash_merge n ≡ some n'
      → slot n' bits ≡ slot n bits
  unfolding recalculate_hashes
  slot-recalculate_hashes (leaf e) n' bits h =
      let at : n' ≡ leaf e = cc h in ap (λ n. slot n bits) at
  slot-recalculate_hashes (empty k) n' bits h =
      let at : n' ≡ empty k = cc h in ap (λ n. slot n bits) at
  slot-recalculate_hashes (parent l r m false) n' bits h =
      let at : n' ≡ parent l r m false = cc h in ap (λ n. slot n bits) at
  slot-recalculate_hashes (parent l r m true) n' bits h =
      let (l', el, q) = >>=-eq-some (recalculate_hashes hash_merge l) _ h in
      let (r', er, q') = >>=-eq-some (recalculate_hashes hash_merge r) _ q in
      let (m', _, q'') =
        >>=-eq-some (merge_hashes hash_merge (hash hash_merge l') (hash hash_merge r')) _ q' in
      let at : n' ≡ parent l' r' m' false = cc q'' in
      ap (λ n. slot n bits) at
      ∙ slot-parent l l' r r' m m' bits (λ bits. slot-recalculate_hashes l l' bits el)
          (λ bits. slot-recalculate_hashes r r' bits er)
