-- ===== src/Smirk/Node/Bottom.antt =====
-- The hash after an insertion at the bottom of the tree
-- (ciphera/pkg/smirk/src/tree/tree_repr.rs).
use zerosats.Prelude.{
  ℕ, ◌-◌, ◌≡◌, refl, sym, ap, subst, ◌∙◌, inl, inr, Bool, true, false, Option, none, some, List, [],
  ◌∷◌, ◌==◌, if◌then◌else◌, arith, Bool-cases, ==_iff,
}
use zerosats.Prelude.Bits.{to_bits}
use zerosats.Smirk.Node.{
  Node, leaf, empty, Change, insert_change, remove_change, Step, at_most_one, Inserted, hash,
  hash_with_empty, insert_leaf, insert_first, recalculate_hashes, find_handle, any_bits,
  insert_at_leaf, changed_leaf, insert_collision, found_at_leaf,
}
use zerosats.Smirk.Node.Clean.{IsClean, IsRehashed}

module _ (hash_merge : ℕ → ℕ → ℕ) (depth : ℕ) where
  -- A new node at the bottom
  bottom :
      (old new : Node) (b : Bool) (h : Option ℕ)
      → IsClean hash_merge 1 new
      → recalculate_hashes hash_merge new ≡ some new
      → hash hash_merge new ≡ h
      → (b ≡ false → hash hash_merge new ≡ hash hash_merge old)
      → IsRehashed hash_merge 1 old new b h
  bottom old new b h c r s u = record {
    after = new;
    recalculated = r;
    clean = c;
    same = s;
    unchanged = λ e. (c, u e);
  }

  -- An element without its change in the list is no success.
  pub not_ok :
      (e : ℕ) (x : Option ℕ) (t : Bool) (n : Node) (b : Bool)
      → (elim t as (λ _. Option Inserted) [
        | true ↦ insert_collision hash_merge depth e x
        | false ↦ none
      ])
        ≡ some (n, inr b)
      → ⊥
  not_ok e none true n b h = cc
  not_ok e (some x) true n b h = cc
  not_ok e x false n b h = cc

  found_lem :
      (e : ℕ) (c : Step) (ch : Change) (n : Node) (b : Bool)
      → e ≡ c.element
      → some (found_at_leaf hash_merge depth e ch) ≡ some (n, inr b)
      → IsRehashed hash_merge 1 (leaf e) n b (elim ch [
        | insert_change ↦ some c.element
        | remove_change ↦ if e == c.element then some 0 else some e
      ])
  unfolding recalculate_hashes
  found_lem e c insert_change n b s h =
      let at : leaf e ≡ n = cc h in
      subst (λ n. IsRehashed hash_merge 1 (leaf e) n b (some c.element)) at
        (bottom (leaf e) (leaf e) b (some c.element) refl refl (ap some s) (λ _. refl))
  found_lem e c remove_change n b s h =
      let at : empty 1 ≡ n = cc h in
      let gone : true ≡ b = cc h in
      subst (λ n. IsRehashed hash_merge 1 (leaf e) n b (if e == c.element then some 0 else some e))
        at
        (bottom (leaf e) (empty 1) b (if e == c.element then some 0 else some e) (refl, omega arith)
          refl (ground (arith, s)) (λ f. absurd (cc)))

  pub leaf_lem :
      (e : ℕ) (cs : List Step) (n : Node) (b : Bool)
      → at_most_one cs ≡ true
      → insert_leaf hash_merge depth e cs ≡ some (n, inr b)
      → IsRehashed hash_merge 1 (leaf e) n b (changed_leaf hash_merge e cs)
  leaf_lem e [] n b one h = absurd (cc)
  leaf_lem e (c ∷ d ∷ cs) n b one h = absurd (cc)
  leaf_lem e (c ∷ []) n b one h = elim (Bool-cases (e == c.element)) [
    | inl t ↦ found_lem e c c.change n b ((==_iff e c.element).0 t) (
        sym (ap (λ u. insert_at_leaf hash_merge depth e (c ∷ []) (if u then some c else none)) t)
        ∙ h)
    | inr f ↦ absurd (
        not_ok e (find_handle (depth - 1) e (c ∷ [])) (any_bits (to_bits (depth - 1) e) (c ∷ [])) n
          b
          (sym (ap (λ u. insert_at_leaf hash_merge depth e (c ∷ []) (if u then some c else none)) f)
            ∙ h))
  ]

  first_lem :
      (c : Step) (ch : Change) (n : Node) (b : Bool)
      → some (elim ch as (λ _. Inserted) [
        | insert_change ↦ (leaf c.element, inr true)
        | remove_change ↦ (empty 1, inr false)
      ])
        ≡ some (n, inr b)
      → IsRehashed hash_merge 1
          (empty 1)
          n
          b
          (elim ch [ insert_change ↦ some c.element | remove_change ↦ some 0 ])
  unfolding recalculate_hashes
  first_lem c insert_change n b h =
      let at : leaf c.element ≡ n = cc h in
      let new : true ≡ b = cc h in
      subst (λ n. IsRehashed hash_merge 1 (empty 1) n b (some c.element)) at
        (bottom (empty 1) (leaf c.element) b (some c.element) refl refl refl (λ f. absurd (cc)))
  first_lem c remove_change n b h =
      let at : empty 1 ≡ n = cc h in
      subst (λ n. IsRehashed hash_merge 1 (empty 1) n b (some 0)) at
        (bottom (empty 1) (empty 1) b (some 0) (refl, omega arith) refl refl (λ f. refl))

  pub first_place_lem :
      (cs : List Step) (n : Node) (b : Bool)
      → insert_first cs ≡ some (n, inr b)
      → IsRehashed hash_merge 1 (empty 1) n b (hash_with_empty hash_merge 1 cs 0)
  unfolding hash_with_empty
  first_place_lem [] n b h = absurd (cc)
  first_place_lem (c ∷ d ∷ cs) n b h = absurd (cc)
  first_place_lem (c ∷ []) n b h = first_lem c c.change n b h
