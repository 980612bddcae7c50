-- ===== src/Smirk/Tree/Suited.antt =====
-- When a batch suits a tree, and what then comes to its nodes
-- (ciphera/pkg/smirk/src/tree/{batch,raw_api}.rs).
use zerosats.Prelude.{
  ℕ, ◌+◌, ◌-◌, ◌≤◌, ◌≡◌, refl, sym, ap, subst, ◌∙◌, inl, inr, true, false, none, List, [], ◌∷◌,
  ◌++◌, map, All, elem, elem-append, count, count-eq-zero, ◌==◌, ==_iff, arith, Bool-cases,
}
use zerosats.Prelude.Bits.{to_bits_injective}
use zerosats.Prelude.Maps.{Map, contains_key}
use zerosats.Smirk.Batch.{lsb}
use zerosats.Smirk.Batch.Valid.{handles}
use zerosats.Smirk.Node.{Step, insert_change, remove_change, no_changes, null_hash}
use zerosats.Smirk.Node.Progress.{Meets, IsReady}
use zerosats.Smirk.Node.Slots.{slot, change_at}
use zerosats.Smirk.Tree.{
  Tree, contains_element, keys_of, sort, sort_insert, change_with_bits, changes, first_held,
  first_missing, is_nil,
}
use zerosats.Smirk.Tree.Arrivals.{Arrival, stays, puts, takes, changes-Arrival}
use zerosats.Smirk.Tree.Content.{IsFaithful, count_handle}

no_changes-sort_insert : (c : Step) (ds : List Step) → no_changes (sort_insert c ds) ≡ false
no_changes-sort_insert c [] = refl
no_changes-sort_insert c (d ∷ ds) = ground arith

pub no_changes-changes :
    (depth : ℕ) (inserts removes : List ℕ)
    → is_nil (inserts ++ removes) ≡ false
    → no_changes (changes depth inserts removes) ≡ false
no_changes-changes depth [] [] h = absurd (cc)
no_changes-changes depth [] (e ∷ removes) h =
    no_changes-sort_insert (change_with_bits depth remove_change e)
      (sort (map (change_with_bits depth remove_change) removes))
no_changes-changes depth (e ∷ inserts) removes h =
    no_changes-sort_insert (change_with_bits depth insert_change e) (
      sort (
        map (change_with_bits depth insert_change) inserts
        ++ map (change_with_bits depth remove_change) removes))

pub All-elem : (P : ℕ → Type 0) (e : ℕ) (es : List ℕ) → All P es → elem e es ≡ true → P e
All-elem P e [] a h = absurd (cc)
All-elem P e (x ∷ es) a h = elim (Bool-cases (e == x)) [
  | inl t ↦ subst P (sym ((==_iff e x).0 t)) a.0
  | inr f ↦ All-elem P e es a.1 (ground (arith, f, h))
]

module _ (depth : ℕ) where
  pub elem-handles :
      (e : ℕ) (es : List ℕ) → elem e es ≡ true → elem (lsb (depth - 1) e) (handles depth es) ≡ true
  elem-handles e es h = elim (Bool-cases (elem (lsb (depth - 1) e) (handles depth es))) [
    | inl t ↦ t
    | inr f ↦ absurd (
        omega (
          arith,
          count_handle depth e es h,
          count-eq-zero (lsb (depth - 1) e) (handles depth es) f,
        ))
  ]

module _ {V : Type 0} where
  pub elem-keys_of : (e : ℕ) (m : Map V) → elem e (keys_of m) ≡ contains_key e m
  elem-keys_of e [] = refl
  elem-keys_of e ((x, v) ∷ m) = ground (arith, elem-keys_of e m)

  pub first_held-eq-none :
      (m : Map V) (es : List ℕ)
      → ((e : ℕ) → elem e es ≡ true → contains_key e m ≡ false)
      → first_held m es ≡ none
  first_held-eq-none m [] f = refl
  first_held-eq-none m (e ∷ es) f =
      ground (arith, f e (ground arith), first_held-eq-none m es (λ x h. f x (ground (arith, h))))

  pub first_missing-eq-none :
      (m : Map V) (es : List ℕ) → All (λ e. contains_key e m ≡ true) es → first_missing m es ≡ none
  first_missing-eq-none m [] a = refl
  first_missing-eq-none m (e ∷ es) a = ground (arith, a.0, first_missing-eq-none m es a.1)

module _ (depth : ℕ) {V : Type 0} where
  -- The batch fits the tree: no element of the tree has the handle of one that is inserted, those
  -- that are removed are there, and the null hash is not inserted.
  pub record Suits (t : Tree V) (inserts removes : List ℕ) : Type 0 where
    pub apart :
        All (λ x. elem (lsb (depth - 1) x) (handles depth inserts) ≡ false) (keys_of t.entries)
    pub present : All (λ e. contains_element e t ≡ true) removes
    pub not_null : elem null_hash inserts ≡ false

  module _ (t : Tree V) (inserts removes : List ℕ) (f : IsFaithful depth t)
      (suits : Suits t inserts removes) where
    pub not_held :
        (x e : ℕ)
        → contains_element x t ≡ true
        → elem e inserts ≡ true
        → lsb (depth - 1) x ≡ lsb (depth - 1) e
        → ⊥
    not_held x e held h same =
        let here = All-elem _ x (keys_of t.entries) suits.apart (elem-keys_of x t.entries ∙ held) in
        let there = elem-handles depth e inserts h in cc (here, there, same)

    pub none_null : elem null_hash (inserts ++ removes) ≡ false
    none_null = elim (Bool-cases (elem null_hash removes)) [
      | inl r ↦ absurd (cc (f.not_null, All-elem _ null_hash removes suits.present r))
      | inr r ↦ elem-append null_hash inserts removes ∙ cc (suits.not_null, r)
    ]

    -- Each change comes where it can be made.
    pub changes-IsReady :
        ((l : ℕ) → count l (handles depth inserts) + count l (handles depth removes) ≤ 1)
        → IsReady (depth - 1) 0 (changes depth inserts removes) (slot t.node)
    changes-IsReady once bits c width le e =
        at (changes-Arrival depth inserts removes bits once width le)
      where
        at :
            Arrival depth inserts removes bits (change_at bits 0 (changes depth inserts removes))
            → Meets c.change c.element (slot t.node bits)
        at (stays q no_inserts no_removes) = absurd (cc (q, e))
        at (puts x q h path) =
            let same : c ≡ change_with_bits depth insert_change x = cc (q, e) in
            subst (λ (c : Step). Meets c.change c.element (slot t.node bits)) (sym same)
              (elim (f.only bits width le) [
                | inl z ↦ z
                | inr (held, path') ↦ absurd (
                    not_held (slot t.node bits) x held h
                      (to_bits_injective (depth - 1) (slot t.node bits) x (path' ∙ sym path)))
              ])
        at (takes x q h path) =
            let same : c ≡ change_with_bits depth remove_change x = cc (q, e) in
            let held = All-elem _ x removes suits.present h in
            subst (λ (c : Step). Meets c.change c.element (slot t.node bits)) (sym same)
              (
                ap (slot t.node) (sym path) ∙ f.kept x held,
                λ z. absurd (cc (f.not_null, subst (λ x. contains_element x t ≡ true) z held)),
              )
