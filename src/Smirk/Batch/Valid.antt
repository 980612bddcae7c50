-- ===== src/Smirk/Batch/Valid.antt =====
-- When the handles of a batch are those of its elements, and what an insertion and a removal then
-- do (ciphera/pkg/smirk/src/batch/mod.rs).
use zerosats.Prelude.{
  ℕ, ◌+◌, ◌-◌, ◌≤◌, ◌<◌, ◌≡◌, refl, sym, ap, subst, ◌∙◌, ◌⊎◌, inl, inr, ◌||◌, none, some, List, [],
  ◌∷◌, ◌++◌, map, elem, count, set_insert, count-append, ltb, ◌==◌, if◌then◌else◌, arith,
  Bool-cases,
}
use zerosats.Prelude.Filter.{map-append}
use zerosats.Smirk.Batch.{
  lsb, Collision, batch, Checked, ok, err, Batch, elements_of, find_lsb, collide, refuse,
  find_element_with_lsb, added, removed, insert, remove,
}

pub elem-set_insert : (a l : ℕ) (ls : List ℕ) → elem a (set_insert l ls) ≡ (a == l || elem a ls)
elem-set_insert a l ls = ground (arith, λ (e : a ≡ l). ap (λ x. elem x ls) e)

module _ (depth : ℕ) where
  abbrev pub handles : List ℕ → List ℕ
  handles es = map (lsb (depth - 1)) es

  -- A handle of an element is found, and no other.
  pub find_lsb-some :
      (l : ℕ) (es : List ℕ)
      → 0 < count l (handles es)
      → (e : ℕ) × (find_lsb depth l es ≡ some e) × (lsb (depth - 1) e ≡ l)
  find_lsb-some l [] h = absurd (omega arith)
  find_lsb-some l (e ∷ es) h = elim (Bool-cases (lsb (depth - 1) e == l)) [
    | inl t ↦ (e, ap (λ b. if b then some e else find_lsb depth l es) t, ground (arith, t))
    | inr f ↦
        let (x, found, same) = find_lsb-some l es (ground (arith, f)) in
        (x, ap (λ b. if b then some e else find_lsb depth l es) f ∙ found, same)
  ]

  pub find_lsb-none : (l : ℕ) (es : List ℕ) → count l (handles es) ≡ 0 → find_lsb depth l es ≡ none
  find_lsb-none l [] h = refl
  find_lsb-none l (e ∷ es) h = ground (arith, find_lsb-none l es)

  pub count-handles_append :
      (l : ℕ) (xs ys : List ℕ)
      → count l (handles (xs ++ ys)) ≡ count l (handles xs) + count l (handles ys)
  count-handles_append l xs ys =
      ap (count l) (map-append (lsb (depth - 1)) xs ys) ∙ count-append l (handles xs) (handles ys)

  -- One collision, of elements with the same handle
  abbrev pub Collides {ℓ} : {A : Type ℓ} → ℕ → Checked A → Type ℓ
  Collides e r =
      (c : Collision) × (r ≡ err (c ∷ []))
      × (c.inserted ≡ e)
      × (lsb (depth - 1) c.in_tree ≡ lsb (depth - 1) e)

  module _ {V : Type 0} where
    -- How many elements of the batch have the handle
    abbrev pub times : ℕ → Batch V → ℕ
    times l b = count l (handles (elements_of b.entries)) + count l (handles b.remove_entries)

    -- No two elements of the batch have the same handle.
    abbrev pub IsApart : Batch V → Type 0
    IsApart b = (l : ℕ) → times l b ≤ 1

    -- The handle set is that of the elements as well.
    pub record IsConsistent (b : Batch V) : Type 0 where
      pub noted : (l : ℕ) → elem l b.lsbs ≡ ltb 0 (times l b)
      pub once : (l : ℕ) → times l b ≤ 1

    pub times-added :
        (l e : ℕ) (v : V) (b : Batch V)
        → times l (added depth e v b) ≡ (if l == lsb (depth - 1) e then 1 else 0) + times l b
    times-added l e v b = omega (
      arith,
      ap (λ es. count l (handles es))
          (map-append (λ (entry : ℕ × V). entry.0) b.entries ((e, v) ∷ [])),
      count-handles_append l (elements_of b.entries) (e ∷ []),
    )

    pub times-removed :
        (l e : ℕ) (b : Batch V)
        → times l (removed depth e b) ≡ (if l == lsb (depth - 1) e then 1 else 0) + times l b
    times-removed l e b = omega (arith, count-handles_append l b.remove_entries (e ∷ []))

    -- A batch with a new handle is consistent again.
    noted_again :
        (e : ℕ) (b b' : Batch V)
        → IsConsistent b
        → times (lsb (depth - 1) e) b ≡ 0
        → b'.lsbs ≡ set_insert (lsb (depth - 1) e) b.lsbs
        → ((l : ℕ) → times l b' ≡ (if l == lsb (depth - 1) e then 1 else 0) + times l b)
        → IsConsistent b'
    noted_again e b b' c new ls t = record {
      noted = λ l.
          ap (elem l) ls
          ∙ elem-set_insert l (lsb (depth - 1) e) b.lsbs
          ∙ ground (arith, c.noted l, t l, new);
      once = λ l. ground (arith, c.once l, t l, new);
    }

    refuse-Collides :
        {A : Type 0} (e : ℕ) (b : Batch V)
        → 0 < times (lsb (depth - 1) e) b
        → Collides e (
            refuse depth {A = A}
              (collide depth e (find_element_with_lsb depth (lsb (depth - 1) e) b)))
    refuse-Collides e b h =
        let (x, found, same) =
          find_lsb-some (lsb (depth - 1) e) (elements_of b.entries ++ b.remove_entries) (
            omega (
              arith,
              count-handles_append (lsb (depth - 1) e) (elements_of b.entries) b.remove_entries,
            )) in
        (
          record { in_tree = x; inserted = e; depth = depth; struct_name = batch },
          ap (λ o. refuse depth (collide depth e o)) found,
          refl,
          same,
        )

    -- A test of the handle, and what each answer leads to
    step_lem :
        {A : Type 0} (e : ℕ) (b : Batch V) (r : Checked A)
        → IsConsistent b
        → let l = lsb (depth - 1) e in
          let s =
            if elem l b.lsbs
            then refuse depth (collide depth e (find_element_with_lsb depth l b))
            else r in
          ((times l b ≡ 0) × (s ≡ r)) ⊎ ((times l b ≡ 1) × Collides e s)
    step_lem e b r c =
        let l = lsb (depth - 1) e in
        let refused = refuse depth (collide depth e (find_element_with_lsb depth l b)) in
        elim (Bool-cases (elem l b.lsbs)) [
          | inl t ↦ inr (
            ground (arith, c.noted l, c.once l, t),
            subst (λ s. Collides e s) (sym (ap (λ b. if b then refused else r) t))
                (refuse-Collides e b (ground (arith, c.noted l, t))),
          )
          | inr f ↦ inl (ground (arith, c.noted l, f), ap (λ b. if b then refused else r) f)
        ]

    -- An insertion takes an element with a new handle and refuses any other.
    pub insert_lem :
        (e : ℕ) (v : V) (b : Batch V)
        → IsConsistent b
        → ((times (lsb (depth - 1) e) b ≡ 0)
            × (insert depth e v b ≡ ok (added depth e v b))
            × IsConsistent (added depth e v b))
          ⊎ ((times (lsb (depth - 1) e) b ≡ 1) × Collides e (insert depth e v b))
    unfolding insert
    insert_lem e v b c = elim (step_lem e b (ok (added depth e v b)) c) [
      | inl (new, q) ↦
          inl (new, q, noted_again e b (added depth e v b) c new refl (λ l. times-added l e v b))
      | inr collides ↦ inr collides
    ]

    pub remove_lem :
        (e : ℕ) (b : Batch V)
        → IsConsistent b
        → ((times (lsb (depth - 1) e) b ≡ 0)
            × (remove depth e b ≡ ok (removed depth e b))
            × IsConsistent (removed depth e b))
          ⊎ ((times (lsb (depth - 1) e) b ≡ 1) × Collides e (remove depth e b))
    unfolding remove
    remove_lem e b c = elim (step_lem e b (ok (removed depth e b)) c) [
      | inl (new, q) ↦
          inl (new, q, noted_again e b (removed depth e b) c new refl (λ l. times-removed l e b))
      | inr collides ↦ inr collides
    ]
