-- ===== src/Smirk/Tree/Content.antt =====
-- The leaves of the tree are its entries, and an insertion keeps them so
-- (ciphera/pkg/smirk/src/tree/{mod,batch,raw_api}.rs).
use zerosats.Prelude.{
  ℕ, ◌+◌, ◌-◌, ◌≤◌, ◌<◌, ◌≡◌, ◌≢◌, refl, sym, ap, subst, ◌∙◌, ◌⊎◌, inl, inr, true, false, ◌||◌,
  ◌&&◌, not, Option, List, [], ◌∷◌, ◌++◌, All, elem, elem-append, count, ◌==◌, ==_iff, length,
  arith, Bool-cases,
}
use zerosats.Prelude.Bytes.{Bytes}
use zerosats.Prelude.Bits.{to_bits, length-to_bits, to_bits-le, to_bits_injective}
use zerosats.Prelude.Maps.{Map, contains_key, get-insert, get-remove}
use zerosats.Prelude.Maps as Maps
use zerosats.Smirk.Batch.{lsb, elements_of}
use zerosats.Smirk.Batch.Valid.{handles}
use zerosats.Smirk.Node.{Step, null_hash}
use zerosats.Smirk.Node.Slots.{slot, change_at, Writes}
use zerosats.Smirk.Tree.{Tree, contains_element, changes, insert_entries, remove_entries}
use zerosats.Smirk.Tree.Arrivals.{Arrival, stays, puts, takes, changes-Arrival}

module _ {V : Type 0} where
  contains_key-insert_entries :
      (e : ℕ) (es : List (ℕ × V)) (m : Map V)
      → contains_key e (insert_entries es m) ≡ (elem e (elements_of es) || contains_key e m)
  contains_key-insert_entries e [] m = refl
  contains_key-insert_entries e ((x, v) ∷ es) m =
      ground (arith, contains_key-insert_entries e es (Maps.insert x v m), get-insert e x v m)

  contains_key-remove_entries :
      (e : ℕ) (es : List ℕ) (m : Map V)
      → contains_key e (remove_entries es m) ≡ (not (elem e es) && contains_key e m)
  contains_key-remove_entries e [] m = refl
  contains_key-remove_entries e (x ∷ es) m =
      ground (arith, contains_key-remove_entries e es (Maps.remove x m), get-remove e x m)

module _ (depth : ℕ) where
  pub count_handle :
      (e : ℕ) (es : List ℕ) → elem e es ≡ true → 0 < count (lsb (depth - 1) e) (handles depth es)
  count_handle e [] h = absurd (cc)
  count_handle e (x ∷ es) h = elim (Bool-cases (e == x)) [
    | inl t ↦ let same = (==_iff e x).0 t in ground (arith, ap (lsb (depth - 1)) same)
    | inr f ↦ ground (arith, count_handle e es (ground (arith, f, h)))
  ]

  -- Two elements with the same path, where no two have the same handle
  same_element :
      (a b : ℕ) (es : List ℕ)
      → elem a es ≡ true
      → elem b es ≡ true
      → lsb (depth - 1) a ≡ lsb (depth - 1) b
      → count (lsb (depth - 1) a) (handles depth es) ≤ 1
      → a ≡ b
  same_element a b [] ha hb e once = absurd (cc)
  same_element a b (x ∷ es) ha hb e once = elim (Bool-cases (a == x)) [
    | inl t ↦ elim (Bool-cases (b == x)) [
      | inl u ↦ (==_iff a x).0 t ∙ sym ((==_iff b x).0 u)
      | inr g ↦
          let there = count_handle b es (ground (arith, g, hb)) in
          let here = ap (lsb (depth - 1)) ((==_iff a x).0 t) in
          absurd (ground (arith, there, here, e, once))
    ]
    | inr f ↦ elim (Bool-cases (b == x)) [
      | inl u ↦
          let there = count_handle a es (ground (arith, f, ha)) in
          let here = ap (lsb (depth - 1)) ((==_iff b x).0 u) in
          absurd (ground (arith, there, here, e, once))
      | inr g ↦
          same_element a b es (ground (arith, f, ha)) (ground (arith, g, hb)) e
            (ground (arith, once))
    ]
  ]

  module _ {V : Type 0} where
    -- An element that the entries contain stands at the end of its path, and at the end of a path
    -- there stands the null hash or an element of the entries with this path.
    pub record IsFaithful (t : Tree V) : Type 0 where
      pub not_null : contains_element null_hash t ≡ false
      pub kept : (e : ℕ) → contains_element e t ≡ true → slot t.node (to_bits (depth - 1) e) ≡ e
      pub only :
          (bits : Bytes)
          → length bits ≡ depth - 1
          → All (λ b. b ≤ 1) bits
          → (slot t.node bits ≡ null_hash)
            ⊎ ((contains_element (slot t.node bits) t ≡ true)
                × (to_bits (depth - 1) (slot t.node bits) ≡ bits))

    -- The changes of a batch, made to a tree whose leaves are its entries
    module _ (t : Tree V) (es : List (ℕ × V)) (rs : List ℕ) (new : Tree V)
        (once : (l : ℕ) → count l (handles depth (elements_of es)) + count l (handles depth rs) ≤ 1)
        (no_null : elem null_hash (elements_of es ++ rs) ≡ false)
        (entries : new.entries ≡ remove_entries rs (insert_entries es t.entries))
        (writes : (bits : Bytes)
          → length bits ≡ depth - 1
          → Writes
              (change_at bits 0 (changes depth (elements_of es) rs))
              (slot t.node bits)
              (slot new.node bits))
        (f : IsFaithful t) where
      pub contains_new :
          (e : ℕ)
          → contains_element e new
            ≡ (not (elem e rs) && (elem e (elements_of es) || contains_element e t))
      contains_new e =
          ap (contains_key e) entries
          ∙ contains_key-remove_entries e rs (insert_entries es t.entries)
          ∙ ap (λ x. not (elem e rs) && x) (contains_key-insert_entries e es t.entries)

      not_both :
          (a b : ℕ)
          → elem a (elements_of es) ≡ true
          → elem b rs ≡ true
          → to_bits (depth - 1) a ≡ to_bits (depth - 1) b
          → ⊥
      not_both a b ha hb e =
          let same : lsb (depth - 1) a ≡ lsb (depth - 1) b = to_bits_injective (depth - 1) a b e in
          let there =
            subst (λ l. 0 < count l (handles depth rs)) (sym same) (count_handle b rs hb) in
          omega (arith, once (lsb (depth - 1) a), count_handle a (elements_of es) ha, there)

      inserted_once :
          (a b : ℕ)
          → elem a (elements_of es) ≡ true
          → elem b (elements_of es) ≡ true
          → to_bits (depth - 1) a ≡ to_bits (depth - 1) b
          → a ≡ b
      inserted_once a b ha hb e =
          same_element a b (elements_of es) ha hb (to_bits_injective (depth - 1) a b e)
            (omega (arith, once (lsb (depth - 1) a)))

      new_kept_at :
          (e : ℕ) (o : Option Step) (old now : ℕ)
          → Arrival depth (elements_of es) rs (to_bits (depth - 1) e) o
          → Writes o old now
          → elem e rs ≡ false
          → ((elem e (elements_of es) ≡ true) ⊎ ((e ≢ null_hash) × (old ≡ e)))
          → now ≡ e
      new_kept_at e o old now (stays q no_inserts no_removes) w r (inl i) =
          absurd (no_inserts e i refl)
      new_kept_at e o old now (stays q no_inserts no_removes) w r (inr (n, at)) =
          subst (λ o. Writes o old now) q w ∙ at
      new_kept_at e o old now (puts x q h path) w r (inl i) =
          (subst (λ o. Writes o old now) q w).1 ∙ inserted_once x e h i path
      new_kept_at e o old now (puts x q h path) w r (inr (n, at)) =
          elim (subst (λ o. Writes o old now) q w).0 [
            | inl z ↦ absurd (n (sym at ∙ z))
            | inr s ↦ (subst (λ o. Writes o old now) q w).1 ∙ sym s ∙ at
          ]
      new_kept_at e o old now (takes x q h path) w r (inl i) = absurd (not_both e x i h (sym path))
      new_kept_at e o old now (takes x q h path) w r (inr (n, at)) =
          elim (subst (λ o. Writes o old now) q w).0 [
            | inl z ↦ absurd (n (sym at ∙ z))
            | inr s ↦ absurd (cc (subst (λ x. elem x rs ≡ true) (sym s ∙ at) h, r))
          ]

      new_only_at :
          (bits : Bytes) (o : Option Step) (old now : ℕ)
          → Arrival depth (elements_of es) rs bits o
          → Writes o old now
          → (old ≡ null_hash) ⊎ ((contains_element old t ≡ true) × (to_bits (depth - 1) old ≡ bits))
          → (now ≡ null_hash)
            ⊎ ((contains_element now new ≡ true) × (to_bits (depth - 1) now ≡ bits))
      new_only_at bits o old now (stays q no_inserts no_removes) w (inl z) =
          inl (subst (λ o. Writes o old now) q w ∙ z)
      new_only_at bits o old now (stays q no_inserts no_removes) w (inr (c, path)) =
          elim (Bool-cases (elem old rs)) [
            | inl r ↦ absurd (no_removes old r path)
            | inr r ↦ inr (
                subst (λ x. (contains_element x new ≡ true) × (to_bits (depth - 1) x ≡ bits))
                  (sym (subst (λ o. Writes o old now) q w))
                  (ground (arith, contains_new old, r, c), path))
          ]
      new_only_at bits o old now (puts x q h path) w before = elim (Bool-cases (elem x rs)) [
        | inl r ↦ absurd (not_both x x h r refl)
        | inr r ↦ inr (
            subst (λ x. (contains_element x new ≡ true) × (to_bits (depth - 1) x ≡ bits))
              (sym (subst (λ o. Writes o old now) q w).1)
              (ground (arith, contains_new x, r, h), path))
      ]
      new_only_at bits o old now (takes x q h path) w before =
          inl (subst (λ o. Writes o old now) q w).1

      -- The leaves are the entries again.
      pub changed-IsFaithful : IsFaithful new
      changed-IsFaithful = record {
        not_null = ground (
          arith,
          contains_new null_hash,
          f.not_null,
          elem-append null_hash (elements_of es) rs,
          no_null,
        );
        kept = λ e held.
            let width = length-to_bits (depth - 1) e in
            let arrives =
              changes-Arrival depth (elements_of es) rs (to_bits (depth - 1) e) once width
                (to_bits-le (depth - 1) e) in
            let was : contains_element e t ≡ true
                → (e ≢ null_hash) × (slot t.node (to_bits (depth - 1) e) ≡ e) =
              λ c. (
                (λ z. absurd (cc (f.not_null, subst (λ x. contains_element x t ≡ true) z c))),
                f.kept e c,
              ) in
            elim (Bool-cases (elem e rs)) [
              | inl r ↦ absurd (ground (arith, contains_new e, held, r))
              | inr r ↦
                  new_kept_at e _ _ _ arrives (writes (to_bits (depth - 1) e) width) r
                    (elim (Bool-cases (elem e (elements_of es))) [
                      | inl i ↦ inl i
                      | inr i ↦ inr (was (ground (arith, contains_new e, held, r, i)))
                    ])
            ];
        only = λ bits width le.
            new_only_at bits _ _ _ (changes-Arrival depth (elements_of es) rs bits once width le)
              (writes bits width) (f.only bits width le);
      }
