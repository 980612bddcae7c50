-- ===== src/Smirk/Collisions/Fits.antt =====
-- When a batch fits a tree (ciphera/pkg/smirk/src/tree/batch.rs).
use zerosats.Prelude.{
  ℕ, ◌-◌, ◌≡◌, ◌≢◌, ◌↔◌, refl, sym, ap, subst, ◌∙◌, inl, inr, Bool, true, false, Option, none, some,
  List, [], ◌∷◌, ◌++◌, All, elem, ◌==◌, ==_refl, ==_iff, if◌then◌else◌, ◌>>=◌, arith, Bool-cases,
}
use zerosats.Smirk.Batch.{
  lsb, Collision, ok, Batch, insert_elements, remove_elements, extend, find_lsb,
}
use zerosats.Smirk.Batch.Valid.{handles}
use zerosats.Smirk.Batch.Merged.{elem-extend}
use zerosats.Smirk.Collisions.{
  tree_collision, insert_collisions, remove_collisions, answer, check_collisions,
}

-- A collision that is pushed stays.
pushed-ne-nil :
    {A : Type 0} (x : Option A) (rest : Option (List A))
    → (do c ← x; cs ← rest; some (c ∷ cs)) ≢ some []
pushed-ne-nil none rest h = cc
pushed-ne-nil (some c) none h = cc
pushed-ne-nil (some c) (some cs) h = cc

missing-ne-nil :
    {A : Type 0} (temp_noir : Bool) (x : Option A) (rest : Option (List A))
    → (if temp_noir then (do c ← x; cs ← rest; some (c ∷ cs)) else none) ≢ some []
missing-ne-nil true x rest h = pushed-ne-nil x rest h
missing-ne-nil false x rest h = cc

answer_iff :
    (x y : Option (List Collision))
    → (answer (do cs ← x; ds ← y; some (cs ++ ds)) ≡ ok tt) ↔ ((x ≡ some []) × (y ≡ some []))
answer_iff none y = (λ h. absurd (cc), λ h. absurd (cc (h.0)))
answer_iff (some []) none = (λ h. absurd (cc), λ h. absurd (cc (h.1)))
answer_iff (some []) (some []) = (λ h. (refl, refl), λ h. refl)
answer_iff (some []) (some (d ∷ ds)) = (λ h. absurd (cc), λ h. absurd (cc (h.1)))
answer_iff (some (c ∷ cs)) none = (λ h. absurd (cc), λ h. absurd (cc (h.0)))
answer_iff (some (c ∷ cs)) (some ds) = (λ h. absurd (cc), λ h. absurd (cc (h.0)))

-- What holds of the elements of a set holds of those of the list that it is made of.
All_within :
    {P : ℕ → Type 0} (xs ys : List ℕ)
    → ((a : ℕ) → elem a xs ≡ true → elem a ys ≡ true)
    → ((a : ℕ) → elem a ys ≡ true → P a)
    → All P xs
All_within [] ys w p = tt
All_within (x ∷ xs) ys w p =
    (p x (w x (ground (arith, ==_refl x))), All_within xs ys (λ a e. w a (ground (arith, e))) p)

elem-All : (P : ℕ → Type 0) (xs : List ℕ) → All P xs → (a : ℕ) → elem a xs ≡ true → P a
elem-All P [] all a h = absurd (cc)
elem-All P (x ∷ xs) all a h = elim (Bool-cases (a == x)) [
  | inl same ↦ subst P (sym ((==_iff a x).0 same)) all.0
  | inr other ↦ elem-All P xs all.1 a (ground (arith, other, h))
]

module _ (depth : ℕ) {V : Type 0} (b : Batch V) where
  insert_collisions-eq-nil_iff :
      (keys : List ℕ)
      → (insert_collisions depth b keys ≡ some [])
        ↔ All (λ t. elem (lsb (depth - 1) t) (handles depth (insert_elements b)) ≡ false) keys
  unfolding insert_collisions
  insert_collisions-eq-nil_iff [] = (λ h. tt, λ h. refl)
  insert_collisions-eq-nil_iff (t ∷ ts) =
      let found =
        tree_collision depth t
          (find_lsb depth (lsb (depth - 1) t) (insert_elements b ++ remove_elements b)) in
      let rest = insert_collisions depth b ts in
      let pushed = (do c ← found; cs ← rest; some (c ∷ cs)) in
      let (there, back) = insert_collisions-eq-nil_iff ts in
      (
        λ h. elim (Bool-cases (elem (lsb (depth - 1) t) (handles depth (insert_elements b)))) [
          | inl e ↦
              absurd (pushed-ne-nil found rest (sym (ap (λ u. if u then pushed else rest) e) ∙ h))
          | inr e ↦ (e, there (sym (ap (λ u. if u then pushed else rest) e) ∙ h))
        ],
        λ all. ap (λ u. if u then pushed else rest) all.0 ∙ back all.1,
      )

  remove_collisions-eq-nil_iff :
      (temp_noir : Bool) (keys es : List ℕ)
      → (remove_collisions depth temp_noir keys es ≡ some [])
        ↔ All (λ e. elem (lsb (depth - 1) e) (handles depth keys) ≡ true) es
  unfolding remove_collisions
  remove_collisions-eq-nil_iff temp_noir keys [] = (λ h. tt, λ h. refl)
  remove_collisions-eq-nil_iff temp_noir keys (e ∷ es) =
      let rest = remove_collisions depth temp_noir keys es in
      let missing =
        if temp_noir
        then (do c ← tree_collision depth 0 (some e); cs ← rest; some (c ∷ cs))
        else none in
      let (there, back) = remove_collisions-eq-nil_iff temp_noir keys es in
      (
        λ h. elim (Bool-cases (elem (lsb (depth - 1) e) (handles depth keys))) [
          | inl t ↦ (t, there (sym (ap (λ u. if u then rest else missing) t) ∙ h))
          | inr f ↦ absurd (
              missing-ne-nil temp_noir (tree_collision depth 0 (some e)) rest
                (sym (ap (λ u. if u then rest else missing) f) ∙ h))
        ],
        λ all. ap (λ u. if u then rest else missing) all.0 ∙ back all.1,
      )

  -- A batch fits a tree exactly when no element of the tree has the handle of an insertion and each
  -- removal has the handle of an element of the tree. This is so with `TEMP_NOIR` and without: the
  -- two builds differ in the answer for a batch that does not fit.
  pub check_collisions-eq-ok_iff :
      (temp_noir : Bool) (keys : List ℕ)
      → (check_collisions depth temp_noir keys b ≡ ok tt) ↔ (
          All (λ t. elem (lsb (depth - 1) t) (handles depth (insert_elements b)) ≡ false) keys
          × All (λ e. elem (lsb (depth - 1) e) (handles depth keys) ≡ true) (remove_elements b))
  unfolding check_collisions
  check_collisions-eq-ok_iff temp_noir keys =
      let set = extend [] (remove_elements b) in
      let holds : ℕ → Type 0 = λ e. elem (lsb (depth - 1) e) (handles depth keys) ≡ true in
      let (split, join) =
        answer_iff (insert_collisions depth b keys) (remove_collisions depth temp_noir keys set) in
      let (there, back) = insert_collisions-eq-nil_iff keys in
      let (there', back') = remove_collisions-eq-nil_iff temp_noir keys set in
      (
        λ h.
            let (x, y) = split h in
            (
              there x,
              All_within (remove_elements b) set (λ a e. elem-extend a [] (remove_elements b) ∙ e)
                  (elem-All holds set (there' y)),
            ),
        λ all. join (
          back all.0,
          back' (
              All_within set (remove_elements b)
                (λ a e. sym (elem-extend a [] (remove_elements b)) ∙ e)
                (elem-All holds (remove_elements b) all.1)),
        ),
      )
