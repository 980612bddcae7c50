-- ===== src/BlockStore/Listing/Pages.antt =====
-- Pages that follow one another (ciphera/pkg/block-store/src/keys.rs,
-- ciphera/pkg/primitives/src/pagination.rs).
use zerosats.Prelude.{
  ℕ, zero, suc, ◌+◌, ◌≡◌, refl, sym, ap, ◌∙◌, Bool, true, false, Option, none, some, List, [], ◌∷◌,
  ◌++◌, take, drop, filter, All, arith, Option-cases, inl, inr,
}
use zerosats.Prelude.Filter.{filter-filter, take-add, All-reverse}
use zerosats.Pagination.{
  CursorChoice, CursorChoiceAfter, choose_after, choose_before, after, after_inclusive,
}
use zerosats.Pagination.Collected.{positions, last_of}
use zerosats.BlockStore.Listing.{BlockListOrder, lowest_to_highest, highest_to_lowest}
use zerosats.BlockStore.Listing.Whole.{in_order}
use zerosats.BlockStore.Listing.Page.{leads_to, page}
use mathlib.Core.List.{reverse, reverse-cons}

-- The second height comes behind the first.
abbrev pub comes_after : BlockListOrder → ℕ → ℕ → Bool
comes_after order j k = leads_to order (choose_after (after j)) k

abbrev pub AllBehind {ℓ} : {V : Type ℓ} → BlockListOrder → ℕ → List (ℕ × V) → Type 0
AllBehind order k rows = All (λ row. comes_after order k row.0 ≡ true) rows

abbrev pub IsInOrder {ℓ} : {V : Type ℓ} → BlockListOrder → List (ℕ × V) → Type 0
IsInOrder order [] = Unit
IsInOrder order (row ∷ rows) = AllBehind order row.0 rows × IsInOrder order rows

comes_after_trans :
    (order : BlockListOrder) (i j k : ℕ)
    → comes_after order i j ≡ true
    → comes_after order j k ≡ true
    → comes_after order i k ≡ true
comes_after_trans lowest_to_highest i j k p q = ground arith
comes_after_trans highest_to_lowest i j k p q = ground arith

comes_after_asym :
    (order : BlockListOrder) (j k : ℕ)
    → comes_after order j k ≡ true
    → comes_after order k j ≡ false
comes_after_asym lowest_to_highest j k p = ground arith
comes_after_asym highest_to_lowest j k p = ground arith

comes_after_irrefl : (order : BlockListOrder) (k : ℕ) → comes_after order k k ≡ false
comes_after_irrefl lowest_to_highest k = ground arith
comes_after_irrefl highest_to_lowest k = ground arith

-- What lies behind the cursor, in the order that is asked for
abbrev pub behind {ℓ} :
    {V : Type ℓ} → Option (CursorChoice ℕ) → BlockListOrder → List (ℕ × V) → List (ℕ × V)
behind none order rows = in_order order rows
behind (some c) order rows = filter (λ row. leads_to order c row.0) (in_order order rows)

-- The cursor asks for what comes behind it.
abbrev pub IsForward : Option (CursorChoice ℕ) → Type 0
IsForward none = Unit
IsForward (some (choose_after c)) = Unit
IsForward (some (choose_before c)) = ⊥

-- The height of the last row
abbrev pub last_height {ℓ} : {V : Type ℓ} → List (ℕ × V) → Option ℕ
last_height rows = last_of (positions (λ row. some row.0) rows)

-- The height of a last row passes a test that all rows pass.
All-last {ℓ} :
    {V : Type ℓ} (p : ℕ → Bool) (k : ℕ) (rows : List (ℕ × V)) (n : ℕ)
    → All (λ row. p row.0 ≡ true) rows
    → last_height (take n rows) ≡ some k
    → p k ≡ true
All-last p k rows zero a h = cc
All-last p k [] (suc n) a h = cc
All-last p k (row ∷ rows) (suc n) a h = elim (Option-cases (last_height (take n rows))) [
  | inl e ↦ ground (arith, a.0)
  | inr (q, e) ↦ All-last p k rows n a.1 (ground arith)
]

filter-All {ℓ} :
    {V : Type ℓ} (p : ℕ → Bool) (rows : List (ℕ × V))
    → All (λ row. p row.0 ≡ true) (filter (λ row. p row.0) rows)
filter-All p [] = tt
filter-All p (row ∷ rows) = ground (arith, filter-All p rows)

module _ {ℓ} {V : Type ℓ} (order : BlockListOrder) where
  AllBehind-trans :
      (j k : ℕ) (rows : List (ℕ × V))
      → comes_after order j k ≡ true
      → AllBehind order k rows
      → AllBehind order j rows
  AllBehind-trans j k [] h a = tt
  AllBehind-trans j k (row ∷ rows) h a =
      (comes_after_trans order j k row.0 h a.0, AllBehind-trans j k rows h a.1)

  filter_behind :
      (k : ℕ) (rows : List (ℕ × V))
      → AllBehind order k rows
      → filter (λ row. comes_after order k row.0) rows ≡ rows
  filter_behind k [] a = refl
  filter_behind k (row ∷ rows) a = ground (arith, filter_behind k rows a.1, a.0)

  drop-none : (n : ℕ) (rows : List (ℕ × V)) → last_height (take n rows) ≡ none → drop n rows ≡ rows
  drop-none zero rows h = refl
  drop-none (suc n) [] h = refl
  drop-none (suc n) (row ∷ rows) h = elim (Option-cases (last_height (take n rows))) [
    | inl e ↦ ground arith
    | inr (q, e) ↦ ground arith
  ]

  -- Behind the last of the first rows lie the others.
  filter-last :
      (k n : ℕ) (rows : List (ℕ × V))
      → IsInOrder order rows
      → last_height (take n rows) ≡ some k
      → filter (λ row. comes_after order k row.0) rows ≡ drop n rows
  filter-last k zero rows s h = cc
  filter-last k (suc n) [] s h = refl
  filter-last k (suc n) (row ∷ rows) s h = elim (Option-cases (last_height (take n rows))) [
    | inl e ↦
        ground (arith, comes_after_irrefl order k, drop-none n rows e, filter_behind row.0 rows s.0)
    | inr (q, e) ↦ ground (
      arith,
      All-last (comes_after order row.0) k rows n s.0,
      comes_after_asym order row.0 k,
      filter-last k n rows s.1,
    )
  ]

  filter-AllBehind :
      (p : ℕ × V → Bool) (k : ℕ) (rows : List (ℕ × V))
      → AllBehind order k rows
      → AllBehind order k (filter p rows)
  filter-AllBehind p k [] a = tt
  filter-AllBehind p k (row ∷ rows) a = ground (arith, filter-AllBehind p k rows a.1, a.0)

  pub filter-IsInOrder :
      (p : ℕ × V → Bool) (rows : List (ℕ × V))
      → IsInOrder order rows
      → IsInOrder order (filter p rows)
  filter-IsInOrder p [] s = tt
  filter-IsInOrder p (row ∷ rows) s =
      ground (arith, filter-AllBehind p row.0 rows s.0, filter-IsInOrder p rows s.1)

append_last {ℓ} :
    {V : Type ℓ} (order : BlockListOrder) (rows : List (ℕ × V)) (row : ℕ × V)
    → IsInOrder order rows
    → All (λ r. comes_after order r.0 row.0 ≡ true) rows
    → IsInOrder order (rows ++ row ∷ [])
append_last {V} order [] row s a = (tt, tt)
append_last {V} order (r ∷ rows) row s a =
    (behind_last rows s.0, append_last order rows row s.1 a.1)
  where
    behind_last :
        (xs : List (ℕ × V)) → AllBehind order r.0 xs → AllBehind order r.0 (xs ++ row ∷ [])
    behind_last [] b = (a.0, tt)
    behind_last (x ∷ xs) b = (b.0, behind_last xs b.1)

reverse-IsInOrder {ℓ} :
    {V : Type ℓ} (rows : List (ℕ × V))
    → IsInOrder lowest_to_highest rows
    → IsInOrder highest_to_lowest (reverse rows)
reverse-IsInOrder [] s = tt
reverse-IsInOrder (row ∷ rows) s = rw (reverse-cons row rows) (
    append_last highest_to_lowest (reverse rows) row (reverse-IsInOrder rows s.1)
      (All-reverse (λ r. comes_after highest_to_lowest r.0 row.0 ≡ true) rows s.0))

pub in_order-IsInOrder {ℓ} :
    {V : Type ℓ} (order : BlockListOrder) (rows : List (ℕ × V))
    → IsInOrder lowest_to_highest rows
    → IsInOrder order (in_order order rows)
in_order-IsInOrder lowest_to_highest rows s = s
in_order-IsInOrder highest_to_lowest rows s = reverse-IsInOrder rows s

page-behind {ℓ} :
    {V : Type ℓ} (prev : Option (CursorChoice ℕ)) (order : BlockListOrder) (n : ℕ)
    (rows : List (ℕ × V))
    → IsForward prev
    → page prev order n rows ≡ take n (behind prev order rows)
page-behind none order n rows f = refl
page-behind (some (choose_after c)) order n rows f = refl
page-behind (some (choose_before c)) order n rows f = absurd f

-- What comes behind a height behind the cursor is behind the cursor.
leads_to_trans :
    (order : BlockListOrder) (c : CursorChoiceAfter ℕ) (k h : ℕ)
    → leads_to order (choose_after c) k ≡ true
    → comes_after order k h ≡ true
    → leads_to order (choose_after c) h ≡ true
leads_to_trans lowest_to_highest (after j) k h p q = ground arith
leads_to_trans lowest_to_highest (after_inclusive j) k h p q = ground arith
leads_to_trans highest_to_lowest (after j) k h p q = ground arith
leads_to_trans highest_to_lowest (after_inclusive j) k h p q = ground arith

behind-last {ℓ} :
    {V : Type ℓ} (prev : Option (CursorChoice ℕ)) (order : BlockListOrder) (n k : ℕ)
    (rows : List (ℕ × V))
    → IsForward prev
    → IsInOrder lowest_to_highest rows
    → last_height (page prev order n rows) ≡ some k
    → behind (some (choose_after (after k))) order rows ≡ drop n (behind prev order rows)
behind-last {V} none order n k rows f s h =
    filter-last order k n (in_order order rows) (in_order-IsInOrder order rows s) h
behind-last {V} (some (choose_before c)) order n k rows f s h = absurd f
behind-last {V} (some (choose_after c)) order n k rows f s h =
    sym (
      filter-filter (λ row. comes_after order k row.0)
        (λ row. leads_to order (choose_after c) row.0)
        (λ row q. leads_to_trans order c k row.0 passes q) (in_order order rows))
    ∙ filter-last order k n found
        (filter-IsInOrder order (λ row. leads_to order (choose_after c) row.0) (in_order order rows)
          (in_order-IsInOrder order rows s))
        h
  where
    found : List (ℕ × V)
    found = filter (λ row. leads_to order (choose_after c) row.0) (in_order order rows)

    passes : leads_to order (choose_after c) k ≡ true
    passes =
        All-last (leads_to order (choose_after c)) k found n
          (filter-All (leads_to order (choose_after c)) (in_order order rows)) h

-- The page behind the last row of a page goes on where that page ends: the two are one page of
-- both lengths.
pub page_append {ℓ} :
    {V : Type ℓ} (prev : Option (CursorChoice ℕ)) (order : BlockListOrder) (n m k : ℕ)
    (rows : List (ℕ × V))
    → IsForward prev
    → IsInOrder lowest_to_highest rows
    → last_height (page prev order n rows) ≡ some k
    → page prev order n rows ++ page (some (choose_after (after k))) order m rows
      ≡ page prev order (n + m) rows
page_append prev order n m k rows f s h =
    ap (λ t. t ++ take m (behind (some (choose_after (after k))) order rows))
      (page-behind prev order n rows f)
    ∙ ap (λ t. take n (behind prev order rows) ++ take m t) (behind-last prev order n k rows f s h)
    ∙ take-add n m (behind prev order rows)
    ∙ sym (page-behind prev order (n + m) rows f)
