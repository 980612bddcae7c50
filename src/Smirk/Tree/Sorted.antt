-- ===== src/Smirk/Tree/Sorted.antt =====
-- The changes are brought into the order of their paths
-- (ciphera/pkg/smirk/src/tree/{tree_repr,raw_api}.rs).
use zerosats.Prelude.{
  ℕ, suc, ◌+◌, ◌-◌, ◌≤◌, ◌≡◌, refl, sym, subst, inl, inr, true, false, List, [], ◌∷◌, ◌++◌, map,
  All, count, if◌then◌else◌, arith, Bool-cases,
}
use zerosats.Prelude.Bytes.{bytes_eq, bytes_lt, bytes_lt_trans, bytes_lt_total, bytes_eq_iff}
use zerosats.Prelude.Bits.{to_bits, length-to_bits, to_bits-le, to_bits_injective}
use zerosats.Smirk.Batch.{lsb}
use zerosats.Smirk.Batch.Valid.{handles}
use zerosats.Smirk.Node.{Step, Change, insert_change, remove_change}
use zerosats.Smirk.Node.Clean.{Fits}
use zerosats.Smirk.Tree.{sort, sort_insert, change_with_bits, changes}
use zerosats.Smirk.Tree.Paths.{IsPath, IsAscending, All-append, ascending-Fits}

-- The path of a change is none of theirs.
abbrev AllOther : Step → List Step → Type 0
AllOther c cs = All (λ x. bytes_eq c.bits x.bits ≡ false) cs

-- No two changes have the same path.
abbrev AreApart : List Step → Type 0
AreApart [] = Unit
AreApart (c ∷ cs) = AllOther c cs × AreApart cs

All-sort_insert :
    (P : Step → Type 0) (c : Step) (ds : List Step) → P c → All P ds → All P (sort_insert c ds)
All-sort_insert P c [] p a = (p, tt)
All-sort_insert P c (d ∷ ds) p a = elim (Bool-cases (bytes_lt d.bits c.bits)) [
  | inl t ↦
      subst (λ u. All P (if u then d ∷ sort_insert c ds else c ∷ d ∷ ds)) (sym t)
        (a.0, All-sort_insert P c ds p a.1)
  | inr f ↦ subst (λ u. All P (if u then d ∷ sort_insert c ds else c ∷ d ∷ ds)) (sym f) (p, a)
]

pub All-sort : (P : Step → Type 0) (cs : List Step) → All P cs → All P (sort cs)
All-sort P [] a = tt
All-sort P (c ∷ cs) a = All-sort_insert P c (sort cs) a.0 (All-sort P cs a.1)

above_trans :
    (c d : Step) (ds : List Step)
    → bytes_lt c.bits d.bits ≡ true
    → All (λ x. bytes_lt d.bits x.bits ≡ true) ds
    → All (λ x. bytes_lt c.bits x.bits ≡ true) ds
above_trans c d [] h a = tt
above_trans c d (x ∷ ds) h a = (bytes_lt_trans c.bits d.bits x.bits h a.0, above_trans c d ds h a.1)

other_sym : (c d : Step) → bytes_eq c.bits d.bits ≡ false → bytes_eq d.bits c.bits ≡ false
other_sym c d h =
    ground (
      arith,
      bytes_eq_iff c.bits d.bits,
      bytes_eq_iff d.bits c.bits,
      λ (e : d.bits ≡ c.bits). sym e,
    )

sort_insert-IsAscending :
    (c : Step) (ds : List Step)
    → AllOther c ds
    → IsAscending 0 ds
    → IsAscending 0 (sort_insert c ds)
sort_insert-IsAscending c [] o a = (tt, tt)
sort_insert-IsAscending c (d ∷ ds) o a = elim (Bool-cases (bytes_lt d.bits c.bits)) [
  | inl t ↦
      subst (λ u. IsAscending 0 (if u then d ∷ sort_insert c ds else c ∷ d ∷ ds)) (sym t)
        (
          All-sort_insert (λ x. bytes_lt d.bits x.bits ≡ true) c ds t a.0,
          sort_insert-IsAscending c ds o.1 a.1,
        )
  | inr f ↦
      let lt = bytes_lt_total d.bits c.bits f (other_sym c d o.0) in
      subst (λ u. IsAscending 0 (if u then d ∷ sort_insert c ds else c ∷ d ∷ ds)) (sym f)
        ((lt, above_trans c d ds lt a.0), a)
]

sort-IsAscending : (cs : List Step) → AreApart cs → IsAscending 0 (sort cs)
sort-IsAscending [] a = tt
sort-IsAscending (c ∷ cs) (o, a) =
    sort_insert-IsAscending c (sort cs) (All-sort _ cs o) (sort-IsAscending cs a)

module _ (depth : ℕ) where
  abbrev pub steps : Change → List ℕ → List Step
  steps change es = map (change_with_bits depth change) es

  -- A handle that does not come among the elements
  other_steps :
      (e : ℕ) (change change' : Change) (es : List ℕ)
      → count (lsb (depth - 1) e) (handles depth es) ≡ 0
      → AllOther (change_with_bits depth change e) (steps change' es)
  other_steps e change change' [] h = tt
  other_steps e change change' (x ∷ es) h = (
    ground (
      arith,
      h,
      bytes_eq_iff (to_bits (depth - 1) e) (to_bits (depth - 1) x),
      to_bits_injective (depth - 1) e x,
    ),
    other_steps e change change' es (ground (arith, h)),
  )

  steps-AreApart :
      (change : Change) (es : List ℕ)
      → ((l : ℕ) → count l (handles depth es) ≤ 1)
      → AreApart (steps change es)
  steps-AreApart change [] once = tt
  steps-AreApart change (e ∷ es) once = (
    other_steps e change change es (ground (arith, once (lsb (depth - 1) e))),
    steps-AreApart change es (λ l. ground (arith, once l)),
  )

  append-AreApart :
      (inserts removes : List ℕ)
      → ((l : ℕ) → count l (handles depth inserts) + count l (handles depth removes) ≤ 1)
      → AreApart (steps insert_change inserts ++ steps remove_change removes)
  append-AreApart [] removes once =
      steps-AreApart remove_change removes (λ l. omega (arith, once l))
  append-AreApart (e ∷ inserts) removes once =
      let here = once (lsb (depth - 1) e) in
      (
        All-append _ (steps insert_change inserts) (steps remove_change removes)
            (other_steps e insert_change insert_change inserts (ground (arith, here)))
            (other_steps e insert_change remove_change removes (ground (arith, here))),
        append-AreApart inserts removes (λ l. ground (arith, once l)),
      )

  steps-IsPath : (change : Change) (es : List ℕ) → All (IsPath (depth - 1)) (steps change es)
  steps-IsPath change [] = tt
  steps-IsPath change (e ∷ es) =
      ((length-to_bits (depth - 1) e, to_bits-le (depth - 1) e), steps-IsPath change es)

  pub changes-IsPath :
      (inserts removes : List ℕ) → All (IsPath (depth - 1)) (changes depth inserts removes)
  changes-IsPath inserts removes =
      All-sort (IsPath (depth - 1)) (steps insert_change inserts ++ steps remove_change removes) (
        All-append (IsPath (depth - 1)) (steps insert_change inserts) (steps remove_change removes)
          (steps-IsPath insert_change inserts) (steps-IsPath remove_change removes))

  module _ (inserts removes : List ℕ)
      (once : (l : ℕ) → count l (handles depth inserts) + count l (handles depth removes) ≤ 1) where
    pub changes-IsAscending : IsAscending 0 (changes depth inserts removes)
    changes-IsAscending = sort-IsAscending _ (append-AreApart inserts removes once)

    -- The changes of elements of which no two have the same handle fit a tree.
    pub changes-Fits : 1 ≤ depth → Fits depth 0 (changes depth inserts removes)
    changes-Fits pos =
        let zero_add : depth - 1 ≡ 0 + (depth - 1) = omega arith in
        let width : suc (depth - 1) ≡ depth = omega arith in
        subst (λ d. Fits d 0 (changes depth inserts removes)) width
          (ascending-Fits (depth - 1) 0 (changes depth inserts removes)
            (subst (λ w. All (IsPath w) (changes depth inserts removes)) zero_add
              (changes-IsPath inserts removes))
            changes-IsAscending)

  pub changes-nil :
      (inserts removes : List ℕ) → inserts ++ removes ≡ [] → changes depth inserts removes ≡ []
  changes-nil [] [] h = refl
  changes-nil [] (e ∷ removes) h = absurd (cc)
  changes-nil (e ∷ inserts) removes h = absurd (cc)
