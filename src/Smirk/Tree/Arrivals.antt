-- ===== src/Smirk/Tree/Arrivals.antt =====
-- Which change of a batch comes to the end of a path
-- (ciphera/pkg/smirk/src/tree/{tree_repr,raw_api}.rs).
use zerosats.Prelude.{
  ℕ, ◌+◌, ◌-◌, ◌≤◌, ◌≡◌, refl, sym, ap, subst, ◌∙◌, ◌⊎◌, inl, inr, true, Option, none, some, List,
  [], ◌∷◌, ◌++◌, All, elem, count, ◌==◌, ==_iff, if◌then◌else◌, length, arith, Bool-cases,
}
use zerosats.Prelude.Bytes.{Bytes, bytes_lt}
use zerosats.Prelude.Bits.{to_bits}
use zerosats.Smirk.Batch.Valid.{handles}
use zerosats.Smirk.Node.{Step, Change, insert_change, remove_change}
use zerosats.Smirk.Node.Slots.{change_at}
use zerosats.Smirk.Tree.{sort, sort_insert, change_with_bits, changes}
use zerosats.Smirk.Tree.Paths.{IsPath, All-append, All-append_left, All-append_right}
use zerosats.Smirk.Tree.Arrived.{Ends, Arrives, nothing, change, change_at-Arrives}
use zerosats.Smirk.Tree.Sorted.{steps, All-sort, changes-IsPath, changes-IsAscending}

All-of_sort_insert :
    (P : Step → Type 0) (c : Step) (ds : List Step) → All P (sort_insert c ds) → P c × All P ds
All-of_sort_insert P c [] a = a
All-of_sort_insert P c (d ∷ ds) a = elim (Bool-cases (bytes_lt d.bits c.bits)) [
  | inl t ↦
      let below = subst (λ u. All P (if u then d ∷ sort_insert c ds else c ∷ d ∷ ds)) t a in
      let (p, rest) = All-of_sort_insert P c ds below.1 in (p, (below.0, rest))
  | inr f ↦ subst (λ u. All P (if u then d ∷ sort_insert c ds else c ∷ d ∷ ds)) f a
]

All-of_sort : (P : Step → Type 0) (cs : List Step) → All P (sort cs) → All P cs
All-of_sort P [] a = tt
All-of_sort P (c ∷ cs) a =
    let (p, rest) = All-of_sort_insert P c (sort cs) a in (p, All-of_sort P cs rest)

module _ (depth : ℕ) where
  pub All-steps :
      (P : Step → Type 0) (ch : Change) (es : List ℕ)
      → ((e : ℕ) → elem e es ≡ true → P (change_with_bits depth ch e))
      → All P (steps depth ch es)
  All-steps P ch [] f = tt
  All-steps P ch (x ∷ es) f =
      (f x (ground arith), All-steps P ch es (λ e h. f e (ground (arith, h))))

  All-of_steps :
      (P : Step → Type 0) (ch : Change) (es : List ℕ)
      → All P (steps depth ch es)
      → (e : ℕ) → elem e es ≡ true
      → P (change_with_bits depth ch e)
  All-of_steps P ch [] a e h = absurd (cc)
  All-of_steps P ch (x ∷ es) a e h = elim (Bool-cases (e == x)) [
    | inl t ↦ subst (λ y. P (change_with_bits depth ch y)) (sym ((==_iff e x).0 t)) a.0
    | inr f ↦ All-of_steps P ch es a.1 e (ground (arith, f, h))
  ]

  -- A change of one of the elements
  abbrev IsOf : List ℕ → List ℕ → Step → Type 0
  IsOf inserts removes c =
      (e : ℕ) × (((c ≡ change_with_bits depth insert_change e) × (elem e inserts ≡ true))
        ⊎ ((c ≡ change_with_bits depth remove_change e) × (elem e removes ≡ true)))

  -- No element has this path, or one that is inserted, or one that is removed.
  pub data Arrival (inserts removes : List ℕ) (bits : Bytes) (o : Option Step) : Type 0 where
    stays :
        o ≡ none
        → ((e : ℕ) → elem e inserts ≡ true → to_bits (depth - 1) e ≡ bits → ⊥)
        → ((e : ℕ) → elem e removes ≡ true → to_bits (depth - 1) e ≡ bits → ⊥)
        → Arrival inserts removes bits o
    puts :
        (e : ℕ)
        → o ≡ some (change_with_bits depth insert_change e)
        → elem e inserts ≡ true
        → to_bits (depth - 1) e ≡ bits
        → Arrival inserts removes bits o
    takes :
        (e : ℕ)
        → o ≡ some (change_with_bits depth remove_change e)
        → elem e removes ≡ true
        → to_bits (depth - 1) e ≡ bits
        → Arrival inserts removes bits o

  arrival :
      (inserts removes : List ℕ) (bits : Bytes) (o : Option Step)
      → Arrives (IsOf inserts removes) 0 bits (changes depth inserts removes) o
      → Arrival inserts removes bits o
  arrival inserts removes bits o (nothing e n) =
      let all =
        All-of_sort (λ c. Ends 0 bits c → ⊥)
          (steps depth insert_change inserts ++ steps depth remove_change removes) n in
      stays e
        (All-of_steps (λ c. Ends 0 bits c → ⊥) insert_change inserts
          (All-append_left _ (steps depth insert_change inserts) (steps depth remove_change removes)
            all))
        (All-of_steps (λ c. Ends 0 bits c → ⊥) remove_change removes
          (All-append_right _ (steps depth insert_change inserts)
            (steps depth remove_change removes) all))
  arrival inserts removes bits o (change c e (x, inl (at, h)) end) =
      puts x (e ∙ ap some at) h (sym (ap (λ (c : Step). c.bits) at) ∙ end)
  arrival inserts removes bits o (change c e (x, inr (at, h)) end) =
      takes x (e ∙ ap some at) h (sym (ap (λ (c : Step). c.bits) at) ∙ end)

  -- Where no two elements have the same handle, the change that comes to the end of a path is that
  -- of the element with this path.
  pub changes-Arrival :
      (inserts removes : List ℕ) (bits : Bytes)
      → ((l : ℕ) → count l (handles depth inserts) + count l (handles depth removes) ≤ 1)
      → length bits ≡ depth - 1
      → All (λ b. b ≤ 1) bits
      → Arrival inserts removes bits (change_at bits 0 (changes depth inserts removes))
  changes-Arrival inserts removes bits once width le = arrival inserts removes bits _ (
      change_at-Arrives (IsOf inserts removes) bits 0 (changes depth inserts removes) le
        (subst (λ w. All (IsPath w) (changes depth inserts removes)) (omega (arith, width))
          (changes-IsPath depth inserts removes))
        (changes-IsAscending depth inserts removes once)
        (All-sort (IsOf inserts removes)
          (steps depth insert_change inserts ++ steps depth remove_change removes)
          (All-append (IsOf inserts removes) (steps depth insert_change inserts)
            (steps depth remove_change removes)
            (All-steps (IsOf inserts removes) insert_change inserts (λ e h. (e, inl (refl, h))))
            (All-steps (IsOf inserts removes) remove_change removes (λ e h. (e, inr (refl, h)))))))
