-- ===== src/Prelude/Lists.antt =====
-- Lists measured by native numbers, under the library's names, and lists of numbers used as sets.
use Prim.Native.Nat.{ℕ, zero, suc, ◌+◌, ◌-◌, ◌≤◌, ◌<◌}
use mathlib.Core.Path.{◌≡◌, refl}
use mathlib.Core.Logic.{◌≢◌, inl, inr}
use mathlib.Core.Bool.{Bool, true, false, ◌||◌}
use mathlib.Core.Option.{Option, none, some}
use mathlib.Core.List.{List, [], ◌∷◌, ◌++◌}
use native.Mathlib.Omega.{arith}
use zerosats.Prelude.Tests.{◌==◌, if◌then◌else◌, Bool-cases}

module _ {ℓ} {A : Type ℓ} where
  abbrev pub length : List A → ℕ
  length [] = 0
  length (x ∷ xs) = suc (length xs)

  abbrev pub get_elem? : List A → ℕ → Option A
  get_elem? [] i = none
  get_elem? (x ∷ xs) zero = some x
  get_elem? (x ∷ xs) (suc i) = get_elem? xs i

  abbrev pub take : ℕ → List A → List A
  take zero xs = []
  take (suc n) [] = []
  take (suc n) (x ∷ xs) = x ∷ take n xs

  abbrev pub drop : ℕ → List A → List A
  drop zero xs = xs
  drop (suc n) [] = []
  drop (suc n) (x ∷ xs) = drop n xs

  -- Every element has the property.
  abbrev pub All {κ} : (A → Type κ) → List A → Type κ
  All P [] = Unit
  All P (first ∷ rest) = P first × All P rest

  abbrev pub filter : (A → Bool) → List A → List A
  filter p [] = []
  filter p (x ∷ xs) = let rest = filter p xs in if p x then x ∷ rest else rest

  pub length-append : (xs ys : List A) → length (xs ++ ys) ≡ length xs + length ys
  length-append [] ys = omega arith
  length-append (x ∷ xs) ys = omega (arith, length-append xs ys)

-- How often a number stands in a list.
abbrev pub count : ℕ → List ℕ → ℕ
count n [] = 0
count n (m ∷ rest) = (if n == m then 1 else 0) + count n rest

abbrev pub elem : ℕ → List ℕ → Bool
elem a [] = false
elem a (x ∷ xs) = a == x || elem a xs

-- Without the first occurrence.
abbrev pub erase : ℕ → List ℕ → List ℕ
erase a [] = []
erase a (x ∷ xs) = if a == x then xs else x ∷ erase a xs

-- A hash set: an element that is there already is not added again.
abbrev pub set_insert : ℕ → List ℕ → List ℕ
set_insert a xs = if elem a xs then xs else a ∷ xs

pub count-append :
    (n : ℕ) (front back : List ℕ) → count n (front ++ back) ≡ count n front + count n back
count-append n [] back = ground arith
count-append n (m ∷ front) back = ground (arith, count-append n front back)

pub count-erase_self : (a : ℕ) (xs : List ℕ) → count a (erase a xs) ≡ count a xs - 1
count-erase_self a [] = omega arith
count-erase_self a (x ∷ xs) = ground (arith, count-erase_self a xs)

pub count-erase_ne : (a b : ℕ) (xs : List ℕ) → a ≢ b → count a (erase b xs) ≡ count a xs
count-erase_ne a b [] h = refl
count-erase_ne a b (x ∷ xs) h = ground (arith, count-erase_ne a b xs h)

pub elem_pos : (a : ℕ) (xs : List ℕ) → elem a xs ≡ true → 0 < count a xs
elem_pos a [] h = cc
elem_pos a (x ∷ xs) h = ground (arith, elem_pos a xs)

pub count-eq-zero : (a : ℕ) (xs : List ℕ) → elem a xs ≡ false → count a xs ≡ 0
count-eq-zero a [] h = refl
count-eq-zero a (x ∷ xs) h = ground (arith, count-eq-zero a xs)

pub elem-append : (a : ℕ) (xs ys : List ℕ) → elem a (xs ++ ys) ≡ (elem a xs || elem a ys)
elem-append a [] ys = refl
elem-append a (x ∷ xs) ys = ground (arith, elem-append a xs ys)

-- No number stands twice.
abbrev pub NoRepeats : List ℕ → Type 0
NoRepeats xs = (a : ℕ) → count a xs ≤ 1

abbrev pub Within : List ℕ → List ℕ → Type 0
Within xs ys = (a : ℕ) → elem a xs ≡ true → elem a ys ≡ true

-- How many elements of the first list stand in the second.
abbrev pub common : List ℕ → List ℕ → ℕ
common [] ys = 0
common (x ∷ xs) ys = (if elem x ys then 1 else 0) + common xs ys

pub length-erase : (a : ℕ) (xs : List ℕ) → elem a xs ≡ true → length xs ≡ suc (length (erase a xs))
length-erase a [] h = cc
length-erase a (x ∷ xs) h = ground (arith, length-erase a xs)

elem-erase_ne : (a b : ℕ) (xs : List ℕ) → a ≢ b → elem a (erase b xs) ≡ elem a xs
elem-erase_ne a b [] h = refl
elem-erase_ne a b (x ∷ xs) h = ground (arith, elem-erase_ne a b xs h)

-- A list without repetitions is no longer than one that holds its elements.
pub length_le_of_Within : (xs ys : List ℕ) → NoRepeats xs → Within xs ys → length xs ≤ length ys
length_le_of_Within [] ys s w = omega arith
length_le_of_Within (x ∷ xs) ys s w = omega (
  arith,
  length-erase x ys (w x (ground arith)),
  length_le_of_Within xs (erase x ys) (λ a. ground (arith, s a))
      (λ a e. ground (arith, s a, w a, elem_pos a xs, elem-erase_ne a x ys)),
)

common-cons_absent : (a : ℕ) (xs ys : List ℕ) → count a xs ≡ 0 → common xs (a ∷ ys) ≡ common xs ys
common-cons_absent a [] ys h = refl
common-cons_absent a (x ∷ xs) ys h = ground (arith, common-cons_absent a xs ys)

-- Two sets within one of `n` elements share what they have beyond `n`.
pub common_ge :
    (xs ys vs : List ℕ)
    → NoRepeats xs
    → NoRepeats ys
    → Within xs vs
    → Within ys vs
    → length xs + length ys ≤ length vs + common xs ys
common_ge [] ys vs sx sy wx wy = omega (arith, length_le_of_Within ys vs sy wy)
common_ge (x ∷ xs) ys vs sx sy wx wy = elim (Bool-cases (elem x ys)) [
  | inl e ↦ rw e (
      omega
        (arith, common_ge xs ys vs (λ a. ground (arith, sx a)) sy (λ a e. wx a (ground arith)) wy))
  | inr e ↦ rw e (
      omega (
        arith,
        common-cons_absent x xs ys (ground (arith, sx x)),
        common_ge xs (x ∷ ys) vs (λ a. ground (arith, sx a))
            (λ a. ground (arith, sy a, count-eq-zero a ys)) (λ a e. wx a (ground arith))
            (λ a e. ground (arith, wx a, wy a)),
      ))
]
