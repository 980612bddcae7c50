-- ===== src/Prelude/Filter.antt =====
-- Lists that are filtered, mapped, reversed and cut.
use Prim.Native.Nat.{ℕ, zero, suc, ◌+◌}
use zerosats.Prelude.Tests.{Bool-cases, ==_refl, if◌then◌else◌}
use zerosats.Prelude.Lists.{take, drop, filter, All, elem}
use mathlib.Core.Path.{◌≡◌, refl, sym, ap, subst, ◌∙◌}
use mathlib.Core.Logic.{inl, inr}
use mathlib.Core.Bool.{Bool, true, false}
use mathlib.Core.List.{List, [], ◌∷◌, ◌++◌, reverse, map, reverse-cons, append-nil, cons-ne-nil}
use native.Mathlib.Omega.{arith}

pub take-map {ℓ κ} :
    {A : Type ℓ} {B : Type κ} (f : A → B) (n : ℕ) (xs : List A)
    → take n (map f xs) ≡ map f (take n xs)
take-map f zero xs = refl
take-map f (suc n) [] = refl
take-map f (suc n) (x ∷ xs) = ap (λ t. f x ∷ t) (take-map f n xs)

pub map-append {ℓ κ} :
    {A : Type ℓ} {B : Type κ} (f : A → B) (xs ys : List A) → map f (xs ++ ys) ≡ map f xs ++ map f ys
map-append f [] ys = refl
map-append f (x ∷ xs) ys = ap (λ t. f x ∷ t) (map-append f xs ys)

pub map-reverse {ℓ κ} :
    {A : Type ℓ} {B : Type κ} (f : A → B) (xs : List A) → reverse (map f xs) ≡ map f (reverse xs)
map-reverse f [] = refl
map-reverse f (x ∷ xs) =
    reverse-cons (f x) (map f xs)
    ∙ ap (λ t. t ++ f x ∷ []) (map-reverse f xs)
    ∙ sym (map-append f (reverse xs) (x ∷ []))
    ∙ ap (map f) (sym (reverse-cons x xs))

pub filter-append {ℓ} :
    {A : Type ℓ} (p : A → Bool) (xs ys : List A) → filter p (xs ++ ys) ≡ filter p xs ++ filter p ys
filter-append p [] ys = refl
filter-append p (x ∷ xs) ys = ground (arith, filter-append p xs ys)

pub filter-reverse {ℓ} :
    {A : Type ℓ} (p : A → Bool) (xs : List A) → filter p (reverse xs) ≡ reverse (filter p xs)
filter-reverse p [] = refl
filter-reverse p (x ∷ xs) =
    ap (filter p) (reverse-cons x xs)
    ∙ filter-append p (reverse xs) (x ∷ [])
    ∙ elim (Bool-cases (p x)) [
      | inl y ↦ rw (y, filter-reverse p xs, reverse-cons x (filter p xs)) refl
      | inr n ↦ rw (n, filter-reverse p xs) (append-nil (reverse (filter p xs)))
    ]

pub filter_same {ℓ} :
    {A : Type ℓ} (p q : A → Bool)
    → ((x : A) → p x ≡ q x)
    → (xs : List A) → filter p xs ≡ filter q xs
filter_same p q same [] = refl
filter_same p q same (x ∷ xs) = ground (arith, same x, filter_same p q same xs)

pub filter_all {ℓ} :
    {A : Type ℓ} (p : A → Bool) → ((x : A) → p x ≡ true) → (xs : List A) → filter p xs ≡ xs
filter_all p all [] = refl
filter_all p all (x ∷ xs) = ground (arith, all x, filter_all p all xs)

pub filter-filter {ℓ} :
    {A : Type ℓ} (p t : A → Bool)
    → ((x : A) → p x ≡ true → t x ≡ true)
    → (xs : List A) → filter p (filter t xs) ≡ filter p xs
filter-filter p t narrow [] = refl
filter-filter p t narrow (x ∷ xs) = ground (arith, narrow x, filter-filter p t narrow xs)

take_nil {ℓ} : {A : Type ℓ} (k : ℕ) → take {A = A} k [] ≡ []
take_nil zero = refl
take_nil (suc k) = refl

pub take-add {ℓ} :
    {A : Type ℓ} (n m : ℕ) (xs : List A) → take n xs ++ take m (drop n xs) ≡ take (n + m) xs
take-add zero m xs = ap (λ (t : ℕ). take t xs) (omega arith)
take-add (suc n) m [] = take_nil m ∙ sym (take_nil (suc n + m))
take-add (suc n) m (x ∷ xs) =
    let e : suc (n + m) ≡ suc n + m = omega arith in
    ap (λ t. x ∷ t) (take-add n m xs) ∙ ap (λ (t : ℕ). take t (x ∷ xs)) e

All-snoc {ℓ κ} :
    {A : Type ℓ} (P : A → Type κ) (xs : List A) (x : A) → All P xs → P x → All P (xs ++ x ∷ [])
All-snoc P [] x a h = (h, tt)
All-snoc P (y ∷ xs) x a h = (a.0, All-snoc P xs x a.1 h)

pub All-reverse {ℓ κ} : {A : Type ℓ} (P : A → Type κ) (xs : List A) → All P xs → All P (reverse xs)
All-reverse P [] a = tt
All-reverse P (x ∷ xs) a =
    rw (reverse-cons x xs) (All-snoc P (reverse xs) x (All-reverse P xs a.1) a.0)

pub All-take {ℓ κ} :
    {A : Type ℓ} (P : A → Type κ) (n : ℕ) (xs : List A) → All P xs → All P (take n xs)
All-take P zero xs a = tt
All-take P (suc n) [] a = tt
All-take P (suc n) (x ∷ xs) a = (a.0, All-take P n xs a.1)

pub All-filter {ℓ κ} :
    {A : Type ℓ} (P : A → Type κ) (p : A → Bool) (xs : List A) → All P xs → All P (filter p xs)
All-filter P p [] a = tt
All-filter P p (x ∷ xs) a = elim (Bool-cases (p x)) [
  | inl y ↦ rw y ((a.0, All-filter P p xs a.1))
  | inr n ↦ rw n (All-filter P p xs a.1)
]

-- Of what a test keeps of a list of numbers
pub filter-eq-nil :
    (p : ℕ → Bool) (xs : List ℕ) → filter p xs ≡ [] → (l : ℕ) → elem l xs ≡ true → p l ≡ false
filter-eq-nil p [] q l h = absurd (cc)
filter-eq-nil p (x ∷ xs) q l h = elim (Bool-cases (p x)) [
  | inl t ↦ absurd (
      cons-ne-nil x (filter p xs)
        (sym (ap (λ b. if b then x ∷ filter p xs else filter p xs) t) ∙ q))
  | inr f ↦ ground (
    arith,
    f,
    filter-eq-nil p xs (sym (ap (λ b. if b then x ∷ filter p xs else filter p xs) f) ∙ q) l,
    λ (e : l ≡ x). ap p e,
  )
]

pub nil-filter :
    (p : ℕ → Bool) (xs : List ℕ) → ((l : ℕ) → elem l xs ≡ true → p l ≡ false) → filter p xs ≡ []
nil-filter p [] h = refl
nil-filter p (x ∷ xs) h =
    ap (λ b. if b then x ∷ filter p xs else filter p xs) (h x (ground (arith, ==_refl x)))
    ∙ nil-filter p xs (λ l e. h l (ground (arith, e)))

pub All-filter_kept :
    (p : ℕ → Bool) (xs ys : List ℕ)
    → ((l : ℕ) → elem l xs ≡ true → elem l ys ≡ true)
    → All (λ l. (elem l ys ≡ true) × (p l ≡ true)) (filter p xs)
All-filter_kept p [] ys w = tt
All-filter_kept p (x ∷ xs) ys w = elim (Bool-cases (p x)) [
  | inl t ↦
      subst
        (λ b.
          All (λ l. (elem l ys ≡ true) × (p l ≡ true)) (if b then x ∷ filter p xs else filter p xs))
        (sym t) ((w x (ground arith), t), All-filter_kept p xs ys (λ l e. w l (ground (arith, e))))
  | inr f ↦
      subst
        (λ b.
          All (λ l. (elem l ys ≡ true) × (p l ≡ true)) (if b then x ∷ filter p xs else filter p xs))
        (sym f) (All-filter_kept p xs ys (λ l e. w l (ground (arith, e))))
]
