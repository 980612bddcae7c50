-- ===== src/Solid/Leader/Order.antt =====
-- The validators in their order, and whose turn it is (manifest.rs).
use zerosats.Prelude.{
  ℕ, zero, suc, ◌%◌, ◌≤◌, ◌<◌, ◌≡◌, refl, ◌↔◌, true, none, some, List, [], ◌∷◌, arith, length,
  get_elem?, count, elem, elem_pos, count-eq-zero, ℕ_discrete,
}
use native.Mathlib.Nat.{mod-eq_of_lt}
use zerosats.Solid.Types.{ManifestContent, App}
use zerosats.Solid.Leader.{
  sort_insert, sort_by_key, get_leader_for_skip, ordered_validators, manifest_leader_for_skip,
  ordering_hash, distance,
}

count-sort_insert :
    (key : ℕ → ℕ) (k x : ℕ) (ys : List ℕ) → count k (sort_insert key x ys) ≡ count k (x ∷ ys)
count-sort_insert key k x [] = refl
count-sort_insert key k x (y ∷ ys) = ground (arith, count-sort_insert key k x ys)

count-sort_by_key : (key : ℕ → ℕ) (k : ℕ) (xs : List ℕ) → count k (sort_by_key key xs) ≡ count k xs
unfolding sort_by_key
count-sort_by_key key k [] = refl
count-sort_by_key key k (x ∷ xs) =
    ground (arith, count-sort_insert key k x (sort_by_key key xs), count-sort_by_key key k xs)

length-sort_insert :
    (key : ℕ → ℕ) (x : ℕ) (ys : List ℕ) → length (sort_insert key x ys) ≡ suc (length ys)
length-sort_insert key x [] = refl
length-sort_insert key x (y ∷ ys) = ground (arith, length-sort_insert key x ys)

length-sort_by_key : (key : ℕ → ℕ) (xs : List ℕ) → length (sort_by_key key xs) ≡ length xs
unfolding sort_by_key
length-sort_by_key key [] = refl
length-sort_by_key key (x ∷ xs) =
    omega (arith, length-sort_insert key x (sort_by_key key xs), length-sort_by_key key xs)

-- Each element is at most the next one, by its key.
abbrev pub IsSorted : (ℕ → ℕ) → List ℕ → Type 0
IsSorted key [] = Unit
IsSorted key (x ∷ []) = Unit
IsSorted key (x ∷ y ∷ ys) = (key x ≤ key y) × IsSorted key (y ∷ ys)

sort_insert-IsSorted :
    (key : ℕ → ℕ) (x : ℕ) (ys : List ℕ) → IsSorted key ys → IsSorted key (sort_insert key x ys)
sort_insert-IsSorted key x [] h = tt
sort_insert-IsSorted key x (y ∷ []) h = ground arith
sort_insert-IsSorted key x (y ∷ z ∷ zs) h = ground (arith, sort_insert-IsSorted key x (z ∷ zs) h.1)

sort_by_key-IsSorted : (key : ℕ → ℕ) (xs : List ℕ) → IsSorted key (sort_by_key key xs)
unfolding sort_by_key
sort_by_key-IsSorted key [] = tt
sort_by_key-IsSorted key (x ∷ xs) =
    sort_insert-IsSorted key x (sort_by_key key xs) (sort_by_key-IsSorted key xs)

pub count-get_elem : (i : ℕ) (xs : List ℕ) {x : ℕ} → get_elem? xs i ≡ some x → 0 < count x xs
count-get_elem i [] h = cc
count-get_elem zero (y ∷ ys) h = ground arith
count-get_elem (suc i) (y ∷ ys) {x} h = ground (arith, count-get_elem i ys {x = x})

get_elem-total : (i : ℕ) (xs : List ℕ) → i < length xs → (x : ℕ) × (get_elem? xs i ≡ some x)
get_elem-total i [] h = absurd (omega arith)
get_elem-total zero (y ∷ ys) h = (y, refl)
get_elem-total (suc i) (y ∷ ys) h = get_elem-total i ys (omega arith)

position :
    (x : ℕ) (xs : List ℕ) → 0 < count x xs → (i : ℕ) × (i < length xs) × (get_elem? xs i ≡ some x)
position x [] h = absurd (omega arith)
position x (y ∷ ys) h = elim (ℕ_discrete x y) [
  | yes e ↦ (0, omega arith, rw e)
  | no ne ↦ let (i, p, q) = position x ys (ground arith) in (suc i, omega arith, q)
]

pub elem_iff_count : (x : ℕ) (xs : List ℕ) → (elem x xs ≡ true) ↔ (0 < count x xs)
elem_iff_count x xs = (elem_pos x xs, λ h. ground (arith, count-eq-zero x xs))

module _ {S : Type 0} (app : App S) (m : ManifestContent S) where
  -- The order has the same validators, each as often, sorted by their distance to the hash of the
  -- height and the skips.
  pub ordered_validators-sorts :
      IsSorted (λ a. distance app a (ordering_hash app m.height m.skips)) (ordered_validators app m)
      × ((v : ℕ) → count v (ordered_validators app m) ≡ count v m.validators)
      × (length (ordered_validators app m) ≡ length m.validators)
  unfolding ordered_validators
  ordered_validators-sorts =
      let key : ℕ → ℕ = λ a. distance app a (ordering_hash app m.height m.skips) in
      (
        sort_by_key-IsSorted key m.validators,
        λ v. count-sort_by_key key v m.validators,
        length-sort_by_key key m.validators,
      )

  -- Where there are validators every skip has a leader, and it is one of them.
  pub leader-elem :
      (skip : ℕ)
      → 0 < length m.validators
      → (v : ℕ) × (manifest_leader_for_skip app m skip ≡ some v) × (elem v m.validators ≡ true)
  unfolding manifest_leader_for_skip get_leader_for_skip
  leader-elem skip h =
      let (sorted, same, len) = ordered_validators-sorts in
      let (v, e) =
        get_elem-total (skip % length (ordered_validators app m)) (ordered_validators app m)
          (grind arith) in
      (
        v,
        e,
        (elem_iff_count v m.validators).1 (
            omega (
              arith,
              same v,
              count-get_elem (skip % length (ordered_validators app m)) (ordered_validators app m)
                  e,
            )),
      )

  -- Without validators there is no leader: the code panics.
  pub leader_panics : (skip : ℕ) → m.validators ≡ [] → manifest_leader_for_skip app m skip ≡ none
  unfolding manifest_leader_for_skip get_leader_for_skip ordered_validators sort_by_key
  leader_panics skip h = rw h

  -- Every validator is the leader of some skip below the number of validators.
  pub leader-reaches :
      (v : ℕ)
      → elem v m.validators ≡ true
      → (skip : ℕ) × (skip < length m.validators) × (manifest_leader_for_skip app m skip ≡ some v)
  unfolding manifest_leader_for_skip get_leader_for_skip
  leader-reaches v h =
      let (sorted, same, len) = ordered_validators-sorts in
      let (i, p, q) =
        position v (ordered_validators app m)
          (omega (arith, same v, (elem_iff_count v m.validators).0 h)) in
      (i, omega arith, rw (mod-eq_of_lt p) q)
