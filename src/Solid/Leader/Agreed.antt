-- ===== src/Solid/Leader/Agreed.antt =====
-- That the order of the validators does not depend on how a manifest lists them (manifest.rs).
use Prim.Native.Nat.{bit_xor, bit_xor-bitwise, digits, differ}
use zerosats.Prelude.{
  ℕ, zero, suc, ◌+◌, ◌-◌, ◌/◌, ◌%◌, ◌≤◌, ◌<◌, ◌≡◌, refl, sym, ◌∙◌, ap, subst, true, List, [], ◌∷◌,
  arith, count, elem,
}
use zerosats.Solid.Types.{ManifestContent, App}
use zerosats.Solid.Leader.{
  ordered_validators, manifest_leader_for_skip, get_leader_for_skip, distance, ordering_hash,
}
use zerosats.Solid.Leader.Order.{IsSorted, ordered_validators-sorts, elem_iff_count}

differ_lem : (x y : ℕ) → differ x y ≡ (x - y) + (y - x)
differ_lem zero y = omega arith
differ_lem (suc x) zero = omega arith
differ_lem (suc x) (suc y) = omega (arith, differ_lem x y)

-- The exclusive or with a number tells any two numbers apart.
digits_injective :
    (n a b c : ℕ) → digits (λ x. x) differ n a b ≡ digits (λ x. x) differ n a c → b ≡ c
digits_injective zero a b c h = h
digits_injective (suc n) zero b c h = h
digits_injective (suc n) (suc a) b c h =
    let rest : b / 2 ≡ c / 2 =
      digits_injective n (suc a / 2) (b / 2) (c / 2)
        (omega (arith, h, differ_lem (suc a % 2) (b % 2), differ_lem (suc a % 2) (c % 2))) in
    omega (arith, h, rest, differ_lem (suc a % 2) (b % 2), differ_lem (suc a % 2) (c % 2))

bit_xor_injective : (a b c : ℕ) → bit_xor a b ≡ bit_xor a c → b ≡ c
bit_xor_injective a b c h =
    digits_injective a a b c (sym (bit_xor-bitwise a b) ∙ h ∙ bit_xor-bitwise a c)

IsSorted-tail : (key : ℕ → ℕ) (x : ℕ) (xs : List ℕ) → IsSorted key (x ∷ xs) → IsSorted key xs
IsSorted-tail key x [] h = tt
IsSorted-tail key x (y ∷ ys) h = h.1

-- The head of a sorted list has the least key.
head_le :
    (key : ℕ → ℕ) (v x : ℕ) (xs : List ℕ)
    → IsSorted key (x ∷ xs)
    → 0 < count v (x ∷ xs)
    → key x ≤ key v
head_le key v x [] h p = ground (arith, λ (q : v ≡ x). ap key q)
head_le key v x (y ∷ ys) h p = ground (arith, λ (q : v ≡ x). ap key q, head_le key v y ys h.1)

-- A sorted list is known by how often it has each element, if no two of them have the same key.
sorted_unique :
    (key : ℕ → ℕ) (xs ys : List ℕ)
    → IsSorted key xs
    → IsSorted key ys
    → ((v : ℕ) → count v xs ≡ count v ys)
    → ((a b : ℕ) → 0 < count a xs → 0 < count b xs → key a ≡ key b → a ≡ b)
    → xs ≡ ys
sorted_unique key [] [] sx sy same apart = refl
sorted_unique key [] (y ∷ ys) sx sy same apart = absurd (ground (arith, same y))
sorted_unique key (x ∷ xs) [] sx sy same apart = absurd (ground (arith, same x))
sorted_unique key (x ∷ xs) (y ∷ ys) sx sy same apart =
    let mine : 0 < count x (x ∷ xs) = ground arith in
    let theirs : 0 < count y (x ∷ xs) = ground (arith, same y) in
    let low = head_le key y x xs sx theirs in
    let high = head_le key x y ys sy (ground (arith, same x)) in
    let head : x ≡ y = apart x y mine theirs (omega arith) in
    let tail : xs ≡ ys =
      sorted_unique key xs ys (IsSorted-tail key x xs sx) (IsSorted-tail key y ys sy)
        (λ v. ground (arith, same v, head)) (λ a b p q. apart a b (ground arith) (ground arith)) in
    cc

module _ {S : Type 0} (app : App S) (m m' : ManifestContent S) where
  -- Two manifests with the same height and skips, which list the same validators, each as often but
  -- in any order, give the validators the same order, and every skip the same leader, where two
  -- validators with the same 256-bit number are the same.
  pub ordered_validators_agree :
      m.height ≡ m'.height
      → m.skips ≡ m'.skips
      → ((v : ℕ) → count v m.validators ≡ count v m'.validators)
      → ((a b : ℕ)
          → elem a m.validators ≡ true
          → elem b m.validators ≡ true
          → app.to_u256 a ≡ app.to_u256 b
          → a ≡ b)
      → (ordered_validators app m ≡ ordered_validators app m')
        × ((skip : ℕ) → manifest_leader_for_skip app m skip ≡ manifest_leader_for_skip app m' skip)
  unfolding distance manifest_leader_for_skip get_leader_for_skip
  ordered_validators_agree height skips same apart =
      let (sorted, counts, len) = ordered_validators-sorts app m in
      let (sorted', counts', len') = ordered_validators-sorts app m' in
      let hash = ordering_hash app m.height m.skips in
      let hashes : hash ≡ ordering_hash app m'.height m'.skips =
        ap (λ h. ordering_hash app h m.skips) height ∙ ap (ordering_hash app m'.height) skips in
      let listed : (a : ℕ) → 0 < count a (ordered_validators app m) → elem a m.validators ≡ true =
        λ a p. (elem_iff_count a m.validators).1 (omega (arith, p, counts a)) in
      let agree : ordered_validators app m ≡ ordered_validators app m' =
        sorted_unique (λ a. distance app a hash) (ordered_validators app m)
          (ordered_validators app m') sorted
          (subst (λ h. IsSorted (λ a. distance app a h) (ordered_validators app m')) (sym hashes)
            sorted')
          (λ v. counts v ∙ same v ∙ sym (counts' v))
          (λ a b p q h.
            apart a b (listed a p) (listed b q)
              (bit_xor_injective hash (app.to_u256 a) (app.to_u256 b) h)) in
      (agree, λ skip. ap (get_leader_for_skip skip) agree)
