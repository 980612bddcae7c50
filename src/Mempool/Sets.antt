-- ===== src/Mempool/Sets.antt =====
-- The leases of mempool.rs as sets, and what becomes of them.
use zerosats.Prelude.{
  ℕ, ◌≤◌, ◌≡◌, true, false, List, [], ◌∷◌, ◌==◌, arith, count, erase, elem, count-erase_self,
  count-eq-zero, elem_pos, set_insert, Option-cases, inl, inr,
}
use zerosats.Prelude.Maps.{Map, get, remove, get-insert, get-remove}
use zerosats.Mempool.{add_leased, drop_leased, keys_of}
use zerosats.Mempool.Places.{count-set_insert}

-- A lease is a set: it has no key twice.
abbrev pub AreSets : Map (List ℕ) → Type 0
AreSets m = (lease k : ℕ) → count k (keys_of (get lease m)) ≤ 1

pub count-erase_le : (k key : ℕ) (ks : List ℕ) → count k (erase key ks) ≤ count k ks
count-erase_le k key [] = omega arith
count-erase_le k key (x ∷ ks) = ground (arith, count-erase_le k key ks)

pub elem-erase : (k key : ℕ) (ks : List ℕ) → elem k (erase key ks) ≡ true → elem k ks ≡ true
elem-erase k key [] h = h
elem-erase k key (x ∷ ks) h = ground (arith, elem-erase k key ks)

pub add_leased-AreSets :
    (lease key : ℕ) (m : Map (List ℕ)) → AreSets m → AreSets (add_leased lease key m)
add_leased-AreSets lease key m h l k = ground (
  arith,
  get-insert l lease (set_insert key (keys_of (get lease m))) m,
  count-set_insert k key (keys_of (get lease m)),
  count-eq-zero key (keys_of (get lease m)),
  h l k,
  h lease k,
)

pub drop_leased-AreSets :
    (lease key : ℕ) (m : Map (List ℕ)) → AreSets m → AreSets (drop_leased lease key m)
drop_leased-AreSets lease key m h l k = elim (Option-cases (get lease m)) [
  | inl e ↦ ground (arith, h l k)
  | inr (ks, e) ↦
      ground (arith, get-insert l lease (erase key ks) m, h l k, h lease k, count-erase_le k key ks)
]

-- A key that a lease has after another one has been dropped from it
pub dropped :
    (lease k key : ℕ) (m : Map (List ℕ))
    → AreSets m
    → elem k (keys_of (get lease (drop_leased lease key m))) ≡ true
    → (elem k (keys_of (get lease m)) ≡ true) × (k == key ≡ false)
dropped lease k key m sets h = elim (Option-cases (get lease m)) [
  | inl e ↦ absurd (ground arith)
  | inr (ks, e) ↦
      let in_rest : elem k (erase key ks) ≡ true =
        ground (arith, get-insert lease lease (erase key ks) m, h) in
      (
        ground (arith, elem-erase k key ks in_rest),
        ground (arith, elem_pos k (erase key ks) in_rest, count-erase_self k ks, sets lease k),
      )
]

pub remove-AreSets : (lease : ℕ) (m : Map (List ℕ)) → AreSets m → AreSets (remove lease m)
remove-AreSets lease m h l k = ground (arith, get-remove l lease m, h l k)
