-- ===== src/Mempool/Places.antt =====
-- Where the keys of the pool stand (mempool.rs): the queue and the leases, counted.
use zerosats.Prelude.{
  ℕ, ◌+◌, ◌≤◌, ◌≡◌, refl, ◌≢◌, inl, inr, true, false, some, List, [], ◌∷◌, ◌==◌, if◌then◌else◌,
  arith, count, elem, erase, set_insert, Option-cases, count-erase_self, count-erase_ne,
}
use zerosats.Prelude.Maps.{
  Map, get, contains_key, insert, remove, IsMap, insert-IsMap, remove-insert_self,
}
use zerosats.Mempool.{MempoolTxn, keys_of, push_all, drop_leased, add_leased, has_change}

-- How often a key stands in the leases.
abbrev pub total : ℕ → Map (List ℕ) → ℕ
total k [] = 0
total k ((_, ks) ∷ m) = count k ks + total k m

-- One for a key that names a transaction.
abbrev pub present : {V : Type 0} → ℕ → Map (MempoolTxn V) → ℕ
present k m = if contains_key k m then 1 else 0

pub present_le : {V : Type 0} (k : ℕ) (m : Map (MempoolTxn V)) → present k m ≤ 1
present_le k m = ground arith

-- How many transactions have a change.
abbrev pub owners : {V : Type 0} → ℕ → Map (MempoolTxn V) → ℕ
owners c [] = 0
owners c ((_, t) ∷ m) = (if elem c t.changes then 1 else 0) + owners c m

total-remove_absent :
    (k l : ℕ) (m : Map (List ℕ)) → contains_key l m ≡ false → total k (remove l m) ≡ total k m
total-remove_absent k l [] h = refl
total-remove_absent k l ((j, ks) ∷ m) h = ground (arith, total-remove_absent k l m)

pub total-remove :
    (k l : ℕ) (m : Map (List ℕ))
    → IsMap m
    → total k (remove l m) + count k (keys_of (get l m)) ≡ total k m
total-remove k l [] h = ground arith
total-remove k l ((j, ks) ∷ m) h = ground (arith, total-remove k l m h.1, total-remove_absent k l m)

pub total-insert :
    (k l : ℕ) (v : List ℕ) (m : Map (List ℕ))
    → total k (insert l v m) + count k (keys_of (get l m)) ≡ total k m + count k v
total-insert k l v [] = ground arith
total-insert k l v ((j, ks) ∷ m) = ground (arith, total-insert k l v m)

pub count-set_insert :
    (k a : ℕ) (xs : List ℕ)
    → count k (set_insert a xs) ≡ count k xs + (if elem a xs then 0 else if k == a then 1 else 0)
count-set_insert k a xs = ground arith

pub total-add_leased :
    (k l a : ℕ) (m : Map (List ℕ))
    → total k (add_leased l a m)
      ≡ total k m + (if elem a (keys_of (get l m)) then 0 else if k == a then 1 else 0)
total-add_leased k l a m = ground (
  arith,
  total-insert k l (set_insert a (keys_of (get l m))) m,
  count-set_insert k a (keys_of (get l m)),
)

pub count-push_all :
    (k : ℕ) (ks pool : List ℕ) → count k (push_all ks pool) ≡ count k ks + count k pool
count-push_all k [] pool = ground arith
count-push_all k (a ∷ ks) pool = ground (arith, count-push_all k ks (a ∷ pool))

pub total-drop_leased_ne :
    (k lease key : ℕ) (m : Map (List ℕ)) → k ≢ key → total k (drop_leased lease key m) ≡ total k m
total-drop_leased_ne k lease key m ne = elim (Option-cases (get lease m)) [
  | inl e ↦ rw (e, drop_leased)
  | inr (ks, e) ↦ ground (arith, total-insert k lease (erase key ks) m, count-erase_ne k key ks ne)
]

-- A key that stands in no other lease is dropped from the leases.
pub total-drop_leased_self :
    (lease key : ℕ) (m : Map (List ℕ))
    → IsMap m
    → total key m ≤ 1
    → total key (remove lease m) ≡ 0
    → total key (drop_leased lease key m) ≡ 0
total-drop_leased_self lease key m h one elsewhere = elim (Option-cases (get lease m)) [
  | inl e ↦ ground (arith, total-remove key lease m h)
  | inr (ks, e) ↦ ground (
    arith,
    total-remove key lease m h,
    total-insert key lease (erase key ks) m,
    count-erase_self key ks,
  )
]

pub remove-drop_leased :
    (lease key : ℕ) (m : Map (List ℕ)) → remove lease (drop_leased lease key m) ≡ remove lease m
remove-drop_leased lease key m = elim (Option-cases (get lease m)) [
  | inl e ↦ ground arith
  | inr (ks, e) ↦ ground (arith, remove-insert_self lease (erase key ks) m)
]

pub drop_leased-IsMap :
    (lease key : ℕ) (m : Map (List ℕ)) → IsMap m → IsMap (drop_leased lease key m)
drop_leased-IsMap lease key m h = elim (Option-cases (get lease m)) [
  | inl e ↦ rw (e, drop_leased) h
  | inr (ks, e) ↦ rw (e, drop_leased) (insert-IsMap lease (erase key ks) m h)
]

module _ {V : Type 0} where
  pub owners-absent : (c : ℕ) (m : Map (MempoolTxn V)) → has_change c m ≡ false → owners c m ≡ 0
  owners-absent c [] h = refl
  owners-absent c ((j, t) ∷ m) h = ground (arith, owners-absent c m)

  pub owners-remove : (c k : ℕ) (m : Map (MempoolTxn V)) → owners c (remove k m) ≤ owners c m
  owners-remove c k [] = ground arith
  owners-remove c k ((j, t) ∷ m) = ground (arith, owners-remove c k m)

  pub owners-insert :
      (c k : ℕ) (t : MempoolTxn V) (m : Map (MempoolTxn V))
      → contains_key k m ≡ false
      → owners c (insert k t m) ≡ owners c m + (if elem c t.changes then 1 else 0)
  owners-insert c k t [] h = ground arith
  owners-insert c k t ((j, w) ∷ m) h = ground (arith, owners-insert c k t m)

  pub owners_one :
      (c j : ℕ) (t : MempoolTxn V) (m : Map (MempoolTxn V))
      → get j m ≡ some t
      → elem c t.changes ≡ true
      → 1 ≤ owners c m
  owners_one c j t [] h e = cc
  owners_one c j t ((i, w) ∷ m) h e = ground (arith, owners_one c j t m)

  -- Two transactions with one change are counted twice.
  pub owners_two :
      (c j k : ℕ) (t u : MempoolTxn V) (m : Map (MempoolTxn V))
      → j ≢ k
      → get j m ≡ some t
      → get k m ≡ some u
      → elem c t.changes ≡ true
      → elem c u.changes ≡ true
      → 2 ≤ owners c m
  owners_two c j k t u [] ne h g e f = cc
  owners_two c j k t u ((i, w) ∷ m) ne h g e f =
      ground (arith, owners_two c j k t u m ne, owners_one c j t m, owners_one c k u m)
