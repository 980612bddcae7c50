-- ===== src/BlockStore/Rocks/Sorted.antt =====
-- A database that keeps the laws: a list of entries in the order of their keys.
use zerosats.Prelude.{
  ◌≡◌, refl, sym, ap, subst, ◌∙◌, true, false, some, List, [], ◌∷◌, if◌then◌else◌, arith, inl, inr,
  Bool-cases,
}
use zerosats.Prelude.{filter}
use zerosats.Prelude.Bytes.{Bytes, bytes_eq, bytes_lt, bytes_eq_iff, bytes_lt_trans, bytes_lt_total}
use zerosats.BlockStore.Rocks.{Entry, find, last_put, within, AllAfter, IsAscending, Rocks}
use mathlib.Core.List.{reverse}

abbrev put : Bytes → Bytes → List Entry → List Entry
put k v [] = (k, v) ∷ []
put k v ((j, w) ∷ es) =
    let rest = put k v es in
    if bytes_eq k j
    then (k, v) ∷ es
    else if bytes_lt k j
    then (k, v) ∷ (j, w) ∷ es
    else (j, w) ∷ rest

unfoldable pub put_all : List Entry → List Entry → List Entry
put_all [] es = es
put_all ((k, v) ∷ batch) es = put_all batch (put k v es)

find-put :
    (j k v : Bytes) (es : List Entry)
    → find j (put k v es) ≡ (if bytes_eq j k then some v else find j es)
find-put j k v [] = refl
find-put j k v ((i, w) ∷ es) = ground (
  arith,
  find-put j k v es,
  bytes_eq_iff k i,
  bytes_eq_iff j k,
  bytes_eq_iff j i,
  λ (e : k ≡ i). ap (bytes_eq j) e,
  λ (e : j ≡ k) (f : j ≡ i). sym e ∙ f,
)

pub find-put_all :
    (k : Bytes) (batch es : List Entry) → find k (put_all batch es) ≡ last_put k batch (find k es)
unfolding put_all
find-put_all k [] es = refl
find-put_all k ((j, v) ∷ batch) es =
    find-put_all k batch (put j v es) ∙ ap (last_put k batch) (find-put k j v es)

AllAfter-put :
    (i k v : Bytes) (es : List Entry)
    → bytes_lt i k ≡ true
    → AllAfter i es
    → AllAfter i (put k v es)
AllAfter-put i k v [] h a = (h, tt)
AllAfter-put i k v ((j, w) ∷ es) h a = ground (arith, AllAfter-put i k v es h a.1)

AllAfter-trans :
    (i j : Bytes) (es : List Entry) → bytes_lt i j ≡ true → AllAfter j es → AllAfter i es
AllAfter-trans i j [] h a = tt
AllAfter-trans i j (e ∷ es) h a = (bytes_lt_trans i j e.0 h a.0, AllAfter-trans i j es h a.1)

AllAfter-eq : (i j : Bytes) (es : List Entry) → bytes_eq i j ≡ true → AllAfter j es → AllAfter i es
AllAfter-eq i j es h a = subst (λ (t : Bytes). AllAfter t es) (sym ((bytes_eq_iff i j).0 h)) a

eq_sym : (a b : Bytes) → bytes_eq a b ≡ false → bytes_eq b a ≡ false
eq_sym a b h = ground (arith, bytes_eq_iff a b, bytes_eq_iff b a, λ (e : b ≡ a). sym e)

put-IsAscending : (k v : Bytes) (es : List Entry) → IsAscending es → IsAscending (put k v es)
put-IsAscending k v [] h = (tt, tt)
put-IsAscending k v ((j, w) ∷ es) h = elim (Bool-cases (bytes_eq k j)) [
  | inl e ↦ rw e (AllAfter-eq k j es e h.0, h.1)
  | inr e ↦ elim (Bool-cases (bytes_lt k j)) [
    | inl lt ↦ rw (e, lt) ((lt, AllAfter-trans k j es lt h.0), (h.0, h.1))
    | inr ge ↦
        rw (e, ge) (AllAfter-put j k v es (bytes_lt_total k j ge e) h.0, put-IsAscending k v es h.1)
  ]
]

pub put_all-IsAscending : (batch es : List Entry) → IsAscending es → IsAscending (put_all batch es)
unfolding put_all
put_all-IsAscending [] es h = h
put_all-IsAscending ((k, v) ∷ batch) es h =
    put_all-IsAscending batch (put k v es) (put-IsAscending k v es h)

-- A database is a list of entries that is in order.
abbrev pub Table : Type 0
Table = (es : List Entry) × IsAscending es

abbrev pub sorted : Rocks
sorted = record {
  Db = Table;
  get = λ k db. find k db.0;
  write = λ batch db. (put_all batch db.0, put_all-IsAscending batch db.0 db.1);
  iterate = λ lower upper start db.
      if start
      then filter (within lower upper) db.0
      else reverse (filter (within lower upper) db.0);
  entries = λ db. db.0;
  get_entries = λ k db. refl;
  ascending = λ db. db.1;
  get_write = λ k batch db. find-put_all k batch db.0;
  iterate_start = λ lower upper db. refl;
  iterate_end = λ lower upper db. refl;
}

abbrev pub no_entries : Table
no_entries = ([], tt)
