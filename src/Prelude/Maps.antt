-- ===== src/Prelude/Maps.antt =====
-- Hash maps as association lists. Keys are numbers; a map is iterated in the order of its list,
-- so a statement about every list covers every order that a hash map may choose.
use zerosats.Prelude.Tests.{◌==◌, if◌then◌else◌}
use zerosats.Prelude.Lists.{All}
use Prim.Native.Nat.{ℕ}
use mathlib.Core.Path.{◌≡◌, refl}
use mathlib.Core.Bool.{Bool, true, false}
use mathlib.Core.Option.{Option, none, some}
use mathlib.Core.List.{List, [], ◌∷◌}
use native.Mathlib.Omega.{arith}

abbrev pub Map {ℓ} : Type ℓ → Type ℓ
Map V = List (ℕ × V)

module _ {ℓ} {V : Type ℓ} where
  abbrev pub get : ℕ → Map V → Option V
  get k [] = none
  get k ((j, v) ∷ m) = if k == j then some v else get k m

  abbrev pub contains_key : ℕ → Map V → Bool
  contains_key k m = elim (get k m) [ none ↦ false | some _ ↦ true ]

  abbrev pub insert : ℕ → V → Map V → Map V
  insert k v [] = (k, v) ∷ []
  insert k v ((j, w) ∷ m) = if k == j then (k, v) ∷ m else (j, w) ∷ insert k v m

  abbrev pub remove : ℕ → Map V → Map V
  remove k [] = []
  remove k ((j, w) ∷ m) = if k == j then remove k m else (j, w) ∷ remove k m

  abbrev pub values : Map V → List V
  values [] = []
  values ((j, w) ∷ m) = w ∷ values m

  -- No key stands twice.
  abbrev pub IsMap : Map V → Type 0
  IsMap [] = Unit
  IsMap ((k, v) ∷ m) = (contains_key k m ≡ false) × IsMap m

  pub get-insert :
      (j k : ℕ) (v : V) (m : Map V) → get j (insert k v m) ≡ (if j == k then some v else get j m)
  get-insert j k v [] = refl
  get-insert j k v ((i, w) ∷ m) = ground (arith, get-insert j k v m)

  pub get-remove : (j k : ℕ) (m : Map V) → get j (remove k m) ≡ (if j == k then none else get j m)
  get-remove j k [] = ground arith
  get-remove j k ((i, w) ∷ m) = ground (arith, get-remove j k m)

  pub insert-IsMap : (k : ℕ) (v : V) (m : Map V) → IsMap m → IsMap (insert k v m)
  insert-IsMap k v [] h = (refl, tt)
  insert-IsMap k v ((j, w) ∷ m) h = ground (arith, insert-IsMap k v m h.1, get-insert j k v m)

  pub remove-IsMap : (k : ℕ) (m : Map V) → IsMap m → IsMap (remove k m)
  remove-IsMap k [] h = tt
  remove-IsMap k ((j, w) ∷ m) h = ground (arith, remove-IsMap k m h.1, get-remove j k m)

  pub remove-insert_self : (k : ℕ) (v : V) (m : Map V) → remove k (insert k v m) ≡ remove k m
  remove-insert_self k v [] = ground arith
  remove-insert_self k v ((j, w) ∷ m) = ground (arith, remove-insert_self k v m)

  weaken_entries :
      (k : ℕ) (v : V) (m es : Map V)
      → contains_key k m ≡ false
      → All (λ e. get e.0 m ≡ some e.1) es
      → All (λ e. get e.0 ((k, v) ∷ m) ≡ some e.1) es
  weaken_entries k v m [] h a = tt
  weaken_entries k v m ((j, w) ∷ es) h a = (ground arith, weaken_entries k v m es h a.1)

  -- Each entry of a map is what its key is mapped to.
  pub entries-get : (m : Map V) → IsMap m → All (λ e. get e.0 m ≡ some e.1) m
  entries-get [] h = tt
  entries-get ((k, v) ∷ m) h = (ground arith, weaken_entries k v m m h.0 (entries-get m h.1))
