-- ===== src/Prelude/Ordered.antt =====
-- Ordered maps: association lists with ascending keys.
use Prim.Native.Nat.{ℕ, ◌+◌, ◌≤◌, ◌<◌}
use mathlib.Core.Path.{◌≡◌, refl}
use mathlib.Core.Option.{none, some}
use mathlib.Core.List.{[], ◌∷◌}
use native.Mathlib.Omega.{arith}
use zerosats.Prelude.Tests.{◌==◌, ltb, if◌then◌else◌}
use zerosats.Prelude.Lists.{length}
use zerosats.Prelude.Maps.{remove, Map, get, contains_key}

module _ {ℓ} {V : Type ℓ} where
  -- `BTreeMap::insert`
  abbrev pub put : ℕ → V → Map V → Map V
  put k v [] = (k, v) ∷ []
  put k v ((j, w) ∷ m) =
      if k == j then (k, v) ∷ m else if ltb k j then (k, v) ∷ (j, w) ∷ m else (j, w) ∷ put k v m

  -- All keys are above the bound.
  abbrev pub Above : ℕ → Map V → Type 0
  Above b [] = Unit
  Above b ((k, v) ∷ m) = (b < k) × Above b m

  abbrev pub IsOrdered : Map V → Type 0
  IsOrdered [] = Unit
  IsOrdered ((k, v) ∷ m) = Above k m × IsOrdered m

  pub get-put :
      (j k : ℕ) (v : V) (m : Map V) → get j (put k v m) ≡ (if j == k then some v else get j m)
  get-put j k v [] = refl
  get-put j k v ((i, w) ∷ m) = ground (arith, get-put j k v m)

  Above-mono : (a b : ℕ) (m : Map V) → a ≤ b → Above b m → Above a m
  Above-mono a b [] h q = tt
  Above-mono a b ((k, v) ∷ m) h q = (omega arith, Above-mono a b m h q.1)

  put-Above : (b k : ℕ) (v : V) (m : Map V) → b < k → Above b m → Above b (put k v m)
  put-Above b k v [] h q = (h, tt)
  put-Above b k v ((j, w) ∷ m) h q = ground (arith, put-Above b k v m h q.1)

  pub put-IsOrdered : (k : ℕ) (v : V) (m : Map V) → IsOrdered m → IsOrdered (put k v m)
  put-IsOrdered k v [] h = (tt, tt)
  put-IsOrdered k v ((j, w) ∷ m) h =
      ground (arith, put-IsOrdered k v m h.1, put-Above j k v m, Above-mono k j m)

  remove-Above : (b k : ℕ) (m : Map V) → Above b m → Above b (remove k m)
  remove-Above b k [] q = tt
  remove-Above b k ((j, w) ∷ m) q = ground (arith, remove-Above b k m q.1)

  pub remove-IsOrdered : (k : ℕ) (m : Map V) → IsOrdered m → IsOrdered (remove k m)
  remove-IsOrdered k [] h = tt
  remove-IsOrdered k ((j, w) ∷ m) h =
      ground (arith, remove-IsOrdered k m h.1, remove-Above j k m h.0)

  pub get-Above : (k b : ℕ) (m : Map V) → k ≤ b → Above b m → get k m ≡ none
  get-Above k b [] h q = refl
  get-Above k b ((j, w) ∷ m) h q = ground (arith, get-Above k b m h q.1)

  pub length-put :
      (k : ℕ) (v : V) (m : Map V)
      → IsOrdered m
      → length (put k v m) ≡ length m + (if contains_key k m then 0 else 1)
  length-put k v [] h = omega arith
  length-put k v ((j, w) ∷ m) h = ground (arith, length-put k v m h.1, get-Above k j m)
