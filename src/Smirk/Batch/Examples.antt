-- ===== src/Smirk/Batch/Examples.antt =====
-- Batches at concrete inputs, for a tree of depth 4: a handle has three bits
-- (ciphera/pkg/smirk/src/batch).
use zerosats.Prelude.{ℕ, ◌+◌, ◌≤◌, ◌≡◌, refl, ◌⊎◌, List, [], ◌∷◌, All, count, arith}
use zerosats.Smirk.Batch.{
  Collision, batch, ok, err, panic, Batch, elements_of, insert, insert_all, remove_all,
  from_entries, merge,
}
use zerosats.Smirk.Batch.Valid.{handles, times, IsConsistent}
use zerosats.Smirk.Batch.Built.{IsBatchOf, Repeats, from_entries_lem}
use zerosats.Smirk.Batch.Merged.{IsCollision, merge_lem, merge_panics}

abbrev two_entries : List (ℕ × ℕ)
two_entries = (1, 10) ∷ (2, 20) ∷ []

abbrev one_entry : List (ℕ × ℕ)
one_entry = (1, 10) ∷ []

from_entries_lem_example :
    ((b : Batch ℕ) × (from_entries 4 two_entries (3 ∷ []) ≡ ok b)
      × IsBatchOf 4 two_entries (3 ∷ []) b)
    ⊎ Repeats 4
        (λ l. count l (handles 4 (elements_of two_entries)) + count l (handles 4 (3 ∷ [])))
        (from_entries 4 two_entries (3 ∷ []))
from_entries_lem_example = from_entries_lem 4 two_entries (3 ∷ [])

-- 1 and 9 have the same three last bits.
nine_collides :
    from_entries 4 one_entry (9 ∷ [])
    ≡ err (record { in_tree = 1; inserted = 9; depth = 4; struct_name = batch } ∷ [])
unfolding from_entries insert_all remove_all insert
nine_collides = refl

abbrev first : Batch ℕ
first = record { entries = (1, 10) ∷ []; remove_entries = []; lsbs = 1 ∷ [] }

abbrev second : Batch ℕ
second = record { entries = (3, 30) ∷ []; remove_entries = []; lsbs = 3 ∷ [] }

-- A batch that removes the element 2
abbrev removing : Batch ℕ
removing = record { entries = []; remove_entries = 2 ∷ []; lsbs = 2 ∷ [] }

first-IsConsistent : IsConsistent 4 first
first-IsConsistent = record { noted = λ l. ground arith; once = λ l. ground arith }

second-IsConsistent : IsConsistent 4 second
second-IsConsistent = record { noted = λ l. ground arith; once = λ l. ground arith }

removing-IsConsistent : IsConsistent 4 removing
removing-IsConsistent = record { noted = λ l. ground arith; once = λ l. ground arith }

merge_lem_example :
    ((c : Batch ℕ) × (merge 4 first second ≡ ok c)
      × (c.entries ≡ (1, 10) ∷ (3, 30) ∷ [])
      × (c.remove_entries ≡ [])
      × IsConsistent 4 c
      × ((l : ℕ) → times 4 l first + times 4 l second ≤ 1))
    ⊎ ((c : Collision) × (cs : List Collision) × (merge 4 first second ≡ err (c ∷ cs))
        × All (IsCollision 4) (c ∷ cs))
merge_lem_example = merge_lem 4 first second first-IsConsistent second-IsConsistent refl

merge_panics_example :
    (c : Batch ℕ) × (merge 4 first removing ≡ ok c)
    × (c.remove_entries ≡ [])
    × (insert 4 10 0 c ≡ panic)
merge_panics_example =
    merge_panics 4 first removing first-IsConsistent removing-IsConsistent 10 0 (λ l. ground arith)
      (omega arith)
