-- ===== src/Smirk/Collisions/Examples.antt =====
-- A batch against a tree of depth 4 (ciphera/pkg/smirk/src/tree/batch.rs).
use zerosats.Prelude.{ℕ, ◌≡◌, ◌↔◌, refl, true, false, [], ◌∷◌, All, elem}
use zerosats.Smirk.Batch.{lsb, tree, ok, err, panic, Batch}
use zerosats.Smirk.Batch.Valid.{handles}
use zerosats.Smirk.Collisions.{insert_collisions, remove_collisions, check_collisions}
use zerosats.Smirk.Collisions.Fits.{check_collisions-eq-ok_iff}

-- The batch inserts the element 1 and removes the element 2.
abbrev change : Batch ℕ
change = record { entries = (1, 10) ∷ []; remove_entries = 2 ∷ []; lsbs = 2 ∷ 1 ∷ [] }

fits : check_collisions 4 false (2 ∷ 3 ∷ []) change ≡ ok tt
unfolding check_collisions insert_collisions remove_collisions
fits = refl

taken :
    check_collisions 4 false (2 ∷ 9 ∷ []) change
    ≡ err (record { in_tree = 9; inserted = 1; depth = 4; struct_name = tree } ∷ [])
unfolding check_collisions insert_collisions remove_collisions
taken = refl

absent : check_collisions 4 false (3 ∷ []) change ≡ panic
unfolding check_collisions insert_collisions remove_collisions
absent = refl

check_collisions-eq-ok_iff_example : (check_collisions 4 true (10 ∷ 3 ∷ []) change ≡ ok tt) ↔ (
    All (λ t. elem (lsb 3 t) (handles 4 (1 ∷ [])) ≡ false) (10 ∷ 3 ∷ [])
    × All (λ e. elem (lsb 3 e) (handles 4 (10 ∷ 3 ∷ [])) ≡ true) (2 ∷ []))
check_collisions-eq-ok_iff_example = check_collisions-eq-ok_iff 4 change true (10 ∷ 3 ∷ [])
