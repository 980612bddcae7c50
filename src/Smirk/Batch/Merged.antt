-- ===== src/Smirk/Batch/Merged.antt =====
-- What the merge of two batches gives (ciphera/pkg/smirk/src/batch/merge.rs).
use zerosats.Prelude.{
  ℕ, ◌+◌, ◌-◌, ◌≤◌, ◌<◌, ◌≡◌, refl, sym, ap, subst, ◌∙◌, ◌⊎◌, inl, inr, true, ◌||◌, Option, none,
  some, List, [], ◌∷◌, ◌++◌, All, filter, elem, count, set_insert, if◌then◌else◌, arith,
}
use zerosats.Prelude.Filter.{filter-eq-nil, nil-filter, All-filter_kept, map-append}
use zerosats.Smirk.Batch.{
  lsb, Collision, batch, ok, err, panic, Batch, elements_of, extend, collide, refuse,
  find_element_with_lsb, added, collision_of, push, collect_collisions, merge_with, merge, insert,
}
use zerosats.Smirk.Batch.Valid.{
  handles, find_lsb-some, find_lsb-none, elem-set_insert, count-handles_append, times, IsConsistent,
}
use mathlib.Core.List.{append-nil}

pub elem-extend : (x : ℕ) (ls ms : List ℕ) → elem x (extend ls ms) ≡ (elem x ls || elem x ms)
elem-extend x ls [] = ground arith
elem-extend x ls (m ∷ ms) =
    elem-extend x (set_insert m ls) ms ∙ ground (arith, elem-set_insert x m ls)

-- The two elements of a collision have the same handle.
abbrev pub IsCollision : ℕ → Collision → Type 0
IsCollision depth c = lsb (depth - 1) c.in_tree ≡ lsb (depth - 1) c.inserted

module _ (depth : ℕ) {V : Type 0} where
  find_element_lem :
      (l : ℕ) (b : Batch V)
      → 0 < times depth l b
      → (e : ℕ) × (find_element_with_lsb depth l b ≡ some e) × (lsb (depth - 1) e ≡ l)
  find_element_lem l b h =
      find_lsb-some depth l (elements_of b.entries ++ b.remove_entries)
        (omega (arith, h, count-handles_append depth l (elements_of b.entries) b.remove_entries))

  -- A handle without an element
  insert_panics :
      (e : ℕ) (v : V) (b : Batch V)
      → elem (lsb (depth - 1) e) b.lsbs ≡ true
      → times depth (lsb (depth - 1) e) b ≡ 0
      → insert depth e v b ≡ panic
  unfolding insert
  insert_panics e v b noted absent =
      let l = lsb (depth - 1) e in
      let refused = refuse depth (collide depth e (find_element_with_lsb depth l b)) in
      ap (λ t. if t then refused else ok (added depth e v b)) noted
      ∙ ap (λ o. refuse depth {A = Batch V} (collide depth e o))
          (find_lsb-none depth l (elements_of b.entries ++ b.remove_entries) (
            omega (
              arith,
              absent,
              count-handles_append depth l (elements_of b.entries) b.remove_entries,
            )))

  module _ (a b : Batch V) (ca : IsConsistent depth a) (cb : IsConsistent depth b) where
    collision_of_lem :
        (l : ℕ)
        → elem l a.lsbs ≡ true
        → elem l b.lsbs ≡ true
        → (c : Collision) × (collision_of depth a b l ≡ some c) × IsCollision depth c
    collision_of_lem l ha hb =
        let (x, fx, ex) = find_element_lem l a (ground (arith, ca.noted l, ha)) in
        let (y, fy, ey) = find_element_lem l b (ground (arith, cb.noted l, hb)) in
        (
          record { in_tree = x; inserted = y; depth = depth; struct_name = batch },
          ap
                (λ o. elim o as (λ _. Option Collision) [
                  | none ↦ none
                  | some inserted ↦ collide depth inserted (find_element_with_lsb depth l a)
                ])
                fy
              ∙ ap (collide depth y) fx,
          ex ∙ sym ey,
        )

    collect_collisions_lem :
        (ls : List ℕ)
        → All (λ l. (elem l a.lsbs ≡ true) × (elem l b.lsbs ≡ true)) ls
        → (cs : List Collision) × (collect_collisions depth a b ls ≡ err cs)
          × All (IsCollision depth) cs
    collect_collisions_lem [] all = ([], refl, tt)
    collect_collisions_lem (l ∷ ls) all =
        let (c, f, same) = collision_of_lem l (all.0).0 (all.0).1 in
        let (cs, fs, sames) = collect_collisions_lem ls all.1 in
        (
          c ∷ cs,
          ap (λ o. push o (collect_collisions depth a b ls)) f ∙ ap (push (some c)) fs,
          (same, sames),
        )

    abbrev pub joined : Batch V
    joined = record a { entries = a.entries ++ b.entries; lsbs = extend a.lsbs b.lsbs }

    abbrev shared : List ℕ
    shared = filter (λ l. elem l b.lsbs) a.lsbs

    collisions_lem :
        (ls : List ℕ)
        → shared ≡ ls
        → (((l : ℕ) → times depth l a + times depth l b ≤ 1)
            × (merge_with depth a b ls ≡ ok joined))
          ⊎ ((c : Collision) × (cs : List Collision) × (merge_with depth a b ls ≡ err (c ∷ cs))
              × All (IsCollision depth) (c ∷ cs))
    collisions_lem [] q = inl (
      λ l. ground (
        arith,
        ca.noted l,
        ca.once l,
        cb.noted l,
        cb.once l,
        filter-eq-nil (λ l. elem l b.lsbs) a.lsbs q l,
      ),
      refl,
    )
    collisions_lem (l ∷ ls) q =
        let all =
          subst (All (λ l. (elem l a.lsbs ≡ true) × (elem l b.lsbs ≡ true))) q
            (All-filter_kept (λ l. elem l b.lsbs) a.lsbs a.lsbs (λ l e. e)) in
        let (c, f, same) = collision_of_lem l (all.0).0 (all.0).1 in
        let (cs, fs, sames) = collect_collisions_lem ls all.1 in
        inr (
          c,
          cs,
          ap (λ o. push o (collect_collisions depth a b ls)) f ∙ ap (push (some c)) fs,
          (same, sames),
        )

    times-joined :
        (l : ℕ)
        → times depth l joined ≡ times depth l a + count l (handles depth (elements_of b.entries))
    times-joined l = omega (
      arith,
      ap (λ es. count l (handles depth es))
          (map-append (λ (entry : ℕ × V). entry.0) a.entries b.entries),
      count-handles_append depth l (elements_of a.entries) (elements_of b.entries),
    )

    joined-IsConsistent :
        ((l : ℕ) → times depth l a + times depth l b ≤ 1)
        → b.remove_entries ≡ []
        → IsConsistent depth joined
    joined-IsConsistent apart none_removed = record {
      noted = λ l. ground (
        arith,
        elem-extend l a.lsbs b.lsbs,
        ca.noted l,
        cb.noted l,
        times-joined l,
        ap (λ es. count l (handles depth es)) none_removed,
      );
      once = λ l. omega (arith, times-joined l, apart l);
    }

    -- The merge of two consistent batches, of which the second one removes nothing, either has the
    -- entries of both and is consistent, and then the two have no handle in common, or is refused
    -- with at least one collision, and each collision is of two elements with the same handle. It
    -- does not panic. A batch is consistent when its handle set has exactly the handles of the
    -- elements that it inserts or removes, and no two of them have the same handle: so is an empty
    -- batch, and insertion, removal and this merge keep it so. A batch that an earlier merge has left
    -- with the handle of a removal that it dropped is not consistent.
    pub merge_lem :
        b.remove_entries ≡ []
        → ((c : Batch V) × (merge depth a b ≡ ok c)
            × (c.entries ≡ a.entries ++ b.entries)
            × (c.remove_entries ≡ a.remove_entries ++ b.remove_entries)
            × IsConsistent depth c
            × ((l : ℕ) → times depth l a + times depth l b ≤ 1))
          ⊎ ((c : Collision) × (cs : List Collision) × (merge depth a b ≡ err (c ∷ cs))
              × All (IsCollision depth) (c ∷ cs))
    unfolding merge
    merge_lem none_removed = elim (collisions_lem shared refl) [
      | inl (apart, q) ↦ inl (
        joined,
        q,
        refl,
        sym (ap (λ es. a.remove_entries ++ es) none_removed ∙ append-nil a.remove_entries),
        joined-IsConsistent apart none_removed,
        apart,
      )
      | inr refused ↦ inr refused
    ]

    -- The merge of two consistent batches without a common handle drops what the second one removes
    -- and keeps the handles. The batch that comes out panics at the insertion of an element whose
    -- handle is that of an element which the second batch removes. A batch is consistent when its
    -- handle set has exactly the handles of the elements that it inserts or removes, and no two of
    -- them have the same handle, which is so when it is made by insertions and removals alone.
    pub merge_panics :
        (e : ℕ) (v : V)
        → ((l : ℕ) → times depth l a + times depth l b ≤ 1)
        → 0 < count (lsb (depth - 1) e) (handles depth b.remove_entries)
        → (c : Batch V) × (merge depth a b ≡ ok c)
          × (c.remove_entries ≡ a.remove_entries)
          × (insert depth e v c ≡ panic)
    unfolding merge insert
    merge_panics e v apart removes =
        let l = lsb (depth - 1) e in
        (
          joined,
          ap (merge_with depth a b) (
              nil-filter (λ m. elem m b.lsbs) a.lsbs
                (λ m h. ground (arith, h, ca.noted m, cb.noted m, apart m))),
          refl,
          insert_panics e v joined
              (ground (arith, elem-extend l a.lsbs b.lsbs, cb.noted l, removes))
              (omega (arith, times-joined l, apart l, removes)),
        )
