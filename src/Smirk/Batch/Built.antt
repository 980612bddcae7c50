-- ===== src/Smirk/Batch/Built.antt =====
-- What `from_entries` builds (ciphera/pkg/smirk/src/batch/mod.rs).
use zerosats.Prelude.{
  ℕ, ◌+◌, ◌-◌, ◌≤◌, ◌≡◌, refl, sym, ap, subst, ◌∙◌, ◌⊎◌, inl, inr, List, [], ◌∷◌, ◌++◌, count, ◌==◌,
  if◌then◌else◌, arith, ==_refl,
}
use zerosats.Smirk.Batch.{
  lsb, Collision, Checked, ok, err, ◌>>=◌, Batch, new, elements_of, added, removed, insert, remove,
  insert_all, remove_all, from_entries,
}
use zerosats.Smirk.Batch.Valid.{
  handles, times, IsConsistent, Collides, times-added, times-removed, insert_lem, remove_lem,
}
use mathlib.Core.List.{append_assoc, append-nil}

module _ (depth : ℕ) {V : Type 0} where
  -- The entries and the removals of the batch that is built
  pub record IsBatchOf (es : List (ℕ × V)) (rs : List ℕ) (b : Batch V) : Type 0 where
    pub entries : b.entries ≡ es
    pub remove_entries : b.remove_entries ≡ rs
    pub consistent : IsConsistent depth b

  -- One collision, of an element whose handle comes twice by this count
  abbrev pub Repeats : (ℕ → ℕ) → Checked (Batch V) → Type 0
  Repeats n r =
      (c : Collision) × (r ≡ err (c ∷ []))
      × (lsb (depth - 1) c.in_tree ≡ lsb (depth - 1) c.inserted)
      × (2 ≤ n (lsb (depth - 1) c.inserted))

  Repeats-le :
      (m n : ℕ → ℕ) (r : Checked (Batch V)) → ((l : ℕ) → m l ≤ n l) → Repeats m r → Repeats n r
  Repeats-le m n r le (c, e, same, twice) =
      (c, e, same, omega (arith, le (lsb (depth - 1) c.inserted), twice))

  -- How often a handle comes in a batch and in a list
  abbrev in_all : Batch V → List ℕ → ℕ → ℕ
  in_all b es l = times depth l b + count l (handles depth es)

  -- A step that is refused, and one after which the rest is done
  refused_lem :
      (e : ℕ) (b : Batch V) (es : List ℕ) (m : Checked (Batch V)) (f : Batch V → Checked (Batch V))
      → times depth (lsb (depth - 1) e) b ≡ 1
      → Collides depth e m
      → Repeats (in_all b (e ∷ es)) (m >>= f)
  refused_lem e b es m f once (c, q, inserted, same) = (
    c,
    ap (λ r. r >>= f) q,
    same ∙ sym (ap (lsb (depth - 1)) inserted),
    subst (λ x. 2 ≤ in_all b (e ∷ es) (lsb (depth - 1) x)) (sym inserted)
        (ground (arith, once, ==_refl (lsb (depth - 1) e))),
  )

  followed_lem :
      (e : ℕ) (b b' : Batch V) (es : List ℕ) (m : Checked (Batch V))
      (f : Batch V → Checked (Batch V))
      → m ≡ ok b'
      → ((l : ℕ) → times depth l b' ≡ (if l == lsb (depth - 1) e then 1 else 0) + times depth l b)
      → Repeats (in_all b' es) (f b')
      → Repeats (in_all b (e ∷ es)) (m >>= f)
  followed_lem e b b' es m f q more repeats =
      subst (Repeats (in_all b (e ∷ es))) (sym (ap (λ r. r >>= f) q))
        (Repeats-le (in_all b' es) (in_all b (e ∷ es)) (f b') (λ l. omega (arith, more l)) repeats)

  remove_all_lem :
      (rs : List ℕ) (b : Batch V)
      → IsConsistent depth b
      → ((b' : Batch V) × (remove_all depth rs b ≡ ok b')
          × IsBatchOf b.entries (b.remove_entries ++ rs) b')
        ⊎ Repeats (in_all b rs) (remove_all depth rs b)
  unfolding remove_all
  remove_all_lem [] b c = inl (
    b,
    refl,
    record { entries = refl; remove_entries = sym (append-nil b.remove_entries); consistent = c },
  )
  remove_all_lem (e ∷ rs) b c = elim (remove_lem depth e b c) [
    | inr (once, collides) ↦
        inr (refused_lem e b rs (remove depth e b) (remove_all depth rs) once collides)
    | inl (fresh, q, c') ↦ elim (remove_all_lem rs (removed depth e b) c') [
      | inl (b', f, of') ↦ inl (
        b',
        ap (λ r. r >>= remove_all depth rs) q ∙ f,
        record {
          entries = of'.entries;
          remove_entries = of'.remove_entries ∙ append_assoc b.remove_entries (e ∷ []) rs;
          consistent = of'.consistent;
        },
      )
      | inr repeats ↦ inr (
          followed_lem e b (removed depth e b) rs (remove depth e b) (remove_all depth rs) q
            (λ l. times-removed depth l e b) repeats)
    ]
  ]

  insert_all_lem :
      (es : List (ℕ × V)) (b : Batch V)
      → IsConsistent depth b
      → ((b' : Batch V) × (insert_all depth es b ≡ ok b')
          × IsBatchOf (b.entries ++ es) b.remove_entries b')
        ⊎ Repeats (in_all b (elements_of es)) (insert_all depth es b)
  unfolding insert_all
  insert_all_lem [] b c = inl (
    b,
    refl,
    record { entries = sym (append-nil b.entries); remove_entries = refl; consistent = c },
  )
  insert_all_lem ((e, v) ∷ es) b c = elim (insert_lem depth e v b c) [
    | inr (once, collides) ↦
        inr (
          refused_lem e b (elements_of es) (insert depth e v b) (insert_all depth es) once collides)
    | inl (fresh, q, c') ↦ elim (insert_all_lem es (added depth e v b) c') [
      | inl (b', f, of') ↦ inl (
        b',
        ap (λ r. r >>= insert_all depth es) q ∙ f,
        record {
          entries = of'.entries ∙ append_assoc b.entries ((e, v) ∷ []) es;
          remove_entries = of'.remove_entries;
          consistent = of'.consistent;
        },
      )
      | inr repeats ↦ inr (
          followed_lem e b (added depth e v b) (elements_of es) (insert depth e v b)
            (insert_all depth es) q (λ l. times-added depth l e v b) repeats)
    ]
  ]

  pub new-IsConsistent : IsConsistent depth {V = V} new
  new-IsConsistent = record { noted = λ l. refl; once = λ l. omega arith }

  -- A batch is built from any entries and removals: either it holds just these in their order, has
  -- the handles of its elements and no two elements with the same handle; or the result is one
  -- collision of two elements with the same handle, and that handle comes at least twice among the
  -- elements. It does not panic.
  pub from_entries_lem :
      (es : List (ℕ × V)) (rs : List ℕ)
      → ((b : Batch V) × (from_entries depth es rs ≡ ok b) × IsBatchOf es rs b)
        ⊎ Repeats
            (λ l. count l (handles depth (elements_of es)) + count l (handles depth rs))
            (from_entries depth es rs)
  unfolding from_entries
  from_entries_lem es rs = elim (insert_all_lem es new new-IsConsistent) [
    | inr (c, q, same, twice) ↦
        inr (c, ap (λ r. r >>= remove_all depth rs) q, same, omega (arith, twice))
    | inl (b, q, of) ↦
        let step = ap (λ r. r >>= remove_all depth rs) q in
        elim (remove_all_lem rs b of.consistent) [
          | inl (b', f, of') ↦ inl (
            b',
            step ∙ f,
            record {
              entries = of'.entries ∙ of.entries;
              remove_entries = of'.remove_entries ∙ ap (λ xs. xs ++ rs) of.remove_entries;
              consistent = of'.consistent;
            },
          )
          | inr (c, f, same, twice) ↦ inr (
            c,
            step ∙ f,
            same,
            omega (
              arith,
              twice,
              ap
                  (λ (xs : List (ℕ × V)).
                    count (lsb (depth - 1) c.inserted) (handles depth (elements_of xs)))
                  of.entries,
              ap (λ xs. count (lsb (depth - 1) c.inserted) (handles depth xs)) of.remove_entries,
            ),
          )
        ]
  ]
