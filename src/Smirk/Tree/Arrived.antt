-- ===== src/Smirk/Tree/Arrived.antt =====
-- Which change comes to the end of a path: the one with that path
-- (ciphera/pkg/smirk/src/tree/tree_repr.rs).
use zerosats.Prelude.{
  ℕ, suc, ◌+◌, ◌≤◌, ◌≡◌, refl, sym, ap, subst, ◌∙◌, inl, inr, Option, none, some, List, [], ◌∷◌,
  All, ◌==◌, if◌then◌else◌, ◌>>=◌, length, drop, arith, Bool-cases,
}
use zerosats.Prelude.Bytes.{Bytes}
use zerosats.Smirk.Node.{Step}
use zerosats.Smirk.Node.Slots.{change_at}
use zerosats.Smirk.Tree.Paths.{
  IsSplit, IsPath, IsAscending, BitIs, drop-all, All-append, split_lem, one_place, All-append_left,
  All-append_right, halves-IsAscending,
}

-- The change has this path from a position on.
abbrev pub Ends : ℕ → Bytes → Step → Type 0
Ends d bits c = drop d c.bits ≡ bits

-- Either no change with this path is among them, or the change that comes there has this path.
-- The predicate is anything that holds of all of them.
pub data Arrives (P : Step → Type 0) (d : ℕ) (bits : Bytes) (cs : List Step) (o : Option Step)
    : Type 1 where
  nothing : o ≡ none → All (λ c. Ends d bits c → ⊥) cs → Arrives P d bits cs o
  change : (c : Step) → o ≡ some c → P c → Ends d bits c → Arrives P d bits cs o

All-both : (P Q : Step → Type 0) (cs : List Step) → All P cs → All Q cs → All (λ c. P c × Q c) cs
All-both P Q [] p q = tt
All-both P Q (c ∷ cs) p q = ((p.0, q.0), All-both P Q cs p.1 q.1)

not_here :
    (d b b' : ℕ) (bits : Bytes) (cs : List Step)
    → (b' ≡ b → ⊥)
    → All (BitIs d b') cs
    → All (λ c. Ends d (b ∷ bits) c → ⊥) cs
not_here d b b' bits [] n a = tt
not_here d b b' bits (c ∷ cs) n a = ((λ e. n (cc (e, (a.0).1))), not_here d b b' bits cs n a.1)

not_after :
    (d b : ℕ) (bits : Bytes) (cs : List Step)
    → All (BitIs d b) cs
    → All (λ c. Ends (suc d) bits c → ⊥) cs
    → All (λ c. Ends d (b ∷ bits) c → ⊥) cs
not_after d b bits [] a n = tt
not_after d b bits (c ∷ cs) a n = ((λ e. n.0 (cc (e, (a.0).1))), not_after d b bits cs a.1 n.1)

-- From the half in which the path goes on to the whole
widen :
    (P : Step → Type 0) (d b : ℕ) (bits : Bytes) (here cs : List Step) (o : Option Step)
    → (All (λ c. Ends d (b ∷ bits) c → ⊥) here → All (λ c. Ends d (b ∷ bits) c → ⊥) cs)
    → All (BitIs d b) here
    → Arrives (λ c. P c × BitIs d b c) (suc d) bits here o
    → Arrives P d (b ∷ bits) cs o
widen P d b bits here cs o all at (nothing e n) = nothing e (all (not_after d b bits here at n))
widen P d b bits here cs o all at (change c e p end) =
    change c e p.0 ((p.1).1 ∙ ap (λ xs. b ∷ xs) end)

-- The path goes on to the left, and to the right.
left_Arrives :
    (P : Step → Type 0) (d : ℕ) (bits : Bytes) (cs ls rs : List Step) (o : Option Step)
    → IsSplit d cs ls rs
    → Arrives (λ c. P c × BitIs d 0 c) (suc d) bits ls o
    → Arrives P d (0 ∷ bits) cs o
left_Arrives P d bits cs ls rs o s arrives =
    let not_right = not_here d 0 1 bits rs (λ e. absurd (omega arith)) s.ones in
    widen P d 0 bits ls cs o
      (λ n. subst (All (λ c. Ends d (0 ∷ bits) c → ⊥)) s.whole (All-append _ ls rs n not_right))
      s.zeros arrives

right_Arrives :
    (P : Step → Type 0) (d : ℕ) (bits : Bytes) (cs ls rs : List Step) (o : Option Step)
    → IsSplit d cs ls rs
    → Arrives (λ c. P c × BitIs d 1 c) (suc d) bits rs o
    → Arrives P d (1 ∷ bits) cs o
right_Arrives P d bits cs ls rs o s arrives =
    let not_left = not_here d 1 0 bits ls (λ e. absurd (omega arith)) s.zeros in
    widen P d 1 bits rs cs o
      (λ n. subst (All (λ c. Ends d (1 ∷ bits) c → ⊥)) s.whole (All-append _ ls rs not_left n))
      s.ones arrives

change_at-split :
    (b d : ℕ) (bits : Bytes) (cs ls rs : List Step)
    → IsSplit d cs ls rs
    → change_at bits (suc d) (if b == 1 then rs else ls) ≡ change_at (b ∷ bits) d cs
change_at-split b d bits cs ls rs s = sym (
    ap
      (λ (o : Option (List Step × List Step)). (do
        halves ← o
        change_at bits (suc d) (if b == 1 then halves.1 else halves.0)))
      s.halves)

-- The change that comes to the end of a path is the one with this path.
pub change_at-Arrives :
    (P : Step → Type 0) (bits : Bytes) (d : ℕ) (cs : List Step)
    → All (λ b. b ≤ 1) bits
    → All (IsPath (d + length bits)) cs
    → IsAscending d cs
    → All P cs
    → Arrives P d bits cs (change_at bits d cs)
change_at-Arrives P [] d [] le paths asc p = nothing refl tt
change_at-Arrives P [] d (c ∷ []) le paths asc p =
    change c refl p.0 (drop-all d c.bits (omega (arith, (paths.0).0)))
change_at-Arrives P [] d (c ∷ x ∷ cs) le paths asc p = absurd (
    cc
      (one_place d (c ∷ x ∷ cs) (subst (λ w. All (IsPath w) (c ∷ x ∷ cs)) (omega arith) paths) asc))
change_at-Arrives P (b ∷ bits) d cs le paths asc p =
    let (ls, rs, s) = split_lem d (length bits) cs paths asc in
    let (left, right) = halves-IsAscending (length bits) d cs ls rs s paths asc in
    let p' = subst (All P) (sym s.whole) p in
    subst (Arrives P d (b ∷ bits) cs) (change_at-split b d bits cs ls rs s)
      (elim (Bool-cases (b == 1)) [
        | inl t ↦
            let one : b ≡ 1 = ground (arith, t) in
            subst
              (λ b. Arrives P d (b ∷ bits) cs (change_at bits (suc d) (if b == 1 then rs else ls)))
              (sym one)
              (right_Arrives P d bits cs ls rs _ s (
                change_at-Arrives (λ c. P c × BitIs d 1 c) bits (suc d) rs le.1 right.0 right.1
                  (All-both P (BitIs d 1) rs (All-append_right _ ls rs p') s.ones)))
        | inr f ↦
            let zeroth : b ≡ 0 = ground (arith, f, le.0) in
            subst
              (λ b. Arrives P d (b ∷ bits) cs (change_at bits (suc d) (if b == 1 then rs else ls)))
              (sym zeroth)
              (left_Arrives P d bits cs ls rs _ s (
                change_at-Arrives (λ c. P c × BitIs d 0 c) bits (suc d) ls le.1 left.0 left.1
                  (All-both P (BitIs d 0) ls (All-append_left _ ls rs p') s.zeros)))
      ])
