-- ===== src/Smirk/Tree/Paths.antt =====
-- The changes in the order of their paths: at most one comes to each place of the tree
-- (ciphera/pkg/smirk/src/tree/tree_repr.rs).
use zerosats.Prelude.{
  ℕ, zero, suc, ◌+◌, ◌≤◌, ◌≡◌, refl, sym, ap, subst, ◌∙◌, inl, inr, true, false, Option, some, List,
  [], ◌∷◌, ◌++◌, All, ◌==◌, ◌>>=◌, length, get_elem?, drop, arith, Bool-cases,
}
use zerosats.Prelude.Bytes.{Bytes, bytes_lt}
use zerosats.Smirk.Node.{Step, split, at_most_one}
use zerosats.Smirk.Node.Clean.{Fits}

-- A path of so many zeros and ones
abbrev pub IsPath : ℕ → Step → Type 0
IsPath width c = (length c.bits ≡ width) × All (λ b. b ≤ 1) c.bits

abbrev AllAbove : ℕ → Step → List Step → Type 0
AllAbove d c cs = All (λ x. bytes_lt (drop d c.bits) (drop d x.bits) ≡ true) cs

-- In strictly ascending order of the paths from a position on
abbrev pub IsAscending : ℕ → List Step → Type 0
IsAscending d [] = Unit
IsAscending d (c ∷ cs) = AllAbove d c cs × IsAscending d cs

-- The bit at a position
abbrev pub BitIs : ℕ → ℕ → Step → Type 0
BitIs d b c = (get_elem? c.bits d ≡ some b) × (drop d c.bits ≡ b ∷ drop (suc d) c.bits)

pub bit_at :
    (d k : ℕ) (bits : Bytes)
    → length bits ≡ d + suc k
    → All (λ b. b ≤ 1) bits
    → (b : ℕ) × (get_elem? bits d ≡ some b) × (drop d bits ≡ b ∷ drop (suc d) bits) × (b ≤ 1)
bit_at d k [] h a = absurd (omega arith)
bit_at zero k (b ∷ bits) h a = (b, refl, refl, a.0)
bit_at (suc d) k (b ∷ bits) h a = bit_at d k bits (omega arith) a.1

pub drop-all : (d : ℕ) (bits : Bytes) → length bits ≡ d → drop d bits ≡ []
drop-all zero [] h = refl
drop-all zero (b ∷ bits) h = absurd (omega arith)
drop-all (suc d) [] h = refl
drop-all (suc d) (b ∷ bits) h = drop-all d bits (omega arith)

pub All-append : (P : Step → Type 0) (xs ys : List Step) → All P xs → All P ys → All P (xs ++ ys)
All-append P [] ys a b = b
All-append P (x ∷ xs) ys a b = (a.0, All-append P xs ys a.1 b)

pub All-append_left : (P : Step → Type 0) (xs ys : List Step) → All P (xs ++ ys) → All P xs
All-append_left P [] ys a = tt
All-append_left P (x ∷ xs) ys a = (a.0, All-append_left P xs ys a.1)

pub All-append_right : (P : Step → Type 0) (xs ys : List Step) → All P (xs ++ ys) → All P ys
All-append_right P [] ys a = a
All-append_right P (x ∷ xs) ys a = All-append_right P xs ys a.1

append_left-IsAscending : (d : ℕ) (xs ys : List Step) → IsAscending d (xs ++ ys) → IsAscending d xs
append_left-IsAscending d [] ys a = tt
append_left-IsAscending d (x ∷ xs) ys a =
    (All-append_left _ xs ys a.0, append_left-IsAscending d xs ys a.1)

append_right-IsAscending : (d : ℕ) (xs ys : List Step) → IsAscending d (xs ++ ys) → IsAscending d ys
append_right-IsAscending d [] ys a = a
append_right-IsAscending d (x ∷ xs) ys a = append_right-IsAscending d xs ys a.1

lt_at :
    (d a b : ℕ) (xs ys : Bytes)
    → drop d xs ≡ a ∷ drop (suc d) xs
    → drop d ys ≡ b ∷ drop (suc d) ys
    → bytes_lt (drop d xs) (drop d ys) ≡ true
    → bytes_lt (a ∷ drop (suc d) xs) (b ∷ drop (suc d) ys) ≡ true
lt_at d a b xs ys e f h =
    sym (ap (λ us. bytes_lt us (drop d ys)) e ∙ ap (bytes_lt (a ∷ drop (suc d) xs)) f) ∙ h

lt-cons :
    (a b : ℕ) (xs ys : Bytes)
    → bytes_lt (a ∷ xs) (b ∷ ys) ≡ true
    → (a ≤ b) × (a ≡ b → bytes_lt xs ys ≡ true)
lt-cons a b xs ys h = ground arith

-- Of two paths with the same bit, what follows it decides.
lt_after :
    (d b : ℕ) (c x : Step)
    → BitIs d b c
    → BitIs d b x
    → bytes_lt (drop d c.bits) (drop d x.bits) ≡ true
    → bytes_lt (drop (suc d) c.bits) (drop (suc d) x.bits) ≡ true
lt_after d b c x (e, f) (e', f') h =
    (lt-cons b b (drop (suc d) c.bits) (drop (suc d) x.bits) (lt_at d b b c.bits x.bits f f' h)).1
      refl

-- Behind a one, there are only ones.
one_after :
    (d k : ℕ) (c x : Step)
    → BitIs d 1 c
    → IsPath (d + suc k) x
    → bytes_lt (drop d c.bits) (drop d x.bits) ≡ true
    → BitIs d 1 x
one_after d k c x (e, f) (len, bits) h =
    let (b, e', f', le) = bit_at d k x.bits len bits in
    let above =
      (lt-cons 1 b (drop (suc d) c.bits) (drop (suc d) x.bits)
        (lt_at d 1 b c.bits x.bits f f' h)).0 in
    let one : b ≡ 1 = omega (arith, above, le) in subst (λ b. BitIs d b x) one (e', f')

ones_after :
    (d k : ℕ) (c : Step) (cs : List Step)
    → BitIs d 1 c
    → All (IsPath (d + suc k)) cs
    → AllAbove d c cs
    → All (BitIs d 1) cs
ones_after d k c [] one p a = tt
ones_after d k c (x ∷ cs) one p a = (one_after d k c x one p.0 a.0, ones_after d k c cs one p.1 a.1)

above_after :
    (d b : ℕ) (c : Step) (cs : List Step)
    → BitIs d b c
    → All (BitIs d b) cs
    → AllAbove d c cs
    → AllAbove (suc d) c cs
above_after d b c [] e bs a = tt
above_after d b c (x ∷ cs) e bs a = (lt_after d b c x e bs.0 a.0, above_after d b c cs e bs.1 a.1)

after-IsAscending :
    (d b : ℕ) (cs : List Step) → All (BitIs d b) cs → IsAscending d cs → IsAscending (suc d) cs
after-IsAscending d b [] bs a = tt
after-IsAscending d b (c ∷ cs) bs a =
    (above_after d b c cs bs.0 bs.1 a.0, after-IsAscending d b cs bs.1 a.1)

-- The halves are the zeros and the ones.
pub record IsSplit (d : ℕ) (cs ls rs : List Step) : Type 0 where
  pub halves : split d cs ≡ some (ls, rs)
  pub whole : ls ++ rs ≡ cs
  pub zeros : All (BitIs d 0) ls
  pub ones : All (BitIs d 1) rs

pub split_lem :
    (d k : ℕ) (cs : List Step)
    → All (IsPath (d + suc k)) cs
    → IsAscending d cs
    → (ls : List Step) × (rs : List Step) × IsSplit d cs ls rs
split_lem d k [] p a = ([], [], record { halves = refl; whole = refl; zeros = tt; ones = tt })
split_lem d k (c ∷ cs) p a =
    let (b, e, f, le) = bit_at d k c.bits (p.0).0 (p.0).1 in
    let go : ℕ → Option (List Step × List Step) = λ b.
      elim (b == 1) as (λ _. Option (List Step × List Step)) [
        | true ↦ some ([], c ∷ cs)
        | false ↦ do halves ← split d cs; some (c ∷ halves.0, halves.1)
      ] in
    let start = ap (λ o. o >>= go) e in
    elim (Bool-cases (b == 1)) [
      | inl t ↦
          let one : b ≡ 1 = ground (arith, t) in
          let first = subst (λ b. BitIs d b c) one (e, f) in
          (
            [],
            c ∷ cs,
            record {
              halves = start ∙ ap go one;
              whole = refl;
              zeros = tt;
              ones = (first, ones_after d k c cs first p.1 a.0);
            },
          )
      | inr t ↦
          let zeroth : b ≡ 0 = ground (arith, t, le) in
          let (ls, rs, s) = split_lem d k cs p.1 a.1 in
          (
            c ∷ ls,
            rs,
            record {
              halves =
                  start
                  ∙ ap go zeroth
                  ∙ ap
                      (λ (o : Option (List Step × List Step)). do
                        halves ← o
                        some (c ∷ halves.0, halves.1))
                      s.halves;
              whole = ap (λ xs. c ∷ xs) s.whole;
              zeros = (subst (λ b. BitIs d b c) zeroth (e, f), s.zeros);
              ones = s.ones;
            },
          )
    ]

pub one_place :
    (d : ℕ) (cs : List Step) → All (IsPath d) cs → IsAscending d cs → at_most_one cs ≡ true
one_place d [] p a = refl
one_place d (c ∷ []) p a = refl
one_place d (c ∷ x ∷ cs) p a =
    let end = drop-all d c.bits (p.0).0 in
    let end' = drop-all d x.bits ((p.1).0).0 in
    absurd (cc (ap (λ us. bytes_lt us (drop d x.bits)) end, ap (bytes_lt []) end', (a.0).0))

-- The halves are paths in ascending order as well, one bit further on.
pub halves-IsAscending :
    (k d : ℕ) (cs ls rs : List Step)
    → IsSplit d cs ls rs
    → All (IsPath (d + suc k)) cs
    → IsAscending d cs
    → (All (IsPath (suc d + k)) ls × IsAscending (suc d) ls)
      × (All (IsPath (suc d + k)) rs × IsAscending (suc d) rs)
halves-IsAscending k d cs ls rs s p a =
    let paths = subst (All (IsPath (d + suc k))) (sym s.whole) p in
    let ascending = subst (IsAscending d) (sym s.whole) a in
    let widths : d + suc k ≡ suc d + k = omega arith in
    (
      (
        subst (λ w. All (IsPath w) ls) widths (All-append_left _ ls rs paths),
        after-IsAscending d 0 ls s.zeros (append_left-IsAscending d ls rs ascending),
      ),
      (
        subst (λ w. All (IsPath w) rs) widths (All-append_right _ ls rs paths),
        after-IsAscending d 1 rs s.ones (append_right-IsAscending d ls rs ascending),
      ),
    )

-- Changes in the order of their paths fit a tree: at most one comes to each place.
pub ascending-Fits :
    (k d : ℕ) (cs : List Step) → All (IsPath (d + k)) cs → IsAscending d cs → Fits (suc k) d cs
ascending-Fits zero d cs p a = one_place d cs (subst (λ w. All (IsPath w) cs) (omega arith) p) a
ascending-Fits (suc k) d cs p a =
    let (ls, rs, s) = split_lem d k cs p a in
    let (left, right) = halves-IsAscending k d cs ls rs s p a in
    (
      ls,
      rs,
      s.halves,
      ascending-Fits k (suc d) ls left.0 left.1,
      ascending-Fits k (suc d) rs right.0 right.1,
    )
