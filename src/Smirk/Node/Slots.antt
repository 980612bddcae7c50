-- ===== src/Smirk/Node/Slots.antt =====
-- What stands at the end of a path, and what a change puts there
-- (ciphera/pkg/smirk/src/tree/tree_repr.rs).
use zerosats.Prelude.{
  ℕ, suc, ◌≡◌, refl, sym, ap, subst, ◌∙◌, ◌⊎◌, inl, inr, Bool, true, false, ◌||◌, Option, none,
  some, List, [], ◌∷◌, ◌==◌, if◌then◌else◌, ◌>>=◌, Bool-cases,
}
use zerosats.Prelude.Bytes.{Bytes}
use zerosats.Smirk.Node.{
  Node, leaf, empty, parent, Change, insert_change, remove_change, Step, null_hash, split, Inserted,
  is_changed, both_ok, visit, insert_parent,
}

-- What stands at the end of a path: an element, or the null hash
abbrev pub slot : Node → Bytes → ℕ
slot (leaf e) bits = e
slot (empty depth) bits = null_hash
slot (parent left right h dirty) [] = null_hash
slot (parent left right h dirty) (b ∷ bits) = if b == 1 then slot right bits else slot left bits

abbrev pub first : List Step → Option Step
first [] = none
first (c ∷ cs) = some c

-- The change that comes to the end of a path
abbrev pub change_at : Bytes → ℕ → List Step → Option Step
change_at [] path_depth cs = first cs
change_at (b ∷ bits) path_depth cs = do
  halves ← split path_depth cs
  change_at bits (suc path_depth) (if b == 1 then halves.1 else halves.0)

-- What a change of an element puts
abbrev pub Puts : Change → ℕ → ℕ → Type 0
Puts insert_change e new = new ≡ e
Puts remove_change e new = new ≡ null_hash

-- What a change makes of an old element
abbrev pub Writes : Option Step → ℕ → ℕ → Type 0
Writes none old new = new ≡ old
Writes (some c) old new = (old ≡ null_hash ⊎ old ≡ c.element) × Puts c.change c.element new

change_at_nil : (bits : Bytes) (path_depth : ℕ) → change_at bits path_depth [] ≡ none
change_at_nil [] path_depth = refl
change_at_nil (b ∷ bits) path_depth = elim (Bool-cases (b == 1)) [
  | inl t ↦
      ap (λ u. change_at bits (suc path_depth) (if u then [] else [])) t
      ∙ change_at_nil bits (suc path_depth)
  | inr f ↦
      ap (λ u. change_at bits (suc path_depth) (if u then [] else [])) f
      ∙ change_at_nil bits (suc path_depth)
]

-- What becomes of the two children of a node
abbrev pub Parts :
    Node
    → Node
    → (List Step → Option Inserted)
    → (List Step → Option Inserted)
    → List Step
    → List Step
    → Node
    → Type 0
Parts l r to_left to_right ls rs n =
    (l' : Node) × (r' : Node) × (h : ℕ) × (dirty : Bool) × (bl : Bool) × (br : Bool) × (n
      ≡ parent l' r' h dirty)
    × (visit l to_left ls ≡ some (l', inr bl))
    × (visit r to_right rs ≡ some (r', inr br))

abbrev pub parent_of : ℕ → Option Inserted → Option Inserted → Option Inserted
parent_of h vl vr = do
  x ← vr
  y ← vl
  some (parent y.0 x.0 h (is_changed x.1 || is_changed y.1), both_ok y.1 x.1)

visited :
    (l r : Node) (h : ℕ) (vl vr : Option Inserted) (n : Node) (b : Bool)
    → parent_of h vl vr ≡ some (n, inr b)
    → (l' : Node) × (r' : Node) × (dirty : Bool) × (bl : Bool) × (br : Bool) × (n
        ≡ parent l' r' h dirty)
      × (vl ≡ some (l', inr bl))
      × (vr ≡ some (r', inr br))
visited l r h vl none n b e = absurd (cc)
visited l r h none (some (r', y)) n b e = absurd (cc)
visited l r h (some (l', inl c)) (some (r', x)) n b e = absurd (cc)
visited l r h (some (l', inr bl)) (some (r', inl c)) n b e = absurd (cc)
visited l r h (some (l', inr bl)) (some (r', inr br)) n b e =
    let at : parent l' r' h (br || bl) ≡ n = cc e in (l', r', br || bl, bl, br, sym at, refl, refl)

pub insert_parent-Parts :
    (l r : Node) (h : ℕ) (dirty : Bool) (to_left to_right : List Step → Option Inserted)
    (ls rs : List Step) (n : Node) (b : Bool)
    → insert_parent l r h dirty to_left to_right (ls, rs) ≡ some (n, inr b)
    → Parts l r to_left to_right ls rs n
insert_parent-Parts l r h dirty tl tr [] [] n b e =
    let at : parent l r h dirty ≡ n = cc e in (l, r, h, dirty, false, false, sym at, refl, refl)
insert_parent-Parts l r h dirty tl tr (x ∷ ls) rs n b e =
    let (l', r', d, bl, br, at, el, er) =
      visited l r h (visit l tl (x ∷ ls)) (visit r tr rs) n b e in
    (l', r', h, d, bl, br, at, el, er)
insert_parent-Parts l r h dirty tl tr [] (x ∷ rs) n b e =
    let (l', r', d, bl, br, at, el, er) =
      visited l r h (visit l tl []) (visit r tr (x ∷ rs)) n b e in
    (l', r', h, d, bl, br, at, el, er)

visit-Writes :
    (child : Node) (descend : List Step → Option Inserted) (cs : List Step) (bits : Bytes)
    (path_depth : ℕ)
    → ((n : Node) (b : Bool)
        → descend cs ≡ some (n, inr b)
        → Writes (change_at bits path_depth cs) (slot child bits) (slot n bits))
    → (n : Node) (b : Bool) → visit child descend cs ≡ some (n, inr b)
    → Writes (change_at bits path_depth cs) (slot child bits) (slot n bits)
visit-Writes child descend [] bits path_depth go n b h =
    let at : child ≡ n = cc h in
    subst (λ c. Writes c (slot child bits) (slot n bits)) (sym (change_at_nil bits path_depth))
      (ap (λ n. slot n bits) (sym at))
visit-Writes child descend (x ∷ cs) bits path_depth go n b h = go n b h

-- The change goes to the child on its side.
pub turn-Writes :
    (l r : Node) (h : ℕ) (dirty : Bool) (to_left to_right : List Step → Option Inserted)
    (ls rs cs : List Step) (b : ℕ) (bits : Bytes) (path_depth : ℕ)
    → split path_depth cs ≡ some (ls, rs)
    → ((n : Node) (u : Bool)
        → to_left ls ≡ some (n, inr u)
        → Writes (change_at bits (suc path_depth) ls) (slot l bits) (slot n bits))
    → ((n : Node) (u : Bool)
        → to_right rs ≡ some (n, inr u)
        → Writes (change_at bits (suc path_depth) rs) (slot r bits) (slot n bits))
    → (n : Node) (u : Bool) → insert_parent l r h dirty to_left to_right (ls, rs) ≡ some (n, inr u)
    → Writes
        (change_at (b ∷ bits) path_depth cs)
        (if b == 1 then slot r bits else slot l bits)
        (slot n (b ∷ bits))
turn-Writes l r h dirty tl tr ls rs cs b bits path_depth halves gl gr n u e =
    let (l', r', h', d, bl, br, at, el, er) = insert_parent-Parts l r h dirty tl tr ls rs n u e in
    let left = visit-Writes l tl ls bits (suc path_depth) gl l' bl el in
    let right = visit-Writes r tr rs bits (suc path_depth) gr r' br er in
    let come : Option (List Step × List Step) → Option Step =
      λ o. (do xs ← o; change_at bits (suc path_depth) (if b == 1 then xs.1 else xs.0)) in
    let side : (t : Bool)
        → Writes (change_at bits (suc path_depth) (if t then rs else ls))
            (if t then slot r bits else slot l bits) (if t then slot r' bits else slot l' bits) =
      λ t.
        elim t
          as (λ t.
            Writes (change_at bits (suc path_depth) (if t then rs else ls))
              (if t then slot r bits else slot l bits) (if t then slot r' bits else slot l' bits)) [
                | true ↦ right
                | false ↦ left
              ] in
    subst (λ c. Writes c (if b == 1 then slot r bits else slot l bits) (slot n (b ∷ bits)))
      (sym (ap come halves))
      (subst
        (λ n.
          Writes (change_at bits (suc path_depth) (if b == 1 then rs else ls))
            (if b == 1 then slot r bits else slot l bits) (slot n (b ∷ bits)))
        (sym at) (side (b == 1)))
