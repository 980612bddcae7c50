-- ===== src/Smirk/Node/NoNull.antt =====
-- No leaf ever holds the null hash (ciphera/pkg/smirk/src/tree/tree_repr.rs).
use zerosats.Prelude.{
  ℕ, zero, suc, ◌-◌, ◌≡◌, ◌≢◌, sym, subst, inl, inr, Bool, true, false, Option, none, some, List,
  [], ◌∷◌, All, ◌>>=◌, >>=-eq-some,
}
use zerosats.Prelude.Bits.{to_bits}
use zerosats.Smirk.Node.{
  Node, leaf, empty, parent, Change, insert_change, remove_change, Step, null_hash, hash, split,
  Inserted, visit, insert_parent, merge_hashes, insert_empty, insert_first, insert_at_leaf,
  find_element, find_handle, found_at_leaf, any_bits, insert_without_hashing, recalculate_hashes,
  empty_tree_hash,
}
use zerosats.Smirk.Node.Slots.{insert_parent-Parts}
use zerosats.Smirk.Node.Progress.{HasNoNull, split-cons}
use zerosats.Smirk.Node.Bottom.{not_ok}

-- None of the changes is one of the null hash.
abbrev pub NotNull : List Step → Type 0
NotNull cs = All (λ c. c.element ≢ null_hash) cs

split-NotNull :
    (path_depth : ℕ) (cs ls rs : List Step)
    → split path_depth cs ≡ some (ls, rs)
    → NotNull cs
    → NotNull ls × NotNull rs
split-NotNull path_depth [] ls rs h a =
    let none_left : ls ≡ [] = cc h in
    let none_right : rs ≡ [] = cc h in
    (subst NotNull (sym none_left) tt, subst NotNull (sym none_right) tt)
split-NotNull path_depth (c ∷ cs) ls rs h a = elim (split-cons path_depth c cs ls rs h) [
  | inl (none_left, right) ↦ (subst NotNull (sym none_left) tt, subst NotNull (sym right) a)
  | inr (xs, e, left) ↦
      let (al, ar) = split-NotNull path_depth cs xs rs e a.1 in
      (subst NotNull (sym left) (a.0, al), ar)
]

visit-HasNoNull :
    (child : Node) (descend : List Step → Option Inserted) (cs : List Step)
    → HasNoNull child
    → ((n : Node) (b : Bool) → descend cs ≡ some (n, inr b) → HasNoNull n)
    → (n : Node) (b : Bool) → visit child descend cs ≡ some (n, inr b)
    → HasNoNull n
visit-HasNoNull child descend [] full go n b h =
    let at : n ≡ child = cc h in subst HasNoNull (sym at) full
visit-HasNoNull child descend (x ∷ cs) full go n b h = go n b h

insert_parent-HasNoNull :
    (l r : Node) (h : ℕ) (dirty : Bool) (to_left to_right : List Step → Option Inserted)
    (ls rs : List Step)
    → HasNoNull l
    → HasNoNull r
    → ((n : Node) (b : Bool) → to_left ls ≡ some (n, inr b) → HasNoNull n)
    → ((n : Node) (b : Bool) → to_right rs ≡ some (n, inr b) → HasNoNull n)
    → (n : Node) (b : Bool) → insert_parent l r h dirty to_left to_right (ls, rs) ≡ some (n, inr b)
    → HasNoNull n
insert_parent-HasNoNull l r h dirty tl tr ls rs fl fr gl gr n b e =
    let (l', r', h', d, bl, br, at, el, er) = insert_parent-Parts l r h dirty tl tr ls rs n b e in
    subst HasNoNull (sym at)
      (visit-HasNoNull l tl ls fl gl l' bl el, visit-HasNoNull r tr rs fr gr r' br er)

first-HasNoNull :
    (cs : List Step) (n : Node) (b : Bool)
    → NotNull cs
    → insert_first cs ≡ some (n, inr b)
    → HasNoNull n
first-HasNoNull [] n b a h = absurd (cc)
first-HasNoNull (c ∷ d ∷ cs) n b a h = absurd (cc)
first-HasNoNull (c ∷ []) n b a h = go c.change h
  where
    go :
        (ch : Change)
        → some (elim ch as (λ _. Inserted) [
          | insert_change ↦ (leaf c.element, inr true)
          | remove_change ↦ (empty 1, inr false)
        ])
          ≡ some (n, inr b)
        → HasNoNull n
    go insert_change e = let at : n ≡ leaf c.element = cc e in subst HasNoNull (sym at) a.0
    go remove_change e = let at : n ≡ empty 1 = cc e in subst HasNoNull (sym at) tt

module _ (hash_merge : ℕ → ℕ → ℕ) (depth : ℕ) where
  found-HasNoNull :
      (e : ℕ) (ch : Change) (n : Node) (b : Bool)
      → e ≢ null_hash
      → some (found_at_leaf hash_merge depth e ch) ≡ some (n, inr b)
      → HasNoNull n
  found-HasNoNull e insert_change n b full h =
      let at : n ≡ leaf e = cc h in subst HasNoNull (sym at) full
  found-HasNoNull e remove_change n b full h =
      let at : n ≡ empty 1 = cc h in subst HasNoNull (sym at) tt

  leaf-HasNoNull :
      (e : ℕ) (cs : List Step) (o : Option Step) (n : Node) (b : Bool)
      → e ≢ null_hash
      → insert_at_leaf hash_merge depth e cs o ≡ some (n, inr b)
      → HasNoNull n
  leaf-HasNoNull e cs (some c) n b full h = found-HasNoNull e c.change n b full h
  leaf-HasNoNull e cs none n b full h = absurd (
      not_ok hash_merge depth e (find_handle (depth - 1) e cs) (any_bits (to_bits (depth - 1) e) cs)
        n b h)

  insert_empty-HasNoNull :
      (d path_depth : ℕ) (cs : List Step)
      → NotNull cs
      → (n : Node) (b : Bool) → insert_empty hash_merge d cs path_depth ≡ some (n, inr b)
      → HasNoNull n
  unfolding insert_empty
  insert_empty-HasNoNull zero path_depth cs a n b h = absurd (cc)
  insert_empty-HasNoNull (suc zero) path_depth cs a n b h = first-HasNoNull cs n b a h
  insert_empty-HasNoNull (suc (suc d)) path_depth cs a n b h =
      let to_child : List Step → Option Inserted =
        λ xs. insert_empty hash_merge (suc d) xs (suc path_depth) in
      let (m, _, q) =
        >>=-eq-some (empty_tree_hash hash_merge (suc (suc d)))
          (λ m. (do
            xs ← split path_depth cs
            insert_parent (empty (suc d)) (empty (suc d)) m false to_child to_child xs))
          h in
      let (halves, s, run) =
        >>=-eq-some (split path_depth cs)
          (λ xs. insert_parent (empty (suc d)) (empty (suc d)) m false to_child to_child xs) q in
      let (al, ar) = split-NotNull path_depth cs halves.0 halves.1 s a in
      insert_parent-HasNoNull (empty (suc d)) (empty (suc d)) m false to_child to_child halves.0
        halves.1 tt tt (insert_empty-HasNoNull (suc d) (suc path_depth) halves.0 al)
        (insert_empty-HasNoNull (suc d) (suc path_depth) halves.1 ar) n b run

  -- An insertion of changes none of which is of the null hash puts it in no leaf.
  pub insert_without_hashing-HasNoNull :
      (old : Node) (path_depth : ℕ) (cs : List Step)
      → HasNoNull old
      → NotNull cs
      → (n : Node) (b : Bool)
      → insert_without_hashing hash_merge depth old cs path_depth ≡ some (n, inr b)
      → HasNoNull n
  unfolding insert_without_hashing
  insert_without_hashing-HasNoNull (leaf e) path_depth cs full a n b h =
      leaf-HasNoNull e cs (find_element e cs) n b full h
  insert_without_hashing-HasNoNull (empty k) path_depth cs full a n b h =
      insert_empty-HasNoNull k path_depth cs a n b h
  insert_without_hashing-HasNoNull (parent l r m dirty) path_depth cs full a n b h =
      let to_left : List Step → Option Inserted =
        λ xs. insert_without_hashing hash_merge depth l xs (suc path_depth) in
      let to_right : List Step → Option Inserted =
        λ xs. insert_without_hashing hash_merge depth r xs (suc path_depth) in
      let (halves, s, run) =
        >>=-eq-some (split path_depth cs) (insert_parent l r m dirty to_left to_right) h in
      let (al, ar) = split-NotNull path_depth cs halves.0 halves.1 s a in
      insert_parent-HasNoNull l r m dirty to_left to_right halves.0 halves.1 full.0 full.1
        (insert_without_hashing-HasNoNull l (suc path_depth) halves.0 full.0 al)
        (insert_without_hashing-HasNoNull r (suc path_depth) halves.1 full.1 ar) n b run

  pub recalculate_hashes-HasNoNull :
      (n n' : Node) → HasNoNull n → recalculate_hashes hash_merge n ≡ some n' → HasNoNull n'
  unfolding recalculate_hashes
  recalculate_hashes-HasNoNull (leaf e) n' full h =
      let at : n' ≡ leaf e = cc h in subst HasNoNull (sym at) full
  recalculate_hashes-HasNoNull (empty k) n' full h =
      let at : n' ≡ empty k = cc h in subst HasNoNull (sym at) tt
  recalculate_hashes-HasNoNull (parent l r m false) n' full h =
      let at : n' ≡ parent l r m false = cc h in subst HasNoNull (sym at) full
  recalculate_hashes-HasNoNull (parent l r m true) n' full h =
      let (l', el, q) = >>=-eq-some (recalculate_hashes hash_merge l) _ h in
      let (r', er, q') = >>=-eq-some (recalculate_hashes hash_merge r) _ q in
      let (m', _, q'') =
        >>=-eq-some (merge_hashes hash_merge (hash hash_merge l') (hash hash_merge r')) _ q' in
      let at : n' ≡ parent l' r' m' false = cc q'' in
      subst HasNoNull (sym at)
        (recalculate_hashes-HasNoNull l l' full.0 el, recalculate_hashes-HasNoNull r r' full.1 er)
