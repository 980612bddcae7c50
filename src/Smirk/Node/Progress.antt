-- ===== src/Smirk/Node/Progress.antt =====
-- An insertion into a node comes back, and says that something has changed
-- (ciphera/pkg/smirk/src/tree/tree_repr.rs).
use zerosats.Prelude.{
  ℕ, zero, suc, ◌≤◌, ◌≡◌, ◌≢◌, refl, sym, ap, subst, ◌∙◌, ◌⊎◌, inl, inr, Bool, true, false, ◌||◌,
  ◌&&◌, Option, none, some, List, [], ◌∷◌, All, ◌==◌, ==_refl, if◌then◌else◌, ◌>>=◌, >>=-eq-some,
  length, get_elem?, arith,
}
use zerosats.Prelude.Bytes.{Bytes}
use zerosats.Smirk.Node.{
  Node, leaf, empty, parent, Change, insert_change, remove_change, Step, null_hash, split, Inserted,
  no_changes, insert_parent, insert_empty, insert_leaf, insert_first, found_at_leaf,
  insert_without_hashing, insert_at_leaf,
}
use zerosats.Smirk.Node.Clean.{Fits, IsClean, empty_tree_hash-total}
use zerosats.Smirk.Node.Slots.{slot, change_at, parent_of}

-- What must stand where a change of an element comes
abbrev pub Meets : Change → ℕ → ℕ → Type 0
Meets insert_change e old = old ≡ null_hash
Meets remove_change e old = (old ≡ e) × (e ≢ null_hash)

-- Each change comes where it can be made.
abbrev pub IsReady : ℕ → ℕ → List Step → (Bytes → ℕ) → Type 0
IsReady d path_depth cs old =
    (bits : Bytes) (c : Step)
    → length bits ≡ d
    → All (λ b. b ≤ 1) bits
    → change_at bits path_depth cs ≡ some c
    → Meets c.change c.element (old bits)

-- No leaf holds the null hash.
abbrev pub HasNoNull : Node → Type 0
HasNoNull (leaf e) = e ≢ null_hash
HasNoNull (empty depth) = Unit
HasNoNull (parent left right h dirty) = HasNoNull left × HasNoNull right

-- A result that says that something has changed
abbrev pub Changes : Option Inserted → Type 0
Changes o = (n : Node) × (o ≡ some (n, inr true))

-- The first change goes to the right with all the others, or to the left.
pub split-cons :
    (path_depth : ℕ) (c : Step) (cs ls rs : List Step)
    → split path_depth (c ∷ cs) ≡ some (ls, rs)
    → ((ls ≡ []) × (rs ≡ c ∷ cs))
      ⊎ ((xs : List Step) × (split path_depth cs ≡ some (xs, rs)) × (ls ≡ c ∷ xs))
split-cons path_depth c cs ls rs h =
    let (b, _, e) = >>=-eq-some (get_elem? c.bits path_depth) _ h in go (b == 1) e
  where
    go :
        (t : Bool)
        → (elim t as (λ _. Option (List Step × List Step)) [
          | true ↦ some ([], c ∷ cs)
          | false ↦ do halves ← split path_depth cs; some (c ∷ halves.0, halves.1)
        ])
          ≡ some (ls, rs)
        → ((ls ≡ []) × (rs ≡ c ∷ cs))
          ⊎ ((xs : List Step) × (split path_depth cs ≡ some (xs, rs)) × (ls ≡ c ∷ xs))
    go true e = inl (cc e, cc e)
    go false e =
        let (halves, s, q) = >>=-eq-some (split path_depth cs) _ e in
        let right : halves.1 ≡ rs = cc q in
        inr (halves.0, s ∙ ap (λ xs. some (halves.0, xs)) right, cc q)

split_whole :
    (path_depth : ℕ) (c : Step) (cs ls rs : List Step)
    → split path_depth (c ∷ cs) ≡ some (ls, rs)
    → (no_changes ls && no_changes rs) ≡ false
split_whole path_depth c cs ls rs h = elim (split-cons path_depth c cs ls rs h) [
  | inl (none_left, right) ↦ cc (none_left, right)
  | inr (xs, _, left) ↦ cc left
]

parent_of-some :
    (h : ℕ) (vl vr : Option Inserted) (l r : Node) (bl br : Bool)
    → vl ≡ some (l, inr bl)
    → vr ≡ some (r, inr br)
    → (br || bl) ≡ true
    → Changes (parent_of h vl vr)
parent_of-some h vl vr l r bl br el er t = (
  parent l r h (br || bl),
  ap (λ o. parent_of h o vr) el
      ∙ ap (parent_of h (some (l, inr bl))) er
      ∙ ap (λ b. some (parent l r h (br || bl), inr b)) t,
)

-- A node comes back changed if its children that are visited do.
insert_parent-Changes :
    (l r : Node) (h : ℕ) (dirty : Bool) (to_left to_right : List Step → Option Inserted)
    (ls rs : List Step)
    → (no_changes ls && no_changes rs) ≡ false
    → (no_changes ls ≡ false → Changes (to_left ls))
    → (no_changes rs ≡ false → Changes (to_right rs))
    → Changes (insert_parent l r h dirty to_left to_right (ls, rs))
insert_parent-Changes l r h dirty tl tr [] [] e gl gr = absurd (cc)
insert_parent-Changes l r h dirty tl tr [] (x ∷ rs) e gl gr =
    let (r', er) = gr refl in
    parent_of-some h (some (l, inr false)) (tr (x ∷ rs)) l r' false true refl er refl
insert_parent-Changes l r h dirty tl tr (x ∷ ls) [] e gl gr =
    let (l', el) = gl refl in
    parent_of-some h (tl (x ∷ ls)) (some (r, inr false)) l' r true false el refl refl
insert_parent-Changes l r h dirty tl tr (x ∷ ls) (y ∷ rs) e gl gr =
    let (l', el) = gl refl in
    let (r', er) = gr refl in
    parent_of-some h (tl (x ∷ ls)) (tr (y ∷ rs)) l' r' true true el er refl

left-IsReady :
    (d path_depth : ℕ) (cs ls rs : List Step) (old : Bytes → ℕ)
    → split path_depth cs ≡ some (ls, rs)
    → IsReady (suc d) path_depth cs old
    → IsReady d (suc path_depth) ls (λ bits. old (0 ∷ bits))
left-IsReady d path_depth cs ls rs old halves ready bits c width le e =
    ready (0 ∷ bits) c (ap suc width) (omega arith, le)
      (ap
          (λ (o : Option (List Step × List Step)). (do
            halves ← o
            change_at bits (suc path_depth) halves.0))
          halves
        ∙ e)

right-IsReady :
    (d path_depth : ℕ) (cs ls rs : List Step) (old : Bytes → ℕ)
    → split path_depth cs ≡ some (ls, rs)
    → IsReady (suc d) path_depth cs old
    → IsReady d (suc path_depth) rs (λ bits. old (1 ∷ bits))
right-IsReady d path_depth cs ls rs old halves ready bits c width le e =
    ready (1 ∷ bits) c (ap suc width) (omega arith, le)
      (ap
          (λ (o : Option (List Step × List Step)). (do
            halves ← o
            change_at bits (suc path_depth) halves.1))
          halves
        ∙ e)

first-Changes :
    (c : Step) (ch : Change)
    → Meets ch c.element null_hash
    → c.change ≡ ch
    → Changes (insert_first (c ∷ []))
first-Changes c insert_change m e = (
  leaf c.element,
  ap
      (λ ch. some (elim ch as (λ _. Inserted) [
        | insert_change ↦ (leaf c.element, inr true)
        | remove_change ↦ (empty 1, inr false)
      ]))
      e,
)
first-Changes c remove_change (same, n) e = absurd (n (sym same))

module _ (hash_merge : ℕ → ℕ → ℕ) (depth : ℕ) where
  leaf-Changes :
      (e : ℕ) (c : Step) (ch : Change)
      → e ≢ null_hash
      → Meets ch c.element e
      → c.change ≡ ch
      → Changes (insert_leaf hash_merge depth e (c ∷ []))
  leaf-Changes e c insert_change n m q = absurd (n m)
  leaf-Changes e c remove_change n (same, _) q =
      let found : (e == c.element) ≡ true = subst (λ x. (e == x) ≡ true) same (==_refl e) in
      (
        empty 1,
        ap (λ u. insert_at_leaf hash_merge depth e (c ∷ []) (if u then some c else none)) found
            ∙ ap (λ ch. some (found_at_leaf hash_merge depth e ch)) q,
      )

  insert_empty-Changes :
      (d path_depth : ℕ) (cs : List Step)
      → no_changes cs ≡ false
      → Fits (suc d) path_depth cs
      → IsReady d path_depth cs (λ bits. null_hash)
      → Changes (insert_empty hash_merge (suc d) cs path_depth)
  unfolding insert_empty
  insert_empty-Changes d path_depth [] n fits ready = absurd (cc)
  insert_empty-Changes zero path_depth (c ∷ d ∷ cs) n fits ready = absurd (cc)
  insert_empty-Changes zero path_depth (c ∷ []) n fits ready =
      first-Changes c c.change (ready [] c refl tt refl) refl
  insert_empty-Changes (suc d) path_depth (c ∷ cs) n (ls, rs, halves, fl, fr) ready =
      let child = empty (suc d) in
      let to_child : List Step → Option Inserted =
        λ xs. insert_empty hash_merge (suc d) xs (suc path_depth) in
      let (m, e) = empty_tree_hash-total hash_merge (suc d) in
      let start =
        ap
          (λ (o : Option ℕ). (do
            x ← o
            xs ← split path_depth (c ∷ cs)
            insert_parent child child x false to_child to_child xs))
          e
        ∙ ap
            (λ (o : Option (List Step × List Step)). (do
              xs ← o
              insert_parent child child m false to_child to_child xs))
            halves in
      let (new, run) =
        insert_parent-Changes child child m false to_child to_child ls rs
          (split_whole path_depth c cs ls rs halves)
          (λ some_left.
            insert_empty-Changes d (suc path_depth) ls some_left fl
              (left-IsReady d path_depth (c ∷ cs) ls rs (λ bits. null_hash) halves ready))
          (λ some_right.
            insert_empty-Changes d (suc path_depth) rs some_right fr
              (right-IsReady d path_depth (c ∷ cs) ls rs (λ bits. null_hash) halves ready)) in
      (new, start ∙ run)

  -- If each change comes where it can be made, the insertion comes back with a changed node.
  pub insert_without_hashing-Changes :
      (d path_depth : ℕ) (old : Node) (cs : List Step)
      → no_changes cs ≡ false
      → IsClean hash_merge (suc d) old
      → HasNoNull old
      → Fits (suc d) path_depth cs
      → IsReady d path_depth cs (slot old)
      → Changes (insert_without_hashing hash_merge depth old cs path_depth)
  unfolding insert_without_hashing
  insert_without_hashing-Changes d path_depth old [] n clean full fits ready = absurd (cc)
  insert_without_hashing-Changes zero path_depth (leaf e) (c ∷ d ∷ cs) n clean full fits ready =
      absurd (cc)
  insert_without_hashing-Changes zero path_depth (leaf e) (c ∷ []) n clean full fits ready =
      leaf-Changes e c c.change full (ready [] c refl tt refl) refl
  insert_without_hashing-Changes (suc d) path_depth (leaf e) (c ∷ cs) n clean full fits ready =
      absurd (omega arith)
  insert_without_hashing-Changes d path_depth (empty k) (c ∷ cs) n clean full fits ready =
      let (new, run) = insert_empty-Changes d path_depth (c ∷ cs) n fits ready in
      (new, ap (λ k. insert_empty hash_merge k (c ∷ cs) path_depth) clean.0 ∙ run)
  insert_without_hashing-Changes zero path_depth (parent l r m dirty) (c ∷ cs) n clean full fits
        ready =
      absurd clean
  insert_without_hashing-Changes (suc d) path_depth (parent l r m dirty) (c ∷ cs) n clean full
        (ls, rs, halves, fl, fr) ready =
      let to_left : List Step → Option Inserted =
        λ xs. insert_without_hashing hash_merge depth l xs (suc path_depth) in
      let to_right : List Step → Option Inserted =
        λ xs. insert_without_hashing hash_merge depth r xs (suc path_depth) in
      let old = slot (parent l r m dirty) in
      let (new, run) =
        insert_parent-Changes l r m dirty to_left to_right ls rs
          (split_whole path_depth c cs ls rs halves)
          (λ some_left.
            insert_without_hashing-Changes d (suc path_depth) l ls some_left clean.1 full.0 fl
              (left-IsReady d path_depth (c ∷ cs) ls rs old halves ready))
          (λ some_right.
            insert_without_hashing-Changes d (suc path_depth) r rs some_right clean.2 full.1 fr
              (right-IsReady d path_depth (c ∷ cs) ls rs old halves ready)) in
      (
        new,
        ap
              (λ (o : Option (List Step × List Step)). (do
                xs ← o
                insert_parent l r m dirty to_left to_right xs))
              halves
            ∙ run,
      )
