-- ===== src/BlockCache/Valid.antt =====
-- The state of the block cache that every operation keeps (node/src/cache.rs).
pub mod Lookup
use zerosats.Prelude.{
  ℕ, zero, suc, ◌+◌, ◌-◌, ◌≤◌, ◌<◌, ◌≡◌, refl, sym, subst, ap, ◌∙◌, ◌≢◌, Bool, true, false, ◌&&◌,
  ◌||◌, Option, none, some, List, [], ◌∷◌, arith, inl, inr, Bool-cases, Option-cases, ◌==◌, leb,
  ltb, if◌then◌else◌, length, elem, ℕ_discrete,
}
use zerosats.Prelude.Maps.{
  Map, get, contains_key, insert, remove, IsMap, get-insert, get-remove, insert-IsMap, remove-IsMap,
}
use zerosats.Prelude.Ordered.{put, IsOrdered, get-put, put-IsOrdered, remove-IsOrdered, get-Above}
use zerosats.BlockCache.{
  BlockOps, BlockCache, last_entry, or_default, keys_below, get_by_height, remove_heights, confirm,
  remove_block, place_block, insert_block, new,
}

module _ {B : Type 0} (ops : BlockOps B) where
  -- The heights are in order, and each one has the hash of a block that is held and has that height.
  pub record IsValid (c : BlockCache B) : Type 0 where
    pub ordered : IsOrdered c.block_hash_heights
    pub once : IsMap c.blocks
    pub indexed :
        (h k : ℕ)
        → get h c.block_hash_heights ≡ some k
        → (b : B) × (get k c.blocks ≡ some b) × (ops.hash b ≡ k) × (ops.block_height b ≡ h)

  -- Blocks with one hash have one height.
  abbrev pub NoCollision : Type 0
  NoCollision = (a b : B) → ops.hash a ≡ ops.hash b → ops.block_height a ≡ ops.block_height b

  -- Two heights with one hash are one height.
  one_height :
      (c : BlockCache B)
      → IsValid c
      → (h j k : ℕ) → get h c.block_hash_heights ≡ some k
      → get j c.block_hash_heights ≡ some k
      → h ≡ j
  one_height c v h j k e f =
      let (a, ea, _, ha) = v.indexed h k e in let (b, eb, _, hb) = v.indexed j k f in ground arith

  -- Removing a height with its block
  drop_height : ℕ → ℕ → BlockCache B → BlockCache B
  drop_height h k c = record c {
    block_hash_heights = remove h c.block_hash_heights;
    blocks = remove k c.blocks;
  }

  drop_height-IsValid :
      (c : BlockCache B) (h k : ℕ)
      → IsValid c
      → ((j : ℕ) → get j c.block_hash_heights ≡ some k → h ≡ j)
      → IsValid (drop_height h k c)
  unfolding drop_height
  drop_height-IsValid c h k v only = record {
    ordered = remove-IsOrdered h c.block_hash_heights v.ordered;
    once = remove-IsMap k c.blocks v.once;
    indexed = λ j i e.
        let before : get j c.block_hash_heights ≡ some i =
          ground (arith, get-remove j h c.block_hash_heights) in
        let (b, held, hashed, high) = v.indexed j i before in
        (
          b,
          ground (arith, get-remove j h c.block_hash_heights, get-remove i k c.blocks, only j),
          hashed,
          high,
        );
  }

  remove_block-some :
      (k : ℕ) (c : BlockCache B) (b : B)
      → get k c.blocks ≡ some b
      → remove_block ops k c ≡ drop_height (ops.block_height b) k c
  unfolding remove_block drop_height
  remove_block-some k c b e = ground arith

  remove_block-none : (k : ℕ) (c : BlockCache B) → get k c.blocks ≡ none → remove_block ops k c ≡ c
  unfolding remove_block
  remove_block-none k c e = ground arith

  pub remove_block-IsValid : (k : ℕ) (c : BlockCache B) → IsValid c → IsValid (remove_block ops k c)
  remove_block-IsValid k c v = elim (Option-cases (get k c.blocks)) [
    | inl e ↦ subst IsValid (sym (remove_block-none k c e)) v
    | inr (b, e) ↦ subst IsValid (sym (remove_block-some k c b e)) (
        drop_height-IsValid c (ops.block_height b) k v
          (λ j f. let (b', held, _, high) = v.indexed j k f in ground arith))
  ]

  place_block-IsValid :
      NoCollision → (b : B) (c : BlockCache B) → IsValid c → IsValid (place_block ops b c)
  unfolding place_block
  place_block-IsValid apart b c v = record {
    ordered = put-IsOrdered (ops.block_height b) (ops.hash b) c.block_hash_heights v.ordered;
    once = insert-IsMap (ops.hash b) b c.blocks v.once;
    indexed = λ j i e. elim (ℕ_discrete j (ops.block_height b)) [
      | yes same ↦ (
        b,
        ground (
          arith,
          get-put j (ops.block_height b) (ops.hash b) c.block_hash_heights,
          get-insert i (ops.hash b) b c.blocks,
        ),
        ground (arith, get-put j (ops.block_height b) (ops.hash b) c.block_hash_heights),
        sym same,
      )
      | no other ↦
          let before : get j c.block_hash_heights ≡ some i =
            ground (arith, get-put j (ops.block_height b) (ops.hash b) c.block_hash_heights) in
          let (b', held, hashed, high) = v.indexed j i before in
          (b', ground (arith, get-insert i (ops.hash b) b c.blocks, apart b' b), hashed, high)
    ];
  }

  if-IsValid :
      (t : Bool) (c d : BlockCache B) → IsValid c → IsValid d → IsValid (if t then c else d)
  if-IsValid true c d v w = v
  if-IsValid false c d v w = w

  -- Inserting a block keeps the cache valid, whether the block is taken or not, where blocks with
  -- one hash have one height.
  pub insert_block-IsValid :
      NoCollision → (b : B) (c : BlockCache B) → IsValid c → IsValid (insert_block ops b c)
  unfolding insert_block
  insert_block-IsValid apart b c v =
      let h = ops.block_height b in
      let c1 : BlockCache B = record c {
        max_height = if ltb c.max_height h then h else c.max_height;
      } in
      let v1 : IsValid c1 = record { ordered = v.ordered; once = v.once; indexed = v.indexed } in
      let (max_height, max_hash) = or_default (last_entry c.block_hash_heights) in
      let full = leb c.max_cache_size (length c.blocks) in
      if-IsValid (ltb h c.height) c _ v (
        if-IsValid (full && ltb max_height h) c1 _ v1 (
          place_block-IsValid apart b (if full then remove_block ops max_hash c1 else c1) (
            if-IsValid full (remove_block ops max_hash c1) c1 (remove_block-IsValid max_hash c1 v1)
              v1)))

  remove_heights-none :
      (h : ℕ) (hs : List ℕ) (c : BlockCache B)
      → get h c.block_hash_heights ≡ none
      → remove_heights (h ∷ hs) c ≡ remove_heights hs c
  unfolding remove_heights
  remove_heights-none h hs c e = ground arith

  remove_heights-some :
      (h : ℕ) (hs : List ℕ) (c : BlockCache B) (k : ℕ)
      → get h c.block_hash_heights ≡ some k
      → remove_heights (h ∷ hs) c ≡ remove_heights hs (drop_height h k c)
  unfolding remove_heights drop_height
  remove_heights-some h hs c k e = ground arith

  remove_heights_nil : (c : BlockCache B) → remove_heights [] c ≡ c
  unfolding remove_heights
  remove_heights_nil c = refl

  remove_heights-IsValid :
      (hs : List ℕ) (c : BlockCache B) → IsValid c → IsValid (remove_heights hs c)
  remove_heights-IsValid [] c v = subst IsValid (sym (remove_heights_nil c)) v
  remove_heights-IsValid (h ∷ hs) c v = elim (Option-cases (get h c.block_hash_heights)) [
    | inl e ↦ subst IsValid (sym (remove_heights-none h hs c e)) (remove_heights-IsValid hs c v)
    | inr (k, e) ↦ subst IsValid (sym (remove_heights-some h hs c k e)) (
        remove_heights-IsValid hs (drop_height h k c)
          (drop_height-IsValid c h k v (λ j f. one_height c v h j k e f)))
  ]
