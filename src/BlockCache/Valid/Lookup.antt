-- ===== src/BlockCache/Valid/Lookup.antt =====
-- Which block the cache finds at which height (node/src/cache.rs).
use zerosats.Prelude.{
  ℕ, ◌≤◌, ◌<◌, ◌≡◌, refl, ap, ◌∙◌, ◌&&◌, none, some, List, [], ◌∷◌, arith, inl, inr, Option-cases,
  ◌==◌, ltb, if◌then◌else◌, length, elem,
}
use zerosats.Prelude.Maps.{Map, get, contains_key, get-insert, get-remove}
use zerosats.Prelude.Ordered.{IsOrdered, get-put, get-Above}
use zerosats.BlockCache.{
  BlockOps, BlockCache, last_entry, keys_below, get_by_height, remove_heights, confirm,
  remove_block, place_block, insert_block,
}
use zerosats.BlockCache.Valid.{
  IsValid, NoCollision, one_height, drop_height, drop_height-IsValid, remove_block-some,
  remove_block-IsValid, remove_heights-none, remove_heights-some, remove_heights_nil,
  remove_heights-IsValid,
}

elem-keys_below : (h j : ℕ) (m : Map ℕ) → elem j (keys_below h m) ≡ (ltb j h && contains_key j m)
elem-keys_below h j [] = ground arith
elem-keys_below h j ((k, v) ∷ m) = ground (arith, elem-keys_below h j m)

module _ {B : Type 0} (ops : BlockOps B) where
  get_by_height-drop :
      (c : BlockCache B) (h k j : ℕ)
      → IsValid ops c
      → get h c.block_hash_heights ≡ some k
      → get_by_height (drop_height ops h k c) j ≡ (if j == h then none else get_by_height c j)
  unfolding get_by_height drop_height
  get_by_height-drop c h k j v e = elim (Option-cases (get j c.block_hash_heights)) [
    | inl absent ↦ ground (arith, get-remove j h c.block_hash_heights)
    | inr (i, there) ↦ ground (
      arith,
      get-remove j h c.block_hash_heights,
      get-remove i k c.blocks,
      one_height ops c v h j k e,
    )
  ]

  get_by_height-none :
      (c : BlockCache B) (j : ℕ) → get j c.block_hash_heights ≡ none → get_by_height c j ≡ none
  unfolding get_by_height
  get_by_height-none c j e = ground arith

  -- The block at each height that is not removed is kept.
  get-remove_heights :
      (hs : List ℕ) (c : BlockCache B) (j : ℕ)
      → IsValid ops c
      → get_by_height (remove_heights hs c) j ≡ (if elem j hs then none else get_by_height c j)
  get-remove_heights [] c j v = rw (remove_heights_nil ops c)
  get-remove_heights (h ∷ hs) c j v = elim (Option-cases (get h c.block_hash_heights)) [
    | inl e ↦
        ap (λ d. get_by_height d j) (remove_heights-none ops h hs c e)
        ∙ get-remove_heights hs c j v
        ∙ ground (arith, get_by_height-none c j)
    | inr (k, e) ↦
        ap (λ d. get_by_height d j) (remove_heights-some ops h hs c k e)
        ∙ get-remove_heights hs (drop_height ops h k c) j
            (drop_height-IsValid ops c h k v (λ i f. one_height ops c v h i k e f))
        ∙ ground (arith, get_by_height-drop c h k j v e)
  ]

  same_blocks :
      (c : BlockCache B) (h j : ℕ) → get_by_height (record c { height = h }) j ≡ get_by_height c j
  unfolding get_by_height
  same_blocks c h j = refl

  -- Confirming a height keeps a valid cache valid, and removes exactly the blocks at lower heights
  -- from those that are found.
  pub confirm-get_by_height :
      (h : ℕ) (c : BlockCache B)
      → IsValid ops c
      → IsValid ops (confirm h c)
        × ((j : ℕ) → get_by_height (confirm h c) j ≡ (if ltb j h then none else get_by_height c j))
  unfolding confirm
  confirm-get_by_height h c v =
      let c1 : BlockCache B = record c { height = h } in
      let v1 : IsValid ops c1 = record {
        ordered = v.ordered;
        once = v.once;
        indexed = v.indexed;
      } in
      let hs = keys_below h c.block_hash_heights in
      (
        remove_heights-IsValid ops hs c1 v1,
        λ j.
            get-remove_heights hs c1 j v1
            ∙ ground (
              arith,
              elem-keys_below h j c.block_hash_heights,
              get_by_height-none c j,
              same_blocks c h j,
            ),
      )

  -- A block that is placed is found at its height, and the other heights are as before.
  get_by_height-place :
      NoCollision ops
      → (b : B) (c : BlockCache B) (j : ℕ) → IsValid ops c
      → get_by_height (place_block ops b c) j
        ≡ (if j == ops.block_height b then some b else get_by_height c j)
  unfolding get_by_height place_block
  get_by_height-place apart b c j v = elim (Option-cases (get j c.block_hash_heights)) [
    | inl e ↦ ground (
      arith,
      get-put j (ops.block_height b) (ops.hash b) c.block_hash_heights,
      get-insert (ops.hash b) (ops.hash b) b c.blocks,
    )
    | inr (i, e) ↦
        let (b', held, hashed, high) = v.indexed j i e in
        ground (
          arith,
          get-put j (ops.block_height b) (ops.hash b) c.block_hash_heights,
          get-insert (ops.hash b) (ops.hash b) b c.blocks,
          get-insert i (ops.hash b) b c.blocks,
          apart b' b,
        )
  ]

  seen : B → BlockCache B → BlockCache B
  seen b c = record c {
    max_height = if ltb c.max_height (ops.block_height b) then ops.block_height b else c.max_height;
  }

  get_by_height-seen :
      (b : B) (c : BlockCache B) (j : ℕ) → get_by_height (seen b c) j ≡ get_by_height c j
  unfolding get_by_height seen
  get_by_height-seen b c j = refl

  held_seen :
      (b : B) (c : BlockCache B) (k : ℕ) (b' : B)
      → get k c.blocks ≡ some b'
      → get k (seen b c).blocks ≡ some b'
  unfolding seen
  held_seen b c k b' e = e

  here_seen :
      (b : B) (c : BlockCache B) (h k : ℕ)
      → get h c.block_hash_heights ≡ some k
      → get h (seen b c).block_hash_heights ≡ some k
  unfolding seen
  here_seen b c h k e = e

  seen-IsValid : (b : B) (c : BlockCache B) → IsValid ops c → IsValid ops (seen b c)
  unfolding seen
  seen-IsValid b c v = record { ordered = v.ordered; once = v.once; indexed = v.indexed }

  insert_block_room :
      (b : B) (c : BlockCache B)
      → c.height ≤ ops.block_height b
      → length c.blocks < c.max_cache_size
      → insert_block ops b c ≡ place_block ops b (seen b c)
  unfolding insert_block seen
  insert_block_room b c high room = ground arith

  insert_block_full :
      (b : B) (c : BlockCache B) (last k : ℕ)
      → c.height ≤ ops.block_height b
      → c.max_cache_size ≤ length c.blocks
      → last_entry c.block_hash_heights ≡ some (last, k)
      → ops.block_height b ≤ last
      → insert_block ops b c ≡ place_block ops b (remove_block ops k (seen b c))
  unfolding insert_block seen
  insert_block_full b c last k high full top below = ground arith

  -- The entry of the last key
  last_entry-get :
      (m : Map ℕ) (last k : ℕ) → IsOrdered m → last_entry m ≡ some (last, k) → get last m ≡ some k
  last_entry-get [] last k o e = absurd (cc)
  last_entry-get ((j, w) ∷ []) last k o e = ground arith
  last_entry-get ((j, w) ∷ (i, x) ∷ m) last k o e =
      ground (arith, last_entry-get ((i, x) ∷ m) last k o.1 e, get-Above last j ((i, x) ∷ m))

  evicted :
      (b : B) (c : BlockCache B) (last k j : ℕ)
      → IsValid ops c
      → last_entry c.block_hash_heights ≡ some (last, k)
      → get_by_height (remove_block ops k (seen b c)) j
        ≡ (if j == last then none else get_by_height c j)
  evicted b c last k j v top =
      let here = last_entry-get c.block_hash_heights last k v.ordered top in
      let (b', held, hashed, high) = v.indexed last k here in
      ap (λ d. get_by_height d j) (remove_block-some ops k (seen b c) b' (held_seen b c k b' held))
      ∙ get_by_height-drop (seen b c) (ops.block_height b') k j (seen-IsValid b c v)
          (here_seen b c (ops.block_height b') k (rw high here))
      ∙ ground (arith, get_by_height-seen b c j)

  -- A block, not below the confirmed height, that is inserted into a valid cache: if there is
  -- room, it is found at its height, and the other heights are as before. If the cache is full,
  -- and the block is not above the highest one, then it is found, and only the highest one goes.
  -- Blocks with one hash must have one height.
  pub insert_block-get_by_height :
      (b : B) (c : BlockCache B) (j : ℕ)
      → NoCollision ops
      → IsValid ops c
      → c.height ≤ ops.block_height b
      → (length c.blocks < c.max_cache_size
          → get_by_height (insert_block ops b c) j
            ≡ (if j == ops.block_height b then some b else get_by_height c j))
        × ((last k : ℕ)
            → c.max_cache_size ≤ length c.blocks
            → last_entry c.block_hash_heights ≡ some (last, k)
            → ops.block_height b ≤ last
            → get_by_height (insert_block ops b c) j ≡ (
                if j == ops.block_height b
                then some b
                else if j == last
                then none
                else get_by_height c j))
  insert_block-get_by_height b c j apart v high = (
    λ room.
        ap (λ d. get_by_height d j) (insert_block_room b c high room)
        ∙ get_by_height-place apart b (seen b c) j (seen-IsValid b c v)
        ∙ ap (λ x. if j == ops.block_height b then some b else x) (get_by_height-seen b c j),
    λ last k full top below.
        ap (λ d. get_by_height d j) (insert_block_full b c last k high full top below)
        ∙ get_by_height-place apart b (remove_block ops k (seen b c)) j
            (remove_block-IsValid ops k (seen b c) (seen-IsValid b c v))
        ∙ ap (λ x. if j == ops.block_height b then some b else x) (evicted b c last k j v top),
  )
