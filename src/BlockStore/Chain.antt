-- ===== src/BlockStore/Chain.antt =====
-- A store from its creation on, through any blocks, to its pages
-- (ciphera/pkg/block-store/src/{lib,keys,list}.rs).
use zerosats.Prelude.{
  ℕ, ◌^◌, ◌<◌, ◌≡◌, refl, sym, ap, subst, ◌∙◌, Option, none, some, List, [], ◌∷◌, All, inl, inr,
  Bool-cases, if◌then◌else◌, ◌==◌,
}
use mathlib.Core.List.{map}
use zerosats.Prelude.Bytes.{Bytes, be_bytes, bytes_eq, bytes_eq_iff}
use zerosats.Prelude.Maps
use zerosats.Prelude.Maps.{get-insert}
use zerosats.Prelude.Ordered.{put, put-IsOrdered, get-put}
use zerosats.Pagination.{CursorChoice}
use zerosats.BlockStore.Types.{Outcome, ok, >>=-eq-ok, ok_injective, Returns}
use zerosats.BlockStore.Keys.{block, store_version, serialize}
use zerosats.BlockStore.Rocks.{find}
use zerosats.BlockStore.Listing.{BlockListOrder, block_keys, list_paginated}
use zerosats.BlockStore.Listing.Decoded.{block_keys-IsListable, shown_row}
use zerosats.BlockStore.Listing.Whole.{Shows}
use zerosats.BlockStore.Listing.Page.{page, IsCursor, list_paginated-page}
use zerosats.BlockStore.Listing.Rows.{Reads, Shows-IsInOrder, Shows-heights, get-Shows}
use zerosats.BlockStore.Listing.Exists.{Shows_exists}
use zerosats.BlockStore.Listing.Unique.{AreRowsBelow, in_order_rows, put-below, rows_extensional}
use zerosats.BlockStore.Store.{
  Backend, create, get, get_max_height, get_block_height_by_hash, set, decode_option,
}
use zerosats.BlockStore.Store.Refine.{Chain, put_block, Refines}
use zerosats.BlockStore.Store.Total.{IsEncodable, set_each, put_each, set_each-Refines}
use zerosats.BlockStore.Store.Stored.{HasWidths, IsKeyed, set-IsKeyed}

abbrev pub nothing : {B : Type 0} → Chain B
nothing = record { blocks = []; heights = λ hash. none; top = none }

decoded {ℓ} :
    {A : Type ℓ} (f : Bytes → Outcome A) (v : Bytes) (o : Option A)
    → decode_option f (some v) ≡ ok o
    → Returns (f v)
decoded f v o h = let (a, e, h') = >>=-eq-ok (f v) _ h in (a, e)

module _ {B T : Type 0} (s : Backend B T) where
  open s use {rocks, ops, txn_ops, blocks}

  read_same :
      (o : Option Bytes) (x y : Option B)
      → Reads rocks blocks block_keys-IsListable o x
      → decode_option blocks.from_bytes o ≡ ok y
      → x ≡ y
  read_same none none y r h = ok_injective h
  read_same none (some v) y r h = absurd r
  read_same (some b) none y r h = absurd r
  read_same (some b) (some v) y r h = cc

module _ {B T : Type 0} (s : Backend B T) where
  open s use {rocks, ops, txn_ops, blocks}

  module _ (db : rocks.Db) (empty : rocks.entries db ≡ []) where
    get-create :
        (k : Bytes)
        → rocks.get k (create s db) ≡ find k ((serialize store_version, be_bytes 4 1) ∷ [])
    unfolding create
    get-create k =
        rocks.get_write k _ db
        ∙ ap (λ o. if bytes_eq k (serialize store_version) then some (be_bytes 4 1) else o)
            (rocks.get_entries k db ∙ ap (find k) empty)

    pub create-Refines : Refines s (create s db) nothing
    unfolding get get_max_height get_block_height_by_hash serialize
    create-Refines = record {
      by_height = λ h lt. ap (decode_option blocks.from_bytes) (get-create (0 ∷ be_bytes 8 h));
      by_hash = λ hash. ap (decode_option _) (get-create (2 ∷ hash));
      greatest = ap (decode_option _) (get-create (1 ∷ []));
    }

    create-IsKeyed : IsKeyed s (create s db)
    create-IsKeyed k v h = elim (Bool-cases (bytes_eq k (serialize store_version))) [
      | inl y ↦ (store_version, tt, (bytes_eq_iff k (serialize store_version)).0 y)
      | inr n ↦ absurd (cc (rw n at (get-create k), h))
    ]

  set_each-IsKeyed :
      (bs : List B) (db db' : rocks.Db)
      → All (HasWidths ops txn_ops) bs
      → IsKeyed s db
      → set_each s bs db ≡ ok db'
      → IsKeyed s db'
  unfolding set_each
  set_each-IsKeyed [] db db' a k h = subst (IsKeyed s) (ok_injective h) k
  set_each-IsKeyed (b ∷ bs) db db' a k h =
      let (next, e, h') = >>=-eq-ok (set s b db) _ h in
      set_each-IsKeyed bs next db' a.1 (set-IsKeyed s b db next a.0 k e) h'

  module _ (db : rocks.Db) (a : Chain B) (r : Refines s db a) (k : IsKeyed s db) where
    decodes :
        (h : ℕ) (v : Bytes)
        → h < 256 ^ 8
        → rocks.get (serialize (block (record { block_height = h }))) db ≡ some v
        → Returns (blocks.from_bytes v)
    unfolding get
    decodes h v lt e =
        decoded blocks.from_bytes v _
          (ap (decode_option blocks.from_bytes) (sym e) ∙ r.by_height h lt)

    rows : (xs : List (ℕ × B)) × Shows rocks blocks block_keys-IsListable db xs
    rows = Shows_exists rocks blocks block_keys-IsListable db k (unfold block_keys in decodes)

    get-rows :
        (xs : List (ℕ × B)) (h : ℕ)
        → Shows rocks blocks block_keys-IsListable db xs
        → h < 256 ^ 8
        → Maps.get h xs ≡ Maps.get h a.blocks
    unfolding get block_keys
    get-rows xs h shows lt =
        read_same s (rocks.get (serialize (block (record { block_height = h }))) db) (Maps.get h xs)
          _ (get-Shows rocks blocks block_keys-IsListable db xs h shows lt) (r.by_height h lt)

  -- What the blocks leave as rows: under each height the block that was set last
  abbrev pub put_rows : List B → List (ℕ × B) → List (ℕ × B)
  put_rows [] rows = rows
  put_rows (b ∷ bs) rows = put_rows bs (put (ops.block_height b) b rows)

  get-put_rows :
      (bs : List B) (xs : List (ℕ × B)) (a : Chain B) (h : ℕ)
      → Maps.get h xs ≡ Maps.get h a.blocks
      → Maps.get h (put_rows bs xs) ≡ Maps.get h (put_each s bs a).blocks
  get-put_rows [] xs a h e = e
  get-put_rows (b ∷ bs) xs a h e =
      get-put_rows bs (put (ops.block_height b) b xs) (put_block ops b a) h (
        get-put h (ops.block_height b) b xs
        ∙ ap (λ o. if h == ops.block_height b then some b else o) e
        ∙ sym (get-insert h (ops.block_height b) b a.blocks))

  put_rows-IsRows :
      (bs : List B) (xs : List (ℕ × B))
      → All (λ b. IsEncodable s b × (ops.block_height b < 256 ^ 8)) bs
      → AreRowsBelow xs
      → AreRowsBelow (put_rows bs xs)
  put_rows-IsRows [] xs e a = a
  put_rows-IsRows (b ∷ bs) xs e (o, u) =
      put_rows-IsRows bs (put (ops.block_height b) b xs) e.1
        (put-IsOrdered (ops.block_height b) b xs o, put-below (ops.block_height b) b xs e.0.1 u)

  -- A created store into which any blocks are set, one after the other, lists exactly those
  -- blocks. Where the blocks can be encoded and their values have the widths of their types, all
  -- calls of `set` come back, and then `list_paginated` returns, from any cursor, in either order
  -- and under any limit, the page of the rows that hold under each height the block that was set
  -- last there.
  pub list_paginated-set_each :
      (db : rocks.Db) (bs : List B) (cursor : Option (CursorChoice ℕ)) (order : BlockListOrder)
      (limit : ℕ)
      → rocks.entries db ≡ []
      → All (λ b. IsEncodable s b × (ops.block_height b < 256 ^ 8)) bs
      → All (HasWidths ops txn_ops) bs
      → IsCursor cursor
      → (db' : rocks.Db) × (set_each s bs (create s db) ≡ ok db')
        × (list_paginated rocks blocks block_keys cursor order limit db'
            ≡ ok (
                map
                  (shown_row rocks blocks block_keys-IsListable)
                  (page cursor order limit (put_rows bs []))))
  list_paginated-set_each db bs cursor order limit empty e w hc =
      let (db', h, r) = set_each-Refines s bs (create s db) nothing e (create-Refines db empty) in
      let k = set_each-IsKeyed bs (create s db) db' w (create-IsKeyed db empty) h in
      let (xs, shows) = rows db' (put_each s bs nothing) r k in
      let same : xs ≡ put_rows bs [] =
        rows_extensional xs (put_rows bs [])
          (
            in_order_rows xs (Shows-IsInOrder rocks blocks block_keys-IsListable db' xs shows),
            Shows-heights rocks blocks block_keys-IsListable db' xs shows,
          )
          (put_rows-IsRows bs [] e (tt, tt))
          (λ n lt.
            get-rows db' (put_each s bs nothing) r k xs n shows lt
            ∙ sym (get-put_rows bs [] nothing n refl)) in
      (
        db',
        h,
        list_paginated-page rocks blocks block_keys-IsListable db' xs shows cursor order limit hc
            ∙ ap
                (λ ys.
                  ok (
                    map (shown_row rocks blocks block_keys-IsListable)
                      (page cursor order limit ys)))
                same,
      )
