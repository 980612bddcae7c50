-- ===== src/Routes/Walk.antt =====
-- A client that follows the cursor of a response (ciphera/pkg/node/src/rpc/routes/blocks.rs).
use zerosats.Prelude.{
  ℕ, ◌+◌, ◌^◌, ◌<◌, ◌≡◌, sym, ap, subst, ◌∙◌, Bool, true, false, Option, some, List, [], ◌∷◌, ◌++◌,
  All, arith, inl, inr, Option-cases,
}
use zerosats.Prelude.Filter.{map-append}
use zerosats.Pagination.{Cursor, CursorChoiceAfter, choose_after, after}
use zerosats.BlockStore.Types.{ok, ok_injective}
use zerosats.BlockStore.Listing.{lowest_to_highest}
use zerosats.BlockStore.Listing.Decoded.{block_keys-IsListable, non_empty_keys-IsListable}
use zerosats.BlockStore.Listing.Page.{page, IsCursor}
use zerosats.BlockStore.Listing.Pages.{IsForward, IsInOrder, last_height, page_append}
use zerosats.BlockStore.Listing.Rows.{Shows-IsInOrder, Shows-heights}
use zerosats.BlockStore.Store.{Backend}
use zerosats.Routes.{ListBlocksQuery, to_order, page_limit, list_blocks}
use zerosats.Routes.Listed.{
  ShowsFor, convert, answers, AreAtHeight, cursor_of, page-All, list_blocks-page,
}

module _ {B T W : Type 0} (s : Backend B T) (present : B → W) (height : W → ℕ) where
  ShowsFor-IsInOrder :
      (skip : Bool) (db : s.rocks.Db) (rows : List (ℕ × B))
      → ShowsFor s skip db rows
      → IsInOrder lowest_to_highest rows × All (λ row. row.0 < 256 ^ 8) rows
  ShowsFor-IsInOrder true db rows w = (
    Shows-IsInOrder s.rocks s.blocks non_empty_keys-IsListable db rows w,
    Shows-heights s.rocks s.blocks non_empty_keys-IsListable db rows w,
  )
  ShowsFor-IsInOrder false db rows w = (
    Shows-IsInOrder s.rocks s.blocks block_keys-IsListable db rows w,
    Shows-heights s.rocks s.blocks block_keys-IsListable db rows w,
  )

  last_bound :
      (k : ℕ) (rows : List (ℕ × B))
      → All (λ row. row.0 < 256 ^ 8) rows
      → last_height rows ≡ some k
      → k < 256 ^ 8
  last_bound k [] a h = cc
  last_bound k (row ∷ rows) a h = elim (Option-cases (last_height rows)) [
    | inl e ↦ ground (arith, a.0)
    | inr (j, e) ↦ last_bound k rows a.1 (ground arith)
  ]

  after_last :
      (found : List (ℕ × B)) (c : CursorChoiceAfter ℕ)
      → (cursor_of s present height found).after ≡ some c
      → (k : ℕ) × (last_height found ≡ some k) × (c ≡ after k)
  after_last found c h = elim (Option-cases (last_height found)) [
    | inl e ↦ absurd (ground arith)
    | inr (k, e) ↦ (k, e, ground arith)
  ]

  -- The query that goes on behind a cursor
  abbrev pub next_query : ListBlocksQuery → CursorChoiceAfter ℕ → Option ℕ → ListBlocksQuery
  next_query q c limit = record q { cursor = some (choose_after c); limit = limit }

  -- A client that asks for blocks forwards and then asks again behind the cursor of the response
  -- misses no block and gets none twice: the second query is answered as well, and both answers
  -- in a row are what one page of both lengths would hold.
  pub list_blocks-next :
      (db : s.rocks.Db) (rows : List (ℕ × B)) (q : ListBlocksQuery) (limit : Option ℕ)
      (cursor : Cursor ℕ) (c : CursorChoiceAfter ℕ) (ws : List W)
      → AreAtHeight s present height rows
      → ShowsFor s q.skip_empty db rows
      → IsCursor q.cursor
      → IsForward q.cursor
      → list_blocks s (convert s present height) height q db ≡ ok (cursor, ws)
      → cursor.after ≡ some c
      → (cursor' : Cursor ℕ) × (ws' : List W) × (list_blocks s
            (convert s present height)
            height
            (next_query q c limit)
            db
          ≡ ok (cursor', ws'))
        × (ws ++ ws'
            ≡ answers s present height
                (page q.cursor (to_order q.order) (page_limit q.limit + page_limit limit) rows))
  list_blocks-next db rows q limit cursor c ws a shows hc f first next =
      let (ordered, bounded) = ShowsFor-IsInOrder q.skip_empty db rows shows in
      let found : List (ℕ × B) = page q.cursor (to_order q.order) (page_limit q.limit) rows in
      let same : (cursor, ws) ≡ (cursor_of s present height found, answers s present height found) =
        ok_injective (sym first ∙ list_blocks-page s present height db rows a q shows hc) in
      let (k, last, is_k) =
        after_last found c (sym (ap (λ (t : Cursor ℕ × List W). t.0.after) same) ∙ next) in
      let lt : k < 256 ^ 8 =
        last_bound k found
          (page-All _ q.cursor (to_order q.order) (page_limit q.limit) rows bounded) last in
      let rest : List (ℕ × B) =
        page (some (choose_after c)) (to_order q.order) (page_limit limit) rows in
      let joined : found ++ rest
          ≡ page q.cursor (to_order q.order) (page_limit q.limit + page_limit limit) rows =
        ap
          (λ (t : CursorChoiceAfter ℕ).
            found ++ page (some (choose_after t)) (to_order q.order) (page_limit limit) rows)
          is_k
        ∙ page_append q.cursor (to_order q.order) (page_limit q.limit) (page_limit limit) k rows f
            ordered last in
      (
        cursor_of s present height rest,
        answers s present height rest,
        list_blocks-page s present height db rows a (next_query q c limit) shows
            (subst (λ (t : CursorChoiceAfter ℕ). IsCursor (some (choose_after t))) (sym is_k) lt),
        ap (λ (t : Cursor ℕ × List W). t.1 ++ answers s present height rest) same
            ∙ sym (map-append (λ row. present row.1) found rest)
            ∙ ap (answers s present height) joined,
      )
