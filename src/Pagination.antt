-- ===== src/Pagination.antt =====
-- Cursors into listings: ciphera/pkg/primitives/src/pagination.rs, without their encoding as text.
pub mod Collected
mod Examples
use zerosats.Prelude.{Option, none, some, List, [], ◌∷◌, if◌then◌else◌}
use mathlib.Core.Option.{map}

-- `std::ops::Bound`
pub data Bound {ℓ} (Pos : Type ℓ) : Type ℓ where
  included : Pos → Bound Pos
  excluded : Pos → Bound Pos
  unbounded : Bound Pos

pub data CursorChoiceAfter {ℓ} (Pos : Type ℓ) : Type ℓ where
  after : Pos → CursorChoiceAfter Pos
  after_inclusive : Pos → CursorChoiceAfter Pos

pub data CursorChoiceBefore {ℓ} (Pos : Type ℓ) : Type ℓ where
  before : Pos → CursorChoiceBefore Pos
  before_inclusive : Pos → CursorChoiceBefore Pos

pub data CursorChoice {ℓ} (Pos : Type ℓ) : Type ℓ where
  choose_after : CursorChoiceAfter Pos → CursorChoice Pos
  choose_before : CursorChoiceBefore Pos → CursorChoice Pos

pub record Cursor {ℓ} (Pos : Type ℓ) : Type ℓ where
  pub after : Option (CursorChoiceAfter Pos)
  pub before : Option (CursorChoiceBefore Pos)

-- `CursorChoiceAfter`
module _ {ℓ} {Pos : Type ℓ} where
  abbrev pub inner_after : CursorChoiceAfter Pos → Pos
  inner_after (after pos) = pos
  inner_after (after_inclusive pos) = pos

  abbrev pub inclusive_after : CursorChoiceAfter Pos → CursorChoiceAfter Pos
  inclusive_after (after pos) = after_inclusive pos
  inclusive_after (after_inclusive pos) = after_inclusive pos

  abbrev pub to_bound_after : CursorChoiceAfter Pos → Bound Pos
  to_bound_after (after pos) = excluded pos
  to_bound_after (after_inclusive pos) = included pos

  abbrev pub map_after {κ} : {Q : Type κ} → (Pos → Q) → CursorChoiceAfter Pos → CursorChoiceAfter Q
  map_after f (after pos) = after (f pos)
  map_after f (after_inclusive pos) = after_inclusive (f pos)

-- `CursorChoiceBefore`
module _ {ℓ} {Pos : Type ℓ} where
  abbrev pub inner_before : CursorChoiceBefore Pos → Pos
  inner_before (before pos) = pos
  inner_before (before_inclusive pos) = pos

  abbrev pub inclusive_before : CursorChoiceBefore Pos → CursorChoiceBefore Pos
  inclusive_before (before pos) = before_inclusive pos
  inclusive_before (before_inclusive pos) = before_inclusive pos

  abbrev pub to_bound_before : CursorChoiceBefore Pos → Bound Pos
  to_bound_before (before pos) = excluded pos
  to_bound_before (before_inclusive pos) = included pos

  abbrev pub map_before {κ} :
      {Q : Type κ} → (Pos → Q) → CursorChoiceBefore Pos → CursorChoiceBefore Q
  map_before f (before pos) = before (f pos)
  map_before f (before_inclusive pos) = before_inclusive (f pos)

-- `CursorChoice`
module _ {ℓ} {Pos : Type ℓ} where
  abbrev pub inner : CursorChoice Pos → Pos
  inner (choose_after c) = inner_after c
  inner (choose_before c) = inner_before c

  abbrev pub map_pos {κ} : {Q : Type κ} → (Pos → Q) → CursorChoice Pos → CursorChoice Q
  map_pos f (choose_after c) = choose_after (map_after f c)
  map_pos f (choose_before c) = choose_before (map_before f c)

  abbrev pub inclusive : CursorChoice Pos → CursorChoice Pos
  inclusive (choose_after c) = choose_after (inclusive_after c)
  inclusive (choose_before c) = choose_before (inclusive_before c)

-- The two fields that `next` sets
module _ {κ} {Pos : Type κ} where
  abbrev pub note_first :
      Option (CursorChoiceBefore Pos) → Option Pos → Option (CursorChoiceBefore Pos)
  note_first first none = first
  note_first none (some pos) = some (before pos)
  note_first (some c) (some pos) = some c

  abbrev pub note_last :
      Option (CursorChoiceAfter Pos) → Option Pos → Option (CursorChoiceAfter Pos)
  note_last last none = last
  note_last last (some pos) = some (after pos)

-- The iterator that notes the first and the last position that it has passed
pub record Paginator {ℓ κ} (I : Type ℓ) (Pos : Type κ) : Type (ℓ ⊔ κ) where
  pub iter : List I
  pub item_to_pos : I → Option Pos
  pub before : Option (CursorChoiceBefore Pos)
  pub after : Option (CursorChoiceAfter Pos)

module _ {ℓ κ} {I : Type ℓ} {Pos : Type κ} where
  abbrev pub paginator : List I → (I → Option Pos) → Paginator I Pos
  paginator iter item_to_pos = record {
    iter = iter;
    item_to_pos = item_to_pos;
    before = none;
    after = none;
  }

  -- `next`, where the iterator has an item
  abbrev pub pass : I → List I → Paginator I Pos → Paginator I Pos
  pass item rest p = record p {
    iter = rest;
    before = note_first p.before (p.item_to_pos item);
    after = note_last p.after (p.item_to_pos item);
  }

  abbrev pub next : Paginator I Pos → Option (I × Paginator I Pos)
  next p = elim p.iter [ [] ↦ none | item ∷ rest ↦ some (item, pass item rest p) ]

  -- The loop of `collect`, over the items that are left
  abbrev pub run : List I → Paginator I Pos → Paginator I Pos × List I
  run [] p = (p, [])
  run (item ∷ rest) p = let (q, items) = run rest (pass item rest p) in (q, item ∷ items)

  unfoldable pub collect_page : Paginator I Pos → Cursor Pos × List I
  collect_page p =
      let (q, items) = run p.iter p in (record { after = q.after; before = q.before }, items)
