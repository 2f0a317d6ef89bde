-- ===== src/Books.antt =====
-- The multi-book paper kernel (src/crypto_ai_system/execution/paper_book_kernel.py): one position
-- for each strategy, under caps. `Desk` is the single-book file beside the file of books.
pub mod Limits
pub mod Settlements
pub mod Accounts
pub mod Alone
pub mod History
use crypto_ai_system.Common.{
  ℕ, String, Bool, true, false, ◌&&◌, ◌||◌, Option, none, some, get_or, List, [], ◌∷◌, ◌++◌, leb,
  ltb, str_eq, if◌then◌else◌, length, count, any, is_some, ◌-◌,
}
use crypto_ai_system.Float.{Float}
use crypto_ai_system.Trade.{
  Direction, Candle, Plan, driving_strategy, first_id, max_hold_bars, direction_eq,
}
use crypto_ai_system.Paper.Model.{
  Reconciliation, Execution, Position, Slot, junk, closed, opened, Exit, Outcome, Services, Summary,
  Settled, load_open,
}
use crypto_ai_system.Paper.Entry.{build_position, open_from_execution}
use crypto_ai_system.Paper.Settle.{settle_trade_plan, settle_open_position, outcome_of, summary_of}

pub data Refusal : Type 0 where
  book_already_open max_open_books max_same_direction max_same_signal_direction not_a_fill : Refusal

-- `_caps()`: the settings MULTIBOOK_MAX_OPEN_BOOKS, MULTIBOOK_MAX_SAME_DIRECTION and
-- MULTIBOOK_MAX_SAME_SIGNAL_DIRECTION.
pub record Caps : Type 0 where
  pub max_open_books : ℕ
  pub max_same_direction : ℕ
  pub max_same_signal_direction : ℕ

-- The dictionary of books, in its order.
abbrev pub Shelf : Type 0 → Type 0
Shelf F = List (String × Slot F)

pub record Desk (F : Type 0) : Type 0 where
  pub slot : Slot F
  pub books : Shelf F

-- `paper_gate_max_open_positions`
unfoldable pub paper_gate_max_open_positions : Caps → Bool → ℕ
paper_gate_max_open_positions caps enabled = if enabled then caps.max_open_books else 1

-- `book_id_for`
unfoldable pub book_id_for : {F : Type 0} → Execution F → String
unfolding first_id driving_strategy
book_id_for ex =
    get_or (driving_strategy (first_id ex.intent.attribution.strategy_id none)) "default"

-- `books[id] = slot`
unfoldable pub put_book : {F : Type 0} → String → Slot F → Shelf F → Shelf F
put_book id slot [] = (id, slot) ∷ []
put_book id slot ((j, s) ∷ rest) =
    if str_eq j id then (j, slot) ∷ rest else (j, s) ∷ put_book id slot rest

-- `open_books`
abbrev pub open_books : {F : Type 0} → Shelf F → List (String × Position F)
open_books [] = []
open_books ((id, opened p) ∷ rest) = (id, p) ∷ open_books rest
open_books ((id, _) ∷ rest) = open_books rest

-- `has_open_book`
unfoldable pub has_open_book : {F : Type 0} → Bool → Desk F → Bool
unfolding load_open
has_open_book false desk = is_some (load_open desk.slot)
has_open_book true desk = ltb 0 (length (open_books desk.books))

-- The capacity that `multibook_report` shows.
unfoldable pub remaining_capacity : {F : Type 0} → Caps → Desk F → ℕ
remaining_capacity caps desk = caps.max_open_books - length (open_books desk.books)

abbrev pub is_book : {F : Type 0} → String → String × Position F → Bool
is_book id (j, p) = str_eq j id

abbrev pub has_direction : {F : Type 0} → Direction → String × Position F → Bool
has_direction d (j, p) = direction_eq p.direction d

abbrev pub same_id : Option String → String → Bool
same_id none id = false
same_id (some a) id = str_eq a id

abbrev pub has_signal : {F : Type 0} → Direction → String → String × Position F → Bool
has_signal d signal (j, p) = direction_eq p.direction d && same_id p.research_signal_id signal

module _ {F : Type 0} where
  -- The last of the guards: it looks at the signal only if the position carries one.
  abbrev signal_refusal :
      Caps → List (String × Position F) → Direction → Option String → Option Refusal
  signal_refusal caps now_open d none = none
  signal_refusal caps now_open d (some signal) =
      if leb caps.max_same_signal_direction (count (has_signal d signal) now_open)
      then some Refusal.max_same_signal_direction
      else none

  -- The guards of `open_in_book`, in their order.
  unfoldable pub refusal : Caps → List (String × Position F) → String → Position F → Option Refusal
  refusal caps now_open id p =
      if any (is_book id) now_open
      then some book_already_open
      else if leb caps.max_open_books (length now_open)
      then some Refusal.max_open_books
      else if leb caps.max_same_direction (count (has_direction p.direction) now_open)
      then some Refusal.max_same_direction
      else signal_refusal caps now_open p.direction (first_id p.research_signal_id none)

-- What `open_in_book` leaves and returns.
pub record Opened (F : Type 0) : Type 0 where
  pub desk : Desk F
  pub position : Option (Position F)
  pub refused : Option Refusal

module _ {F : Type 0} ⦃f : Float F⦄ where
  abbrev pub place : Desk F → String → Position F → Option Refusal → Opened F
  place desk id p (some r) = record { desk = desk; position = none; refused = some r }
  place desk id p none =
      let q = record p { book_id = some id } in
      record {
        desk = record desk { books = put_book id (opened q) desk.books };
        position = some q;
        refused = none;
      }

  abbrev pub place_built : Caps → Desk F → String → Option (Position F) → Opened F
  place_built caps desk id none = record { desk = desk; position = none; refused = some not_a_fill }
  place_built caps desk id (some p) = place desk id p (refusal caps (open_books desk.books) id p)

  -- `open_in_book` with multibook enabled, and disabled.
  unfoldable pub open_in_book :
      Services F → Caps → Bool → Execution F → Reconciliation → Option String → Desk F → Opened F
  open_in_book services caps true ex rec cycle desk =
      place_built caps desk (book_id_for ex) (build_position services ex rec cycle)
  open_in_book services caps false ex rec cycle desk =
      let (slot, position) = open_from_execution services ex rec cycle desk.slot in
      record {
        desk = record desk { slot = slot };
        position = position;
        refused = if is_some position then none else some not_a_fill;
      }

  -- What one round of the loop of `settle_books` does to its book: the stored book, and the outcome
  -- and the summary of a close.
  abbrev pub close_book :
      Services F
      → Option F
      → Option String
      → String
      → Position F
      → Plan F × Option (Exit F)
      → Slot F × List (Outcome F) × List (Summary F)
  close_book services last_close regime id p (counted, none) =
      (opened (record p { plan = counted; last_seen_price = last_close }), [], [])
  close_book services last_close regime id p (counted, some e) = (
    closed,
    outcome_of p e regime (some id) ∷ [],
    summary_of services (record p { plan = counted }) e regime (some id) ∷ [],
  )

  module _ (services : Services F) (candle : Option (Candle F)) (last_close : Option F)
      (manual : Bool) (timeframe : String) (regime : Option String) where
    unfoldable pub settle_book : String → Slot F → Slot F × List (Outcome F) × List (Summary F)
    settle_book id (opened p) =
        close_book services last_close regime id p
          (settle_trade_plan p.plan candle last_close (max_hold_bars timeframe) manual)
    settle_book id slot = (slot, [], [])

    -- The loop over the books: the books, and the outcomes and the summaries in their order.
    unfoldable pub settle_shelf : Shelf F → Shelf F × List (Outcome F) × List (Summary F)
    settle_shelf [] = ([], [], [])
    settle_shelf ((id, slot) ∷ rest) =
        let (slot', os, ss) = settle_book id slot in
        let (rest', os', ss') = settle_shelf rest in ((id, slot') ∷ rest', os ++ os', ss ++ ss')

    abbrev listed : Option (Summary F) → List (Summary F)
    listed none = []
    listed (some s) = s ∷ []

    -- `settle_books` with multibook enabled, and disabled: the desk, the outcomes and the summaries.
    unfoldable pub settle_books :
        Bool → Desk F → List (Outcome F) → Desk F × List (Outcome F) × List (Summary F)
    settle_books true desk outcomes =
        let (books, os, ss) = settle_shelf desk.books in
        (record desk { books = books }, outcomes ++ os, ss)
    settle_books false desk outcomes =
        let r =
          settle_open_position services candle last_close manual timeframe regime desk.slot
            outcomes in
        (record desk { slot = r.slot }, r.outcomes, listed r.summary)
