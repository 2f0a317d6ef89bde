-- ===== src/Books/Alone.antt =====
-- A settlement of all books against the single-book kernel (`settle_books` of paper_book_kernel.py and
-- `settle_open_position` of paper_position_kernel.py).
use crypto_ai_system.Common.{
  String, Bool, true, Option, none, some, List, [], ◌∷◌, ◌≡◌, refl, map, ap, ◌++◌,
}
use crypto_ai_system.Float.{Float}
use crypto_ai_system.Trade.{Candle, Plan, max_hold_bars}
use crypto_ai_system.Paper.Model.{
  Position, Slot, junk, closed, opened, Exit, Services, Outcome, Summary, Settled,
}
use crypto_ai_system.Paper.Settle.{
  settle_trade_plan, settle_open_position, finish_settlement, outcome_of, summary_of,
}
use crypto_ai_system.Books.{Shelf, Desk, close_book, settle_book, settle_shelf, settle_books}

module _ {F : Type 0} ⦃f : Float F⦄ (services : Services F) (candle : Option (Candle F))
    (last_close : Option F) (manual : Bool) (timeframe : String) (regime : Option String) where
  abbrev settled : Position F → Plan F × Option (Exit F)
  settled p = settle_trade_plan p.plan candle last_close (max_hold_bars timeframe) manual

  abbrev settle_each : Shelf F → Shelf F × List (Outcome F) × List (Summary F)
  settle_each = settle_shelf services candle last_close manual timeframe regime

  abbrev after : Desk F → List (Outcome F) → Desk F × List (Outcome F) × List (Summary F)
  after = settle_books services candle last_close manual timeframe regime true

  -- The book by itself, in the hands of the single-book kernel.
  abbrev pub single : Slot F → Settled F
  single slot = settle_open_position services candle last_close manual timeframe regime slot []

  -- An outcome and a summary of the single-book kernel, filed under a book; the analytics see the
  -- outcome with its book.
  abbrev pub filed : String → Outcome F → Outcome F
  filed id o = record o { context = record (o.context) { book_id = some id } }

  abbrev pub analyzed : String → Summary F → List (Outcome F) → Summary F
  analyzed id s [] = s
  analyzed id s (o ∷ rest) =
      let answer = services.analyze (filed id o) in
      record s { book_id = some id; outcome_id = answer.0; outcome_status = answer.1 }

  abbrev pub single_summaries : String → Settled F → List (Summary F)
  single_summaries id r = elim r.summary [ none ↦ [] | some s ↦ analyzed id s r.outcomes ∷ [] ]

  -- Each book by itself: the books, the outcomes and the summaries in the order of the books.
  abbrev pub settle_alone : Shelf F → Shelf F × List (Outcome F) × List (Summary F)
  settle_alone [] = ([], [], [])
  settle_alone ((id, slot) ∷ rest) =
      let r = single slot in
      let others = settle_alone rest in
      (
        (id, r.slot) ∷ others.0,
        map (filed id) r.outcomes ++ others.1,
        single_summaries id r ++ others.2,
      )

  settle_book-single :
      (id : String) (slot : Slot F)
      → settle_book services candle last_close manual timeframe regime id slot ≡ (
        (single slot).slot,
        map (filed id) (single slot).outcomes,
        single_summaries id (single slot),
      )
  unfolding settle_book settle_open_position finish_settlement summary_of outcome_of
  settle_book-single id junk = refl
  settle_book-single id closed = refl
  settle_book-single id (opened p) = go (settled p)
    where
      go :
          (e : Plan F × Option (Exit F))
          → let r = finish_settlement services p last_close regime [] e in
            close_book services last_close regime id p e
            ≡ (r.slot, map (filed id) r.outcomes, single_summaries id r)
      go (plan, none) = refl
      go (plan, some e) = refl

  settle_shelf-alone : (books : Shelf F) → settle_each books ≡ settle_alone books
  unfolding settle_shelf
  settle_shelf-alone [] = refl
  settle_shelf-alone ((id, slot) ∷ rest) =
      rw (settle_book-single id slot, settle_shelf-alone rest) refl

  -- Each book is settled as the single-book kernel settles its position, whatever the other books
  -- hold: the stored book is its, and its outcome and summary are the single-book kernel's with the
  -- book's identifier, in the order of the books, the outcomes behind those that were there.
  pub settle_books-single :
      (desk : Desk F) (outcomes : List (Outcome F))
      → let r = after desk outcomes in
        let alone = settle_alone desk.books in
        (r.0.books ≡ alone.0) × (r.1 ≡ outcomes ++ alone.1) × (r.2 ≡ alone.2)
  unfolding settle_books
  settle_books-single desk outcomes =
      let same = settle_shelf-alone desk.books in
      (ap (λ r. r.0) same, ap (λ r. outcomes ++ r.1) same, ap (λ r. r.2) same)
