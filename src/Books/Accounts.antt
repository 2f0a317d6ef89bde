-- ===== src/Books/Accounts.antt =====
-- The accounts of a settlement of all books (`settle_books` of paper_book_kernel.py): its outcomes and
-- summaries against the books that it closes.
use crypto_ai_system.Common.{
  ◌+◌, String, Bool, true, false, Option, none, some, List, [], ◌∷◌, ◌≡◌, refl, arith, length,
  length-append, count, str_eq, map, ap, sym, ◌++◌, ◌∙◌, count-append,
}
use mathlib.Core.List.{map-append}
use crypto_ai_system.Float.{Float}
use crypto_ai_system.Trade.{Candle, Plan, max_hold_bars}
use crypto_ai_system.Paper.Model.{
  Position, Slot, junk, closed, opened, Exit, Services, Outcome, Summary, load_open,
}
use crypto_ai_system.Paper.Settle.{settle_trade_plan, outcome_of, summary_of}
use crypto_ai_system.Paper.Lifecycle.{open_count}
use crypto_ai_system.Books.{
  Shelf, Desk, open_books, is_book, close_book, settle_book, settle_shelf, settle_books,
}

abbrev named : String → Option String → Bool
named id none = false
named id (some j) = str_eq j id

module _ {F : Type 0} where
  abbrev pub outcome_book : Outcome F → Option String
  outcome_book o = o.context.book_id

  abbrev pub summary_book : Summary F → Option String
  summary_book s = s.book_id

  -- The summaries of one book.
  abbrev pub names : String → Summary F → Bool
  names id s = named id s.book_id

module _ {F : Type 0} ⦃f : Float F⦄ (services : Services F) (candle : Option (Candle F))
    (last_close : Option F) (manual : Bool) (timeframe : String) (regime : Option String) where
  abbrev settled : Position F → Plan F × Option (Exit F)
  settled p = settle_trade_plan p.plan candle last_close (max_hold_bars timeframe) manual

  abbrev settle_each : Shelf F → Shelf F × List (Outcome F) × List (Summary F)
  settle_each = settle_shelf services candle last_close manual timeframe regime

  abbrev after : Desk F → List (Outcome F) → Desk F × List (Outcome F) × List (Summary F)
  after = settle_books services candle last_close manual timeframe regime true

  close_book_accounts :
      (id : String) (p : Position F) (exit : Plan F × Option (Exit F))
      → let r = close_book services last_close regime id p exit in
        (open_count (load_open r.0) + length r.2 ≡ 1) × (length r.1 ≡ length r.2)
  unfolding load_open
  close_book_accounts id p (plan, none) = (refl, refl)
  close_book_accounts id p (plan, some e) = (refl, refl)

  length-open_books-cons :
      (id : String) (slot : Slot F) (rest : Shelf F)
      → length (open_books ((id, slot) ∷ rest))
        ≡ open_count (load_open slot) + length (open_books rest)
  unfolding load_open
  length-open_books-cons id junk rest = omega arith
  length-open_books-cons id closed rest = omega arith
  length-open_books-cons id (opened p) rest = omega arith

  settle_book_accounts :
      (id : String) (slot : Slot F)
      → let r = settle_book services candle last_close manual timeframe regime id slot in
        (open_count (load_open r.0) + length r.2 ≡ open_count (load_open slot))
        × (length r.1 ≡ length r.2)
  unfolding settle_book load_open
  settle_book_accounts id junk = (refl, refl)
  settle_book_accounts id closed = (refl, refl)
  settle_book_accounts id (opened p) = close_book_accounts id p (settled p)

  settle_shelf_accounts :
      (books : Shelf F)
      → let r = settle_each books in
        (length (open_books r.0) + length r.2 ≡ length (open_books books))
        × (length r.1 ≡ length r.2)
  unfolding settle_shelf
  settle_shelf_accounts [] = (refl, refl)
  settle_shelf_accounts ((id, slot) ∷ rest) =
      let r = settle_book services candle last_close manual timeframe regime id slot in
      let others = settle_each rest in
      omega (
        arith,
        settle_shelf_accounts rest,
        settle_book_accounts id slot,
        length-open_books-cons id slot rest,
        length-open_books-cons id r.0 others.0,
        length-append r.1 others.1,
        length-append r.2 others.2,
      )

  settle_book-names :
      (id j : String) (slot : Slot F)
      → let r = settle_book services candle last_close manual timeframe regime j slot in
        (count (is_book id) (open_books ((j, r.0) ∷ [])) + count (names id) r.2
          ≡ count (is_book id) (open_books ((j, slot) ∷ [])))
        × (map outcome_book r.1 ≡ map summary_book r.2)
  unfolding settle_book summary_of outcome_of
  settle_book-names id j junk = (refl, refl)
  settle_book-names id j closed = (refl, refl)
  settle_book-names id j (opened p) = go (settled p)
    where
      go :
          (e : Plan F × Option (Exit F))
          → let r = close_book services last_close regime j p e in
            (count (is_book id) (open_books ((j, r.0) ∷ [])) + count (names id) r.2
              ≡ count (is_book id) (open_books ((j, opened p) ∷ [])))
            × (map outcome_book r.1 ≡ map summary_book r.2)
      go (plan, none) = (omega arith, refl)
      go (plan, some e) = (omega arith, refl)

  count-open_books-cons :
      (test : String × Position F → Bool) (id : String) (slot : Slot F) (rest : Shelf F)
      → count test (open_books ((id, slot) ∷ rest))
        ≡ count test (open_books ((id, slot) ∷ [])) + count test (open_books rest)
  count-open_books-cons test id junk rest = omega arith
  count-open_books-cons test id closed rest = omega arith
  count-open_books-cons test id (opened p) rest = omega arith

  settle_shelf-names :
      (id : String) (books : Shelf F)
      → let r = settle_each books in
        (count (is_book id) (open_books r.0) + count (names id) r.2
          ≡ count (is_book id) (open_books books))
        × (map outcome_book r.1 ≡ map summary_book r.2)
  unfolding settle_shelf
  settle_shelf-names id [] = (refl, refl)
  settle_shelf-names id ((j, slot) ∷ rest) =
      let r = settle_book services candle last_close manual timeframe regime j slot in
      let others = settle_each rest in
      let one = settle_book-names id j slot in
      let more = settle_shelf-names id rest in
      (
        omega (
          arith,
          one.0,
          more.0,
          count-open_books-cons (is_book id) j slot rest,
          count-open_books-cons (is_book id) j r.0 others.0,
          count-append (names id) r.2 others.2,
        ),
        map-append outcome_book r.1 others.1
            ∙ ap (λ xs. xs ++ map outcome_book others.1) one.1
            ∙ ap (λ xs. map summary_book r.2 ++ xs) more.1
            ∙ sym (map-append summary_book r.2 others.2),
      )

  -- A settlement gives, for each book, as many summaries of that book as it closes positions of it; it
  -- adds its outcomes behind those that were there, one for each summary, of the same book and in the
  -- same order; and it leaves the single slot alone.
  pub settle_books_accounts :
      (desk : Desk F) (outcomes : List (Outcome F))
      → let r = after desk outcomes in
        ((id : String)
          → count (is_book id) (open_books r.0.books) + count (names id) r.2
            ≡ count (is_book id) (open_books desk.books))
        × (length (open_books r.0.books) + length r.2 ≡ length (open_books desk.books))
        × ((added : List (Outcome F)) × (r.1 ≡ outcomes ++ added)
            × (map outcome_book added ≡ map summary_book r.2))
        × (r.0.slot ≡ desk.slot)
  unfolding settle_books
  settle_books_accounts desk outcomes =
      let r = settle_each desk.books in
      (
        λ id. (settle_shelf-names id desk.books).0,
        (settle_shelf_accounts desk.books).0,
        (r.1, refl, (settle_shelf-names "" desk.books).1),
        refl,
      )
