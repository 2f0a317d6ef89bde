-- ===== src/Tests/Books.antt =====
-- The multi-book kernel with two strategies and one position allowed for each direction.
use crypto_ai_system.Common.{
  map, List, count, String, ◌++◌, ◌+◌, true, false, none, some, [], ◌∷◌, ◌≡◌, refl, length,
}
use crypto_ai_system.Common.Int.{ℤ, pos}
use crypto_ai_system.Float.{whole_float}
use crypto_ai_system.Trade.{direction_eq}
use crypto_ai_system.Paper.Model.{Outcome, opened, junk}
use crypto_ai_system.Paper.Entry.{build_position}
use crypto_ai_system.Books.{
  is_book, Caps, Desk, open_books, open_in_book, settle_books, refusal, book_id_for,
  max_same_direction,
}
use crypto_ai_system.Books.Limits.{IsCapped}
use crypto_ai_system.Books.Accounts.{names, outcome_book, summary_book, settle_books_accounts}
use crypto_ai_system.Books.Alone.{settle_books-single, settle_alone}
use crypto_ai_system.Books.History.{Step, Reach, Reach-IsCapped}
use crypto_ai_system.Tests.Fixtures.{wide_candle}
use crypto_ai_system.Tests.Paper.{services, fill, fill_of, ids, fresh}

abbrev caps : Caps
caps = record { max_open_books = 3; max_same_direction = 1; max_same_signal_direction = 1 }

abbrev empty : Desk ℤ
empty = record { slot = junk; books = [] }

abbrev first_entry : Desk ℤ
first_entry = (open_in_book services caps true fill ids (some "c1") empty).desk

Reach-IsCapped_example : IsCapped caps first_entry.books
Reach-IsCapped_example =
    Reach-IsCapped caps junk {desk = first_entry}
      (Reach.next Reach.here (Step.enter services fill ids (some "c1")))

abbrev one_book : Desk ℤ
one_book = record { slot = junk; books = ("s1", opened fresh) ∷ [] }

-- A second long position is refused for its direction.
second_refused :
    (open_in_book services caps true (fill_of "s2") ids (some "c2") one_book).refused
    ≡ some max_same_direction
unfolding open_in_book build_position refusal book_id_for direction_eq
second_refused = refl

settle_books_accounts_example :
    let r =
      settle_books services (some wide_candle) (some (pos 110)) false "1h" none true one_book [] in
    ((id : String)
      → count (is_book id) (open_books r.0.books) + count (names id) r.2
        ≡ count (is_book id) (open_books one_book.books))
    × (length (open_books r.0.books) + length r.2 ≡ length (open_books one_book.books))
    × ((added : List (Outcome ℤ)) × (r.1 ≡ [] ++ added)
        × (map outcome_book added ≡ map summary_book r.2))
    × (r.0.slot ≡ one_book.slot)
settle_books_accounts_example =
    settle_books_accounts services (some wide_candle) (some (pos 110)) false "1h" none one_book []

settle_books-single_example :
    let r =
      settle_books services (some wide_candle) (some (pos 110)) false "1h" none true one_book [] in
    let alone =
      settle_alone services (some wide_candle) (some (pos 110)) false "1h" none one_book.books in
    (r.0.books ≡ alone.0) × (r.1 ≡ [] ++ alone.1) × (r.2 ≡ alone.2)
settle_books-single_example =
    settle_books-single services (some wide_candle) (some (pos 110)) false "1h" none one_book []
