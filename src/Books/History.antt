-- ===== src/Books/History.antt =====
-- Desks that entries and settlements of paper_book_kernel.py reach from an empty file.
use crypto_ai_system.Common.{String, Bool, true, Option, List, [], arith}
use crypto_ai_system.Float.{Float}
use crypto_ai_system.Trade.{Candle}
use crypto_ai_system.Paper.Model.{Slot, Services, Execution, Reconciliation, Outcome}
use crypto_ai_system.Books.{Caps, Desk, open_in_book, settle_books}
use crypto_ai_system.Books.Limits.{IsCapped, open_in_book-IsCapped}
use crypto_ai_system.Books.Settlements.{settle_books-IsCapped}

module _ {F : Type 0} ⦃f : Float F⦄ where
  -- One cycle of the multi-book kernel, with any fill, any candle and any prices.
  pub data Step (caps : Caps) (desk : Desk F) : Desk F → Type 0 where
    enter :
        (services : Services F) (ex : Execution F) (rec : Reconciliation) (cycle : Option String)
        → Step caps desk (open_in_book services caps true ex rec cycle desk).desk
    settle :
        (services : Services F) (candle : Option (Candle F)) (last_close : Option F) (manual : Bool)
        (timeframe : String) (regime : Option String) (outcomes : List (Outcome F))
        → Step caps desk
            (settle_books services candle last_close manual timeframe regime true desk outcomes).0

  pub data Reach (caps : Caps) (start : Desk F) : Desk F → Type 0 where
    here : Reach caps start start
    next : {a b : Desk F} → Reach caps start a → Step caps a b → Reach caps start b

  Step-IsCapped :
      {caps : Caps} {a b : Desk F} → Step caps a b → IsCapped caps a.books → IsCapped caps b.books
  Step-IsCapped {caps} {a} (enter services ex rec cycle) h =
      open_in_book-IsCapped services caps ex rec cycle a h
  Step-IsCapped {caps} {a} (settle services candle last_close manual timeframe regime outcomes) h =
      settle_books-IsCapped services candle last_close manual timeframe regime caps a outcomes h

  abbrev pub empty_desk : Slot F → Desk F
  empty_desk slot = record { slot = slot; books = [] }

  -- From an empty file of books, every sequence of entries and settlements keeps all three caps.
  pub Reach-IsCapped :
      (caps : Caps) (slot : Slot F) {desk : Desk F}
      → Reach caps (empty_desk slot) desk
      → IsCapped caps desk.books
  Reach-IsCapped caps slot here = record {
    total = omega arith;
    each_direction = λ d. omega arith;
    each_signal = λ d s ne. omega arith;
  }
  Reach-IsCapped caps slot (next r s) = Step-IsCapped s (Reach-IsCapped caps slot r)
