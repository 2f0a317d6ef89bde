-- ===== src/Books/Settlements.antt =====
-- A settlement of all books keeps their caps (`settle_books` of paper_book_kernel.py).
use crypto_ai_system.Common.{
  ◌+◌, ◌≤◌, String, Bool, true, Option, none, some, List, [], ◌∷◌, ◌≡◌, refl, arith, length, count,
  if◌then◌else◌,
}
use crypto_ai_system.Float.{Float}
use crypto_ai_system.Trade.{Candle, Plan, max_hold_bars}
use crypto_ai_system.Paper.Model.{Position, junk, closed, opened, Exit, Services, Outcome, Summary}
use crypto_ai_system.Paper.Settle.{settle_trade_plan}
use crypto_ai_system.Paper.Exits.{SameTerms}
use crypto_ai_system.Paper.Lifecycle.{settle_trade_plan-SameTerms}
use crypto_ai_system.Books.{
  Caps, Shelf, Desk, open_books, has_direction, has_signal, close_book, settle_book, settle_shelf,
  settle_books,
}
use crypto_ai_system.Books.Limits.{IsCapped}

count_always {ℓ} : {A : Type ℓ} (xs : List A) → count (λ _. true) xs ≡ length xs
count_always [] = refl
count_always (x ∷ xs) = omega (arith, count_always xs)

module _ {F : Type 0} ⦃f : Float F⦄ (services : Services F) (candle : Option (Candle F))
    (last_close : Option F) (manual : Bool) (timeframe : String) (regime : Option String) where
  abbrev settled : Position F → Plan F × Option (Exit F)
  settled p = settle_trade_plan p.plan candle last_close (max_hold_bars timeframe) manual

  abbrev pub settle_each : Shelf F → Shelf F × List (Outcome F) × List (Summary F)
  settle_each = settle_shelf services candle last_close manual timeframe regime

  -- A test on a book that a settlement which leaves the book open cannot change.
  abbrev Survives : (String × Position F → Bool) → Type 0
  Survives test =
      (id : String) (p : Position F) (plan : Plan F) (price : Option F)
      → SameTerms plan p.plan
      → test (id, record p { plan = plan; last_seen_price = price }) ≡ test (id, p)

  count-close_book :
      (test : String × Position F → Bool)
      → Survives test
      → (id : String) (p : Position F) (plan : Plan F) (exit : Option (Exit F)) (rest : Shelf F)
      → SameTerms plan p.plan
      → count test
          (open_books ((id, (close_book services last_close regime id p (plan, exit)).0) ∷ rest))
        ≤ (if test (id, p) then 1 else 0) + count test (open_books rest)
  count-close_book test keeps id p plan none rest same =
      ground (arith, keeps id p plan last_close same)
  count-close_book test keeps id p plan (some e) rest same = ground arith

  count-settle_shelf :
      (test : String × Position F → Bool)
      → Survives test
      → (books : Shelf F)
      → count test (open_books (settle_each books).0) ≤ count test (open_books books)
  unfolding settle_shelf settle_book
  count-settle_shelf test keeps [] = omega arith
  count-settle_shelf test keeps ((id, junk) ∷ rest) = count-settle_shelf test keeps rest
  count-settle_shelf test keeps ((id, closed) ∷ rest) = count-settle_shelf test keeps rest
  count-settle_shelf test keeps ((id, opened p) ∷ rest) = omega (
    arith,
    count-settle_shelf test keeps rest,
    count-close_book test keeps id p (settled p).0 (settled p).1 (settle_each rest).0
        (settle_trade_plan-SameTerms p.plan candle last_close (max_hold_bars timeframe) manual),
  )

  abbrev pub after : Desk F → List (Outcome F) → Desk F × List (Outcome F) × List (Summary F)
  after = settle_books services candle last_close manual timeframe regime true

  -- A settlement opens no book, in no direction and for no signal: the caps still hold after it.
  pub settle_books-IsCapped :
      (caps : Caps) (desk : Desk F) (outcomes : List (Outcome F))
      → IsCapped caps desk.books
      → IsCapped caps (after desk outcomes).0.books
  unfolding settle_books
  settle_books-IsCapped caps desk outcomes capped = record {
    total = omega (
      arith,
      capped.total,
      count_always (open_books desk.books),
      count_always (open_books (settle_each desk.books).0),
      count-settle_shelf (λ _. true) (λ id p plan price same. refl) desk.books,
    );
    each_direction = λ d. omega (
      arith,
      capped.each_direction d,
      count-settle_shelf (has_direction d) (λ id p plan price same. rw (same.direction)) desk.books,
    );
    each_signal = λ d signal ne. omega (
      arith,
      capped.each_signal d signal ne,
      count-settle_shelf (has_signal d signal) (λ id p plan price same. rw (same.direction))
          desk.books,
    );
  }
