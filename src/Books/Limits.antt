-- ===== src/Books/Limits.antt =====
-- The caps of paper_book_kernel.py hold of every desk that entries and settlements reach.
use crypto_ai_system.Common.{
  ◌+◌, ◌≤◌, String, Bool, true, false, Option, none, some, [], ◌∷◌, ◌≡◌, ◌≢◌, refl, arith, length,
  count, any, eq_iff, if◌then◌else◌,
}
use crypto_ai_system.Float.{Float}
use crypto_ai_system.Trade.{Direction, direction_eq, first_id}
use crypto_ai_system.Paper.Model.{
  Position, junk, closed, opened, Services, Execution, Reconciliation,
}
use crypto_ai_system.Paper.Entry.{build_position}
use crypto_ai_system.Books.{
  Caps, Shelf, Desk, Opened, Refusal, put_book, open_books, is_book, has_direction, has_signal,
  same_id, refusal, place, place_built, open_in_book, book_id_for,
}

direction_eq_sound : (a b : Direction) → direction_eq a b ≡ true → a ≡ b
unfolding direction_eq
direction_eq_sound Direction.long Direction.long h = refl
direction_eq_sound Direction.long Direction.short h = cc
direction_eq_sound Direction.short Direction.long h = cc
direction_eq_sound Direction.short Direction.short h = refl

same_id_sound : (a : Option String) (s : String) → same_id a s ≡ true → a ≡ some s
same_id_sound none s h = cc
same_id_sound (some t) s h = ground (arith, eq_iff t s)

module _ {F : Type 0} where
  -- A book that is put under an identifier with no open book adds one open book.
  pub count-open_books-put_book :
      (test : String × Position F → Bool) (id : String) (p : Position F) (books : Shelf F)
      → any (is_book id) (open_books books) ≡ false
      → count test (open_books (put_book id (opened p) books))
        ≡ (if test (id, p) then 1 else 0) + count test (open_books books)
  unfolding put_book
  count-open_books-put_book test id p [] h = refl
  count-open_books-put_book test id p ((j, junk) ∷ rest) h =
      ground (arith, eq_iff j id, count-open_books-put_book test id p rest)
  count-open_books-put_book test id p ((j, closed) ∷ rest) h =
      ground (arith, eq_iff j id, count-open_books-put_book test id p rest)
  count-open_books-put_book test id p ((j, opened q) ∷ rest) h =
      ground (arith, eq_iff j id, count-open_books-put_book test id p rest)

  length-open_books-put_book :
      (id : String) (p : Position F) (books : Shelf F)
      → any (is_book id) (open_books books) ≡ false
      → length (open_books (put_book id (opened p) books)) ≡ 1 + length (open_books books)
  unfolding put_book
  length-open_books-put_book id p [] h = refl
  length-open_books-put_book id p ((j, junk) ∷ rest) h =
      ground (arith, length-open_books-put_book id p rest)
  length-open_books-put_book id p ((j, closed) ∷ rest) h =
      ground (arith, length-open_books-put_book id p rest)
  length-open_books-put_book id p ((j, opened q) ∷ rest) h =
      ground (arith, length-open_books-put_book id p rest)

  -- No more open books than the caps allow: in all, for each direction, and for each direction of
  -- one research signal.
  pub record IsCapped (caps : Caps) (books : Shelf F) : Type 0 where
    pub total : length (open_books books) ≤ caps.max_open_books
    pub each_direction :
        (d : Direction) → count (has_direction d) (open_books books) ≤ caps.max_same_direction
    pub each_signal :
        (d : Direction) (signal : String)
        → signal ≢ ""
        → count (has_signal d signal) (open_books books) ≤ caps.max_same_signal_direction

  -- What the guards of an entry leave: no open book of its identifier, and room under every cap.
  pub record HasRoom (caps : Caps) (books : Shelf F) (id : String) (p : Position F) : Type 0 where
    pub fresh : any (is_book id) (open_books books) ≡ false
    pub room : length (open_books books) + 1 ≤ caps.max_open_books
    pub direction_room :
        count (has_direction p.direction) (open_books books) + 1 ≤ caps.max_same_direction
    pub signal_room :
        (signal : String)
        → signal ≢ ""
        → p.research_signal_id ≡ some signal
        → count (has_signal p.direction signal) (open_books books) + 1
          ≤ caps.max_same_signal_direction

  pub refusal-HasRoom :
      (caps : Caps) (books : Shelf F) (id : String) (p : Position F)
      → refusal caps (open_books books) id p ≡ none
      → HasRoom caps books id p
  unfolding refusal first_id
  refusal-HasRoom caps books id p h = record {
    fresh = ground arith;
    room = ground arith;
    direction_room = ground arith;
    signal_room = λ signal ne e. ground (arith, eq_iff signal "");
  }

  pub put_book-IsCapped :
      (caps : Caps) (books : Shelf F) (id : String) (p q : Position F)
      → q.direction ≡ p.direction
      → q.research_signal_id ≡ p.research_signal_id
      → HasRoom caps books id p
      → IsCapped caps books
      → IsCapped caps (put_book id (opened q) books)
  put_book-IsCapped caps books id p q same_direction same_signal room capped = record {
    total = omega (arith, length-open_books-put_book id q books room.fresh, room.room);
    each_direction = λ d. ground (
      arith,
      count-open_books-put_book (has_direction d) id q books room.fresh,
      capped.each_direction d,
      room.direction_room,
      direction_eq_sound q.direction d,
    );
    each_signal = λ d signal ne. ground (
      arith,
      count-open_books-put_book (has_signal d signal) id q books room.fresh,
      capped.each_signal d signal ne,
      room.signal_room signal ne,
      same_id_sound q.research_signal_id signal,
      direction_eq_sound q.direction d,
    );
  }

module _ {F : Type 0} ⦃f : Float F⦄ where
  place-IsCapped :
      (caps : Caps) (desk : Desk F) (id : String) (p : Position F) (refused : Option Refusal)
      → refusal caps (open_books desk.books) id p ≡ refused
      → IsCapped caps desk.books
      → IsCapped caps (place desk id p refused).desk.books
  place-IsCapped caps desk id p (some r) h capped = capped
  place-IsCapped caps desk id p none h capped =
      put_book-IsCapped caps desk.books id p (record p { book_id = some id }) refl refl
        (refusal-HasRoom caps desk.books id p h) capped

  place_built-IsCapped :
      (caps : Caps) (desk : Desk F) (id : String) (built : Option (Position F))
      → IsCapped caps desk.books
      → IsCapped caps (place_built caps desk id built).desk.books
  place_built-IsCapped caps desk id none capped = capped
  place_built-IsCapped caps desk id (some p) capped = place-IsCapped caps desk id p _ refl capped

  -- An entry keeps the caps, whether it opens a book or is refused.
  pub open_in_book-IsCapped :
      (services : Services F) (caps : Caps) (ex : Execution F) (rec : Reconciliation)
      (cycle : Option String) (desk : Desk F)
      → IsCapped caps desk.books
      → IsCapped caps (open_in_book services caps true ex rec cycle desk).desk.books
  unfolding open_in_book
  open_in_book-IsCapped services caps ex rec cycle desk =
      place_built-IsCapped caps desk (book_id_for ex) (build_position services ex rec cycle)

  abbrev pub Untouched : Desk F → Opened F → Type 0
  Untouched desk r = (r.refused ≡ none → ⊥) → (r.desk ≡ desk) × (r.position ≡ none)

  place-Untouched :
      (desk : Desk F) (id : String) (p : Position F) (refused : Option Refusal)
      → Untouched desk (place desk id p refused)
  place-Untouched desk id p (some r) h = (refl, refl)
  place-Untouched desk id p none h = absurd (h refl)

  -- A refused entry changes neither the books nor the single slot, and returns no position.
  open_in_book_refused :
      (services : Services F) (caps : Caps) (ex : Execution F) (rec : Reconciliation)
      (cycle : Option String) (desk : Desk F)
      → let r = open_in_book services caps true ex rec cycle desk in
        r.refused ≢ none → (r.desk ≡ desk) × (r.position ≡ none)
  unfolding open_in_book
  open_in_book_refused services caps ex rec cycle desk = go (build_position services ex rec cycle)
    where
      go :
          (built : Option (Position F))
          → Untouched desk (place_built caps desk (book_id_for ex) built)
      go none h = (refl, refl)
      go (some p) h = place-Untouched desk (book_id_for ex) p _ h
