-- ===== src/Live/Trace.antt =====
-- What the trace of a live cycle says: the position file that it leaves, and the write-ahead
-- discipline (live_position_kernel.py).
use crypto_ai_system.Common.{String, some, List, [], ◌∷◌, ◌++◌, ◌≡◌, refl, ◌∙◌, ap}
use crypto_ai_system.Ledger.{LiveOutcome, Ledger}
use crypto_ai_system.Live.Model.{
  Position, Slot, closed, opened, CloseIntent, Effect, saved, cleared, submitted, queried, recorded,
  World, save, note, clear,
}

module _ {F : Type 0} where
  -- The position file after a sequence of effects.
  abbrev pub disk : Slot F → List (Effect F) → Slot F
  disk slot [] = slot
  disk slot (saved p ∷ rest) = disk (opened p) rest
  disk slot (cleared ∷ rest) = disk closed rest
  disk slot (_ ∷ rest) = disk slot rest

  -- The file holds an open position that waits for this close order.
  abbrev pub Notes : Slot F → CloseIntent F → Type 0
  Notes (opened p) i = p.close_client_order_id ≡ some i.client_order_id
  Notes _ i = ⊥

  -- Each submission in the sequence finds its note on disk.
  abbrev pub IsWriteAhead : Slot F → List (Effect F) → Type 0
  IsWriteAhead slot [] = Unit
  IsWriteAhead slot (saved p ∷ rest) = IsWriteAhead (opened p) rest
  IsWriteAhead slot (cleared ∷ rest) = IsWriteAhead closed rest
  IsWriteAhead slot (submitted i ∷ rest) = Notes slot i × IsWriteAhead slot rest
  IsWriteAhead slot (_ ∷ rest) = IsWriteAhead slot rest

  disk-append :
      (slot : Slot F) (xs ys : List (Effect F)) → disk slot (xs ++ ys) ≡ disk (disk slot xs) ys
  disk-append slot [] ys = refl
  disk-append slot (saved p ∷ rest) ys = disk-append (opened p) rest ys
  disk-append slot (cleared ∷ rest) ys = disk-append closed rest ys
  disk-append slot (submitted i ∷ rest) ys = disk-append slot rest ys
  disk-append slot (queried a b ∷ rest) ys = disk-append slot rest ys
  disk-append slot (recorded o ∷ rest) ys = disk-append slot rest ys

  IsWriteAhead-append :
      (slot : Slot F) (xs ys : List (Effect F))
      → IsWriteAhead slot xs
      → IsWriteAhead (disk slot xs) ys
      → IsWriteAhead slot (xs ++ ys)
  IsWriteAhead-append slot [] ys hx hy = hy
  IsWriteAhead-append slot (saved p ∷ rest) ys hx hy = IsWriteAhead-append (opened p) rest ys hx hy
  IsWriteAhead-append slot (cleared ∷ rest) ys hx hy = IsWriteAhead-append closed rest ys hx hy
  IsWriteAhead-append slot (submitted i ∷ rest) ys hx hy =
      (hx.0, IsWriteAhead-append slot rest ys hx.1 hy)
  IsWriteAhead-append slot (queried a b ∷ rest) ys hx hy = IsWriteAhead-append slot rest ys hx hy
  IsWriteAhead-append slot (recorded o ∷ rest) ys hx hy = IsWriteAhead-append slot rest ys hx hy

  -- The world's trace explains its position file, and is write-ahead.
  pub record IsLogged (start : Slot F) (w : World F) : Type 0 where
    pub replayed : disk start w.trace ≡ w.slot
    pub ahead : IsWriteAhead start w.trace

  module _ (start : Slot F) where
    IsLogged-append :
        (w : World F) (e : Effect F) (slot : Slot F) (ledger : Ledger F)
        → disk w.slot (e ∷ []) ≡ slot
        → IsWriteAhead w.slot (e ∷ [])
        → IsLogged start w
        → IsLogged start (record { slot = slot; ledger = ledger; trace = w.trace ++ e ∷ [] })
    IsLogged-append w e slot ledger next ahead h = record {
      replayed = disk-append start w.trace (e ∷ []) ∙ ap (λ s. disk s (e ∷ [])) h.replayed ∙ next;
      ahead = IsWriteAhead-append start w.trace (e ∷ []) h.ahead (rw (h.replayed) ahead);
    }

    pub save-IsLogged :
        (p : Position F) (w : World F) → IsLogged start w → IsLogged start (save p w)
    save-IsLogged p w = IsLogged-append w (saved p) (opened p) w.ledger refl tt

    pub queried-IsLogged :
        (a b : String) (w : World F) → IsLogged start w → IsLogged start (note (queried a b) w)
    queried-IsLogged a b w = IsLogged-append w (queried a b) w.slot w.ledger refl tt

    pub submitted-IsLogged :
        (i : CloseIntent F) (p : Position F) (w : World F)
        → p.close_client_order_id ≡ some i.client_order_id
        → IsLogged start (save p w)
        → IsLogged start (note (submitted i) (save p w))
    submitted-IsLogged i p w noted =
        IsLogged-append (save p w) (submitted i) (opened p) w.ledger refl (noted, tt)

    pub closing-IsLogged :
        (o : LiveOutcome F) (ledger : Ledger F) (w : World F)
        → IsLogged start w
        → IsLogged start (clear (note (recorded o) (record w { ledger = ledger })))
    closing-IsLogged o ledger w h =
        let w' = note (recorded o) (record w { ledger = ledger }) in
        IsLogged-append w' cleared closed ledger refl tt
          (IsLogged-append w (recorded o) w.slot ledger refl tt h)
