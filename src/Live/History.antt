-- ===== src/Live/History.antt =====
-- The worlds that live entries and cycles of live_position_kernel.py reach.
use crypto_ai_system.Common.{String, Bool, Option, List, [], ◌∷◌, ◌++◌, ◌≡◌, refl}
use crypto_ai_system.Float.{Float}
use crypto_ai_system.Trade.{Candle}
use crypto_ai_system.Ledger.{Ledger}
use crypto_ai_system.Live.Model.{
  Slot, CloseIntent, Effect, saved, cleared, submitted, queried, recorded, Venue, Services, World,
}
use crypto_ai_system.Live.Orders.{EntryResult, EntryFill, open_from_live_execution}
use crypto_ai_system.Live.Cycle.{settle_open_live_position}
use crypto_ai_system.Live.Trace.{disk, Notes, IsWriteAhead, IsLogged}
use crypto_ai_system.Live.WriteAhead.{
  settle_open_live_position-IsLogged, open_from_live_execution-IsLogged,
}

module _ {F : Type 0} ⦃f : Float F⦄ where
  -- An entry, or a cycle; with any clock, venue, candle and prices.
  pub data Step (w : World F) : World F → Type 0 where
    enter :
        (services : Services F) (r : EntryResult F) (fill : EntryFill F) (cycle : Option String)
        → Step w (open_from_live_execution services r fill cycle w).0
    settle :
        (services : Services F) (regime : Option String) (venue : Venue F)
        (candle : Option (Candle F)) (last_close : Option F) (manual : Bool) (timeframe : String)
        → Step w
            (settle_open_live_position services regime venue candle last_close manual timeframe w).0

  pub data Reach (start : World F) : World F → Type 0 where
    here : Reach start start
    next : {v w : World F} → Reach start v → Step v w → Reach start w

  abbrev pub begin : Slot F → Ledger F → World F
  begin slot ledger = record { slot = slot; ledger = ledger; trace = [] }

  Reach-IsLogged :
      (slot : Slot F) (ledger : Ledger F) {w : World F}
      → Reach (begin slot ledger) w
      → IsLogged slot w
  Reach-IsLogged slot ledger here = record { replayed = refl; ahead = tt }
  Reach-IsLogged slot ledger (next {v = v} h (enter services r fill cycle)) =
      open_from_live_execution-IsLogged slot services r fill cycle v (Reach-IsLogged slot ledger h)
  Reach-IsLogged slot ledger
        (next {v = v} h (settle services regime venue candle last_close manual timeframe)) =
      settle_open_live_position-IsLogged slot services regime venue candle last_close manual
        timeframe v (Reach-IsLogged slot ledger h)

  IsWriteAhead-at :
      (slot : Slot F) (before after : List (Effect F)) (i : CloseIntent F)
      → IsWriteAhead slot (before ++ submitted i ∷ after)
      → Notes (disk slot before) i
  IsWriteAhead-at slot [] after i h = h.0
  IsWriteAhead-at slot (saved p ∷ rest) after i h = IsWriteAhead-at (Slot.opened p) rest after i h
  IsWriteAhead-at slot (cleared ∷ rest) after i h = IsWriteAhead-at Slot.closed rest after i h
  IsWriteAhead-at slot (submitted j ∷ rest) after i h = IsWriteAhead-at slot rest after i h.1
  IsWriteAhead-at slot (queried a b ∷ rest) after i h = IsWriteAhead-at slot rest after i h
  IsWriteAhead-at slot (recorded o ∷ rest) after i h = IsWriteAhead-at slot rest after i h

  -- In every history, from any position file: the file is what the trace has written, and whenever
  -- a close order was submitted the file held an open position that waits for that very order, so
  -- that a crash right there leaves a close that the next cycle queries.
  pub Reach-write_ahead :
      (slot : Slot F) (ledger : Ledger F) {w : World F} (before after : List (Effect F))
      (i : CloseIntent F)
      → Reach (begin slot ledger) w
      → w.trace ≡ before ++ submitted i ∷ after
      → (disk slot w.trace ≡ w.slot) × Notes (disk slot before) i
  Reach-write_ahead slot ledger {w} before after i h e =
      let logged = Reach-IsLogged slot ledger h in
      (logged.replayed, IsWriteAhead-at slot before after i (rw e at logged.ahead))
