-- ===== src/Live/Cycle.antt =====
-- One cycle of live_position_kernel.py: `settle_open_live_position`.
use crypto_ai_system.Common.{String, Bool, Option, none, some, ◌||◌, not, if◌then◌else◌}
use crypto_ai_system.Float.{Float, nought, to_float}
use crypto_ai_system.Trade.{Reason, Candle, Plan, is_filled, max_hold_bars}
use crypto_ai_system.Live.Model.{
  close_fill_unconfirmed, submit_status, Position, CloseIntent, CloseResult, Query, submitted,
  queried, Venue, Services, World, Report, nothing, close_unconfirmed, close_failed, load_open,
  save, note, str_of,
}
use crypto_ai_system.Live.Signal.{exit_signal}
use crypto_ai_system.Live.Orders.{close_intent}
use crypto_ai_system.Live.Close.{
  Pending, decided, free, retire, settle_from_fill, resolve_pending_close,
}

module _ {F : Type 0} ⦃f : Float F⦄ (services : Services F) (regime : Option String)
    (venue : Venue F) where
  -- The close order did not reach the venue: its identifier is retired.
  abbrev pub failed : Position F → Reason → CloseResult → World F → World F × Report F
  failed p reason r w = (
    save
        (record (retire services regime p) {
          close_attempt_status = some (submit_status r.status);
          close_attempt_failed_at_utc = some services.now;
        })
        w,
    close_failed reason r.status,
  )

  -- The read-back of the close order, whatever the query says of its own success.
  unfoldable pub confirm :
      Position F → Reason → CloseResult → Query F → World F → World F × Report F
  unfolding is_filled settle_from_fill
  confirm p reason r q w =
      let price = to_float q.avg_price in
      let unconfirmed = record p {
        close_attempt_status = some (close_fill_unconfirmed q.status);
        close_attempt_failed_at_utc = some services.now;
      } in
      if not (is_filled q.status) || f.le price nought
      then (save unconfirmed w, close_unconfirmed reason q.status)
      else settle_from_fill services regime p reason price (to_float q.executed_qty)
          r.exchange_order_id w

  unfoldable pub after_submit : Position F → Reason → CloseResult → World F → World F × Report F
  after_submit p reason r w =
      let id = str_of r.client_order_id in
      if r.external_order_submission_performed
      then confirm p reason r (venue.query_order w.trace (str_of p.symbol) id)
          (note (queried (str_of p.symbol) id) w)
      else failed p reason r w

  -- The write-ahead note of a close.
  abbrev pub pending_close : Position F → Reason → CloseIntent F → Position F
  pending_close p reason i = record p {
    close_client_order_id = some i.client_order_id;
    close_reason_pending = some reason;
  }

  -- The close order: noted on disk, then submitted, then read back.
  unfoldable pub close_order : Position F → Reason → Option F → World F → World F × Report F
  unfolding close_intent after_submit
  close_order p reason last_close w =
      let i = close_intent services p reason last_close in
      let q = pending_close p reason i in
      let w' = save q w in
      after_submit q reason (venue.submit_close w'.trace i) (note (submitted i) w')

  module _ (candle : Option (Candle F)) (last_close : Option F) (manual : Bool)
      (timeframe : String) where
    unfoldable pub act : Position F → World F → Plan F × Option Reason → World F × Report F
    act p w (counted, none) =
        (save (record p { plan = counted; last_seen_price = last_close }) w, nothing)
    act p w (counted, some reason) = close_order (record p { plan = counted }) reason last_close w

    unfoldable pub proceed : Pending F → World F × Report F
    unfolding act
    proceed (decided w r) = (w, r)
    proceed (free w p) =
        act p w (exit_signal p.plan candle last_close (max_hold_bars timeframe) manual)

    unfoldable pub settle_slot : World F → Option (Position F) → World F × Report F
    unfolding proceed
    settle_slot w none = (w, nothing)
    settle_slot w (some p) = proceed (resolve_pending_close services regime venue p w)

    -- `settle_open_live_position`
    unfoldable pub settle_open_live_position : World F → World F × Report F
    unfolding load_open settle_slot
    settle_open_live_position w = settle_slot w (load_open w.slot)
