-- ===== src/Live/WriteAhead.antt =====
-- The write-ahead discipline of live_position_kernel.py: whenever a close order is submitted, the
-- position file already holds its identifier, so a crash at that point loses no close.
use crypto_ai_system.Common.{
  String, Bool, true, false, not, Option, none, some, refl, ◌||◌, ◌&&◌, if◌then◌else◌,
}
use crypto_ai_system.Float.{Float, nought, positive, to_float}
use crypto_ai_system.Trade.{Reason, Candle, Plan, is_filled, max_hold_bars}
use crypto_ai_system.Ledger.{LiveOutcome, Ledger}
use crypto_ai_system.Live.Model.{
  Position, Slot, CloseResult, Query, Venue, Services, World, Settlement, Report, load_open, save,
  str_of,
}
use crypto_ai_system.Live.Orders.{
  EntryResult, EntryFill, is_opening, open_from_live_execution, close_intent, is_dead,
  is_unknown_order,
}
use crypto_ai_system.Live.Signal.{exit_signal}
use crypto_ai_system.Live.Close.{
  Pending, decided, free, finish_close, settle_from_fill, resolve_known, resolve_missing,
  resolve_id, resolve_pending_close, pending_id,
}
use crypto_ai_system.Live.Cycle.{
  confirm, after_submit, pending_close, close_order, act, proceed, settle_slot,
  settle_open_live_position,
}
use crypto_ai_system.Live.Trace.{
  IsLogged, save-IsLogged, queried-IsLogged, submitted-IsLogged, closing-IsLogged,
}

if-holds {ℓ κ} :
    {A : Type ℓ} (P : A → Type κ) (b : Bool) (x y : A) → P x → P y → P (if b then x else y)
if-holds P true x y hx hy = hx
if-holds P false x y hx hy = hy

module _ {F : Type 0} ⦃f : Float F⦄ (start : Slot F) where
  abbrev Logged : World F × Report F → Type 0
  Logged x = IsLogged start x.0

  abbrev PendingLogged : Pending F → Type 0
  PendingLogged (decided w r) = IsLogged start w
  PendingLogged (free w p) = IsLogged start w

  module _ (services : Services F) (regime : Option String) (venue : Venue F) where
    finish_close-Logged :
        (w : World F) (row : LiveOutcome F) (s : Settlement F) (ledger : Option (Ledger F))
        → IsLogged start w
        → Logged (finish_close services regime w row s ledger)
    finish_close-Logged w row s none h = h
    finish_close-Logged w row s (some ledger) h = closing-IsLogged start row ledger w h

    settle_from_fill-Logged :
        (p : Position F) (reason : Reason) (price qty : F) (order : Option String) (w : World F)
        → IsLogged start w
        → Logged (settle_from_fill services regime p reason price qty order w)
    unfolding settle_from_fill
    settle_from_fill-Logged p reason price qty order w h = finish_close-Logged w _ _ _ h

    resolve_known-Logged :
        (p : Position F) (reason : Reason) (q : Query F) (w : World F)
        → IsLogged start w
        → PendingLogged (resolve_known services regime p reason q w)
    unfolding resolve_known
    resolve_known-Logged p reason q w h =
        if-holds PendingLogged (is_filled q.status && positive (to_float q.avg_price)) _ _
          (settle_from_fill-Logged p reason (to_float q.avg_price) (to_float q.executed_qty)
            q.order_id w h)
          (if-holds PendingLogged (is_dead q.status) _ _ (save-IsLogged start _ w h)
            (save-IsLogged start _ w h))

    resolve_missing-Logged :
        (p : Position F) (reason : Reason) (q : Query F) (w : World F)
        → IsLogged start w
        → PendingLogged (resolve_missing services regime p reason q w)
    unfolding resolve_missing
    resolve_missing-Logged p reason q w h =
        if-holds PendingLogged (is_unknown_order q.error_code) _ _ (save-IsLogged start _ w h)
          (save-IsLogged start _ w h)

    resolve_id-Logged :
        (p : Position F) (w : World F) (id : Option String)
        → IsLogged start w
        → PendingLogged (resolve_id services regime venue p w id)
    unfolding resolve_id
    resolve_id-Logged p w none h = h
    resolve_id-Logged p w (some id) h =
        let q = venue.query_order w.trace (str_of p.symbol) id in
        let asked = queried-IsLogged start (str_of p.symbol) id w h in
        if-holds PendingLogged q.ok _ _ (resolve_known-Logged p _ q _ asked)
          (resolve_missing-Logged p _ q _ asked)

    confirm-Logged :
        (p : Position F) (reason : Reason) (r : CloseResult) (q : Query F) (w : World F)
        → IsLogged start w
        → Logged (confirm services regime venue p reason r q w)
    unfolding confirm
    confirm-Logged p reason r q w h =
        if-holds Logged (not (is_filled q.status) || f.le (to_float q.avg_price) nought) _ _
          (save-IsLogged start _ w h)
          (settle_from_fill-Logged p reason (to_float q.avg_price) (to_float q.executed_qty)
            r.exchange_order_id w h)

    after_submit-Logged :
        (p : Position F) (reason : Reason) (r : CloseResult) (w : World F)
        → IsLogged start w
        → Logged (after_submit services regime venue p reason r w)
    unfolding after_submit
    after_submit-Logged p reason r w h =
        let id = str_of r.client_order_id in
        if-holds Logged r.external_order_submission_performed _ _
          (confirm-Logged p reason r (venue.query_order w.trace (str_of p.symbol) id) _
            (queried-IsLogged start (str_of p.symbol) id w h))
          (save-IsLogged start _ w h)

    close_order-Logged :
        (p : Position F) (reason : Reason) (last_close : Option F) (w : World F)
        → IsLogged start w
        → Logged (close_order services regime venue p reason last_close w)
    unfolding close_order
    close_order-Logged p reason last_close w h =
        let i = close_intent services p reason last_close in
        let q = pending_close services regime venue p reason i in
        after_submit-Logged q reason (venue.submit_close (save q w).trace i) _
          (submitted-IsLogged start i q w refl (save-IsLogged start q w h))

    module _ (candle : Option (Candle F)) (last_close : Option F) (manual : Bool)
        (timeframe : String) where
      act-Logged :
          (p : Position F) (w : World F) (decision : Plan F × Option Reason)
          → IsLogged start w
          → Logged (act services regime venue candle last_close manual timeframe p w decision)
      unfolding act
      act-Logged p w (counted, none) h = save-IsLogged start _ w h
      act-Logged p w (counted, some reason) h =
          close_order-Logged (record p { plan = counted }) reason last_close w h

      proceed-Logged :
          (pending : Pending F)
          → PendingLogged pending
          → Logged (proceed services regime venue candle last_close manual timeframe pending)
      unfolding proceed
      proceed-Logged (decided w r) h = h
      proceed-Logged (free w p) h =
          act-Logged p w (exit_signal p.plan candle last_close (max_hold_bars timeframe) manual) h

      settle_slot-Logged :
          (w : World F) (p : Option (Position F))
          → IsLogged start w
          → Logged (settle_slot services regime venue candle last_close manual timeframe w p)
      unfolding settle_slot resolve_pending_close
      settle_slot-Logged w none h = h
      settle_slot-Logged w (some p) h =
          proceed-Logged _ (resolve_id-Logged p w (pending_id services regime p) h)

      -- One cycle keeps the world logged.
      pub settle_open_live_position-IsLogged :
          (w : World F)
          → IsLogged start w
          → IsLogged start
              (settle_open_live_position services regime venue candle last_close manual timeframe
                w).0
      unfolding settle_open_live_position
      settle_open_live_position-IsLogged w h = settle_slot-Logged w (load_open w.slot) h

  abbrev EntryLogged : World F × Option (Position F) → Type 0
  EntryLogged x = IsLogged start x.0

  pub open_from_live_execution-IsLogged :
      (services : Services F) (r : EntryResult F) (fill : EntryFill F) (cycle : Option String)
      (w : World F)
      → IsLogged start w
      → IsLogged start (open_from_live_execution services r fill cycle w).0
  unfolding open_from_live_execution
  open_from_live_execution-IsLogged services r fill cycle w h =
      if-holds EntryLogged (is_opening r fill) _ _ (save-IsLogged start _ w h) h
