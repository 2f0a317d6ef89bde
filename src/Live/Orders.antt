-- ===== src/Live/Orders.antt =====
-- The entry and the close order of live_position_kernel.py, on the world of `Live.Model`.
use crypto_ai_system.Common.{
  String, Bool, true, false, Option, none, some, ◌||◌, ◌&&◌, not, str_eq, ◌==◌, if◌then◌else◌,
}
use crypto_ai_system.Common.Int.{ℤ, pos, negsuc}
use crypto_ai_system.Float.{Float, Scalar, nought, positive, to_float, or_else}
use crypto_ai_system.Trade.{
  Direction, Side, Reason, OrderStatus, canceled, rejected, expired, Intent, is_filled,
  entry_direction, driving_strategy, entry_risk, favourable_move,
}
use crypto_ai_system.Live.Model.{Position, Slot, CloseIntent, Services, World, load_open, save}

-- The order result of a live entry, as far as the kernel reads it, and its reconciliation.
pub record EntryResult (F : Type 0) : Type 0 where
  pub external_order_submission_performed : Bool
  pub intent : Intent F
  pub client_order_id : Option String
  pub exchange_order_id : Option String

pub record EntryFill (F : Type 0) : Type 0 where
  pub status : Option String
  pub order_status : Option OrderStatus
  pub avg_fill_price : Scalar F
  pub executed_qty : Scalar F

abbrev is_reconciled : Option String → Bool
is_reconciled none = false
is_reconciled (some s) = str_eq s "RECONCILED"

-- `_CLOSE_DEAD`: the venue's word that a close will never fill.
unfoldable pub is_dead : Option OrderStatus → Bool
is_dead (some canceled) = true
is_dead (some rejected) = true
is_dead (some expired) = true
is_dead _ = false

-- The venue's word that an order never existed: error code -2013.
unfoldable pub is_unknown_order : Option ℤ → Bool
is_unknown_order none = false
is_unknown_order (some (pos n)) = false
is_unknown_order (some (negsuc n)) = n == 2012

unfoldable pub opposite : Direction → Direction
opposite Direction.long = Direction.short
opposite Direction.short = Direction.long

unfoldable pub closing_side : Direction → Side
closing_side Direction.long = Side.sell
closing_side Direction.short = Side.buy

abbrev pub opening_side : Direction → Side
opening_side Direction.long = Side.buy
opening_side Direction.short = Side.sell

module _ {F : Type 0} ⦃f : Float F⦄ where
  -- `_realized_pnl_usdt`
  unfoldable pub realized_pnl_usdt : Direction → F → F → F → F
  unfolding favourable_move
  realized_pnl_usdt d entry exit_price qty = f.mul (favourable_move d entry exit_price) qty

  -- `open_live_notional_usdt`
  unfoldable pub open_live_notional_usdt : Slot F → F
  unfolding load_open
  open_live_notional_usdt slot = elim (load_open slot) [
    | none ↦ nought
    | some p ↦ f.mul p.entry_price p.quantity
  ]

  -- The position that a fill opens.
  live_position : Services F → EntryResult F → Option String → F → F → Position F
  unfolding to_float entry_direction driving_strategy entry_risk
  live_position services r cycle_id entry qty =
      let i = r.intent in
      let sl = to_float i.stop_loss in
      record {
        plan = record {
          direction = entry_direction i.direction i.side;
          entry_price = entry;
          stop_loss = sl;
          take_profit = to_float i.take_profit;
          risk = entry_risk entry sl;
          holding_candles = 0;
          last_counted_candle_ts = none;
        };
        quantity = qty;
        opened_at_utc = services.now;
        cycle_id = cycle_id;
        symbol = i.symbol;
        entry_client_order_id = r.client_order_id;
        entry_exchange_order_id = r.exchange_order_id;
        research_signal_id = i.research_signal_id;
        decision_id = i.decision_id;
        risk_gate_id = i.risk_gate_id;
        order_intent_id = i.order_intent_id;
        attribution = record (i.attribution) {
          strategy_id = driving_strategy i.attribution.strategy_id;
        };
        position_id = services.position_hash r.exchange_order_id entry services.now;
        last_seen_price = none;
        close_client_order_id = none;
        close_reason_pending = none;
        close_attempt_status = none;
        close_attempt_failed_at_utc = none;
      }

  abbrev entry_fill_price : EntryResult F → EntryFill F → F
  entry_fill_price r fill = to_float (or_else fill.avg_fill_price r.intent.entry_price)

  abbrev entry_fill_qty : EntryResult F → EntryFill F → F
  entry_fill_qty r fill = to_float (or_else fill.executed_qty r.intent.quantity)

  -- The early returns of `open_from_live_execution` are all passed.
  unfoldable pub is_opening : EntryResult F → EntryFill F → Bool
  unfolding is_filled to_float or_else
  is_opening r fill =
      r.external_order_submission_performed
      && is_reconciled fill.status
      && is_filled fill.order_status
      && not (f.le (entry_fill_price r fill) nought || f.le (entry_fill_qty r fill) nought)

  -- `open_from_live_execution`
  unfoldable pub open_from_live_execution :
      Services F
      → EntryResult F
      → EntryFill F
      → Option String
      → World F
      → World F × Option (Position F)
  unfolding is_opening to_float or_else live_position
  open_from_live_execution services r fill cycle_id w =
      let p = live_position services r cycle_id (entry_fill_price r fill) (entry_fill_qty r fill) in
      if is_opening r fill then (save p w, some p) else (w, none)

  -- `_f(last_close or position.get("entry_price"))`
  abbrev reference_price : Position F → Option F → F
  reference_price p none = p.entry_price
  reference_price p (some c) = if f.eq c nought then p.entry_price else c

  -- `_close_intent`
  unfoldable pub close_intent : Services F → Position F → Reason → Option F → CloseIntent F
  unfolding opposite closing_side
  close_intent services p reason last_close =
      let price = reference_price p last_close in
      record {
        symbol = p.symbol;
        direction = opposite p.direction;
        side = closing_side p.direction;
        entry_price = price;
        quantity = p.quantity;
        order_notional_usdt = if positive price then f.round 2 (f.mul p.quantity price) else nought;
        reduce_only = true;
        close_reason = reason;
        position_id = p.position_id;
        risk_gate_id = p.risk_gate_id;
        client_order_id = services.close_order_id p.symbol (opposite p.direction) services.now;
      }
