-- ===== src/Live/Signal.antt =====
-- The exit decision of live_position_kernel.py: the kernel decides the reason alone, since the price
-- is that of the close fill.
use crypto_ai_system.Common.{
  ℕ, ◌+◌, String, Bool, true, Option, none, some, get_or, leb, str_eq, if◌then◌else◌,
}
use crypto_ai_system.Float.{Float, to_float, positive}
use crypto_ai_system.Trade.{
  Direction, Reason, manual_exit, stop_loss, take_profit, time_exit, Candle, Plan,
}

module _ {F : Type 0} ⦃f : Float F⦄ where
  abbrev count_candle : Plan F → Option String → Plan F
  count_candle plan none = record plan { holding_candles = plan.holding_candles + 1 }
  count_candle plan (some ts) =
      if str_eq ts (get_or plan.last_counted_candle_ts "") then plan else record plan {
        holding_candles = plan.holding_candles + 1;
        last_counted_candle_ts = some ts;
      }

  -- `_advance_holding`
  unfoldable pub advance_holding : Plan F → Option (Candle F) → Plan F
  advance_holding plan none = count_candle plan none
  advance_holding plan (some c) = count_candle plan c.timestamp

  -- The stop and target tests of `_exit_signal`.
  unfoldable pub level_hit : Plan F → F → F → Option Reason
  level_hit plan high low = elim plan.direction [
    | Direction.long ↦
        (if f.le low plan.stop_loss
          then some stop_loss
          else if f.le plan.take_profit high
          then some take_profit
          else none)
    | Direction.short ↦
        (if f.le plan.stop_loss high
          then some stop_loss
          else if f.le low plan.take_profit
          then some take_profit
          else none)
  ]

  abbrev pub or_time : Plan F → Option F → ℕ → Option Reason → Option Reason
  or_time plan last_close max_hold (some r) = some r
  or_time plan none max_hold none = none
  or_time plan (some close) max_hold none =
      if leb max_hold plan.holding_candles then some time_exit else none

  unfoldable pub candle_hit : Plan F → Option (Candle F) → Option Reason
  unfolding level_hit
  candle_hit plan none = none
  candle_hit plan (some c) =
      if positive plan.risk then level_hit plan (to_float c.high) (to_float c.low) else none

  abbrev pub market_signal : Plan F → Option (Candle F) → Option F → ℕ → Plan F × Option Reason
  market_signal plan candle last_close max_hold =
      let counted = advance_holding plan candle in
      (counted, or_time counted last_close max_hold (candle_hit plan candle))

  -- `_exit_signal`: the plan with its candles counted, and the reason to exit if any.
  unfoldable pub exit_signal :
      Plan F → Option (Candle F) → Option F → ℕ → Bool → Plan F × Option Reason
  exit_signal plan candle (some close) max_hold true = (plan, some manual_exit)
  exit_signal plan candle last_close max_hold manual = market_signal plan candle last_close max_hold
