-- ===== src/Trade.antt =====
-- What the paper and the live position kernels share: the trade plan of a position, the candle that
-- it is judged by, and the numbers of an exit
-- (src/crypto_ai_system/execution/paper_position_kernel.py and live_position_kernel.py).
use crypto_ai_system.Common.{
  ℕ, String, Bool, true, false, Option, none, some, List, str_eq, if◌then◌else◌,
}
use crypto_ai_system.Float.{Float, Scalar, nought, positive}

-- The two values of `direction` that an intent of this system carries.
pub data Direction : Type 0 where
  long short : Direction

pub data Side : Type 0 where
  buy sell : Side

pub data Reason : Type 0 where
  manual_exit stop_loss take_profit time_exit : Reason

-- The order statuses that the kernels name; any other text of the venue is `other`.
pub data OrderStatus : Type 0 where
  filled partially_filled canceled rejected expired : OrderStatus
  other : String → OrderStatus

pub record Candle (F : Type 0) : Type 0 where
  pub timestamp : Option String
  pub high : Scalar F
  pub low : Scalar F

-- The fields of a position that its exit is decided by.
pub record Plan (F : Type 0) : Type 0 where
  pub direction : Direction
  pub entry_price : F
  pub stop_loss : F
  pub take_profit : F
  pub risk : F
  pub holding_candles : ℕ
  pub last_counted_candle_ts : Option String

-- The strategy attribution that rides from the intent to the outcome.
pub record Attribution : Type 0 where
  pub strategy_id : Option String
  pub supporting_strategy_ids : List String
  pub strategy_entry_evaluation_id : Option String
  pub strategy_rule_hash : Option String
  pub strategy_generation_id : Option String

-- The order intent of an entry.
pub record Intent (F : Type 0) : Type 0 where
  pub symbol : Option String
  pub direction : Option Direction
  pub side : Option Side
  pub entry_price : Scalar F
  pub quantity : Scalar F
  pub stop_loss : Scalar F
  pub take_profit : Scalar F
  pub attribution : Attribution
  pub research_signal_id : Option String
  pub decision_id : Option String
  pub risk_gate_id : Option String
  pub order_intent_id : Option String

-- `_FILLED`
unfoldable pub is_filled : Option OrderStatus → Bool
is_filled (some OrderStatus.filled) = true
is_filled (some OrderStatus.partially_filled) = true
is_filled _ = false

-- `intent.get("direction") or ("LONG" if side == "BUY" else "SHORT")`
unfoldable pub entry_direction : Option Direction → Option Side → Direction
entry_direction (some d) side = d
entry_direction none (some Side.buy) = Direction.long
entry_direction none _ = Direction.short

-- The research bridge's pseudo-strategy is no strategy.
unfoldable pub driving_strategy : Option String → Option String
driving_strategy none = none
driving_strategy (some id) = if str_eq id "research_bridge_v2" then none else some id

-- `a or b` on two optional identifiers: an empty text counts as missing.
unfoldable pub first_id : Option String → Option String → Option String
first_id none b = b
first_id (some a) b = if str_eq a "" then b else some a

-- `MAX_HOLD_BARS.get(timeframe, DEFAULT_MAX_HOLD_BARS)`
unfoldable pub max_hold_bars : String → ℕ
max_hold_bars timeframe =
    if str_eq timeframe "15m"
    then 96
    else if str_eq timeframe "1h"
    then 48
    else if str_eq timeframe "4h"
    then 30
    else 48

unfoldable pub direction_eq : Direction → Direction → Bool
direction_eq Direction.long Direction.long = true
direction_eq Direction.short Direction.short = true
direction_eq _ _ = false

module _ {F : Type 0} ⦃f : Float F⦄ where
  -- The signed move of the price in the position's favour.
  unfoldable pub favourable_move : Direction → F → F → F
  favourable_move Direction.long entry exit_price = f.sub exit_price entry
  favourable_move Direction.short entry exit_price = f.sub entry exit_price

  -- `_result_r`
  unfoldable pub result_r : Direction → F → F → F → F
  unfolding favourable_move
  result_r d entry exit_price risk =
      if f.le risk nought then nought else f.div (favourable_move d entry exit_price) risk

  -- `abs(entry - sl) if sl > 0 else 0.0`
  unfoldable pub entry_risk : F → F → F
  entry_risk entry sl = if positive sl then f.abs (f.sub entry sl) else nought
