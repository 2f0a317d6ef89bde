-- ===== src/Tests/Fixtures.antt =====
-- A trade on whole numbers that the runs share.
use crypto_ai_system.Common.{String, none, some, []}
use crypto_ai_system.Common.Int.{ℤ, pos}
use crypto_ai_system.Float.{num}
use crypto_ai_system.Trade.{Direction, Side, Candle, Plan, Attribution, Intent}

abbrev pub long_plan : Plan ℤ
long_plan = record {
  direction = Direction.long;
  entry_price = pos 100;
  stop_loss = pos 90;
  take_profit = pos 120;
  risk = pos 10;
  holding_candles = 0;
  last_counted_candle_ts = none;
}

abbrev pub candle_at : String → ℤ → ℤ → Candle ℤ
candle_at ts high low = record { timestamp = some ts; high = num high; low = num low }

abbrev pub flat_candle : Candle ℤ
flat_candle = candle_at "2026-01-01T00:00:00Z" (pos 105) (pos 95)

-- A candle that reaches the stop and the target.
abbrev pub wide_candle : Candle ℤ
wide_candle = candle_at "2026-01-01T01:00:00Z" (pos 125) (pos 85)

abbrev pub by_strategy : String → Attribution
by_strategy id = record {
  strategy_id = some id;
  supporting_strategy_ids = [];
  strategy_entry_evaluation_id = none;
  strategy_rule_hash = none;
  strategy_generation_id = none;
}

abbrev pub long_intent : String → Intent ℤ
long_intent id = record {
  symbol = some "BTCUSDT";
  direction = some Direction.long;
  side = some Side.buy;
  entry_price = num (pos 100);
  quantity = num (pos 2);
  stop_loss = num (pos 90);
  take_profit = num (pos 120);
  attribution = by_strategy id;
  research_signal_id = some "signal";
  decision_id = none;
  risk_gate_id = none;
  order_intent_id = none;
}
