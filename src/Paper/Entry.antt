-- ===== src/Paper/Entry.antt =====
-- The entry of paper_position_kernel.py.
use crypto_ai_system.Common.{
  String, Bool, not, ◌&&◌, is_some, ◌||◌, Option, none, some, if◌then◌else◌,
}
use crypto_ai_system.Float.{Float, nought, to_float, or_else}
use crypto_ai_system.Trade.{
  Direction, Plan, is_filled, entry_direction, driving_strategy, first_id, entry_risk,
}
use crypto_ai_system.Paper.Model.{
  Execution, Position, Reconciliation, Services, Slot, opened, load_open,
}

module _ {F : Type 0} ⦃f : Float F⦄ where
  -- The plan of a fresh position.
  new_plan : Direction → F → F → F → Plan F
  new_plan d entry sl tp = record {
    direction = d;
    entry_price = entry;
    stop_loss = sl;
    take_profit = tp;
    risk = entry_risk entry sl;
    holding_candles = 0;
    last_counted_candle_ts = none;
  }

  -- `build_position`
  unfoldable pub build_position :
      Services F → Execution F → Reconciliation → Option String → Option (Position F)
  unfolding is_filled to_float or_else entry_direction driving_strategy first_id entry_risk new_plan
  build_position services ex rec cycle_id =
      let i = ex.intent in
      let entry = to_float (or_else ex.avg_fill_price i.entry_price) in
      let qty = to_float (or_else ex.filled_quantity i.quantity) in
      let execution = first_id ex.execution_id rec.execution_id in
      if is_filled ex.fill_status
      then (if f.le entry nought || f.le qty nought
          then none
          else some (record {
            plan =
                new_plan (entry_direction i.direction i.side) entry (to_float i.stop_loss)
                  (to_float i.take_profit);
            quantity = qty;
            opened_at_utc = services.now;
            cycle_id = cycle_id;
            research_signal_id = first_id ex.research_signal_id rec.research_signal_id;
            decision_id = first_id ex.decision_id rec.decision_id;
            risk_gate_id = first_id ex.risk_gate_id rec.risk_gate_id;
            order_intent_id = first_id ex.order_intent_id rec.order_intent_id;
            execution_id = execution;
            reconciliation_id = rec.reconciliation_id;
            attribution = record (i.attribution) {
              strategy_id = driving_strategy i.attribution.strategy_id;
            };
            entry_reconciliation = rec;
            position_id = services.position_hash execution entry services.now;
            last_seen_price = none;
            book_id = none;
          }))
      else none

  abbrev pub opening : Option (Position F) → Slot F → Slot F × Option (Position F)
  opening none slot = (slot, none)
  opening (some p) slot = (opened p, some p)

  -- `open_from_execution`: the slot is written only for a position that was built.
  unfoldable pub open_from_execution :
      Services F
      → Execution F
      → Reconciliation
      → Option String
      → Slot F
      → Slot F × Option (Position F)
  open_from_execution services ex rec cycle_id slot =
      opening (build_position services ex rec cycle_id) slot

  -- `open_position_if_filled` (src/crypto_ai_system/pipeline/trading_steps/positions.py), for a paper
  -- cycle without books: no position is opened beside one that is open.
  unfoldable pub open_position_if_filled :
      Services F
      → Execution F
      → Reconciliation
      → Option String
      → Bool
      → Slot F
      → Slot F × Option (Position F)
  unfolding load_open open_from_execution
  open_position_if_filled services ex rec cycle_id order_filled slot =
      if order_filled && not (is_some (load_open slot))
      then open_from_execution services ex rec cycle_id slot
      else (slot, none)
