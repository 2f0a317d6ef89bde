-- ===== src/Paper/Settle.antt =====
-- The candle count, the exit decision and the settlement of paper_position_kernel.py.
use crypto_ai_system.Common.{
  ℕ, ◌+◌, String, Bool, true, Option, none, some, get_or, List, [], ◌∷◌, ◌++◌, leb, str_eq,
  if◌then◌else◌,
}
use crypto_ai_system.Float.{Float, positive, to_float}
use crypto_ai_system.Common.Int.{negsuc}
use crypto_ai_system.Trade.{
  Direction, Reason, manual_exit, stop_loss, take_profit, time_exit, Candle, Plan, max_hold_bars,
  result_r,
}
use crypto_ai_system.Paper.Model.{
  Exit, Outcome, Position, Services, Settled, Slot, Summary, closed, load_open, opened,
  regime_or_unknown,
}

module _ {F : Type 0} ⦃f : Float F⦄ where
  -- `_advance_holding`: one count for each distinct candle.
  unfoldable pub advance_holding : Plan F → Option (Candle F) → Plan F
  advance_holding plan none = record plan { holding_candles = plan.holding_candles + 1 }
  advance_holding plan (some c) = elim c.timestamp [
    | none ↦ record plan { holding_candles = plan.holding_candles + 1 }
    | some ts ↦ if str_eq ts (get_or plan.last_counted_candle_ts "") then plan else record plan {
      holding_candles = plan.holding_candles + 1;
      last_counted_candle_ts = some ts;
    }
  ]

  -- The intrabar part of `settle_trade_plan`: the stop is looked at before the target.
  unfoldable pub intrabar_exit : Plan F → Candle F → Option (Exit F)
  intrabar_exit plan c =
      let high = to_float c.high in
      let low = to_float c.low in
      let stopped : Exit F = record {
        reason = stop_loss;
        exit_price = plan.stop_loss;
        result_R = f.of_int (negsuc 0);
      } in
      if positive plan.risk
      then elim plan.direction [
        | Direction.long ↦
            (if f.le low plan.stop_loss
              then some stopped
              else if f.le plan.take_profit high
              then some (record {
                reason = take_profit;
                exit_price = plan.take_profit;
                result_R = f.div (f.sub plan.take_profit plan.entry_price) plan.risk;
              })
              else none)
        | Direction.short ↦
            (if f.le plan.stop_loss high
              then some stopped
              else if f.le low plan.take_profit
              then some (record {
                reason = take_profit;
                exit_price = plan.take_profit;
                result_R = f.div (f.sub plan.entry_price plan.take_profit) plan.risk;
              })
              else none)
      ]
      else none

  -- An exit at the last close.
  unfoldable pub exit_at_close : Plan F → Reason → F → Exit F
  exit_at_close plan reason close = record {
    reason = reason;
    exit_price = close;
    result_R = result_r plan.direction plan.entry_price close plan.risk;
  }

  -- The time exit, on the plan that has counted this candle.
  unfoldable pub timed_exit : Plan F → Option F → ℕ → Option (Exit F)
  timed_exit plan none max_hold = none
  timed_exit plan (some close) max_hold =
      if leb max_hold plan.holding_candles then some (exit_at_close plan time_exit close) else none

  unfoldable pub candle_exit : Plan F → Option (Candle F) → Option (Exit F)
  candle_exit plan none = none
  candle_exit plan (some c) = intrabar_exit plan c

  abbrev pub first_exit : Option (Exit F) → Option (Exit F) → Option (Exit F)
  first_exit (some e) later = some e
  first_exit none later = later

  -- The part of `settle_trade_plan` after the manual exit.
  unfoldable pub settle_by_market :
      Plan F → Option (Candle F) → Option F → ℕ → Plan F × Option (Exit F)
  unfolding candle_exit timed_exit exit_at_close
  settle_by_market plan candle last_close max_hold =
      let counted = advance_holding plan candle in
      (counted, first_exit (candle_exit plan candle) (timed_exit counted last_close max_hold))

  -- `settle_trade_plan`: the plan with its candles counted, and the exit of this cycle if any.
  unfoldable pub settle_trade_plan :
      Plan F → Option (Candle F) → Option F → ℕ → Bool → Plan F × Option (Exit F)
  unfolding exit_at_close settle_by_market
  settle_trade_plan plan candle (some close) max_hold true =
      (plan, some (exit_at_close plan manual_exit close))
  settle_trade_plan plan candle last_close max_hold manual =
      settle_by_market plan candle last_close max_hold

  -- The outcome of a close, as it is handed to the analytics.
  unfoldable pub outcome_of : Position F → Exit F → Option String → Option String → Outcome F
  unfolding regime_or_unknown
  outcome_of p e regime book = record {
    reconciliation = p.entry_reconciliation;
    context = record {
      exit_price = e.exit_price;
      result_R = f.round 8 e.result_R;
      close_reason = e.reason;
      regime = regime_or_unknown regime;
      book_id = book;
    };
  }

  -- The summary of a close.
  unfoldable pub summary_of :
      Services F → Position F → Exit F → Option String → Option String → Summary F
  unfolding outcome_of
  summary_of services p e regime book =
      let (outcome_id, outcome_status) = services.analyze (outcome_of p e regime book) in
      record {
        book_id = book;
        position = p;
        close_reason = e.reason;
        exit_price = e.exit_price;
        result_R = f.round 8 e.result_R;
        outcome_id = outcome_id;
        outcome_status = outcome_status;
      }

  -- The end of `settle_open_position`, once the exit of the cycle is decided.
  unfoldable pub finish_settlement :
      Services F
      → Position F
      → Option F
      → Option String
      → List (Outcome F)
      → Plan F × Option (Exit F)
      → Settled F
  unfolding outcome_of summary_of
  finish_settlement services p last_close regime outcomes (counted, none) = record {
    slot = opened (record p { plan = counted; last_seen_price = last_close });
    outcomes = outcomes;
    summary = none;
  }
  finish_settlement services p last_close regime outcomes (counted, some e) = record {
    slot = closed;
    outcomes = outcomes ++ outcome_of p e regime none ∷ [];
    summary = some (summary_of services (record p { plan = counted }) e regime none);
  }

  -- `settle_open_position`
  unfoldable pub settle_open_position :
      Services F
      → Option (Candle F)
      → Option F
      → Bool
      → String
      → Option String
      → Slot F
      → List (Outcome F)
      → Settled F
  unfolding load_open finish_settlement max_hold_bars settle_trade_plan
  settle_open_position services candle last_close manual timeframe regime slot outcomes =
      elim (load_open slot) [
        | none ↦ record { slot = slot; outcomes = outcomes; summary = none }
        | some p ↦
            finish_settlement services p last_close regime outcomes
              (settle_trade_plan p.plan candle last_close (max_hold_bars timeframe) manual)
      ]
