-- ===== src/Backtest/WalkForward.antt =====
-- The walk-forward evaluation of a strategy (src/crypto_ai_system/backtesting/walk_forward.py).
use crypto_ai_system.Common.{
  ℕ, ◌-◌, String, Bool, true, false, Option, none, some, List, [], ◌∷◌, ltb, leb, length, count,
  map, concat, take, drop, if◌then◌else◌,
}
use crypto_ai_system.Common.Int.{pos}
use crypto_ai_system.Float.{Float, Scalar, null, text, num, nought, positive}
use crypto_ai_system.Trade.{Direction}
use crypto_ai_system.Rules.{Row}
use crypto_ai_system.Backtest.Metrics.{Report, compute_backtest_metrics, sum, size, square}
use crypto_ai_system.Backtest.Metrics
use crypto_ai_system.Backtest.Simulator.{Trade, Setup, simulate_strategy}
use crypto_ai_system.Backtest.Split.{split_windows}

pub record Window (F : Type 0) : Type 0 where
  pub start : ℕ
  pub end : ℕ
  pub trade_count : ℕ
  pub expectancy_r : Option F
  pub total_net_r : F

pub record WalkForward (F : Type 0) : Type 0 where
  pub windows : List (Window F)
  pub windows_with_trades : ℕ
  pub walk_forward_pass_rate : Option F
  pub temporal_stability : Option F

abbrev is_long : Direction → Bool
is_long Direction.long = true
is_long Direction.short = false

module _ {F : Type 0} ⦃f : Float F⦄ where
  unfoldable pub temporal_stability_of : List F → Option F
  temporal_stability_of expectancies =
      let mean_e = f.div (sum expectancies) (size expectancies) in
      let var = f.div (sum (map (λ x. square (f.sub x mean_e)) expectancies)) (size expectancies) in
      let one = f.of_int (pos 1) in
      if ltb (length expectancies) 2
      then none
      else if f.le mean_e nought
      then some nought
      else some (f.div one (f.add one (f.div (f.sqrt var) (f.abs mean_e))))

  -- `str(regime)`; `text_of` is Python's text of a number.
  abbrev regime_of : (F → String) → Scalar F → Option String
  regime_of text_of null = none
  regime_of text_of (text s) = some s
  regime_of text_of (num x) = some (text_of x)

  -- A simulated trade as the metrics read it.
  abbrev measured : (F → String) → Trade F → Metrics.Trade F
  measured text_of t = record {
    r_multiple = num t.r_multiple;
    side = some (is_long t.side);
    entry_regime = regime_of text_of t.entry_regime;
    fee_cost_r = t.fee_cost_r;
    slippage_cost_r = t.slippage_cost_r;
  }

  abbrev untraded : ℕ → ℕ → Window F
  untraded start end = record {
    start = start;
    end = end;
    trade_count = 0;
    expectancy_r = none;
    total_net_r = nought;
  }

  abbrev traded : ℕ → ℕ → Option (Report F) → Window F
  traded start end none = untraded start end
  traded start end (some report) = record {
    start = start;
    end = end;
    trade_count = report.trade_count;
    expectancy_r = report.expectancy_r;
    total_net_r = report.total_net_r;
  }

  -- One window; its results are numbers, so that the metrics raise nothing.
  unfoldable pub window_of : (F → String) → Setup F → List (Row F) → ℕ × ℕ → Window F
  unfolding simulate_strategy compute_backtest_metrics
  window_of text_of setup frame (start, end) =
      let rows = take (end - start) (drop start frame) in
      if ltb (length rows) 2
      then untraded start end
      else traded start end
          (compute_backtest_metrics (map (measured text_of) (simulate_strategy setup rows).trades))

  -- The expectancy of a window that has traded enough; one that is too short never counts, and has
  -- none.
  abbrev counted : ℕ → Window F → List F
  counted min_trades w = elim w.expectancy_r [
    | none ↦ []
    | some x ↦ if leb min_trades w.trade_count then x ∷ [] else []
  ]

  unfoldable pub run_walk_forward : (F → String) → Setup F → List (Row F) → ℕ → ℕ → WalkForward F
  unfolding window_of split_windows temporal_stability_of
  run_walk_forward text_of setup frame n_windows min_trades =
      let windows = map (window_of text_of setup frame) (split_windows (length frame) n_windows) in
      let traded_expectancies = concat (map (counted min_trades) windows) in
      record {
        windows = windows;
        windows_with_trades = length traded_expectancies;
        walk_forward_pass_rate =
            if ltb 0 (length traded_expectancies)
            then some (
                f.div (f.of_int (pos (count positive traded_expectancies)))
                  (size traded_expectancies))
            else none;
        temporal_stability = temporal_stability_of traded_expectancies;
      }
