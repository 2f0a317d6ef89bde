-- ===== src/Backtest/Simulator.antt =====
-- The simulation of a strategy on a frame of bars
-- (src/crypto_ai_system/backtesting/execution_simulator.py). The loop over the bar numbers is a
-- recursion on the bars from the current one on.
use crypto_ai_system.Common.{
  ℕ, suc, ◌+◌, ◌-◌, Bool, false, Option, none, some, List, [], ◌∷◌, leb, get_or, if◌then◌else◌,
}
use crypto_ai_system.Float.{Float, Scalar, positive}
use crypto_ai_system.Trade.{Direction}
use crypto_ai_system.Rules.{StrategySpec, Row, evaluate_spec}
use crypto_ai_system.Backtest.Metrics.{as_float}
use crypto_ai_system.Backtest.Costs.{
  CostModel, entry, exit, fill_price, stop_price, target_price, size_position, settle_trade,
}

pub data ExitReason : Type 0 where
  target stop max_holding force_close : ExitReason

pub record Position (F : Type 0) : Type 0 where
  pub entry_bar : ℕ
  pub side : Direction
  pub entry_intended : F
  pub entry_fill : F
  pub stop : F
  pub target : F
  pub qty : F
  pub risk_amount : F
  pub entry_regime : Scalar F
  pub entry_timestamp : Scalar F

pub record Trade (F : Type 0) : Type 0 where
  pub side : Direction
  pub entry_bar : ℕ
  pub exit_bar : ℕ
  pub entry_timestamp : Scalar F
  pub exit_timestamp : Scalar F
  pub entry_price : F
  pub exit_price : F
  pub stop : F
  pub target : F
  pub qty : F
  pub bars_held : ℕ
  pub exit_reason : ExitReason
  pub entry_regime : Scalar F
  pub r_multiple : F
  pub net_pnl : F
  pub fees : F
  pub slippage_cost : F
  pub fee_cost_r : F
  pub slippage_cost_r : F

pub record Ledger (F : Type 0) : Type 0 where
  pub entries : ℕ
  pub trades : List (Trade F)

pub record Setup (F : Type 0) : Type 0 where
  pub spec : StrategySpec F
  pub cost : CostModel F
  pub equity : F
  pub risk_pct : F

module _ {F : Type 0} where
  abbrev pub nothing : Ledger F
  nothing = record { entries = 0; trades = [] }

  abbrev pub with_entry : Ledger F → Ledger F
  with_entry ledger = record ledger { entries = suc ledger.entries }

  abbrev pub with_trade : Trade F → Ledger F → Ledger F
  with_trade t ledger = record ledger { trades = t ∷ ledger.trades }

module _ {F : Type 0} ⦃f : Float F⦄ where
  abbrev number : Option F → Option F
  number none = none
  number (some x) = if f.eq x x then some x else none

  -- `_num`, which drops NaN.
  unfoldable pub to_number : Scalar F → Option F
  unfolding as_float
  to_number v = number (as_float v)

  abbrev at_or_below : Option F → F → Bool
  at_or_below none level = false
  at_or_below (some x) level = f.le x level

  abbrev at_or_above : Option F → F → Bool
  at_or_above none level = false
  at_or_above (some x) level = f.le level x

  -- `_hit_stop` and `_hit_target`
  unfoldable pub hit_stop : Direction → Option F → Option F → F → Bool
  hit_stop Direction.long low high level = at_or_below low level
  hit_stop Direction.short low high level = at_or_above high level

  unfoldable pub hit_target : Direction → Option F → Option F → F → Bool
  hit_target Direction.long low high level = at_or_above high level
  hit_target Direction.short low high level = at_or_below low level

  -- The numbers that are present and above zero.
  abbrev above_nought : Option F → Option F
  above_nought none = none
  above_nought (some x) = if positive x then some x else none

  -- The position that a signal with its ATR opens at the price of the next bar.
  unfoldable pub position_at : Setup F → ℕ → Row F → Row F → Direction → F → F → Option (Position F)
  position_at setup entry_bar signal next side atr entry_intended =
      let entry_fill = fill_price setup.cost entry_intended side entry in
      let stop = stop_price entry_fill atr side setup.spec.stop_atr in
      let sized = size_position setup.equity setup.risk_pct entry_fill stop in
      if positive sized.0
      then some (record {
        entry_bar = entry_bar;
        side = side;
        entry_intended = entry_intended;
        entry_fill = entry_fill;
        stop = stop;
        target = target_price entry_fill atr side setup.spec.target_atr;
        qty = sized.0;
        risk_amount = sized.1;
        entry_regime = signal "market_regime";
        entry_timestamp = next "timestamp";
      })
      else none

  -- It wants an ATR and a price of that bar.
  abbrev pub opened :
      Setup F → ℕ → Row F → Row F → Direction → Option F → Option F → Option (Position F)
  opened setup entry_bar signal next side none price = none
  opened setup entry_bar signal next side (some atr) none = none
  opened setup entry_bar signal next side (some atr) (some price) =
      position_at setup entry_bar signal next side atr price

  -- The entry at the bar after the signal's, if there is one.
  unfoldable pub enter : Setup F → ℕ → Row F → Row F → Option (Position F)
  unfolding to_number position_at evaluate_spec
  enter setup entry_bar signal next =
      let result = evaluate_spec setup.spec signal in
      if result.matched
      then opened setup entry_bar signal next (get_or result.direction Direction.long)
          (above_nought (to_number (signal "atr"))) (above_nought (to_number (next "open")))
      else none

  -- `_close`
  unfoldable pub close : Setup F → Position F → ℕ → Row F → ExitReason → F → ℕ → Trade F
  close setup p exit_bar exit_row exit_reason exit_intended bars_held =
      let settlement =
        settle_trade setup.cost p.side p.entry_intended exit_intended p.qty p.risk_amount in
      record {
        side = p.side;
        entry_bar = p.entry_bar;
        exit_bar = exit_bar;
        entry_timestamp = p.entry_timestamp;
        exit_timestamp = exit_row "timestamp";
        entry_price = p.entry_fill;
        exit_price = fill_price setup.cost exit_intended p.side exit;
        stop = p.stop;
        target = p.target;
        qty = p.qty;
        bars_held = bars_held;
        exit_reason = exit_reason;
        entry_regime = p.entry_regime;
        r_multiple = settlement.r_multiple;
        net_pnl = settlement.net_pnl;
        fees = settlement.fees;
        slippage_cost = settlement.slippage_cost;
        fee_cost_r = settlement.fee_cost_r;
        slippage_cost_r = settlement.slippage_cost_r;
      }

  abbrev pub held_out : ℕ → ℕ → Option F → Option (ExitReason × F)
  held_out max_bars bars_held none = none
  held_out max_bars bars_held (some x) =
      if leb max_bars bars_held then some (ExitReason.max_holding, x) else none

  -- The exit that a bar asks for; the stop comes before the target.
  unfoldable pub exit_on : Setup F → Position F → ℕ → Row F → Option (ExitReason × F)
  unfolding to_number hit_stop hit_target
  exit_on setup p bars_held row =
      let low = to_number (row "low") in
      let high = to_number (row "high") in
      if hit_stop p.side low high p.stop
      then some (ExitReason.stop, p.stop)
      else if hit_target p.side low high p.target
      then some (ExitReason.target, p.target)
      else held_out setup.spec.max_holding_bars bars_held (to_number (row "close"))

  -- The end of the frame with an open position, on its last bar.
  unfoldable pub force_closed : Setup F → ℕ → Position F → Row F → Ledger F
  unfolding to_number close
  force_closed setup last_bar p last = elim (to_number (last "close")) [
    | none ↦ nothing
    | some price ↦
        with_trade
          (close setup p last_bar last ExitReason.force_close price (last_bar - p.entry_bar + 1))
          nothing
  ]

  -- The loop from bar `i` on, with the open position and the bar before it, if there is one.
  unfoldable pub simulate_from : Setup F → ℕ → Option (Position F × Row F) → List (Row F) → Ledger F
  unfolding enter exit_on close force_closed
  simulate_from setup i none [] = nothing
  simulate_from setup i none (row ∷ []) = nothing
  simulate_from setup i none (row ∷ next ∷ more) = elim (enter setup (suc i) row next) [
    | none ↦ simulate_from setup (suc i) none (next ∷ more)
    | some p ↦ with_entry (simulate_from setup (suc i) (some (p, row)) (next ∷ more))
  ]
  simulate_from setup i (some (p, last)) [] = force_closed setup (i - 1) p last
  simulate_from setup i (some (p, last)) (row ∷ rest) =
      let bars_held = i - p.entry_bar + 1 in
      elim (exit_on setup p bars_held row) [
        | none ↦ simulate_from setup (suc i) (some (p, row)) rest
        | some (reason, price) ↦
            with_trade (close setup p i row reason price bars_held)
              (simulate_from setup (suc i) none rest)
      ]

  -- `simulate_strategy`, on a frame that has the columns it asks for.
  unfoldable pub simulate_strategy : Setup F → List (Row F) → Ledger F
  unfolding simulate_from
  simulate_strategy setup rows = simulate_from setup 0 none rows
