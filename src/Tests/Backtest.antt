-- ===== src/Tests/Backtest.antt =====
-- The simulation, the split and the entry rules.
use crypto_ai_system.Common.{
  ℕ, ◌+◌, ◌≤◌, String, true, false, none, List, [], ◌∷◌, ◌++◌, ◌≡◌, ◌⊎◌, map, inl, inr, refl, arith,
  length, keep, str_eq, if◌then◌else◌,
}
use crypto_ai_system.Common.Int.{ℤ, pos}
use crypto_ai_system.Float.{null, num, whole_float}
use crypto_ai_system.Rules.{StrategyDirection, StrategySpec, Row, cell, evaluate_spec}
use crypto_ai_system.Rules.Missing.{evaluate_spec-thinned}
use crypto_ai_system.Backtest.Simulator.{Trade, Setup, simulate_strategy}
use crypto_ai_system.Backtest.Costs.{size_position, fill_price, stop_price, target_price}
use crypto_ai_system.Backtest.Ledger.{IsOrderly}
use crypto_ai_system.Backtest.Accounting.{last_price, simulate_strategy-IsOrderly}
use crypto_ai_system.Backtest.Causal.{was_settled, simulate_strategy-causal}
use crypto_ai_system.Backtest.Split.{split_windows, IsChain, split_windows-IsChain}

split_windows-IsChain_example :
    (length (split_windows 7 3) ≡ 3) × (1 ≤ 2) × IsChain 2 0 7 (split_windows 7 3)
split_windows-IsChain_example = split_windows-IsChain 7 3 (omega arith) (omega arith)

abbrev breakout_rule : StrategySpec ℤ
breakout_rule = record {
  strategy_id = "s1";
  strategy_rule_hash = "h1";
  direction = StrategyDirection.long;
  operator = "AND";
  conditions =
      record { feature = "momentum"; comparison = ">"; value = num (pos 3); value_from = none }
      ∷ [];
  stop_atr = pos 1;
  target_atr = pos 2;
  max_holding_bars = 10;
}

abbrev bar : ℕ → ℕ → ℕ → ℕ → ℕ → Row ℤ
bar momentum first high low last name =
    if str_eq name "momentum"
    then num (pos momentum)
    else if str_eq name "open"
    then num (pos first)
    else if str_eq name "high"
    then num (pos high)
    else if str_eq name "low"
    then num (pos low)
    else if str_eq name "close"
    then num (pos last)
    else if str_eq name "atr"
    then num (pos 10)
    else null

-- Whole numbers, no costs, and one unit at risk for each unit of the distance to the stop.
abbrev setup : Setup ℤ
setup = record {
  spec = breakout_rule;
  cost = record { taker_fee_bps = pos 0; slippage_bps = pos 0 };
  equity = pos 1000;
  risk_pct = pos 1;
}

-- A signal, the bar of the entry, the bar that reaches the target, and a second signal.
abbrev bars : List (Row ℤ)
bars =
    bar 5 100 101 99 100 ∷ bar 0 100 105 95 104 ∷ bar 0 104 125 103 120 ∷ bar 6 120 121 119 120 ∷ []

abbrev next_bars : List (Row ℤ)
next_bars = bar 0 121 125 118 122 ∷ []

abbrev two_exits : Trade ℤ → ℕ × ℕ
two_exits t = (t.entry_bar, t.exit_bar)

takes_profit : map two_exits (simulate_strategy setup bars).trades ≡ (1, 2) ∷ []
unfolding simulate_strategy size_position fill_price stop_price target_price
takes_profit = refl

simulate_strategy-IsOrderly_example :
    IsOrderly 1 4 (simulate_strategy setup bars).trades
    × (((simulate_strategy setup bars).entries ≡ length (simulate_strategy setup bars).trades)
        ⊎ (((simulate_strategy setup bars).entries
              ≡ length (simulate_strategy setup bars).trades + 1)
            × (last_price none bars ≡ none)))
simulate_strategy-IsOrderly_example = simulate_strategy-IsOrderly setup bars

simulate_strategy-causal_example :
    (later : List (Trade ℤ)) × ((simulate_strategy setup (bars ++ next_bars)).trades
      ≡ keep was_settled (simulate_strategy setup bars).trades ++ later)
simulate_strategy-causal_example = simulate_strategy-causal setup bars next_bars

-- The strategy on two features, of which a row lacks the one that an OR does not need.
abbrev either_rule : StrategySpec ℤ
either_rule = record breakout_rule {
  operator = "OR";
  conditions =
      breakout_rule.conditions
      ++ record { feature = "volume"; comparison = "<"; value = num (pos 9); value_from = none }
        ∷ [];
}

abbrev thin_row : Row ℤ
thin_row name = if str_eq name "momentum" then num (pos 5) else null

abbrev full_row : Row ℤ
full_row name =
    if str_eq name "momentum"
    then num (pos 5)
    else if str_eq name "volume"
    then num (pos 12)
    else null

thin_row-thinned :
    (name : String) → (cell thin_row name ≡ none) ⊎ (cell thin_row name ≡ cell full_row name)
unfolding cell
thin_row-thinned name =
    elim (str_eq name "momentum")
      as (λ b.
        let thin : Row ℤ = λ n. if b then num (pos 5) else null in
        let full : Row ℤ =
          λ n. if b then num (pos 5) else if str_eq n "volume" then num (pos 12) else null in
        (cell thin name ≡ none) ⊎ (cell thin name ≡ cell full name)) [
          | true ↦ inr refl
          | false ↦ inl refl
        ]

evaluate_spec-thinned_example : (evaluate_spec either_rule full_row).matched ≡ true
unfolding evaluate_spec
evaluate_spec-thinned_example =
    evaluate_spec-thinned either_rule thin_row full_row thin_row-thinned refl
