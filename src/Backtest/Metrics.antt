-- ===== src/Backtest/Metrics.antt =====
-- The metrics of a ledger of trades (src/crypto_ai_system/backtesting/performance_metrics.py). `none`
-- of a result stands for the exception that `float` raises on a value that is no number.
use crypto_ai_system.Common.{
  ℕ, String, Bool, true, false, not, Option, none, some, List, [], ◌∷◌, ◌++◌, ltb, leb, str_eq,
  length, count, keep, map, if◌then◌else◌, ◌≡◌, refl,
}
use crypto_ai_system.Common.Int.{ℤ, pos, negsuc}
use crypto_ai_system.Float.{Float, Scalar, null, text, num, nought, positive, whole_float}

-- `side` is true of LONG and false of SHORT; the two costs are 0 where they are missing.
pub record Trade (F : Type 0) : Type 0 where
  pub r_multiple : Scalar F
  pub side : Option Bool
  pub entry_regime : Option String
  pub fee_cost_r : F
  pub slippage_cost_r : F

pub record Report (F : Type 0) : Type 0 where
  pub trade_count : ℕ
  pub win_rate : Option F
  pub expectancy_r : Option F
  pub average_r : Option F
  pub profit_factor : Option F
  pub avg_win_r : Option F
  pub avg_loss_r : Option F
  pub gross_profit_r : F
  pub gross_loss_r : F
  pub total_net_r : F
  pub max_drawdown_r : F
  pub sharpe_like : Option F
  pub sortino_like : Option F
  pub fee_cost_r : F
  pub slippage_cost_r : F
  pub long_expectancy_r : Option F
  pub short_expectancy_r : Option F
  pub regime_consistency : Option F

module _ {F : Type 0} ⦃f : Float F⦄ where
  -- `float(value)`
  unfoldable pub as_float : Scalar F → Option F
  as_float null = none
  as_float (text s) = f.parse s
  as_float (num x) = some x

  abbrev pub with_head : F → Option (List F) → Option (List F)
  with_head x none = none
  with_head x (some xs) = some (x ∷ xs)

  -- `[float(t["r_multiple"]) for t in trades]`
  unfoldable pub r_series : List (Trade F) → Option (List F)
  unfolding as_float
  r_series [] = some []
  r_series (t ∷ rest) = elim (as_float t.r_multiple) [
    | none ↦ none
    | some x ↦ with_head x (r_series rest)
  ]

  abbrev sum_from : F → List F → F
  sum_from total [] = total
  sum_from total (x ∷ rest) = sum_from (f.add total x) rest

  -- `sum(xs)`
  abbrev pub sum : List F → F
  sum xs = sum_from nought xs

  abbrev pub size : {A : Type 0} → List A → F
  size xs = f.of_int (pos (length xs))

  -- `_mean`
  unfoldable pub mean : List F → Option F
  mean [] = none
  mean (x ∷ rest) = some (f.div (sum (x ∷ rest)) (size (x ∷ rest)))

  abbrev pub square : F → F
  square x = f.mul x x

  -- `_pstdev`
  unfoldable pub pstdev : List F → Option F
  pstdev xs =
      let mu = f.div (sum xs) (size xs) in
      if ltb (length xs) 2
      then none
      else some (f.sqrt (f.div (sum (map (λ x. square (f.sub x mu)) xs)) (size xs)))

  -- `max(a, b)` and `min(a, b)`, which keep the first of two that do not differ
  abbrev pub max_of : F → F → F
  max_of a b = if f.lt a b then b else a

  abbrev pub min_of : F → F → F
  min_of a b = if f.lt b a then b else a

  -- The rest of the loop of `_max_drawdown_r`.
  unfoldable pub drawdown_from : F → F → F → List F → F
  drawdown_from peak cum max_dd [] = max_dd
  drawdown_from peak cum max_dd (r ∷ rest) =
      let total = f.add cum r in
      let top = max_of peak total in drawdown_from top total (max_of max_dd (f.sub top total)) rest

  -- `_max_drawdown_r`
  unfoldable pub max_drawdown_r : List F → F
  unfolding drawdown_from
  max_drawdown_r rs = drawdown_from nought nought nought rs

  -- `buckets.setdefault(regime, []).append(r)`
  abbrev put_bucket : String → F → List (String × List F) → List (String × List F)
  put_bucket regime r [] = (regime, r ∷ []) ∷ []
  put_bucket regime r ((name, rs) ∷ rest) =
      let more = put_bucket regime r rest in
      if str_eq name regime then (name, rs ++ r ∷ []) ∷ rest else (name, rs) ∷ more

  unfoldable pub buckets_from :
      List (String × List F) → List (Trade F) → Option (List (String × List F))
  unfolding as_float
  buckets_from buckets [] = some buckets
  buckets_from buckets (t ∷ rest) = elim t.entry_regime [
    | none ↦ buckets_from buckets rest
    | some regime ↦ elim (as_float t.r_multiple) [
      | none ↦ none
      | some r ↦ buckets_from (put_bucket regime r buckets) rest
    ]
  ]

  abbrev is_profitable : String × List F → Bool
  is_profitable (name, rs) = positive (f.div (sum rs) (size rs))

  abbrev consistency_of : List (String × List F) → Option F
  consistency_of [] = none
  consistency_of (b ∷ rest) =
      some (f.div (f.of_int (pos (count is_profitable (b ∷ rest)))) (size (b ∷ rest)))

  -- `x / y if y not in (None, 0.0) else None`
  abbrev ratio : F → Option F → Option F
  ratio x none = none
  ratio x (some y) = if f.eq y nought then none else some (f.div x y)

  abbrev on_side : Bool → Trade F → Bool
  on_side long t = elim t.side [ none ↦ false | some b ↦ if long then b else not b ]

  -- The mean of those of one side, once all results are numbers.
  abbrev side_mean : Bool → List (Trade F) → Option F
  side_mean long trades = elim (r_series (keep (on_side long) trades)) [
    | none ↦ none
    | some rs ↦ mean rs
  ]

  abbrev empty_report : Report F
  empty_report = record {
    trade_count = 0;
    win_rate = none;
    expectancy_r = none;
    average_r = none;
    profit_factor = none;
    avg_win_r = none;
    avg_loss_r = none;
    gross_profit_r = nought;
    gross_loss_r = nought;
    total_net_r = nought;
    max_drawdown_r = nought;
    sharpe_like = none;
    sortino_like = none;
    fee_cost_r = nought;
    slippage_cost_r = nought;
    long_expectancy_r = none;
    short_expectancy_r = none;
    regime_consistency = none;
  }

  -- The report of trades that are not empty, from their results and their buckets.
  unfoldable pub report_of : List (Trade F) → List F → List (String × List F) → Report F
  unfolding r_series mean pstdev max_drawdown_r
  report_of trades r buckets =
      let wins = keep positive r in
      let losses = keep (λ x. f.lt x nought) r in
      let gross_profit = sum wins in
      let gross_loss = f.abs (sum losses) in
      let downside = map (λ x. min_of x nought) r in
      let downside_dev =
        if leb 2 (length r)
        then some (f.sqrt (f.div (sum (map square downside)) (size r)))
        else none in
      let mean_r = f.div (sum r) (size r) in
      record {
        trade_count = length trades;
        win_rate = some (f.div (size wins) (size trades));
        expectancy_r = some mean_r;
        average_r = some mean_r;
        profit_factor = if positive gross_loss then some (f.div gross_profit gross_loss) else none;
        avg_win_r = mean wins;
        avg_loss_r = mean losses;
        gross_profit_r = gross_profit;
        gross_loss_r = gross_loss;
        total_net_r = sum r;
        max_drawdown_r = max_drawdown_r r;
        sharpe_like = ratio mean_r (pstdev r);
        sortino_like = ratio mean_r downside_dev;
        fee_cost_r = sum (map (λ t. t.fee_cost_r) trades);
        slippage_cost_r = sum (map (λ t. t.slippage_cost_r) trades);
        long_expectancy_r = side_mean true trades;
        short_expectancy_r = side_mean false trades;
        regime_consistency = consistency_of buckets;
      }

  unfoldable pub compute_backtest_metrics : List (Trade F) → Option (Report F)
  unfolding r_series buckets_from report_of
  compute_backtest_metrics [] = some empty_report
  compute_backtest_metrics (t ∷ rest) = elim (r_series (t ∷ rest)) [
    | none ↦ none
    | some r ↦ elim (buckets_from [] (t ∷ rest)) [
      | none ↦ none
      | some buckets ↦ some (report_of (t ∷ rest) r buckets)
    ]
  ]

abbrev results : List ℤ
results = pos 2 ∷ negsuc 2 ∷ negsuc 0 ∷ pos 5 ∷ []

drawdown_of_results : max_drawdown_r results ≡ pos 4
unfolding max_drawdown_r
drawdown_of_results = refl
