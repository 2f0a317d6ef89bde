-- ===== src/Risk.antt =====
-- The risk guard of paper trading (risk/risk_guard.py). Times are seconds since 1970 in UTC, as
-- `parse_time` reads them; `none` of the result is the ValueError of `float` on a text.
pub mod Losses
use crypto_ai_system.Common.{
  ℕ, suc, ◌+◌, ◌-◌, ◌*◌, ◌/◌, ◌%◌, String, Bool, true, false, not, ◌&&◌, ◌||◌, Option, none, some,
  List, [], ◌∷◌, ◌++◌, ltb, leb, ◌==◌, get_or, concat, if◌then◌else◌,
}
use crypto_ai_system.Common.Int.{pos}
use crypto_ai_system.Float.{Float, Scalar, num, nought, or_else}
use crypto_ai_system.Text.{codes}
use crypto_ai_system.Registry.{File, load_registry_records}
use crypto_ai_system.Backtest.Metrics.{as_float, max_of, min_of}

-- A row of the outcome registry; `exit_at` is its `created_at_utc` as a time.
pub record OutcomeRow (F : Type 0) : Type 0 where
  pub outcome_closed : Bool
  pub result_R : Scalar F
  pub created_at_utc : Option String
  pub exit_at : Option ℕ

pub record ClosedTrade (F : Type 0) : Type 0 where
  pub pnl_r : F
  pub exit_time : Option String
  pub exit_at : Option ℕ

pub record Limits (F : Type 0) : Type 0 where
  pub daily_max_loss_r : F
  pub weekly_max_loss_r : F
  pub max_consecutive_losses : ℕ
  pub max_drawdown_pct : F
  pub risk_per_trade : F

pub data Problem : Type 0 where
  risk_history_unreadable daily_loss_limit_breached weekly_loss_limit_breached : Problem
  max_consecutive_losses_breached max_drawdown_proxy_breached : Problem

pub record RiskStatus (F : Type 0) : Type 0 where
  pub allow_new_position : Bool
  pub daily_pnl_r : F
  pub weekly_pnl_r : F
  pub consecutive_losses : ℕ
  pub drawdown_r : F
  pub problems : List Problem

-- `<` of two texts, by their code points.
abbrev lt_text : List ℕ → List ℕ → Bool
lt_text [] [] = false
lt_text [] (m ∷ more) = true
lt_text (n ∷ rest) [] = false
lt_text (n ∷ rest) (m ∷ more) = let later = lt_text rest more in ltb n m || (n == m && later)

-- The start of the day of a time, and of its week, which begins on Monday.
abbrev pub day_start : ℕ → ℕ
day_start now = now / 86400 * 86400

abbrev pub week_start : ℕ → ℕ
week_start now = day_start now - (now / 86400 + 3) % 7 * 86400

abbrev since : ℕ → Option ℕ → Bool
since start none = false
since start (some t) = leb start t

abbrev when : Bool → Problem → List Problem
when b problem = if b then problem ∷ [] else []

abbrev none_of : List Problem → Bool
none_of [] = true
none_of (problem ∷ rest) = false

module _ {F : Type 0} where
  -- `str(exit_time)`, the key of the sort
  abbrev sort_key : ClosedTrade F → List ℕ
  sort_key t = codes (get_or t.exit_time "None")

  abbrev insert : ClosedTrade F → List (ClosedTrade F) → List (ClosedTrade F)
  insert t [] = t ∷ []
  insert t (x ∷ rest) =
      let behind = insert t rest in
      if lt_text (sort_key x) (sort_key t) then x ∷ behind else t ∷ x ∷ rest

  -- `sorted(trades, key=...)`, which keeps the order of equal keys.
  unfoldable pub sorted : List (ClosedTrade F) → List (ClosedTrade F)
  unfolding codes
  sorted [] = []
  sorted (t ∷ rest) = insert t (sorted rest)

  abbrev pub reverse_onto : List (ClosedTrade F) → List (ClosedTrade F) → List (ClosedTrade F)
  reverse_onto done [] = done
  reverse_onto done (t ∷ rest) = reverse_onto (t ∷ done) rest

  abbrev pub with_trade :
      ClosedTrade F → Option (List (ClosedTrade F)) → Option (List (ClosedTrade F))
  with_trade t none = none
  with_trade t (some trades) = some (t ∷ trades)

module _ {F : Type 0} ⦃f : Float F⦄ where
  -- `_closed_trades`, on the rows that were read.
  unfoldable pub closed_trades : List (OutcomeRow F) → Option (List (ClosedTrade F))
  unfolding as_float or_else
  closed_trades [] = some []
  closed_trades (r ∷ rest) =
      let more = closed_trades rest in
      if r.outcome_closed
      then elim (as_float (or_else r.result_R (num nought))) [
        | none ↦ none
        | some x ↦
            with_trade (record { pnl_r = x; exit_time = r.created_at_utc; exit_at = r.exit_at })
              more
      ]
      else more

  abbrev pnl_from : ℕ → F → List (ClosedTrade F) → F
  pnl_from start total [] = total
  pnl_from start total (t ∷ rest) =
      pnl_from start (if since start t.exit_at then f.add total t.pnl_r else total) rest

  -- `_pnl_since`
  unfoldable pub pnl_since : ℕ → List (ClosedTrade F) → F
  pnl_since start trades = pnl_from start nought trades

  abbrev pub is_loss : ClosedTrade F → Bool
  is_loss t = f.lt t.pnl_r nought

  abbrev pub leading_losses : List (ClosedTrade F) → ℕ
  leading_losses [] = 0
  leading_losses (t ∷ rest) = let more = leading_losses rest in if is_loss t then suc more else 0

  -- `_consecutive_losses`
  unfoldable pub consecutive_losses : List (ClosedTrade F) → ℕ
  consecutive_losses trades = leading_losses (reverse_onto [] trades)

  abbrev drawdowns_from : F → F → F → List (ClosedTrade F) → F × F
  drawdowns_from equity peak max_dd [] = (max_dd, f.sub equity peak)
  drawdowns_from equity peak max_dd (t ∷ rest) =
      let now = f.add equity t.pnl_r in
      let top = max_of peak now in drawdowns_from now top (min_of max_dd (f.sub now top)) rest

  -- `_drawdowns_r`, the largest and the current one.
  unfoldable pub drawdowns_r : List (ClosedTrade F) → F × F
  drawdowns_r trades = drawdowns_from nought nought nought trades

  -- `_drawdown_limit_r`
  unfoldable pub drawdown_limit_r : Limits F → F
  drawdown_limit_r limits =
      let hundred = f.of_int (pos 100) in
      let risk_pct =
        if f.lt nought limits.risk_per_trade
        then limits.risk_per_trade
        else f.div (f.of_int (pos 1)) hundred in
      f.div (f.div (f.abs limits.max_drawdown_pct) hundred) risk_pct

  unfoldable pub problems_of : Limits F → ℕ → List (ClosedTrade F) → List Problem
  unfolding pnl_since consecutive_losses drawdowns_r drawdown_limit_r
  problems_of limits now trades = concat (
      when (f.le (pnl_since (day_start now) trades) limits.daily_max_loss_r)
        daily_loss_limit_breached
      ∷ when (f.le (pnl_since (week_start now) trades) limits.weekly_max_loss_r)
          weekly_loss_limit_breached
      ∷ when (leb limits.max_consecutive_losses (consecutive_losses trades))
          max_consecutive_losses_breached
      ∷ when (f.le (drawdowns_r trades).1 (f.sub nought (drawdown_limit_r limits)))
          max_drawdown_proxy_breached
      ∷ [])

  -- The status of a history that was read, in the order of its closing times.
  unfoldable pub status_of : Limits F → ℕ → List (ClosedTrade F) → RiskStatus F
  unfolding problems_of
  status_of limits now trades = record {
    allow_new_position = none_of (problems_of limits now trades);
    daily_pnl_r = f.round 4 (pnl_since (day_start now) trades);
    weekly_pnl_r = f.round 4 (pnl_since (week_start now) trades);
    consecutive_losses = consecutive_losses trades;
    drawdown_r = f.round 4 (drawdowns_r trades).1;
    problems = problems_of limits now trades;
  }

  abbrev unreadable : RiskStatus F
  unreadable = record {
    allow_new_position = false;
    daily_pnl_r = nought;
    weekly_pnl_r = nought;
    consecutive_losses = 0;
    drawdown_r = nought;
    problems = risk_history_unreadable ∷ [];
  }

  abbrev pub judged : Limits F → ℕ → Option (List (ClosedTrade F)) → Option (RiskStatus F)
  judged limits now none = none
  judged limits now (some trades) = some (status_of limits now (sorted trades))

  -- A history that cannot be read blocks.
  abbrev pub guarded : Limits F → ℕ → Option (List (OutcomeRow F)) → Option (RiskStatus F)
  guarded limits now none = some unreadable
  guarded limits now (some rows) = judged limits now (closed_trades rows)

  unfoldable pub run_risk_guard : Limits F → ℕ → File (OutcomeRow F) → Option (RiskStatus F)
  unfolding status_of closed_trades sorted
  run_risk_guard limits now file = guarded limits now (load_registry_records file)
