-- ===== src/Lifecycle.antt =====
-- The lifecycle of a paper strategy (src/crypto_ai_system/feedback/strategy_lifecycle_agent.py).
pub mod History
use crypto_ai_system.Common.{
  ℕ, zero, suc, ◌+◌, String, Bool, true, false, not, ◌&&◌, ◌||◌, Option, none, some, List, [], ◌∷◌,
  ◌++◌, ltb, leb, ◌==◌, if◌then◌else◌,
}
use crypto_ai_system.Float.{Float}

pub data StrategyStatus : Type 0 where
  generated validated backtested batch_champion paper_active : StrategyStatus
  signed_testnet_candidate signed_testnet_active live_canary_candidate live_active : StrategyStatus
  warning probation suspended archived : StrategyStatus

-- `_RANK.get(status, 0)`
unfoldable pub rank : StrategyStatus → ℕ
rank warning = 1
rank probation = 2
rank suspended = 3
rank archived = 4
rank _ = 0

-- `status in _TERMINAL`
unfoldable pub is_terminal : StrategyStatus → Bool
is_terminal suspended = true
is_terminal archived = true
is_terminal _ = false

-- `status in (WARNING, PROBATION)`
abbrev is_degraded : StrategyStatus → Bool
is_degraded warning = true
is_degraded probation = true
is_degraded _ = false

pub record Thresholds (F : Type 0) : Type 0 where
  pub warn_window : ℕ
  pub warn_expectancy_r : F
  pub warn_profit_factor : F
  pub probation_window : ℕ
  pub probation_expectancy_r : F
  pub probation_profit_factor : F
  pub probation_win_rate_drop : F
  pub suspend_window : ℕ
  pub suspend_expectancy_r : F
  pub suspend_profit_factor : F
  pub suspend_consecutive : ℕ
  pub archive_min_trades : ℕ
  pub archive_expectancy_r : F
  pub archive_consecutive : ℕ

pub record Metrics (F : Type 0) : Type 0 where
  pub window_full : Bool
  pub expectancy_r : Option F
  pub profit_factor : Option F

-- `rolling n` is the entry `rolling_n`; a lifetime that is missing has no trades and no expectancy.
pub record Performance (F : Type 0) : Type 0 where
  pub rolling : ℕ → Option (Metrics F)
  pub live_vs_backtest_win_rate_drop : Option F
  pub lifetime_trade_count : ℕ
  pub lifetime_expectancy_r : Option F

pub data LifecycleReason : Type 0 where
  below_warn_thresholds below_probation_thresholds : ℕ → LifecycleReason
  live_win_rate_dropped terminal_state archive_conditions_met suspend_conditions_met :
      LifecycleReason
  recovered_to_active : LifecycleReason

pub record Decision : Type 0 where
  pub previous_status : StrategyStatus
  pub new_status : StrategyStatus
  pub status_changed : Bool
  pub is_escalation : Bool
  pub is_recovery : Bool
  pub consecutive_failures : ℕ
  pub new_entry_blocked : Bool
  pub requires_manual_reactivation : Bool
  pub reasons : List LifecycleReason

-- The status as a number, for the comparison of two.
unfoldable status_code : StrategyStatus → ℕ
status_code generated = 0
status_code validated = 1
status_code backtested = 2
status_code batch_champion = 3
status_code paper_active = 4
status_code signed_testnet_candidate = 5
status_code signed_testnet_active = 6
status_code live_canary_candidate = 7
status_code live_active = 8
status_code warning = 9
status_code probation = 10
status_code suspended = 11
status_code archived = 12

unfoldable pub same_status : StrategyStatus → StrategyStatus → Bool
unfolding status_code
same_status a b = status_code a == status_code b

-- What one evaluation finds before it decides.
pub record Findings : Type 0 where
  pub warn : Bool
  pub probation : Bool
  pub suspend_metrics : Bool
  pub archive_metrics : Bool
  pub reasons : List LifecycleReason

module _ {F : Type 0} ⦃f : Float F⦄ where
  abbrev full_only : Option (Metrics F) → Option (Metrics F)
  full_only none = none
  full_only (some m) = if m.window_full then some m else none

  -- `_full_window`, with the test that the caller makes of its metrics.
  abbrev on_window : Performance F → ℕ → (Metrics F → Bool) → Bool
  on_window performance window test = elim (full_only (performance.rolling window)) [
    | none ↦ false
    | some m ↦ test m
  ]

  -- `_lt` and `_le`
  abbrev below : Option F → F → Bool
  below none bound = false
  below (some x) bound = f.lt x bound

  abbrev at_most : Option F → F → Bool
  at_most none bound = false
  at_most (some x) bound = f.le x bound

  abbrev above : Option F → F → Bool
  above none bound = false
  above (some x) bound = f.lt bound x

  unfoldable pub findings_of : Thresholds F → Performance F → Findings
  findings_of t p =
      let warn = on_window p t.warn_window (λ m.
        below m.expectancy_r t.warn_expectancy_r || below m.profit_factor t.warn_profit_factor) in
      let low = on_window p t.probation_window (λ m.
        at_most m.expectancy_r t.probation_expectancy_r
        || below m.profit_factor t.probation_profit_factor) in
      let dropped = above p.live_vs_backtest_win_rate_drop t.probation_win_rate_drop in
      let listed = warn && t.warn_window == t.probation_window in
      record {
        warn = warn;
        probation = low || dropped;
        suspend_metrics = on_window p t.suspend_window (λ m.
            below m.expectancy_r t.suspend_expectancy_r
            && below m.profit_factor t.suspend_profit_factor);
        archive_metrics =
            leb t.archive_min_trades p.lifetime_trade_count
            && below p.lifetime_expectancy_r t.archive_expectancy_r;
        reasons =
            (if warn then below_warn_thresholds t.warn_window ∷ [] else [])
            ++ (if dropped then live_win_rate_dropped ∷ [] else [])
            ++ (if (low || dropped) && not listed
                then below_probation_thresholds t.probation_window ∷ []
                else []);
      }

-- The new status and the reasons that the choice adds; a terminal status replaces all reasons.
unfoldable pub next_status :
    {F : Type 0}
    → Thresholds F
    → Findings
    → ℕ
    → StrategyStatus
    → StrategyStatus × List LifecycleReason
unfolding is_terminal
next_status t x streak current =
    if is_terminal current
    then (current, terminal_state ∷ [])
    else if x.archive_metrics && leb t.archive_consecutive streak
    then (archived, x.reasons ++ archive_conditions_met ∷ [])
    else if x.suspend_metrics && leb t.suspend_consecutive streak
    then (suspended, x.reasons ++ suspend_conditions_met ∷ [])
    else if x.probation
    then (probation, x.reasons)
    else if x.warn
    then (warning, x.reasons)
    else (
      paper_active,
      if is_degraded current then x.reasons ++ recovered_to_active ∷ [] else x.reasons,
    )

-- `consecutive_failures + 1 if failure else 0`
unfoldable pub next_streak : Findings → ℕ → ℕ
next_streak x consecutive = if x.warn || x.probation then suc consecutive else 0

abbrev decision_of : StrategyStatus → StrategyStatus × List LifecycleReason → ℕ → Decision
decision_of current (next, reasons) streak = record {
  previous_status = current;
  new_status = next;
  status_changed = not (same_status next current);
  is_escalation = ltb (rank current) (rank next);
  is_recovery = ltb (rank next) (rank current);
  consecutive_failures = streak;
  new_entry_blocked = is_terminal next;
  requires_manual_reactivation = is_terminal next;
  reasons = reasons;
}

-- `evaluate_lifecycle`, without the identifier and the time of its record.
unfoldable pub evaluate_lifecycle :
    {F : Type 0} ⦃f : Float F⦄ → Thresholds F → StrategyStatus → Performance F → ℕ → Decision
unfolding findings_of next_status next_streak rank same_status is_terminal
evaluate_lifecycle t current performance consecutive =
    let x = findings_of t performance in
    let streak = next_streak x consecutive in
    decision_of current (next_status t x streak current) streak
