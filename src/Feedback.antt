-- ===== src/Feedback.antt =====
-- The feedback of attributed outcomes to the pool: the performance of a strategy
-- (src/crypto_ai_system/feedback/strategy_performance_agent.py) and the lifecycle that it drives
-- (src/crypto_ai_system/feedback/strategy_feedback_step.py). `none` of a result is an exception.
pub mod Streak
pub mod History
use crypto_ai_system.Common.{
  ℕ, ◌-◌, String, Bool, true, false, not, ◌||◌, Option, none, some, List, [], ◌∷◌, ◌++◌, leb, any,
  ◌==◌, str_eq, length, count, keep, map, drop, if◌then◌else◌,
}
use crypto_ai_system.Float.{Float, Scalar, nought}
use crypto_ai_system.Registry.{File, load_registry_records, append_registry_record}
use crypto_ai_system.Lifecycle.{
  StrategyStatus, Thresholds, Metrics, Performance, Decision, evaluate_lifecycle,
}
use crypto_ai_system.Backtest.Metrics.{Trade, Report, compute_backtest_metrics}
use crypto_ai_system.Pool.{Entry, Pool, occupies}
use crypto_ai_system.Pool.Register.{load_pool}

-- A row of the registry of attributed outcomes.
pub record Outcome (F : Type 0) : Type 0 where
  pub strategy_id : Option String
  pub r_multiple : Scalar F
  pub entry_regime : Option String

pub record LifecycleRow : Type 0 where
  pub strategy_id : String
  pub decision : Decision

pub record Summary : Type 0 where
  pub evaluated : ℕ
  pub status_changes : ℕ
  pub decisions : List LifecycleRow

abbrev is_window : ℕ → Bool
is_window w = w == 20 || w == 30 || w == 50 || w == 100

-- What one run leaves; no summary is an exception.
pub record Run (F : Type 0) : Type 0 where
  pub pool_file : Option (Pool F)
  pub log : File LifecycleRow
  pub summary : Option Summary

abbrev pub changes_status : LifecycleRow → Bool
changes_status row = row.decision.status_changed

module _ {F : Type 0} ⦃f : Float F⦄ where
  abbrev is_owned : String → Outcome F → Bool
  is_owned id o = elim o.strategy_id [ none ↦ false | some owner ↦ str_eq owner id ]

  -- `outcomes_for_strategy`
  unfoldable pub outcomes_for_strategy : List (Outcome F) → String → List (Outcome F)
  outcomes_for_strategy rows id = keep (is_owned id) rows

  -- An attributed outcome has no side and no costs.
  abbrev trade_of : Outcome F → Trade F
  trade_of o = record {
    r_multiple = o.r_multiple;
    side = none;
    entry_regime = o.entry_regime;
    fee_cost_r = nought;
    slippage_cost_r = nought;
  }

  abbrev window_metrics : ℕ → List (Outcome F) → Option (Metrics F)
  window_metrics w rows =
      let window = drop (length rows - w) rows in
      elim (compute_backtest_metrics (map trade_of window)) [
        | none ↦ none
        | some r ↦ some (record {
          window_full = leb w (length window);
          expectancy_r = r.expectancy_r;
          profit_factor = r.profit_factor;
        })
      ]

  abbrev win_rate_drop : Option F → Option F → Option F
  win_rate_drop none live = none
  win_rate_drop (some backtest) none = none
  win_rate_drop (some backtest) (some live) = some (f.round 6 (f.sub backtest live))

  -- The report of the lifetime, and what the lifecycle reads of the windows. A window raises nothing
  -- that the lifetime does not.
  unfoldable pub performance_of : List (Outcome F) → Option F → Report F → Performance F
  performance_of rows backtest_win_rate lifetime = record {
    rolling = λ w. if is_window w then window_metrics w rows else none;
    live_vs_backtest_win_rate_drop = win_rate_drop backtest_win_rate lifetime.win_rate;
    lifetime_trade_count = lifetime.trade_count;
    lifetime_expectancy_r = lifetime.expectancy_r;
  }

  unfoldable pub compute_strategy_performance : List (Outcome F) → Option F → Option (Performance F)
  unfolding performance_of
  compute_strategy_performance rows backtest_win_rate =
      elim (compute_backtest_metrics (map trade_of rows)) [
        | none ↦ none
        | some lifetime ↦ some (performance_of rows backtest_win_rate lifetime)
      ]

abbrev pub log_decision : LifecycleRow → File LifecycleRow → Option (File LifecycleRow)
log_decision row log =
    if row.decision.status_changed then append_registry_record log true row else some log

abbrev pub Pass : Type 0 → Type 0
Pass F = File LifecycleRow × Option (List (Entry F) × List LifecycleRow)

pub record Turn (F : Type 0) : Type 0 where
  pub log : File LifecycleRow
  pub entry : Entry F
  pub rows : List LifecycleRow

module _ {F : Type 0} where
  -- What a decision writes into the entry.
  abbrev pub decided_entry : String → Decision → Entry F → Entry F
  decided_entry now d e =
      if d.status_changed
      then record e {
        status = d.new_status;
        updated_at_utc = now;
        consecutive_failures = d.consecutive_failures;
      }
      else record e { consecutive_failures = d.consecutive_failures }

  -- The rest of a pass, behind one entry and its decision, if it has one.
  abbrev pub logged : String → Entry F → LifecycleRow → Option (File LifecycleRow) → Option (Turn F)
  logged now e row none = none
  logged now e row (some log) =
      some (record { log = log; entry = decided_entry now row.decision e; rows = row ∷ [] })

  abbrev pub row_of : Entry F → Decision → LifecycleRow
  row_of e d = record { strategy_id = e.strategy_id; decision = d }

  abbrev pub decided : String → File LifecycleRow → Entry F → Option Decision → Option (Turn F)
  decided now log e none = none
  decided now log e (some d) = logged now e (row_of e d) (log_decision (row_of e d) log)

  abbrev pub behind : Turn F → Pass F → Pass F
  behind turn (log, none) = (log, none)
  behind turn (log, some (entries, rows)) = (log, some (turn.entry ∷ entries, turn.rows ++ rows))

  -- The end of a run: the pool is saved where a status has changed.
  unfoldable pub finish_run : Option (Pool F) → Pass F → Run F
  unfolding load_pool
  finish_run pool_file (log, none) = record { pool_file = pool_file; log = log; summary = none }
  finish_run pool_file (log, some (entries, rows)) = record {
    pool_file =
        if any changes_status rows
        then some (record (load_pool pool_file) { active_strategies = entries })
        else pool_file;
    log = log;
    summary = some (record {
      evaluated = length rows;
      status_changes = count changes_status rows;
      decisions = rows;
    });
  }

module _ {F : Type 0} ⦃f : Float F⦄ (t : Thresholds F) where
  -- `evaluate_lifecycle` on the performance of an entry.
  unfoldable pub decision_on : List (Outcome F) → Entry F → Option Decision
  unfolding outcomes_for_strategy
  decision_on outcomes e =
      elim (compute_strategy_performance (outcomes_for_strategy outcomes e.strategy_id)
        e.backtest_win_rate) [
          | none ↦ none
          | some performance ↦
              some (evaluate_lifecycle t e.status performance e.consecutive_failures)
        ]

  -- One turn of the loop: the registry, the entry, and the decision if there is one.
  unfoldable pub evaluate_entry :
      List (Outcome F) → String → File LifecycleRow → Entry F → Option (Turn F)
  unfolding decision_on
  evaluate_entry outcomes now log e =
      if occupies e
      then decided now log e (decision_on outcomes e)
      else some (record { log = log; entry = e; rows = [] })

  -- The loop over the entries of the pool.
  unfoldable pub evaluate_entries :
      List (Outcome F) → String → File LifecycleRow → List (Entry F) → Pass F
  unfolding evaluate_entry
  evaluate_entries outcomes now log [] = (log, some ([], []))
  evaluate_entries outcomes now log (e ∷ rest) = elim (evaluate_entry outcomes now log e) [
    | none ↦ (log, none)
    | some turn ↦ behind turn (evaluate_entries outcomes now turn.log rest)
  ]

  -- A run on the outcomes that were read, or on none where the read raises.
  abbrev pub finished :
      String → Option (Pool F) → File LifecycleRow → Option (List (Outcome F)) → Run F
  finished now pool_file log none = record { pool_file = pool_file; log = log; summary = none }
  finished now pool_file log (some outcomes) =
      finish_run pool_file
        (evaluate_entries outcomes now log (load_pool pool_file).active_strategies)

  unfoldable pub run_strategy_lifecycle_feedback :
      File (Outcome F) → String → Option (Pool F) → File LifecycleRow → Run F
  unfolding evaluate_entries finish_run load_pool
  run_strategy_lifecycle_feedback outcome_file now pool_file log =
      finished now pool_file log (load_registry_records outcome_file)
