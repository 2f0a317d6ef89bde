-- ===== src/Tests/Pool.antt =====
-- The pool, its registration and its feedback.
use crypto_ai_system.Common.{ℕ, true, false, Option, none, some, [], ◌∷◌, ◌≡◌, refl, arith}
use crypto_ai_system.Common.Int.{ℤ, pos, negsuc}
use crypto_ai_system.Float.{num, whole_float}
use crypto_ai_system.Registry.{File, load_registry_records, row, append_registry_record}
use crypto_ai_system.Pool.Evidence.{sls_for_score}
use crypto_ai_system.Lifecycle.{
  evaluate_lifecycle, StrategyStatus, paper_active, probation, suspended, Thresholds,
  live_win_rate_dropped, below_probation_thresholds,
}
use crypto_ai_system.Backtest.Metrics.{compute_backtest_metrics}
use crypto_ai_system.Pool.{
  is_occupying, Spec, Entry, Pool, Decision, SlsAudit, Terms, replaced, add_champion,
}
use crypto_ai_system.Pool.Weakest.{IsStrict, IsDisplaced, add_champion-IsDisplaced}
use crypto_ai_system.Pool.Register.{Store, register_champion, load_pool}
use crypto_ai_system.Pool.Admission.{IsExclusive}
use crypto_ai_system.Pool.Audit.{IsAudited, register_champion-IsAudited}
use crypto_ai_system.Feedback.{
  compute_strategy_performance, Outcome, Summary, LifecycleRow, run_strategy_lifecycle_feedback,
}
use crypto_ai_system.Feedback.Streak.{run_strategy_lifecycle_feedback-quiet}
use crypto_ai_system.Feedback.History.{start, next, admit, Reach-IsExclusive}

ltb_ℤ-IsStrict : IsStrict ℤ
ltb_ℤ-IsStrict = record { irreflexive = λ a. ground arith; transitive = λ a b c h k. ground arith }

abbrev breakout : Spec
breakout = record {
  strategy_id = "s1";
  strategy_rule_hash = "h1";
  strategy_family = "breakout";
  symbol_scope = "BTCUSDT" ∷ [];
  generation_id = some "GEN-001";
}

abbrev reversal : Spec
reversal = record breakout {
  strategy_id = "s2";
  strategy_rule_hash = "h2";
  strategy_family = "reversal";
}

-- One slot, and an improvement of at least 3.
abbrev one_slot : Terms ℤ
one_slot = record {
  generation_id = none;
  cap = 1;
  min_improvement = pos 3;
  now = "2026-01-01T00:00:00Z";
  robustness = none;
  live_stats = ("s1", (4, negsuc 4)) ∷ [];
  pseudo_trades = 20;
}

abbrev entry_with : Spec → ℤ → StrategyStatus → ℕ → Entry ℤ
entry_with spec score status failures = record {
  strategy_id = spec.strategy_id;
  strategy_rule_hash = spec.strategy_rule_hash;
  status = status;
  stage = "paper";
  champion_score = some score;
  generation_id = spec.generation_id;
  strategy_spec = some spec;
  added_at_utc = "2026-01-01T00:00:00Z";
  updated_at_utc = "2026-01-01T00:00:00Z";
  robustness = none;
  consecutive_failures = failures;
  backtest_win_rate = none;
}

abbrev full_pool : Pool ℤ
full_pool = record {
  stage = "paper";
  active_strategies = entry_with breakout (pos 2) paper_active 0 ∷ [];
}

abbrev after_reversal : Pool ℤ
after_reversal = record {
  stage = "paper";
  active_strategies =
      entry_with breakout (pos 2) suspended 0 ∷ entry_with reversal (pos 9) paper_active 0 ∷ [];
}

abbrev weakest_audit : SlsAudit ℤ
weakest_audit = record {
  weakest_live_n = 4;
  weakest_live_expectancy = some (negsuc 4);
  weakest_frozen_score = some (pos 2);
  sls_pseudo_trades = 20;
}

add_champion-IsDisplaced_example :
    (w : Entry ℤ) × IsDisplaced ltb_ℤ-IsStrict one_slot full_pool after_reversal reversal "s1"
      (some (pos 2))
      (some (pos 9))
      w
unfolding add_champion sls_for_score
add_champion-IsDisplaced_example =
    add_champion-IsDisplaced ltb_ℤ-IsStrict one_slot full_pool after_reversal reversal
      (some (pos 9)) "s2" "s1" (some (pos 2)) (some (pos 9)) 1 weakest_audit refl

abbrev stored : Store ℤ
stored = record { pool_file = some full_pool; registry = record { lines = []; ended = true } }

abbrev replacement : Decision ℤ
replacement = replaced "s2" "s1" (some (pos 2)) (some (pos 9)) 1 weakest_audit

register_champion-IsAudited_example :
    IsAudited stored reversal after_reversal replacement
      (register_champion one_slot stored reversal (some (pos 9)))
unfolding add_champion load_pool sls_for_score register_champion append_registry_record
register_champion-IsAudited_example =
    register_champion-IsAudited one_slot stored reversal (some (pos 9)) {pool = after_reversal}
      {d = replacement} refl refl

abbrev first_file : Option (Pool ℤ)
first_file =
    (register_champion one_slot
      (record { pool_file = none; registry = record { lines = []; ended = true } }) breakout
      (some (pos 2))).0.pool_file

abbrev second_file : Option (Pool ℤ)
second_file =
    (register_champion one_slot
      (record { pool_file = first_file; registry = record { lines = []; ended = true } }) reversal
      (some (pos 9))).0.pool_file

Reach-IsExclusive_example : IsExclusive 1 (load_pool second_file).active_strategies
Reach-IsExclusive_example = Reach-IsExclusive 1 (
    next
      (next start (
        admit one_slot (record { lines = []; ended = true }) breakout (some (pos 2)) (omega arith)))
      (admit one_slot (record { lines = []; ended = true }) reversal (some (pos 9)) (omega arith)))

abbrev patient : Thresholds ℤ
patient = record {
  warn_window = 20;
  warn_expectancy_r = pos 0;
  warn_profit_factor = pos 1;
  probation_window = 30;
  probation_expectancy_r = pos 0;
  probation_profit_factor = pos 1;
  probation_win_rate_drop = pos 0;
  suspend_window = 50;
  suspend_expectancy_r = pos 0;
  suspend_profit_factor = pos 1;
  suspend_consecutive = 2;
  archive_min_trades = 1;
  archive_expectancy_r = pos 0;
  archive_consecutive = 3;
}

-- One loss of a strategy that won every trade of its backtest.
abbrev one_loss : File (Outcome ℤ)
one_loss = record {
  lines =
      row (record { strategy_id = some "s1"; r_multiple = num (negsuc 0); entry_regime = none })
      ∷ [];
  ended = true;
}

abbrev on_probation : Pool ℤ
on_probation = record {
  stage = "paper";
  active_strategies =
      record (entry_with breakout (pos 2) probation 1) { backtest_win_rate = some (pos 1) } ∷ [];
}

abbrev no_decisions : File LifecycleRow
no_decisions = record { lines = []; ended = true }

abbrev stays_on_probation : Summary
stays_on_probation = record {
  evaluated = 1;
  status_changes = 0;
  decisions =
      record {
        strategy_id = "s1";
        decision = record {
          previous_status = probation;
          new_status = probation;
          status_changed = false;
          is_escalation = false;
          is_recovery = false;
          consecutive_failures = 2;
          new_entry_blocked = false;
          requires_manual_reactivation = false;
          reasons = live_win_rate_dropped ∷ below_probation_thresholds 30 ∷ [];
        };
      }
      ∷ [];
}

run_strategy_lifecycle_feedback-quiet_example :
    ((run_strategy_lifecycle_feedback patient one_loss "t"
        (some on_probation)
        no_decisions).pool_file
      ≡ some on_probation)
    × ((run_strategy_lifecycle_feedback patient one_loss "t" (some on_probation) no_decisions).log
        ≡ no_decisions)
unfolding run_strategy_lifecycle_feedback load_registry_records is_occupying
    compute_strategy_performance compute_backtest_metrics evaluate_lifecycle
run_strategy_lifecycle_feedback-quiet_example =
    run_strategy_lifecycle_feedback-quiet patient one_loss "t" (some on_probation) no_decisions
      {s = stays_on_probation} refl refl
