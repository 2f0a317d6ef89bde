-- ===== src/Tests/Records.antt =====
-- The registries, the daily-loss breaker, the promotion evidence and the lifecycle.
use crypto_ai_system.Common.{
  inl, false, ℕ, ◌+◌, ◌≤◌, true, none, some, List, [], ◌∷◌, ◌++◌, ◌≡◌, ◌⊎◌, inr, refl, arith, ◌&&◌,
  if◌then◌else◌,
}
use crypto_ai_system.Common.Int.{ℤ, pos, negsuc}
use crypto_ai_system.Float.{num, whole_float, nought}
use crypto_ai_system.Trade.{Side}
use crypto_ai_system.Registry.{
  File, Line, row, damaged, load_registry_records, append_registry_record,
}
use crypto_ai_system.Registry.Integrity.{load-append, append_registry_record-refuses, snoc}
use crypto_ai_system.Ledger.{
  prefix, LiveOutcome, Ledger, record_live_outcome, sum_outcomes, live_daily_realized_pnl_usdt,
  daily_loss_limit_breached,
}
use crypto_ai_system.Ledger.Breaker.{
  IsMonotone, record_live_outcome-sum, daily_loss_limit_breached_latches,
}
use crypto_ai_system.Guard.Promotion.{
  CanaryOrder, is_reconciled, is_empty, record_canary_order, canary_order, clean_canary_order_count,
  record_canary_order-count,
}
use crypto_ai_system.Lifecycle.{
  paper_active, suspended, Thresholds, Performance, evaluate_lifecycle, is_terminal,
}
use crypto_ai_system.Lifecycle.History.{run, run-terminal, run-blocked}

abbrev four : ℕ
four = 4

abbrev numbers : File ℕ
numbers = record { lines = row 3 ∷ []; ended = true }

abbrev more_numbers : File ℕ
more_numbers = record { lines = row 3 ∷ row 4 ∷ []; ended = true }

load-append_example :
    (load_registry_records more_numbers ≡ snoc (load_registry_records numbers) 4)
    × (more_numbers.lines ≡ numbers.lines ++ row 4 ∷ [])
    × (more_numbers.ended ≡ true)
unfolding append_registry_record
load-append_example = load-append numbers true 4 {file' = more_numbers} refl

append_registry_record-refuses_example :
    append_registry_record (record { lines = (row 3 ∷ []) ++ damaged ∷ []; ended = true }) true four
    ≡ none
append_registry_record-refuses_example =
    append_registry_record-refuses (row 3 ∷ []) damaged true true four (inr refl)

abbrev loss_row : ℤ → LiveOutcome ℤ
loss_row x = record {
  realized_pnl_usdt = num x;
  symbol = "BTCUSDT";
  side = Side.buy;
  quantity = pos 2;
  open_price = pos 100;
  close_price = pos 70;
  open_order_id = some "x1";
  close_order_id = some "x2";
  strategy_id = some "s1";
  opened_at_utc = "2026-01-01T00:00:00Z";
  closed_at_utc = "2026-01-01T02:00:00Z";
  created_at_utc = "2026-01-01T02:00:00Z";
}

abbrev ledger_of : List (Line (LiveOutcome ℤ)) → Ledger ℤ
ledger_of rows = record { lines = rows; ended = true }

-- A loss of 60 on the day.
abbrev lost : Ledger ℤ
lost = ledger_of (row (loss_row (negsuc 59)) ∷ [])

-- And of 10 more.
abbrev lost_more : Ledger ℤ
lost_more = ledger_of (row (loss_row (negsuc 59)) ∷ row (loss_row (negsuc 9)) ∷ [])

record_live_outcome-sum_example :
    let before = sum_outcomes "2026-01-01" nought (loss_row (negsuc 59) ∷ []) in
    (live_daily_realized_pnl_usdt lost "2026-01-01" ≡ some before)
    × (live_daily_realized_pnl_usdt lost_more "2026-01-01"
        ≡ some (whole_float.add before (negsuc 9)))
unfolding load_registry_records record_live_outcome append_registry_record prefix
record_live_outcome-sum_example =
    record_live_outcome-sum lost (negsuc 9) (loss_row (pos 0)) "2026-01-01" {ledger' = lost_more}
      {rows = loss_row (negsuc 59) ∷ []} refl refl

integer_laws : IsMonotone ℤ
integer_laws = record {
  le_trans = λ a b c h k. ground arith;
  add-le = λ a b h k. ground arith;
  round_mono = λ d a b h. h;
  round_number = λ d a h. h;
  nought_number = refl;
}

daily_loss_limit_breached_latches_example :
    daily_loss_limit_breached (some (pos 50)) lost_more "2026-01-01" ≡ some true
unfolding daily_loss_limit_breached live_daily_realized_pnl_usdt record_live_outcome
    append_registry_record load_registry_records
daily_loss_limit_breached_latches_example =
    daily_loss_limit_breached_latches integer_laws lost (pos 50) (negsuc 9) (negsuc 69)
      (loss_row (pos 0)) "2026-01-01" {ledger' = lost_more} refl refl refl refl refl

abbrev no_orders : File CanaryOrder
no_orders = record { lines = []; ended = true }

abbrev one_order : File CanaryOrder
one_order = record {
  lines = row (canary_order (some "RECONCILED") none none none [] "2026-01-01T00:00:00Z") ∷ [];
  ended = true;
}

record_canary_order-count_example :
    clean_canary_order_count one_order
    ≡ clean_canary_order_count no_orders
      + (if is_reconciled (some "RECONCILED") && is_empty [] then 1 else 0)
unfolding record_canary_order append_registry_record load_registry_records
record_canary_order-count_example =
    record_canary_order-count no_orders (some "RECONCILED") none none none [] "2026-01-01T00:00:00Z"
      {orders = []} {file' = one_order} refl refl

abbrev thresholds : Thresholds ℤ
thresholds = record {
  warn_window = 20;
  warn_expectancy_r = pos 0;
  warn_profit_factor = pos 1;
  probation_window = 30;
  probation_expectancy_r = negsuc 4;
  probation_profit_factor = pos 1;
  probation_win_rate_drop = pos 15;
  suspend_window = 50;
  suspend_expectancy_r = pos 0;
  suspend_profit_factor = pos 1;
  suspend_consecutive = 2;
  archive_min_trades = 100;
  archive_expectancy_r = pos 0;
  archive_consecutive = 3;
}

abbrev losing : Performance ℤ
losing = record {
  rolling = λ n.
      some (record {
        window_full = true;
        expectancy_r = some (negsuc 9);
        profit_factor = some (pos 0);
      });
  live_vs_backtest_win_rate_drop = none;
  lifetime_trade_count = 60;
  lifetime_expectancy_r = some (negsuc 9);
}

run-terminal_example :
    let mid = run thresholds paper_active 0 ((losing ∷ losing ∷ []) ++ losing ∷ []) in
    let d = evaluate_lifecycle thresholds mid.0 losing mid.1 in
    (mid.0 ≡ suspended)
    × (d.new_status ≡ suspended)
    × (d.status_changed ≡ false)
    × (d.is_recovery ≡ false)
    × (d.new_entry_blocked ≡ true)
    × (d.requires_manual_reactivation ≡ true)
unfolding run evaluate_lifecycle is_terminal
run-terminal_example =
    run-terminal thresholds paper_active suspended 0 (losing ∷ losing ∷ []) (losing ∷ []) losing
      refl (inl refl)

run-blocked_example : (3 ≤ 0 + 2) ⊎ (2 ≤ 0 + 2)
unfolding run evaluate_lifecycle is_terminal
run-blocked_example = run-blocked thresholds paper_active 0 (losing ∷ losing ∷ []) refl refl
