-- ===== src/Tests/Risk.antt =====
-- The risk guard, the persistence of a risk-gate record, and the batch append.
use crypto_ai_system.Common.{
  Bool, all, ℕ, String, true, false, none, some, List, map, [], ◌∷◌, ◌≡◌, refl,
}
use crypto_ai_system.Common.Int.{ℤ, pos, negsuc}
use crypto_ai_system.Float.{null, num, nought, whole_float}
use crypto_ai_system.Registry.{
  File, row, blank, load_registry_records, append_registry_record, append_registry_records,
  is_canonical,
}
use crypto_ai_system.Registry.Batch.{append_each, left_by, append_registry_records-each}
use crypto_ai_system.Text.{same_text, lower, strip, codes}
use crypto_ai_system.Risk.{
  OutcomeRow, ClosedTrade, Limits, RiskStatus, closed_trades, sorted, pnl_since, drawdowns_r,
  drawdown_limit_r, day_start, week_start, run_risk_guard,
}
use crypto_ai_system.Risk.Losses.{streak_reached, run_risk_guard_allowed}
use crypto_ai_system.Guard.RiskGate.{
  LiveIntent, GateBody, GateRecord, gate_expired, intent_hash_mismatch, verify_live_risk_gate,
}
use crypto_ai_system.Guard.Persist.{GateResult, GateStore, persist_risk_gate_record, verify-persist}

abbrev two_numbers : File ℕ
two_numbers = record { lines = row 3 ∷ blank ∷ []; ended = true }

append_registry_records-each_example :
    let records : List (Bool × ℕ) = (true, 4) ∷ (false, 5) ∷ [] in
    let batch = left_by two_numbers (append_registry_records two_numbers records) in
    (all is_canonical records ≡ true → batch ≡ append_each (two_numbers, true) records)
    × (all is_canonical records ≡ false
        → (batch ≡ (two_numbers, false)) × ((append_each (two_numbers, true) records).1 ≡ false))
append_registry_records-each_example =
    append_registry_records-each two_numbers (true, 4) ((false, 5) ∷ [])

abbrev limits : Limits ℤ
limits = record {
  daily_max_loss_r = negsuc 2;
  weekly_max_loss_r = negsuc 5;
  max_consecutive_losses = 3;
  max_drawdown_pct = negsuc 999;
  risk_per_trade = pos 1;
}

abbrev closed_at : ℤ → String → ℕ → OutcomeRow ℤ
closed_at r time seconds = record {
  outcome_closed = true;
  result_R = num r;
  created_at_utc = some time;
  exit_at = some seconds;
}

-- A win and two losses, written out of the order of their times.
abbrev outcomes : List (OutcomeRow ℤ)
outcomes =
    closed_at (negsuc 0) "1970-01-08T02:00:00Z" 612000
    ∷ closed_at (pos 2) "1970-01-08T01:00:00Z" 608400
    ∷ closed_at (negsuc 0) "1970-01-08T03:00:00Z" 615600
    ∷ []

abbrev history : File (OutcomeRow ℤ)
history = record { lines = map row outcomes; ended = true }

abbrev cleared : RiskStatus ℤ
cleared = record {
  allow_new_position = true;
  daily_pnl_r = pos 0;
  weekly_pnl_r = pos 0;
  consecutive_losses = 2;
  drawdown_r = negsuc 1;
  problems = [];
}

run_risk_guard_allowed_example :
    (rows : List (OutcomeRow ℤ)) × (trades : List (ClosedTrade ℤ)) × (load_registry_records history
      ≡ some rows)
    × (closed_trades rows ≡ some trades)
    × (whole_float.le (pnl_since (day_start 620000) (sorted trades)) limits.daily_max_loss_r
        ≡ false)
    × (whole_float.le (pnl_since (week_start 620000) (sorted trades)) limits.weekly_max_loss_r
        ≡ false)
    × (streak_reached limits.max_consecutive_losses (sorted trades) ≡ false)
    × (whole_float.le
          (drawdowns_r (sorted trades)).1
          (whole_float.sub nought (drawdown_limit_r limits))
        ≡ false)
unfolding run_risk_guard load_registry_records
run_risk_guard_allowed_example =
    run_risk_guard_allowed limits 620000 history {status = cleared} refl refl

abbrev gate_result : GateResult
gate_result = record {
  risk_gate_id = some "g1";
  approved = true;
  stage = some "Live";
  profile_id = some "p1";
  expires_at = none;
  order_intent_hash = none;
}

abbrev empty_gates : GateStore
empty_gates = record { registry = record { lines = []; ended = true }; latest = none }

abbrev digest : GateBody → String
digest body = "d1"

abbrev gate_body_1 : GateBody
gate_body_1 = record {
  risk_gate_id = some "g1";
  approved = true;
  stage = some "Live";
  profile_id = some "p1";
  expires_at = some 400;
  order_intent_hash = some "i1";
}

abbrev persisted : GateStore
persisted =
    let r : GateRecord = record { body = gate_body_1; record_sha256 = some "d1" } in
    record { registry = record { lines = row r ∷ []; ended = true }; latest = some r }

-- An intent with another hash, after the time to live.
abbrev other_intent : LiveIntent ℤ
other_intent = record {
  status = none;
  symbol = some "BTCUSDT";
  quantity = num (pos 1);
  order_notional_usdt = null;
  notional_usdt = null;
  reduce_only = false;
  connectivity_test = false;
  risk_gate_id = some "g1";
  profile_id = some "p1";
  order_intent_hash = some "i2";
  order_intent_record_sha256 = none;
  client_order_id = none;
}

verify-persist_example :
    verify_live_risk_gate digest persisted.registry other_intent 401
    ≡ gate_expired ∷ intent_hash_mismatch ∷ []
unfolding load_registry_records persist_risk_gate_record append_registry_record same_text lower
    strip codes
verify-persist_example =
    verify-persist digest empty_gates {store' = persisted} {rows = []} gate_result "i1" "g1" 300 100
      401 other_intent (λ body. refl) refl refl refl refl refl refl refl refl refl refl
