-- ===== src/Tests/Submit.antt =====
-- The guarded submission of an entry whose answer is lost, and of a close.
use crypto_ai_system.Common.{
  ◌+◌, ◌≤◌, String, true, false, none, some, [], ◌∷◌, ◌≡◌, ◌⊎◌, refl, arith,
}
use crypto_ai_system.Common.Int.{ℤ, pos}
use crypto_ai_system.Float.{Scalar, num, whole_float}
use crypto_ai_system.Registry.{row, load_registry_records}
use crypto_ai_system.Ledger.{daily_loss_limit_breached, live_daily_realized_pnl_usdt}
use crypto_ai_system.Text.{codes, lower, strip, same_text, contains}
use crypto_ai_system.Guard.Promotion.{canary_order, live_promotion_ready}
use crypto_ai_system.Guard.RiskGate.{LiveIntent, GateBody, GateRecord, verify_live_risk_gate}
use crypto_ai_system.Guard.Terms.{Settings, Evidence, Counter, ready, count_today}
use crypto_ai_system.Guard.Final.{notional_of, evaluate_live_order_final_guard}
use crypto_ai_system.Guard.Clearance.{IsCleared, evaluate_live_order_final_guard-approved}
use crypto_ai_system.Guard.Bounds.{IsBounded}
use crypto_ai_system.Submit.Retry.{Answer, classify_exchange_error}
use crypto_ai_system.Submit.Orders.{
  Adapter, World, submit_live_strategy_order, submit_live_close_order,
}
use crypto_ai_system.Submit.Budget.{
  of_result, performed_count, run, run-within_budget, submit_live_strategy_order-counted,
  submit_live_strategy_order-guarded, submit_live_close_order-guarded,
}

abbrev pub settings : Settings ℤ
settings = record {
  order_enabled = true;
  place_order_enabled = true;
  confirmation_phrase = "yes";
  confirmation = "yes";
  manual_kill_switch = false;
  daily_loss_limit_usdt = pos 50;
  min_clean_canary_orders = 1;
  base_url_host = some "fapi.binance.com";
  api_key = "key";
  api_secret = "secret";
  max_order_notional_usdt = pos 100;
  absolute_max_notional_usdt = pos 200;
  max_daily_order_count = 1;
  max_open_notional_usdt = pos 150;
}

abbrev pub sha256 : GateBody → String
sha256 body = "sha"

abbrev gate : GateRecord
gate = record {
  body = record {
    risk_gate_id = some "g1";
    approved = true;
    stage = some " LIVE";
    profile_id = some "profile";
    expires_at = some 1000;
    order_intent_hash = some "hash";
  };
  record_sha256 = some "sha";
}

abbrev pub evidence : Evidence ℤ
evidence = record {
  counter = Counter.not_an_object;
  day = "2026-01-01";
  now = 900;
  ledger = record { lines = []; ended = false };
  canary_orders = record {
    lines = row (canary_order (some "RECONCILED") none none none [] "2026-01-01T00:00:00Z") ∷ [];
    ended = true;
  };
  gates = record { lines = row gate ∷ []; ended = true };
}

abbrev pub intent : LiveIntent ℤ
intent = record {
  status = some "ORDER_INTENT_CREATED";
  symbol = some "BTCUSDT";
  quantity = num (pos 1);
  order_notional_usdt = Scalar.null;
  notional_usdt = num (pos 80);
  reduce_only = false;
  connectivity_test = false;
  risk_gate_id = some "g1";
  profile_id = some "profile ";
  order_intent_hash = some "hash";
  order_intent_record_sha256 = none;
  client_order_id = some "open1";
}

abbrev pub world : World ℤ
world = record { evidence = evidence; sent = [] }

-- The submit times out, and so does the query after it.
abbrev silent : Adapter ℤ
silent = record {
  submit_order = λ sent i. record {
    submitted = false;
    classification = some (classify_exchange_error none (some "ReadTimeout"));
    exchange_order_id = none;
    client_order_id = i.client_order_id;
  };
  query_order = λ sent symbol id. Answer.no_answer;
}

evaluate_live_order_final_guard-approved_example :
    IsCleared sha256 settings evidence intent (pos 60)
unfolding evaluate_live_order_final_guard daily_loss_limit_breached live_daily_realized_pnl_usdt
    load_registry_records live_promotion_ready canary_order same_text lower codes notional_of
    count_today verify_live_risk_gate strip
evaluate_live_order_final_guard-approved_example =
    evaluate_live_order_final_guard-approved sha256 settings evidence intent (pos 60)
      {v = record { status = ready; approved = true; blocks = []; repairs = [] }} refl refl

run-within_budget_example :
    let (results, last) =
      run sha256 settings silent world ((intent, pos 60) ∷ (intent, pos 60) ∷ []) in
    (count_today last.evidence.counter last.evidence.day
      ≡ count_today Counter.not_an_object "2026-01-01" + performed_count results)
    × (count_today last.evidence.counter last.evidence.day ≤ 1)
unfolding count_today
run-within_budget_example =
    run-within_budget sha256 settings silent world ((intent, pos 60) ∷ (intent, pos 60) ∷ [])
      (omega arith)

submit_live_strategy_order-counted_example :
    let (result, after) = submit_live_strategy_order sha256 settings silent world intent (pos 60) in
    (after.evidence.day ≡ "2026-01-01")
    × (of_result result ≡ 1)
    × (count_today after.evidence.counter after.evidence.day
        ≡ count_today Counter.not_an_object "2026-01-01" + 1)
unfolding evaluate_live_order_final_guard daily_loss_limit_breached live_daily_realized_pnl_usdt
    load_registry_records live_promotion_ready canary_order same_text lower codes notional_of
    count_today verify_live_risk_gate strip classify_exchange_error contains
submit_live_strategy_order-counted_example =
    submit_live_strategy_order-counted sha256 settings silent world intent (pos 60)

submit_live_strategy_order-guarded_example :
    let (result, after) = submit_live_strategy_order sha256 settings silent world intent (pos 60) in
    ((after ≡ world) × (of_result result ≡ 0)) ⊎ IsCleared sha256 settings evidence intent (pos 60)
submit_live_strategy_order-guarded_example =
    submit_live_strategy_order-guarded sha256 settings silent world intent (pos 60)

submit_live_close_order-guarded_example :
    let (result, after) = submit_live_close_order settings silent world intent in
    (after.evidence ≡ evidence)
    × (((after ≡ world) × (result.external_order_submission_performed ≡ false))
        ⊎ (IsBounded settings intent × (intent.reduce_only ≡ true)))
submit_live_close_order-guarded_example =
    submit_live_close_order-guarded settings silent world intent
