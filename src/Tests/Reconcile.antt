-- ===== src/Tests/Reconcile.antt =====
-- The reconciliation of an entry that is filled, and of one whose answer was lost.
use crypto_ai_system.Common.{true, false, none, some, [], ◌∷◌, ◌≡◌, refl}
use crypto_ai_system.Common.Int.{ℤ, pos}
use crypto_ai_system.Float.{num, whole_float}
use crypto_ai_system.Trade.{Side, OrderStatus, is_filled}
use crypto_ai_system.Registry.{load_registry_records}
use crypto_ai_system.Ledger.{daily_loss_limit_breached, live_daily_realized_pnl_usdt}
use crypto_ai_system.Text.{codes, lower, strip, same_text, contains}
use crypto_ai_system.Guard.Promotion.{canary_order, live_promotion_ready}
use crypto_ai_system.Guard.RiskGate.{verify_live_risk_gate}
use crypto_ai_system.Guard.Terms.{count_today}
use crypto_ai_system.Guard.Final.{float_of, notional_of, evaluate_live_order_final_guard}
use crypto_ai_system.Submit.Retry.{
  Answer, classify_exchange_error, is_ambiguous_submit, resolve_ambiguous_submit,
}
use crypto_ai_system.Submit.Orders.{
  Adapter, Result, State, order_submitted, submit_live_strategy_order, send,
}
use crypto_ai_system.Submit.Reconcile.{
  OrderResult, Answers, Tolerances, no_submission, reconcile_signed_testnet,
  run_live_strategy_reconciliation,
}
use crypto_ai_system.Submit.Confirmed.{
  IsConfirmed, written, reconcile_signed_testnet-reconciled,
  submit_live_strategy_order-unidentified,
}
use crypto_ai_system.Tests.Submit.{settings, sha256, intent, world}

abbrev exact : Tolerances ℤ
exact = record { qty_tolerance = pos 0; relative = pos 0 }

abbrev filled_one : Answers ℤ
filled_one = record {
  order_ok = true;
  order = some (record {
    status = some OrderStatus.filled;
    executed_qty = num (pos 1);
    avg_price = num (pos 80);
    order_id = some "x1";
  });
  positions_ok = true;
  positions =
      record { symbol = some "BTCUSDT"; position_amt = num (pos 1); entry_price = num (pos 80) }
      ∷ [];
  balance_ok = true;
}

abbrev bought : OrderResult ℤ
bought = record {
  external_order_submission_performed = true;
  exchange_order_id = some "x1";
  symbol = some "BTCUSDT";
  side = some Side.buy;
  quantity = num (pos 1);
  reduce_only = false;
  position_effect = none;
}

reconcile_signed_testnet-reconciled_example : IsConfirmed exact bought filled_one
unfolding reconcile_signed_testnet is_filled float_of
reconcile_signed_testnet-reconciled_example =
    reconcile_signed_testnet-reconciled exact bought filled_one refl

-- The submit times out, and the query finds the order.
abbrev lost : Adapter ℤ
lost = record {
  submit_order = λ sent i. record {
    submitted = false;
    classification = some (classify_exchange_error none (some "ReadTimeout"));
    exchange_order_id = none;
    client_order_id = i.client_order_id;
  };
  query_order = λ sent symbol id. Answer.found (some "FILLED");
}

abbrev confirmed : Result
confirmed = record {
  state = State.submitted;
  outcome = order_submitted;
  exchange_order_id = none;
  client_order_id = some "open1";
  submit_confirmed_by_query = some true;
  external_order_submission_performed = true;
}

-- The guard approves, the submit times out, and the query confirms the order.
lost_entry :
    submit_live_strategy_order sha256 settings lost world intent (pos 60)
    ≡ (some confirmed, (submit_live_strategy_order sha256 settings lost world intent (pos 60)).1)
unfolding submit_live_strategy_order send evaluate_live_order_final_guard daily_loss_limit_breached
    live_daily_realized_pnl_usdt load_registry_records live_promotion_ready canary_order same_text
    lower codes notional_of count_today verify_live_risk_gate strip is_ambiguous_submit
    classify_exchange_error contains resolve_ambiguous_submit
lost_entry = refl

submit_live_strategy_order-unidentified_example :
    (run_live_strategy_reconciliation exact
      (written confirmed intent (some Side.buy))
      (some filled_one)).status
    ≡ no_submission
submit_live_strategy_order-unidentified_example =
    submit_live_strategy_order-unidentified sha256 settings lost world intent (pos 60)
      (some Side.buy) exact filled_one {result = confirmed}
      {after = (submit_live_strategy_order sha256 settings lost world intent (pos 60)).1} refl
      lost_entry
