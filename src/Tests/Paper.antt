-- ===== src/Tests/Paper.antt =====
-- The paper kernel on a long trade.
use crypto_ai_system.Common.{true, String, false, none, some, [], ◌∷◌, ◌≡◌, refl, arith}
use crypto_ai_system.Common.Int.{ℤ, pos, negsuc}
use crypto_ai_system.Float.{num, whole_float, to_float}
use crypto_ai_system.Trade.{OrderStatus, stop_loss}
use crypto_ai_system.Paper.Model.{Reconciliation, Execution, Position, Services, Exit}
use crypto_ai_system.Paper.Settle.{settle_trade_plan, intrabar_exit, settle_by_market}
use crypto_ai_system.Paper.Exits.{
  Triggered, closing_price, closing_result, exit_for, settle_trade_plan_sound,
  settle_trade_plan_complete,
}
use crypto_ai_system.Paper.Holding.{run, run_exits}
use crypto_ai_system.Paper.History.{Book, Step, Reach, IsSound, started, entered, Reach-IsSound}
use crypto_ai_system.Tests.Fixtures.{long_plan, flat_candle, wide_candle, long_intent}

abbrev pub services : Services ℤ
services = record {
  now = "2026-01-01T00:00:00Z";
  position_hash = λ id entry now. "p1";
  analyze = λ outcome. (some "o1", some "PERSISTED");
}

abbrev pub ids : Reconciliation
ids = record {
  research_signal_id = some "signal";
  decision_id = none;
  risk_gate_id = none;
  order_intent_id = none;
  execution_id = some "e1";
  reconciliation_id = some "r1";
}

abbrev pub fill_of : String → Execution ℤ
fill_of id = record {
  fill_status = some OrderStatus.filled;
  avg_fill_price = num (pos 100);
  filled_quantity = num (pos 2);
  intent = long_intent id;
  research_signal_id = some "signal";
  decision_id = none;
  risk_gate_id = none;
  order_intent_id = none;
  execution_id = some "e1";
}

abbrev pub fill : Execution ℤ
fill = fill_of "s1"

abbrev stopped : Exit ℤ
stopped = record { reason = stop_loss; exit_price = pos 90; result_R = negsuc 0 }

settle_trade_plan_sound_example :
    Triggered long_plan wide_candle (pos 110) 48 false stop_loss
    × (pos 90 ≡ closing_price long_plan (pos 110) stop_loss)
    × (negsuc 0 ≡ closing_result long_plan (pos 110) stop_loss)
unfolding settle_trade_plan settle_by_market intrabar_exit to_float
settle_trade_plan_sound_example =
    settle_trade_plan_sound long_plan wide_candle (pos 110) 48 false {e = stopped} refl

settle_trade_plan_complete_example :
    (settle_trade_plan long_plan (some wide_candle) (some (pos 110)) 48 false).1
    ≡ some (exit_for long_plan (pos 110) stop_loss)
unfolding to_float
settle_trade_plan_complete_example =
    settle_trade_plan_complete long_plan wide_candle (pos 110) 48 false stop_loss (refl, refl, refl)

run_exits_example : (e : Exit ℤ) × (run 1 long_plan ((flat_candle, pos 101) ∷ []) ≡ some e)
run_exits_example =
    run_exits 1 long_plan ((flat_candle, pos 101) ∷ []) ("2026-01-01T00:00:00Z", refl, refl, tt)
      (omega arith) (omega arith)

abbrev pub fresh : Position ℤ
fresh = record {
  plan = long_plan;
  quantity = pos 2;
  opened_at_utc = "2026-01-01T00:00:00Z";
  cycle_id = some "c1";
  research_signal_id = some "signal";
  decision_id = none;
  risk_gate_id = none;
  order_intent_id = none;
  execution_id = some "e1";
  reconciliation_id = some "r1";
  attribution = (long_intent "s1").attribution;
  entry_reconciliation = ids;
  position_id = "p1";
  last_seen_price = none;
  book_id = none;
}

abbrev one_entry : Book ℤ
one_entry = entered services fill ids (some "c1") true started

-- The second entry is ignored, as a position is open.
abbrev two_entries : Book ℤ
two_entries = entered services fill ids (some "c2") true one_entry

history : Reach two_entries
history =
    Reach.next (Reach.next Reach.start (Step.enter services fill ids (some "c1") true))
      (Step.enter services fill ids (some "c2") true)

Reach-IsSound_example : IsSound two_entries
Reach-IsSound_example = Reach-IsSound history
