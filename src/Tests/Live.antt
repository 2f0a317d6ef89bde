-- ===== src/Tests/Live.antt =====
-- The live kernel on a long trade whose stop is reached.
use crypto_ai_system.Common.{◌+◌, ◌≤◌, true, false, none, some, List, [], ◌∷◌, ◌≡◌, refl}
use crypto_ai_system.Common.Int.{ℤ, pos}
use crypto_ai_system.Float.{num, whole_float, to_float}
use crypto_ai_system.Trade.{OrderStatus, stop_loss, first_id}
use crypto_ai_system.Paper.Settle.{settle_trade_plan}
use crypto_ai_system.Ledger.{Ledger}
use crypto_ai_system.Live.Model.{
  Position, Slot, CloseIntent, Query, Effect, saved, Venue, Services, World, close_fill_unconfirmed,
}
use crypto_ai_system.Live.Signal.{exit_signal, candle_hit, advance_holding}
use crypto_ai_system.Live.Orders.{close_intent, is_dead}
use crypto_ai_system.Live.Close.{resolve_pending_close}
use crypto_ai_system.Live.Cycle.{
  settle_open_live_position, settle_slot, close_order, pending_close, confirm,
}
use crypto_ai_system.Live.Agreement.{reason_of, exit_signal-settle_trade_plan}
use crypto_ai_system.Live.Trace.{disk, Notes}
use crypto_ai_system.Live.Waiting.{submissions, is_refuted}
use crypto_ai_system.Live.OneClose.{pending_close_blocks, submits_at_most_once}
use crypto_ai_system.Live.Close.{pending_id}
use crypto_ai_system.Live.Fills.{Faithful}
use crypto_ai_system.Live.Settlement.{settle_open_live_position-Faithful}
use crypto_ai_system.Live.History.{Step, Reach, begin, Reach-write_ahead}
use crypto_ai_system.Tests.Fixtures.{long_plan, wide_candle, by_strategy}

abbrev services : Services ℤ
services = record {
  now = "2026-01-01T02:00:00Z";
  position_hash = λ id entry now. "p1";
  close_order_id = λ symbol d now. "close1";
}

-- The venue has the close in its book, and has not filled it.
abbrev resting : Query ℤ
resting = record {
  ok = true;
  status = some (OrderStatus.other "NEW");
  avg_price = num (pos 0);
  executed_qty = num (pos 0);
  order_id = some "x2";
  error_code = none;
}

abbrev venue : Venue ℤ
venue = record {
  submit_close = λ done i. record {
    external_order_submission_performed = true;
    status = some "LIVE_CLOSE_ORDER_SUBMITTED";
    client_order_id = some i.client_order_id;
    exchange_order_id = some "x2";
  };
  query_order = λ done symbol id. resting;
}

abbrev held : Position ℤ
held = record {
  plan = long_plan;
  quantity = pos 2;
  opened_at_utc = "2026-01-01T00:00:00Z";
  cycle_id = some "c1";
  symbol = some "BTCUSDT";
  entry_client_order_id = some "open1";
  entry_exchange_order_id = some "x1";
  research_signal_id = none;
  decision_id = none;
  risk_gate_id = none;
  order_intent_id = none;
  attribution = by_strategy "s1";
  position_id = "p1";
  last_seen_price = none;
  close_client_order_id = none;
  close_reason_pending = none;
  close_attempt_status = none;
  close_attempt_failed_at_utc = none;
}

abbrev waiting : Position ℤ
waiting = record held {
  close_client_order_id = some "close1";
  close_reason_pending = some stop_loss;
}

abbrev no_rows : Ledger ℤ
no_rows = record { lines = []; ended = false }

abbrev start : World ℤ
start = begin (Slot.opened held) no_rows

abbrev waits : World ℤ
waits = begin (Slot.opened waiting) no_rows

abbrev cycle : World ℤ → World ℤ
cycle w =
    (settle_open_live_position services none venue (some wide_candle) (some (pos 110)) false "1h"
      w).0

abbrev the_close : CloseIntent ℤ
the_close =
    close_intent services (record held { plan = advance_holding long_plan (some wide_candle) })
      stop_loss (some (pos 110))

abbrev noted : Position ℤ
noted =
    pending_close services none venue
      (record held { plan = advance_holding long_plan (some wide_candle) }) stop_loss the_close

abbrev after_close : List (Effect ℤ)
after_close =
    Effect.queried "BTCUSDT" "close1"
    ∷ saved (record noted {
      close_attempt_status = some (close_fill_unconfirmed (some (OrderStatus.other "NEW")));
      close_attempt_failed_at_utc = some "2026-01-01T02:00:00Z";
    })
    ∷ []

Reach-write_ahead_example :
    (disk (Slot.opened held) (cycle start).trace ≡ (cycle start).slot)
    × Notes (disk (Slot.opened held) (saved noted ∷ [])) the_close
unfolding settle_open_live_position settle_slot resolve_pending_close exit_signal close_order
    candle_hit to_float confirm
Reach-write_ahead_example =
    Reach-write_ahead (Slot.opened held) no_rows {w = cycle start} (saved noted ∷ []) after_close
      the_close
      (Reach.next Reach.here
        (Step.settle services none venue (some wide_candle) (some (pos 110)) false "1h"))
      refl

submits_at_most_once_example : submissions (cycle start) ≤ submissions start + 1
submits_at_most_once_example =
    submits_at_most_once services none venue (some wide_candle) (some (pos 110)) false "1h" start

pending_close_blocks_example : submissions (cycle waits) ≡ submissions waits
unfolding is_refuted is_dead first_id
pending_close_blocks_example =
    pending_close_blocks services none venue (some wide_candle) (some (pos 110)) false "1h" waiting
      waits "close1" refl refl refl

settle_open_live_position-Faithful_example :
    let x =
      settle_open_live_position services none venue
        (some wide_candle)
        (some (pos 110))
        false
        "1h"
        start in
    Faithful services none venue held (pending_id services none held) start x.0 x.1
settle_open_live_position-Faithful_example =
    settle_open_live_position-Faithful services none venue (some wide_candle) (some (pos 110)) false
      "1h" held start refl

exit_signal-settle_trade_plan_example :
    let live = exit_signal long_plan (some wide_candle) (some (pos 110)) 48 false in
    let paper = settle_trade_plan long_plan (some wide_candle) (some (pos 110)) 48 false in
    (live.0 ≡ paper.0) × (live.1 ≡ reason_of paper.1)
exit_signal-settle_trade_plan_example =
    exit_signal-settle_trade_plan long_plan (some wide_candle) (some (pos 110)) 48 false
