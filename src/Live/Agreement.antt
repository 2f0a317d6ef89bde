-- ===== src/Live/Agreement.antt =====
-- The live kernel decides its exits as the paper kernel does (live_position_kernel.py beside
-- paper_position_kernel.py).
use crypto_ai_system.Common.{ℕ, Bool, true, false, Option, none, some, ◌≡◌, refl, arith}
use crypto_ai_system.Float.{Float}
use crypto_ai_system.Trade.{Reason, Candle, Plan}
use crypto_ai_system.Paper.Model.{Exit}
use crypto_ai_system.Paper.Settle.{
  advance_holding as paper_holding, settle_trade_plan, settle_by_market, intrabar_exit,
  exit_at_close, candle_exit, timed_exit, first_exit,
}
use crypto_ai_system.Live.Signal.{advance_holding, candle_hit, or_time, market_signal, exit_signal}

module _ {F : Type 0} ⦃f : Float F⦄ where
  abbrev pub reason_of : Option (Exit F) → Option Reason
  reason_of none = none
  reason_of (some e) = some e.reason

  same_count :
      (plan : Plan F) (c : Option (Candle F)) → advance_holding plan c ≡ paper_holding plan c
  unfolding advance_holding paper_holding
  same_count plan none = refl
  same_count plan (some c) = ground arith

  same_hit :
      (plan : Plan F) (c : Option (Candle F)) → candle_hit plan c ≡ reason_of (candle_exit plan c)
  unfolding candle_hit candle_exit intrabar_exit
  same_hit plan none = refl
  same_hit plan (some c) = ground arith

  same_time :
      (plan : Plan F) (close : Option F) (max_hold : ℕ) (e : Option (Exit F))
      → or_time plan close max_hold (reason_of e)
        ≡ reason_of (first_exit e (timed_exit plan close max_hold))
  unfolding timed_exit exit_at_close
  same_time plan close max_hold (some e) = ground arith
  same_time plan none max_hold none = refl
  same_time plan (some close) max_hold none = ground arith

  same_market :
      (plan : Plan F) (c : Option (Candle F)) (close : Option F) (max_hold : ℕ)
      → let live = market_signal plan c close max_hold in
        let paper = settle_by_market plan c close max_hold in
        (live.0 ≡ paper.0) × (live.1 ≡ reason_of paper.1)
  unfolding settle_by_market
  same_market plan c close max_hold = (
    same_count plan c,
    rw (same_count plan c, same_hit plan c)
        (same_time (paper_holding plan c) close max_hold (candle_exit plan c)),
  )

  -- On the same plan, candle, last close and manual flag the live kernel counts the candles that
  -- the paper kernel counts, and exits for the reason that the paper kernel exits for, or for none
  -- where it has none.
  pub exit_signal-settle_trade_plan :
      (plan : Plan F) (c : Option (Candle F)) (close : Option F) (max_hold : ℕ) (manual : Bool)
      → let live = exit_signal plan c close max_hold manual in
        let paper = settle_trade_plan plan c close max_hold manual in
        (live.0 ≡ paper.0) × (live.1 ≡ reason_of paper.1)
  unfolding exit_signal settle_trade_plan exit_at_close
  exit_signal-settle_trade_plan plan c (some close) max_hold true = (refl, refl)
  exit_signal-settle_trade_plan plan c none max_hold true = same_market plan c none max_hold
  exit_signal-settle_trade_plan plan c (some close) max_hold false =
      same_market plan c (some close) max_hold
  exit_signal-settle_trade_plan plan c none max_hold false = same_market plan c none max_hold
