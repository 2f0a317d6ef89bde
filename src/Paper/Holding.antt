-- ===== src/Paper/Holding.antt =====
-- The candle count of paper_position_kernel.py: it counts distinct candles, and a position that is
-- shown enough of them is closed.
use crypto_ai_system.Common.{
  ℕ, ◌+◌, ◌≤◌, ◌<◌, String, false, Option, none, some, get_or, List, [], ◌∷◌, ◌≡◌, refl, arith,
  str_eq, length, Option-cases, inl, inr,
}
use text.Mathlib.TextPositions.{eq_refl}
use crypto_ai_system.Float.{Float}
use crypto_ai_system.Trade.{Candle, Plan}
use crypto_ai_system.Paper.Model.{Exit}
use crypto_ai_system.Paper.Settle.{advance_holding, first_exit, settle_by_market, settle_trade_plan}

module _ {F : Type 0} ⦃f : Float F⦄ where
  -- Settling again on a candle that has a timestamp and was counted counts nothing.
  pub advance_holding_idem :
      (plan : Plan F) (c : Candle F) {ts : String}
      → c.timestamp ≡ some ts
      → advance_holding (advance_holding plan (some c)) (some c) ≡ advance_holding plan (some c)
  unfolding advance_holding
  advance_holding_idem plan c {ts} h = ground (arith, eq_refl ts)

  -- One cycle after another, each with its candle and the last close, until the plan exits.
  unfoldable pub run : ℕ → Plan F → List (Candle F × F) → Option (Exit F)
  run max_hold plan [] = none
  run max_hold plan ((c, close) ∷ rest) =
      let settled = settle_trade_plan plan (some c) (some close) max_hold false in
      first_exit settled.1 (run max_hold settled.0 rest)

  -- Every candle has a timestamp, and not that of the candle counted before it.
  abbrev pub AreDistinct : Option String → List (Candle F × F) → Type 0
  AreDistinct last [] = Unit
  AreDistinct last ((c, close) ∷ rest) =
      (ts : String) × (c.timestamp ≡ some ts)
      × (str_eq ts (get_or last "") ≡ false)
      × AreDistinct (some ts) rest

  abbrev counts_one : Plan F → String → Plan F
  counts_one plan ts = record plan {
    holding_candles = plan.holding_candles + 1;
    last_counted_candle_ts = some ts;
  }

  advance_holding_fresh :
      (plan : Plan F) (c : Candle F) (ts : String)
      → c.timestamp ≡ some ts
      → str_eq ts (get_or plan.last_counted_candle_ts "") ≡ false
      → advance_holding plan (some c) ≡ counts_one plan ts
  unfolding advance_holding
  advance_holding_fresh plan c ts h fresh = ground arith

  settle_trade_plan_counts :
      (plan : Plan F) (c : Candle F) (close : F) (max_hold : ℕ)
      → (settle_trade_plan plan (some c) (some close) max_hold false).0
        ≡ advance_holding plan (some c)
  unfolding settle_trade_plan
  settle_trade_plan_counts plan c close max_hold = refl

  settle_trade_plan_held :
      (plan : Plan F) (c : Candle F) (close : F) (max_hold : ℕ)
      → (settle_trade_plan plan (some c) (some close) max_hold false).1 ≡ none
      → (advance_holding plan (some c)).holding_candles < max_hold
  unfolding settle_trade_plan settle_by_market
  settle_trade_plan_held plan c close max_hold h = ground arith

  -- A position that is shown `max_hold` distinct candles, those it has counted included, each with
  -- a last close, is closed by then.
  pub run_exits :
      (max_hold : ℕ) (plan : Plan F) (candles : List (Candle F × F))
      → AreDistinct plan.last_counted_candle_ts candles
      → plan.holding_candles < max_hold
      → max_hold ≤ plan.holding_candles + length candles
      → (e : Exit F) × (run max_hold plan candles ≡ some e)
  unfolding run
  run_exits max_hold plan [] d below enough = absurd (omega arith)
  run_exits max_hold plan ((c, close) ∷ rest) (ts, at, fresh, later) below enough =
      let counted = advance_holding_fresh plan c ts at fresh in
      let same = settle_trade_plan_counts plan c close max_hold in
      elim (Option-cases (settle_trade_plan plan (some c) (some close) max_hold false).1) [
        | inr (e, exits) ↦ (e, rw (exits, first_exit))
        | inl open_still ↦
            let held = settle_trade_plan_held plan c close max_hold open_still in
            rw (open_still, first_exit, same, counted)
              (run_exits max_hold (counts_one plan ts) rest later (ground arith) (ground arith))
      ]
