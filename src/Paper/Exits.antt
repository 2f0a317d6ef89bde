-- ===== src/Paper/Exits.antt =====
-- Which exit `settle_trade_plan` of paper_position_kernel.py takes, and at what price and result.
use crypto_ai_system.Common.{
  ℕ, ◌≤◌, Bool, true, false, Option, none, some, ◌≡◌, refl, arith, leb→le, le→leb,
}
use crypto_ai_system.Float.{Float, positive, to_float}
use crypto_ai_system.Common.Int.{negsuc}
use crypto_ai_system.Trade.{
  Direction, Reason, manual_exit, stop_loss, take_profit, time_exit, Candle, Plan, result_r,
  favourable_move,
}
use crypto_ai_system.Paper.Model.{Exit}
use crypto_ai_system.Paper.Settle.{
  advance_holding, intrabar_exit, exit_at_close, settle_by_market, settle_trade_plan,
}

module _ {F : Type 0} ⦃f : Float F⦄ where
  -- The candle's range reaches the stop, or the target.
  abbrev pub reaches_stop : Plan F → Candle F → Bool
  reaches_stop plan c = elim plan.direction [
    | Direction.long ↦ f.le (to_float c.low) plan.stop_loss
    | Direction.short ↦ f.le plan.stop_loss (to_float c.high)
  ]

  abbrev pub reaches_target : Plan F → Candle F → Bool
  reaches_target plan c = elim plan.direction [
    | Direction.long ↦ f.le plan.take_profit (to_float c.high)
    | Direction.short ↦ f.le (to_float c.low) plan.take_profit
  ]

  -- What has to hold for an exit of each reason.
  abbrev pub Triggered : Plan F → Candle F → F → ℕ → Bool → Reason → Type 0
  Triggered plan c close max_hold manual manual_exit = manual ≡ true
  Triggered plan c close max_hold manual stop_loss =
      (manual ≡ false) × (positive plan.risk ≡ true) × (reaches_stop plan c ≡ true)
  Triggered plan c close max_hold manual take_profit =
      (manual ≡ false)
      × (positive plan.risk ≡ true)
      × (reaches_stop plan c ≡ false)
      × (reaches_target plan c ≡ true)
  Triggered plan c close max_hold manual time_exit =
      (manual ≡ false)
      × (intrabar_exit plan c ≡ none)
      × (max_hold ≤ (advance_holding plan (some c)).holding_candles)

  -- The price and the result that each reason closes at.
  abbrev pub closing_price : Plan F → F → Reason → F
  closing_price plan close stop_loss = plan.stop_loss
  closing_price plan close take_profit = plan.take_profit
  closing_price plan close _ = close

  abbrev pub closing_result : Plan F → F → Reason → F
  closing_result plan close stop_loss = f.of_int (negsuc 0)
  closing_result plan close take_profit =
      f.div (favourable_move plan.direction plan.entry_price plan.take_profit) plan.risk
  closing_result plan close _ = result_r plan.direction plan.entry_price close plan.risk

  -- What the exit of a plan is decided and priced by.
  pub record SameTerms (a b : Plan F) : Type 0 where
    pub direction : a.direction ≡ b.direction
    pub entry_price : a.entry_price ≡ b.entry_price
    pub stop_loss : a.stop_loss ≡ b.stop_loss
    pub take_profit : a.take_profit ≡ b.take_profit
    pub risk : a.risk ≡ b.risk

  pub advance_holding-SameTerms :
      (plan : Plan F) (c : Option (Candle F)) → SameTerms (advance_holding plan c) plan
  unfolding advance_holding
  advance_holding-SameTerms plan none = ground arith
  advance_holding-SameTerms plan (some c) = ground arith

  -- An exit on a candle with a last close is one whose trigger held, at the price and result of
  -- its reason.
  pub settle_trade_plan_sound :
      (plan : Plan F) (c : Candle F) (close : F) (max_hold : ℕ) (manual : Bool) {e : Exit F}
      → (settle_trade_plan plan (some c) (some close) max_hold manual).1 ≡ some e
      → Triggered plan c close max_hold manual e.reason
        × (e.exit_price ≡ closing_price plan close e.reason)
        × (e.result_R ≡ closing_result plan close e.reason)
  unfolding settle_trade_plan
  settle_trade_plan_sound plan c close max_hold true h = ground arith
  settle_trade_plan_sound plan c close max_hold false h =
      unfold intrabar_exit favourable_move settle_by_market exit_at_close result_r in
      ground (
        arith,
        advance_holding-SameTerms plan (some c),
        leb→le max_hold (advance_holding plan (some c)).holding_candles,
      )

  abbrev pub exit_for : Plan F → F → Reason → Exit F
  exit_for plan close r = record {
    reason = r;
    exit_price = closing_price plan close r;
    result_R = closing_result plan close r;
  }

  -- A reason whose trigger holds is the one that the plan exits for; so the triggers exclude one
  -- another, and a candle that reaches both levels closes at the stop with a result of -1.
  pub settle_trade_plan_complete :
      (plan : Plan F) (c : Candle F) (close : F) (max_hold : ℕ) (manual : Bool) (r : Reason)
      → Triggered plan c close max_hold manual r
      → (settle_trade_plan plan (some c) (some close) max_hold manual).1
        ≡ some (exit_for plan close r)
  unfolding settle_trade_plan intrabar_exit favourable_move settle_by_market exit_at_close result_r
  settle_trade_plan_complete plan c close max_hold true manual_exit h = refl
  settle_trade_plan_complete plan c close max_hold false manual_exit h = ground arith
  settle_trade_plan_complete plan c close max_hold true _ h = ground arith
  settle_trade_plan_complete plan c close max_hold false _ h = ground (
    arith,
    advance_holding-SameTerms plan (some c),
    le→leb max_hold (advance_holding plan (some c)).holding_candles,
  )
