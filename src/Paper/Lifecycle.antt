-- ===== src/Paper/Lifecycle.antt =====
-- The single paper slot over a history of entries and settlements (paper_position_kernel.py).
use crypto_ai_system.Common.{
  ℕ, ◌+◌, String, Bool, true, false, Option, none, some, List, [], ◌≡◌, refl, arith, length,
  length-append, ◌∷◌,
}
use crypto_ai_system.Float.{Float, nought}
use crypto_ai_system.Trade.{Candle, Plan, is_filled, entry_risk, max_hold_bars}
use crypto_ai_system.Paper.Model.{
  Execution, Reconciliation, Position, Slot, junk, closed, opened, Outcome, Services, Settled,
  load_open, Exit,
}
use crypto_ai_system.Paper.Entry.{build_position}
use crypto_ai_system.Paper.Settle.{
  settle_open_position, finish_settlement, settle_trade_plan, outcome_of, settle_by_market,
}
use crypto_ai_system.Paper.Exits.{SameTerms, advance_holding-SameTerms}

abbrev pub open_count {ℓ} : {A : Type ℓ} → Option A → ℕ
open_count none = 0
open_count (some _) = 1

module _ {F : Type 0} ⦃f : Float F⦄ where
  -- What holds of every position that the kernel stores.
  pub record IsTracked (p : Position F) : Type 0 where
    pub priced : f.le p.entry_price nought ≡ false
    pub sized : f.le p.quantity nought ≡ false
    pub risked : p.risk ≡ entry_risk p.entry_price p.stop_loss

  abbrev pub SlotIsTracked : Slot F → Type 0
  SlotIsTracked (opened p) = IsTracked p
  SlotIsTracked _ = Unit

  -- An entry opens a position only from a fill, with a price and a quantity above zero, and with no
  -- candle counted.
  pub build_position-IsTracked :
      (services : Services F) (ex : Execution F) (rec : Reconciliation) (cycle : Option String)
      {p : Position F}
      → build_position services ex rec cycle ≡ some p
      → (is_filled ex.fill_status ≡ true) × IsTracked p × (p.holding_candles ≡ 0)
  unfolding build_position
  build_position-IsTracked services ex rec cycle h = ground arith

  pub settle_trade_plan-SameTerms :
      (plan : Plan F) (c : Option (Candle F)) (close : Option F) (max_hold : ℕ) (manual : Bool)
      → SameTerms (settle_trade_plan plan c close max_hold manual).0 plan
  unfolding settle_trade_plan
  settle_trade_plan-SameTerms plan c (some close) max_hold true = ground arith
  settle_trade_plan-SameTerms plan c none max_hold true =
      unfold settle_by_market in advance_holding-SameTerms plan c
  settle_trade_plan-SameTerms plan c (some close) max_hold false =
      unfold settle_by_market in advance_holding-SameTerms plan c
  settle_trade_plan-SameTerms plan c none max_hold false =
      unfold settle_by_market in advance_holding-SameTerms plan c

  module _ (services : Services F) (candle : Option (Candle F)) (last_close : Option F)
      (manual : Bool) (timeframe : String) (regime : Option String) where
    abbrev pub settle : Slot F → List (Outcome F) → Settled F
    settle = settle_open_position services candle last_close manual timeframe regime

    -- The slot and the outcomes before and after.
    abbrev pub Accounts : Slot F → List (Outcome F) → Settled F → Type 0
    Accounts slot outcomes r =
        (open_count (load_open r.slot) + length r.outcomes
          ≡ open_count (load_open slot) + length outcomes)
        × (length r.outcomes ≡ length outcomes + open_count r.summary)
        × (SlotIsTracked slot → SlotIsTracked r.slot)

    finish_settlement-Accounts :
        (p : Position F) (outcomes : List (Outcome F)) (counted : Plan F) (exit : Option (Exit F))
        → SameTerms counted p.plan
        → Accounts
            (opened p)
            outcomes
            (finish_settlement services p last_close regime outcomes (counted, exit))
    unfolding finish_settlement load_open
    finish_settlement-Accounts p outcomes counted none same = ground arith
    finish_settlement-Accounts p outcomes counted (some e) same = (
      omega (arith, length-append outcomes (outcome_of p e regime none ∷ [])),
      omega (arith, length-append outcomes (outcome_of p e regime none ∷ [])),
      λ _. tt,
    )

    -- A settlement either closes the position, with one outcome and one summary, or leaves it with
    -- its terms; an empty slot stays as it is.
    pub settle_open_position-Accounts :
        (slot : Slot F) (outcomes : List (Outcome F))
        → Accounts slot outcomes (settle slot outcomes)
    unfolding settle_open_position
    settle_open_position-Accounts junk outcomes = (refl, omega arith, λ h. h)
    settle_open_position-Accounts closed outcomes = (refl, omega arith, λ h. h)
    settle_open_position-Accounts (opened p) outcomes =
        let settled = settle_trade_plan p.plan candle last_close (max_hold_bars timeframe) manual in
        finish_settlement-Accounts p outcomes settled.0 settled.1
          (settle_trade_plan-SameTerms p.plan candle last_close (max_hold_bars timeframe) manual)
