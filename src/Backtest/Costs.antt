-- ===== src/Backtest/Costs.antt =====
-- Fills, levels, sizes and settlements under the costs of a backtest
-- (src/crypto_ai_system/backtesting/cost_model.py, src/crypto_ai_system/strategy/risk.py).
use crypto_ai_system.Common.{Bool, true, false, if◌then◌else◌}
use crypto_ai_system.Common.Int.{pos}
use crypto_ai_system.Float.{Float, nought}
use crypto_ai_system.Trade.{Direction}

pub record CostModel (F : Type 0) : Type 0 where
  pub taker_fee_bps : F
  pub slippage_bps : F

pub data Action : Type 0 where
  entry exit : Action

pub record TradeSettlement (F : Type 0) : Type 0 where
  pub gross_pnl : F
  pub net_pnl : F
  pub fees : F
  pub slippage_cost : F
  pub r_multiple : F
  pub fee_cost_r : F
  pub slippage_cost_r : F

abbrev is_adverse_up : Direction → Action → Bool
is_adverse_up Direction.long entry = true
is_adverse_up Direction.long exit = false
is_adverse_up Direction.short entry = false
is_adverse_up Direction.short exit = true

module _ {F : Type 0} ⦃f : Float F⦄ where
  abbrev bps : F
  bps = f.of_int (pos 10000)

  unfoldable pub fill_price : CostModel F → F → Direction → Action → F
  fill_price cost mid side action =
      let one = f.of_int (pos 1) in
      let slip = f.div cost.slippage_bps bps in
      f.mul mid (if is_adverse_up side action then f.add one slip else f.sub one slip)

  unfoldable pub fee : CostModel F → F → F → F
  fee cost price qty = f.div (f.mul (f.abs (f.mul price qty)) cost.taker_fee_bps) bps

  unfoldable pub stop_price : F → F → Direction → F → F
  stop_price entry_fill atr Direction.long stop_atr = f.sub entry_fill (f.mul stop_atr atr)
  stop_price entry_fill atr Direction.short stop_atr = f.add entry_fill (f.mul stop_atr atr)

  unfoldable pub target_price : F → F → Direction → F → F
  target_price entry_fill atr Direction.long target_atr = f.add entry_fill (f.mul target_atr atr)
  target_price entry_fill atr Direction.short target_atr = f.sub entry_fill (f.mul target_atr atr)

  -- `calculate_position_size`: the quantity, the amount at risk and the risk of a unit.
  unfoldable pub size_position : F → F → F → F → F × F × F
  size_position equity risk_pct entry_fill stop =
      let risk_amount = f.mul equity risk_pct in
      let risk_per_unit = f.abs (f.sub entry_fill stop) in
      if f.le risk_per_unit nought
      then (nought, risk_amount, risk_per_unit)
      else (f.div risk_amount risk_per_unit, risk_amount, risk_per_unit)

  abbrev pnl : Direction → F → F → F → F
  pnl Direction.long qty from to = f.mul (f.sub to from) qty
  pnl Direction.short qty from to = f.mul (f.sub from to) qty

  -- `x / risk_amount if risk_amount else 0.0`
  abbrev in_r : F → F → F
  in_r risk_amount x = if f.eq risk_amount nought then nought else f.div x risk_amount

  unfoldable pub settle_trade : CostModel F → Direction → F → F → F → F → TradeSettlement F
  unfolding fill_price fee
  settle_trade cost side entry_intended exit_intended qty risk_amount =
      let entry_fill = fill_price cost entry_intended side entry in
      let exit_fill = fill_price cost exit_intended side exit in
      let gross = pnl side qty entry_intended exit_intended in
      let on_fills = pnl side qty entry_fill exit_fill in
      let fees = f.add (fee cost entry_fill qty) (fee cost exit_fill qty) in
      let net = f.sub on_fills fees in
      let slippage_cost = f.sub gross on_fills in
      record {
        gross_pnl = gross;
        net_pnl = net;
        fees = fees;
        slippage_cost = slippage_cost;
        r_multiple = in_r risk_amount net;
        fee_cost_r = in_r risk_amount fees;
        slippage_cost_r = in_r risk_amount slippage_cost;
      }
