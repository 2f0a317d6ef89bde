-- ===== src/Guard/Final.antt =====
-- The final guards of src/crypto_ai_system/execution/live_order_final_guard.py.
use crypto_ai_system.Common.{
  ℕ, zero, suc, String, Bool, true, false, not, ◌&&◌, Option, none, some, List, [], ◌∷◌, concat,
  str_eq, leb, if◌then◌else◌,
}
use crypto_ai_system.Float.{Float, Scalar, num, nought, or_else}
use crypto_ai_system.Ledger.{daily_loss_limit_breached}
use crypto_ai_system.Guard.Promotion.{live_promotion_ready}
use crypto_ai_system.Guard.RiskGate.{LiveIntent, GateBody, is_present, when, verify_live_risk_gate}
use crypto_ai_system.Guard.Terms.{
  Block, Evidence, Repair, Settings, Verdict, blocked, cap_above_ceiling, cap_not_configured,
  connectivity_intent, count_today, daily_count_not_configured, daily_count_reached,
  expected_phrase, exposure_above_cap, exposure_cap_not_configured, host_not_allowed,
  key_not_configured, kill_switch_engaged, loss_limit_not_configured, loss_limit_reached,
  no_confirmation, no_host, no_key, not_created, not_ready, not_reduce_only, notional_above_cap,
  notional_missing, order_disabled, place_order_disabled, promotion_not_ready, quantity_missing,
  quantity_not_numeric, ready, repair_required, symbol_missing, to_reasons,
}

-- The end of both guards.
unfoldable pub verdict_of : List Block → List Repair → Verdict
verdict_of [] [] = record { status = ready; approved = true; blocks = []; repairs = [] }
verdict_of [] (r ∷ rest) = record {
  status = repair_required;
  approved = false;
  blocks = [];
  repairs = r ∷ rest;
}
verdict_of (b ∷ rest) repairs = record {
  status = blocked;
  approved = false;
  blocks = b ∷ rest;
  repairs = repairs;
}

-- The daily cap.
unfoldable pub count_blocks : ℕ → ℕ → List Block
count_blocks zero submitted = daily_count_not_configured ∷ []
count_blocks (suc n) submitted = when (leb (suc n) submitted) daily_count_reached

module _ {F : Type 0} ⦃f : Float F⦄ where
  -- `float(value)`; `none` is its TypeError or ValueError.
  unfoldable pub float_of : Scalar F → Option F
  float_of Scalar.null = none
  float_of (Scalar.text s) = f.parse s
  float_of (Scalar.num x) = some x

  -- `_confirmation_present`
  unfoldable pub confirmation_present : Settings F → Bool
  confirmation_present s =
      not (str_eq s.confirmation "")
      && str_eq s.confirmation (expected_phrase s.confirmation_phrase)

  abbrev positive_or : Option F → F → F
  positive_or none other = other
  positive_or (some x) other = if f.lt nought x then x else other

  -- `_notional_of`
  unfoldable pub notional_of : LiveIntent F → F
  unfolding float_of
  notional_of intent =
      positive_or (float_of intent.order_notional_usdt)
        (positive_or (float_of intent.notional_usdt) nought)

  unfoldable pub quantity_repair : Option F → List Repair
  quantity_repair none = quantity_not_numeric ∷ []
  quantity_repair (some x) = when (f.le x nought) quantity_missing

  -- The checks of the intent's shape.
  unfoldable pub shape_repairs : LiveIntent F → List Repair
  unfolding float_of or_else quantity_repair
  shape_repairs intent = concat (
      when (not_ready intent.status) not_created
      ∷ when (not (is_present intent.symbol)) symbol_missing
      ∷ quantity_repair (float_of (or_else intent.quantity (num nought)))
      ∷ [])

  -- The first three checks of both guards.
  unfoldable pub flag_blocks : Settings F → List Block
  unfolding confirmation_present
  flag_blocks s = concat (
      when (not s.order_enabled) order_disabled
      ∷ when (not s.place_order_enabled) place_order_disabled
      ∷ when (not (confirmation_present s)) no_confirmation
      ∷ [])

  -- The checks of the host and the key.
  unfoldable pub venue_blocks : Settings F → List Block
  venue_blocks s = concat (
      when (no_host s.base_url_host) host_not_allowed
      ∷ when (no_key s.api_key s.api_secret) key_not_configured
      ∷ [])

  unfoldable pub evaluate_live_close_guard : Settings F → LiveIntent F → Verdict
  unfolding verdict_of flag_blocks venue_blocks shape_repairs
  evaluate_live_close_guard s intent =
      verdict_of
        (concat
          (flag_blocks s ∷ venue_blocks s ∷ when (not intent.reduce_only) not_reduce_only ∷ []))
        (shape_repairs intent)

  -- `min(cap, ceiling)`
  abbrev pub effective_cap : Settings F → F
  effective_cap s =
      if f.lt s.absolute_max_notional_usdt s.max_order_notional_usdt
      then s.absolute_max_notional_usdt
      else s.max_order_notional_usdt

  unfoldable pub loss_block : F → Bool → List Block
  loss_block limit breached =
      if breached
      then (if f.le limit nought then loss_limit_not_configured ∷ [] else loss_limit_reached ∷ [])
      else []

  -- The caps on one order: the blocks on the cap and the notional.
  unfoldable pub cap_blocks : Settings F → F → List Block
  cap_blocks s notional = concat (
      when (f.le s.max_order_notional_usdt nought) cap_not_configured
      ∷ when (f.lt s.absolute_max_notional_usdt s.max_order_notional_usdt) cap_above_ceiling
      ∷ when (not (f.le notional nought) && f.lt (effective_cap s) notional) notional_above_cap
      ∷ [])

  unfoldable pub exposure_blocks : Settings F → F → F → List Block
  exposure_blocks s exposure notional =
      if f.le s.max_open_notional_usdt nought
      then exposure_cap_not_configured ∷ []
      else when (f.lt s.max_open_notional_usdt (f.add exposure notional)) exposure_above_cap

  unfoldable pub entry_repairs : LiveIntent F → List Repair
  unfolding shape_repairs
  entry_repairs intent =
      concat (when (f.le (notional_of intent) nought) notional_missing ∷ shape_repairs intent ∷ [])

  module _ (sha256 : GateBody → String) where
    -- The blocks of the entry guard, in the source's order, the breaker's answer given.
    unfoldable pub entry_blocks : Settings F → Evidence F → LiveIntent F → F → Bool → List Block
    unfolding flag_blocks loss_block venue_blocks cap_blocks count_blocks exposure_blocks
    entry_blocks s e intent exposure breached = concat (
        flag_blocks s
        ∷ when s.manual_kill_switch kill_switch_engaged
        ∷ loss_block s.daily_loss_limit_usdt breached
        ∷ when (not (live_promotion_ready s.min_clean_canary_orders e.canary_orders))
            promotion_not_ready
        ∷ when intent.connectivity_test connectivity_intent
        ∷ venue_blocks s
        ∷ cap_blocks s (notional_of intent)
        ∷ count_blocks s.max_daily_order_count (count_today e.counter e.day)
        ∷ exposure_blocks s exposure (notional_of intent)
        ∷ to_reasons (verify_live_risk_gate sha256 e.gates intent e.now)
        ∷ [])

    abbrev entry_verdict : Settings F → Evidence F → LiveIntent F → F → Option Bool → Option Verdict
    entry_verdict s e intent exposure none = none
    entry_verdict s e intent exposure (some breached) =
        some (verdict_of (entry_blocks s e intent exposure breached) (entry_repairs intent))

    -- `none` is the error of a damaged outcome registry, which the breaker raises.
    unfoldable pub evaluate_live_order_final_guard :
        Settings F → Evidence F → LiveIntent F → F → Option Verdict
    unfolding entry_blocks entry_repairs verdict_of
    evaluate_live_order_final_guard s e intent exposure =
        entry_verdict s e intent exposure
          (daily_loss_limit_breached (some s.daily_loss_limit_usdt) e.ledger e.day)
