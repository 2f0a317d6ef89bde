-- ===== src/PreOrder/Evaluate.antt =====
-- The rest of the checks of the pre-order risk gate, and its result (pre_order_risk_gate.py). The
-- reasons stand in the order of the checks and may repeat; the notes of the checks, the identifier
-- and the hash of the result are left out.
use crypto_ai_system.Common.{
  when, ℕ, String, Bool, false, not, ◌&&◌, ◌||◌, Option, none, some, List, [], ◌∷◌, concat, get_or,
  if◌then◌else◌,
}
use crypto_ai_system.Common.Int.{pos, negsuc}
use crypto_ai_system.Float.{Float, nought}
use crypto_ai_system.Backtest.Metrics.{max_of}
use crypto_ai_system.PreOrder.{
  Value, Block, Status, Python, is_stage, is_true, is_false, is_given, has_key, is_text,
  truthy_value, to_float, status_for_blocks, is_pass,
}
use crypto_ai_system.PreOrder.Checks.{
  Inputs, order_notional_usdt, profile_hash_block, id_blocks, stage_of, data_blocks, limit_blocks,
  market_blocks,
}

pub data RiskLevel : Type 0 where
  normal reduced blocked : RiskLevel

pub record GateResult (F : Type 0) : Type 0 where
  pub status : Status
  pub stage : List ℕ
  pub approved : Bool
  pub risk_level : RiskLevel
  pub allow_new_position : Bool
  pub allow_long : Bool
  pub allow_short : Bool
  pub block_reasons : List Block
  pub order_notional_usdt : Option F

module _ {F : Type 0} ⦃f : Float F⦄ where
  abbrev below : Option F → F → Bool
  below none bound = false
  below (some x) bound = f.lt x bound

  abbrev above : Option F → F → Bool
  above none bound = false
  above (some x) bound = f.lt bound x

  -- The margin that an order needs.
  abbrev required_margin : Inputs F → Option F → F
  required_margin x notional =
      let own = x.runtime "required_margin_usdt" in
      let tiny = f.div (f.of_int (pos 1)) (f.of_int (pos 1000000000)) in
      let leverage = max_of (to_float (x.runtime "leverage") (f.of_int (pos 1))) tiny in
      if truthy_value own then to_float own nought else f.div (get_or notional nought) leverage

  abbrev short_of : F → F → Bool
  short_of available required = f.lt available nought || f.lt available required

  unfoldable pub size_blocks : Inputs F → List Block
  unfolding order_notional_usdt to_float
  size_blocks x =
      let c = x.config in
      let notional = order_notional_usdt x in
      concat (
        when
          (is_given (c "min_order_notional_usdt")
            && below notional (to_float (c "min_order_notional_usdt") nought))
          Block.min_order_size
        ∷ when
            (is_given (c "max_order_notional_usdt")
              && above notional (to_float (c "max_order_notional_usdt") nought))
            Block.max_order_notional
        ∷ when
            (is_true (c "require_min_order_size_check")
              && not (is_given (c "min_order_notional_usdt"))
              && not (truthy_value (x.market "min_order_size_check_passed")))
            Block.min_order_size
        ∷ [])

  abbrev lacks_balance : Option F → F → Bool
  lacks_balance none available = false
  lacks_balance (some notional) available = short_of available notional

  unfoldable pub account_blocks : Inputs F → List Block
  unfolding order_notional_usdt to_float
  account_blocks x =
      let c = x.config in
      let r = x.runtime in
      let m = x.market in
      let minus_one = f.of_int (negsuc 0) in
      let notional = order_notional_usdt x in
      let margin_value =
        if truthy_value (r "available_margin_usdt")
        then r "available_margin_usdt"
        else r "available_balance_usdt" in
      concat (
        when
          (is_true (c "require_fee_model")
            && not (
                truthy_value (m "fee_model")
                || is_given (m "fee_bps")
                || is_given (m "estimated_fee_usdt")))
          Block.fee_model
        ∷ when
            (is_true (c "require_margin_check")
              && short_of (to_float margin_value minus_one) (required_margin x notional))
            Block.balance_margin
        ∷ when
            (is_true (c "require_balance_check")
              && lacks_balance notional (to_float (r "available_balance_usdt") minus_one))
            Block.balance_margin
        ∷ when
            (is_given (c "max_leverage")
              && f.lt (to_float (c "max_leverage") nought)
                  (to_float (r "leverage") (f.of_int (pos 1))))
            Block.leverage_limit
        ∷ when (is_true (c "require_venue_readiness") && not (is_true (m "venue_readiness_valid")))
            Block.venue_readiness
        ∷ [])

  -- The stages that the configuration does not let execute.
  unfoldable pub stage_blocks : Inputs F → List ℕ → List Block
  stage_blocks x stage =
      let c = x.config in
      concat (
        when
          (is_stage ("signed_testnet" ∷ "testnet" ∷ []) stage
            && is_false (c "testnet_order_submission_allowed"))
          Block.stage_execution_disabled
        ∷ when
            (is_stage ("live_canary" ∷ "live" ∷ "live_scaled" ∷ []) stage
              && (not (is_true (c "live_trading_enabled"))
                  || not (is_true (c "external_order_submission_allowed"))))
            Block.stage_execution_disabled
        ∷ [])

  unfoldable pub permission_blocks : Inputs F → List Block
  permission_blocks x =
      when (is_text "blocked" (x.trade_permission "risk_level")) Block.trade_permission

  -- `bool(tp.get(key, default))`
  abbrev permitted : Value F → Bool → Bool
  permitted v default = if has_key v then truthy_value v else default

  abbrev is_side : Inputs F → String → Bool
  is_side x side = is_text side (x.decision "side") || is_text side (x.decision "direction")

  abbrev pub long_allowed : Inputs F → Bool
  long_allowed x = permitted (x.trade_permission "allow_long") (is_side x "LONG")

  abbrev pub short_allowed : Inputs F → Bool
  short_allowed x = permitted (x.trade_permission "allow_short") (is_side x "SHORT")

  abbrev pub new_allowed : Inputs F → Bool
  new_allowed x =
      permitted (x.trade_permission "allow_new_position") (is_side x "LONG" || is_side x "SHORT")

  module _ (python : Python F) where
    abbrev pub block_lists : Inputs F → List (List Block)
    block_lists x =
        id_blocks python x
        ∷ profile_hash_block x
        ∷ data_blocks python x
        ∷ limit_blocks python x
        ∷ market_blocks x
        ∷ size_blocks x
        ∷ account_blocks x
        ∷ stage_blocks x (stage_of python x)
        ∷ permission_blocks x
        ∷ []

    -- All blocks, in the order of the checks.
    unfoldable pub blocks_of : Inputs F → List Block
    unfolding id_blocks profile_hash_block data_blocks limit_blocks market_blocks size_blocks
        account_blocks stage_blocks permission_blocks
    blocks_of x = concat (block_lists x)

    unfoldable pub evaluate_pre_order_risk_gate : Inputs F → GateResult F
    unfolding blocks_of status_for_blocks is_pass stage_of
    evaluate_pre_order_risk_gate x =
        let tp = x.trade_permission in
        let status = status_for_blocks (blocks_of x) (stage_of python x) in
        let approved = is_pass status && new_allowed x && (long_allowed x || short_allowed x) in
        record {
          status = status;
          stage = stage_of python x;
          approved = approved;
          risk_level =
              if not (is_pass status)
              then RiskLevel.blocked
              else if is_text "reduced" (tp "risk_level")
              then RiskLevel.reduced
              else RiskLevel.normal;
          allow_new_position = approved;
          allow_long = approved && long_allowed x;
          allow_short = approved && short_allowed x;
          block_reasons = blocks_of x;
          order_notional_usdt = order_notional_usdt x;
        }
