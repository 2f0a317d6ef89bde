-- ===== src/PreOrder/Checks.antt =====
-- The checks of the pre-order risk gate (pre_order_risk_gate.py), in the order in which they add
-- their blocks.
use crypto_ai_system.Common.{
  when, ℕ, String, Bool, true, false, not, ◌&&◌, ◌||◌, Option, none, some, List, [], ◌∷◌, concat,
  if◌then◌else◌,
}
use crypto_ai_system.Common.Int.{pos, negsuc, ltb_ℤ, leb_ℤ}
use crypto_ai_system.Float.{Float, nought, positive}
use crypto_ai_system.Text.{lower}
use crypto_ai_system.PreOrder.{
  Value, flag, Mapping, Block, Python, is_stage, is_true, is_false, is_given, has_key, is_blank,
  is_text, same_value, truthy_value, or_value, to_float, to_int, to_text, as_bool,
}

-- The mappings that the gate reads; one that is missing is empty.
pub record Inputs (F : Type 0) : Type 0 where
  pub decision : Mapping F
  pub research_signal : Mapping F
  pub profile : Mapping F
  pub runtime : Mapping F
  pub market : Mapping F
  pub config : Mapping F
  -- `research_signal["trade_permission"]`, where it is a mapping
  pub trade_permission : Mapping F

abbrev is_empty : List ℕ → Bool
is_empty [] = true
is_empty (n ∷ rest) = false

module _ {F : Type 0} ⦃f : Float F⦄ where
  -- The first of the notional keys of a source that has a value.
  abbrev notional_value : Mapping F → Value F
  notional_value source =
      if not (is_blank (source "order_notional_usdt"))
      then source "order_notional_usdt"
      else if not (is_blank (source "notional_usdt"))
      then source "notional_usdt"
      else if not (is_blank (source "notional"))
      then source "notional"
      else source "max_order_notional_usdt"

  abbrev not_negative : F → Option F
  not_negative x = if f.le nought x then some x else none

  -- `_order_notional_usdt`
  unfoldable pub order_notional_usdt : Inputs F → Option F
  unfolding to_float
  order_notional_usdt x =
      let minus_one = f.of_int (negsuc 0) in
      let d = x.decision in
      let m = x.market in
      let qty = to_float (or_value (or_value (d "quantity") (d "qty")) (d "size")) nought in
      let price =
        to_float
          (or_value
            (or_value (or_value (or_value (d "entry") (d "entry_price")) (m "price"))
              (m "mark_price"))
            (m "last_price"))
          nought in
      if not (is_blank (notional_value d))
      then not_negative (to_float (notional_value d) minus_one)
      else if not (is_blank (notional_value m))
      then not_negative (to_float (notional_value m) minus_one)
      else if not (is_blank (notional_value x.runtime))
      then not_negative (to_float (notional_value x.runtime) minus_one)
      else if positive qty && positive price
      then some (f.mul qty price)
      else none

  -- `_profile_hash_block`, without the notes of its checks.
  unfoldable pub profile_hash_block : Inputs F → List Block
  profile_hash_block x =
      let expected = or_value (x.profile "profile_sha256") (x.profile "profile_hash") in
      let actual =
        or_value (or_value (x.research_signal "profile_sha256") (x.research_signal "profile_hash"))
          (x.profile "actual_profile_sha256") in
      let required = x.config "require_profile_hash" in
      concat (
        when (truthy_value expected && truthy_value actual && not (same_value expected actual))
          Block.profile_hash
        ∷ when
            (truthy_value expected
              && not (truthy_value actual)
              && (not (has_key required) || is_true required))
            Block.profile_hash_missing
        ∷ [])

  module _ (python : Python F) where
    unfoldable pub id_blocks : Inputs F → List Block
    unfolding to_text
    id_blocks x =
        let s = x.research_signal in
        concat (
          when (is_empty (to_text python (or_value (x.decision "decision_id") (x.decision "id"))))
            Block.chain_decision_id_missing
          ∷ when (is_empty (to_text python (or_value (s "research_signal_id") (s "signal_id"))))
              Block.chain_research_signal_id_missing
          ∷ when (is_empty (to_text python (or_value (x.profile "profile_id") (s "profile_id"))))
              Block.chain_profile_id_missing
          ∷ when
              (not (
                as_bool python (
                  or_value (x.profile "approved")
                    (flag (is_text "approved" (x.profile "approval_status"))))))
              Block.approved_profile
          ∷ [])

    -- `stage`
    unfoldable pub stage_of : Inputs F → List ℕ
    stage_of x = lower (
        to_text python
          (or_value (or_value (x.config "stage") (x.runtime "stage")) (Value.text "paper")))

    abbrev marked : Inputs F → String → String → Bool
    marked x used mark =
        is_true (x.research_signal used)
        || is_true (x.market used)
        || is_true (x.research_signal mark)
        || is_true (x.market mark)

    abbrev is_candidate : Inputs F → Bool
    is_candidate x =
        is_stage ("signed_testnet" ∷ "testnet" ∷ "live_canary" ∷ "live" ∷ "live_scaled" ∷ [])
          (stage_of x)
        || as_bool python (x.config "promotion_candidate")

    unfoldable pub data_blocks : Inputs F → List Block
    unfolding stage_of as_bool to_int
    data_blocks x =
        let s = x.research_signal in
        concat (
          when
            (is_true (s "stale")
              || is_true (s "data_stale")
              || is_true (x.market "stale")
              || is_true (x.market "price_stale"))
            Block.data_freshness
          ∷ when (marked x "sample_used" "sample_flag") Block.sample_data
          ∷ when (marked x "synthetic_used" "synthetic_flag") Block.synthetic_data
          ∷ when (marked x "fallback_used" "fallback_flag") Block.fallback_data
          ∷ when
              (is_true (s "stale_optional_data")
                || ltb_ℤ (pos 0) (to_int python (s "stale_optional_source_count") (pos 0)))
              Block.optional_data_stale
          ∷ when
              (is_candidate x
                && (is_true (s "missing_optional_data_neutral")
                    || as_bool python (s "neutral_due_to_missing")))
              Block.optional_data_missing
          ∷ when (is_candidate x && is_false (s "live_candidate_eligible"))
              Block.optional_data_health
          ∷ [])

    abbrev pub limit_lists : Inputs F → List (List Block)
    limit_lists x =
        let c = x.config in
        let r = x.runtime in
        let minus_two = f.of_int (negsuc 1) in
        when
          (leb_ℤ (to_int python (c "max_open_positions") (pos 1))
            (to_int python (r "open_positions") (pos 0)))
          Block.position_limit
        ∷ when
            (f.le (to_float (r "daily_pnl_r") nought) (to_float (c "daily_loss_limit_r") minus_two))
            Block.daily_loss_limit
        ∷ when
            (is_given (c "daily_loss_limit_usdt")
              && f.le (to_float (r "daily_pnl_usdt") nought)
                  (f.sub nought (f.abs (to_float (c "daily_loss_limit_usdt") nought))))
            Block.daily_loss_limit
        ∷ when
            (leb_ℤ (to_int python (c "max_consecutive_losses") (pos 3))
              (to_int python (r "consecutive_losses") (pos 0)))
            Block.max_consecutive_loss
        ∷ when
            (is_given (c "max_daily_order_count")
              && leb_ℤ (to_int python (c "max_daily_order_count") (pos 0))
                  (to_int python (r "daily_order_count") (pos 0)))
            Block.daily_order_count
        ∷ []

    unfoldable pub limit_blocks : Inputs F → List Block
    unfolding to_float to_int
    limit_blocks x = concat (limit_lists x)

  abbrev pub market_lists : Inputs F → List (List Block)
  market_lists x =
      let c = x.config in
      let r = x.runtime in
      let m = x.market in
      let slippage = to_float (or_value (m "slippage_bps") (m "estimated_slippage_bps")) nought in
      when
        (f.lt (to_float (c "max_spread_bps") (f.of_int (pos 10))) (to_float (m "spread_bps") nought)
          || f.lt (to_float (c "max_slippage_bps") (f.of_int (pos 15))) slippage)
        Block.spread_slippage
      ∷ when
          (is_true (c "require_slippage_estimate")
            && not (has_key (m "slippage_bps") || has_key (m "estimated_slippage_bps")))
          Block.slippage_evidence_missing
      ∷ when
          (f.lt (to_float (c "max_api_error_rate") (f.div (f.of_int (pos 5)) (f.of_int (pos 100))))
            (to_float (r "api_error_rate") nought))
          Block.api_error_rate
      ∷ when
          (is_true (r "reconciliation_mismatch")
            || f.lt (to_float (c "max_reconciliation_mismatch_rate") nought)
                (to_float (r "reconciliation_mismatch_rate") nought))
          Block.reconciliation_mismatch
      ∷ when (is_true (r "manual_kill_switch") || is_true (r "manual_kill_switch_active"))
          Block.manual_kill_switch
      ∷ []

  unfoldable pub market_blocks : Inputs F → List Block
  unfolding to_float
  market_blocks x = concat (market_lists x)
