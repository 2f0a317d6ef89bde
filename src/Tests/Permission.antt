-- ===== src/Tests/Permission.antt =====
-- The permission of a research signal to trade.
use crypto_ai_system.Common.{true, false, [], ◌≡◌, refl}
use crypto_ai_system.Common.Int.{ℤ, pos}
use crypto_ai_system.Float.{positive, whole_float}
use crypto_ai_system.Text.{strip, codes, same_text, lower}
use crypto_ai_system.PreOrder.{flag, text, num}
use crypto_ai_system.Permission.{Signal, Reasons, is_blocked, evaluate_trade_permission}
use crypto_ai_system.Permission.Direction.{flag_of, evaluate_trade_permission_allowed}
use crypto_ai_system.Tests.PreOrder.{python_values, empty_mapping, with_key}

-- A short entry with a reduced risk, at the size that the configuration gives.
abbrev short_signal : Signal ℤ
short_signal = record {
  signal =
      with_key "entry_side" (text "short") (with_key "entry_allowed" (flag true) empty_mapping);
  permission = with_key "risk_level" (text "reduced") empty_mapping;
  permission_given = true;
  signal_reasons = Reasons.many [];
  permission_reasons = Reasons.single (text "");
  config = with_key "trading.risk_level_reduced_position_multiplier" (num (pos 1)) empty_mapping;
}

evaluate_trade_permission_allowed_example :
    let d = evaluate_trade_permission python_values short_signal in
    (flag_of d.side d.allow_long d.allow_short ≡ true)
    × (positive d.position_size_multiplier ≡ true)
    × (is_blocked d.risk_level ≡ false)
    × (d.block_reasons ≡ [])
unfolding evaluate_trade_permission strip codes same_text lower
evaluate_trade_permission_allowed_example =
    evaluate_trade_permission_allowed python_values short_signal refl
