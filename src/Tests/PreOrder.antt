-- ===== src/Tests/PreOrder.antt =====
-- The pre-order risk gate.
use crypto_ai_system.Common.{
  String, true, false, ◌||◌, Option, none, some, [], ◌≡◌, refl, str_eq, if◌then◌else◌,
}
use crypto_ai_system.Common.Int.{ℤ, pos, leb_ℤ}
use crypto_ai_system.Float.{whole_float}
use crypto_ai_system.Text.{strip, codes, same_text, lower}
use crypto_ai_system.PreOrder.{Value, Mapping, Python, is_true, to_int, missing, flag, text, num}
use crypto_ai_system.PreOrder.Checks.{Inputs}
use crypto_ai_system.PreOrder.Evaluate.{evaluate_pre_order_risk_gate}
use crypto_ai_system.PreOrder.Approval.{evaluate_pre_order_risk_gate_approved}

abbrev integer : Value ℤ → Option ℤ
integer (num z) = some z
integer _ = none

abbrev shown : Value ℤ → String
shown (text s) = s
shown (flag b) = if b then "True" else "False"
shown _ = "None"

abbrev pub python_values : Python ℤ
python_values = record { int_of = integer; text_of = shown }

abbrev pub empty_mapping : Mapping ℤ
empty_mapping key = missing

-- The mapping with one more key.
abbrev pub with_key : String → Value ℤ → Mapping ℤ → Mapping ℤ
with_key name value rest key = if str_eq key name then value else rest key

-- One position is open, of at most two.
abbrev long_entry : Inputs ℤ
long_entry = record {
  decision = with_key "decision_id" (text "d1") (with_key "side" (text "LONG") empty_mapping);
  research_signal = with_key "research_signal_id" (text "r1") empty_mapping;
  profile = with_key "profile_id" (text "p1") (with_key "approved" (flag true) empty_mapping);
  runtime = with_key "open_positions" (num (pos 1)) empty_mapping;
  market = empty_mapping;
  config = with_key "max_open_positions" (num (pos 2)) empty_mapping;
  trade_permission = empty_mapping;
}

evaluate_pre_order_risk_gate_approved_example :
    ((evaluate_pre_order_risk_gate python_values long_entry).block_reasons ≡ [])
    × (((evaluate_pre_order_risk_gate python_values long_entry).allow_long
          || (evaluate_pre_order_risk_gate python_values long_entry).allow_short)
        ≡ true)
    × ((leb_ℤ
            (to_int python_values (long_entry.config "max_open_positions") (pos 1))
            (to_int python_values (long_entry.runtime "open_positions") (pos 0))
          ≡ false)
        × (leb_ℤ
              (to_int python_values (long_entry.config "max_consecutive_losses") (pos 3))
              (to_int python_values (long_entry.runtime "consecutive_losses") (pos 0))
            ≡ false))
    × ((is_true (long_entry.runtime "manual_kill_switch")
          || is_true (long_entry.runtime "manual_kill_switch_active"))
        ≡ false)
unfolding evaluate_pre_order_risk_gate strip codes same_text lower
evaluate_pre_order_risk_gate_approved_example =
    evaluate_pre_order_risk_gate_approved python_values long_entry refl
