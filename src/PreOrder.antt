-- ===== src/PreOrder.antt =====
-- The pre-order risk gate (src/crypto_ai_system/trading/pre_order_risk_gate.py): its values, its
-- block reasons and the status that they give.
pub mod Checks
pub mod Evaluate
pub mod Approval
use crypto_ai_system.Common.{
  ℕ, String, Bool, true, false, not, ◌&&◌, ◌||◌, Option, none, some, List, [], ◌∷◌, ◌==◌, any,
  get_or, str_eq, if◌then◌else◌,
}
use crypto_ai_system.Common.Int.{ℤ, pos}
use crypto_ai_system.Float.{Float, nought}
use crypto_ai_system.Text.{codes, lower, strip, same_text}

-- A value of a mapping; a key that it does not have is `missing`.
pub data Value (F : Type 0) : Type 0 where
  missing null : Value F
  flag : Bool → Value F
  text : String → Value F
  num : F → Value F

abbrev pub Mapping : Type 0 → Type 0
Mapping F = String → Value F

pub data Block : Type 0 where
  chain_decision_id_missing chain_research_signal_id_missing chain_profile_id_missing : Block
  approved_profile profile_hash profile_hash_missing : Block
  data_freshness sample_data synthetic_data fallback_data : Block
  optional_data_stale optional_data_missing optional_data_health : Block
  position_limit daily_loss_limit max_consecutive_loss daily_order_count : Block
  spread_slippage slippage_evidence_missing api_error_rate reconciliation_mismatch : Block
  manual_kill_switch min_order_size max_order_notional fee_model balance_margin : Block
  leverage_limit venue_readiness stage_execution_disabled trade_permission : Block

-- `margin_check_missing` of the source is added nowhere, so it is no block here.
pub data Status : Type 0 where
  pass_review_only pass_paper pass_signed_testnet : Status
  block_invalid_canonical_id_chain block_profile_unapproved block_profile_hash_mismatch : Status
  block_profile_hash_missing block_stale_data block_fallback_or_synthetic : Status
  block_sample_data block_optional_data_health block_position_limit : Status
  block_daily_loss_limit block_consecutive_loss block_spread_slippage : Status
  block_api_error_rate block_reconciliation_mismatch block_manual_kill_switch : Status
  block_min_order_size block_max_order_notional block_daily_order_count : Status
  block_fee_model block_balance_margin block_leverage_limit : Status
  block_venue_readiness block_stage_execution_disabled block_research_permission : Status

unfoldable pub block_code : Block → ℕ
block_code chain_decision_id_missing = 0
block_code chain_research_signal_id_missing = 1
block_code chain_profile_id_missing = 2
block_code approved_profile = 3
block_code profile_hash = 4
block_code profile_hash_missing = 5
block_code data_freshness = 6
block_code sample_data = 7
block_code synthetic_data = 8
block_code fallback_data = 9
block_code optional_data_stale = 10
block_code optional_data_missing = 11
block_code optional_data_health = 12
block_code position_limit = 13
block_code daily_loss_limit = 14
block_code max_consecutive_loss = 15
block_code daily_order_count = 16
block_code spread_slippage = 17
block_code slippage_evidence_missing = 18
block_code api_error_rate = 19
block_code reconciliation_mismatch = 20
block_code manual_kill_switch = 21
block_code min_order_size = 22
block_code max_order_notional = 23
block_code fee_model = 24
block_code balance_margin = 25
block_code leverage_limit = 26
block_code venue_readiness = 27
block_code stage_execution_disabled = 28
block_code trade_permission = 29

abbrev pub same_block : Block → Block → Bool
same_block a b = block_code a == block_code b

-- `names & block_set` is not empty.
abbrev pub meets : List Block → List Block → Bool
meets names blocks = any (λ b. any (same_block b) names) blocks

-- The tests of `_status_for_blocks`, in their order.
unfoldable pub status_table : List (List Block × Status)
status_table =
    (
      chain_decision_id_missing ∷ chain_research_signal_id_missing ∷ chain_profile_id_missing ∷ [],
      block_invalid_canonical_id_chain,
    )
    ∷ (approved_profile ∷ [], block_profile_unapproved)
    ∷ (profile_hash ∷ [], block_profile_hash_mismatch)
    ∷ (profile_hash_missing ∷ [], block_profile_hash_missing)
    ∷ (data_freshness ∷ optional_data_stale ∷ [], block_stale_data)
    ∷ (fallback_data ∷ synthetic_data ∷ [], block_fallback_or_synthetic)
    ∷ (sample_data ∷ [], block_sample_data)
    ∷ (optional_data_missing ∷ optional_data_health ∷ [], block_optional_data_health)
    ∷ (position_limit ∷ [], block_position_limit)
    ∷ (daily_loss_limit ∷ [], block_daily_loss_limit)
    ∷ (max_consecutive_loss ∷ [], block_consecutive_loss)
    ∷ (spread_slippage ∷ slippage_evidence_missing ∷ [], block_spread_slippage)
    ∷ (api_error_rate ∷ [], block_api_error_rate)
    ∷ (reconciliation_mismatch ∷ [], block_reconciliation_mismatch)
    ∷ (manual_kill_switch ∷ [], block_manual_kill_switch)
    ∷ (min_order_size ∷ [], block_min_order_size)
    ∷ (max_order_notional ∷ [], block_max_order_notional)
    ∷ (daily_order_count ∷ [], block_daily_order_count)
    ∷ (fee_model ∷ [], block_fee_model)
    ∷ (balance_margin ∷ [], block_balance_margin)
    ∷ (leverage_limit ∷ [], block_leverage_limit)
    ∷ (venue_readiness ∷ [], block_venue_readiness)
    ∷ (stage_execution_disabled ∷ [], block_stage_execution_disabled)
    ∷ (trade_permission ∷ [], block_research_permission)
    ∷ []

abbrev pub first_status : List (List Block × Status) → List Block → Option Status
first_status [] blocks = none
first_status ((names, status) ∷ rest) blocks =
    let later = first_status rest blocks in if meets names blocks then some status else later

abbrev pub is_stage : List String → List ℕ → Bool
is_stage names stage = any (λ name. same_text stage (codes name)) names

abbrev pass_for : List ℕ → Status
pass_for stage =
    let normalized = lower (strip stage) in
    if is_stage ("signed_testnet" ∷ "testnet" ∷ []) normalized
    then pass_signed_testnet
    else if is_stage ("paper" ∷ []) normalized
    then pass_paper
    else pass_review_only

-- `_status_for_blocks`
unfoldable pub status_for_blocks : List Block → List ℕ → Status
unfolding status_table block_code
status_for_blocks blocks stage = get_or (first_status status_table blocks) (pass_for stage)

-- `status in {PASS_REVIEW_ONLY, PASS_PAPER, PASS_SIGNED_TESTNET}`
unfoldable pub is_pass : Status → Bool
is_pass pass_review_only = true
is_pass pass_paper = true
is_pass pass_signed_testnet = true
is_pass _ = false

-- Python's `int` and `str` of a value; `none` is the exception of `int`.
pub record Python (F : Type 0) : Type 0 where
  pub int_of : Value F → Option ℤ
  pub text_of : Value F → String

module _ {F : Type 0} where
  -- `value is True`, `value is False`, `value is not None`
  abbrev pub is_true : Value F → Bool
  is_true (flag b) = b
  is_true _ = false

  abbrev pub is_false : Value F → Bool
  is_false (flag b) = not b
  is_false _ = false

  abbrev pub is_given : Value F → Bool
  is_given missing = false
  is_given null = false
  is_given _ = true

  -- `key in mapping`
  abbrev pub has_key : Value F → Bool
  has_key missing = false
  has_key _ = true

  -- `value in {None, ""}`
  abbrev pub is_blank : Value F → Bool
  is_blank missing = true
  is_blank null = true
  is_blank (text s) = str_eq s ""
  is_blank _ = false

  -- `value == text`
  abbrev pub is_text : String → Value F → Bool
  is_text s (text t) = str_eq t s
  is_text s _ = false

module _ {F : Type 0} ⦃f : Float F⦄ where
  abbrev number_of : Bool → F
  number_of b = f.of_int (pos (if b then 1 else 0))

  -- `a == b`, for values that are there.
  abbrev pub same_value : Value F → Value F → Bool
  same_value (text s) (text t) = str_eq s t
  same_value (num x) (num y) = f.eq x y
  same_value (num x) (flag b) = f.eq x (number_of b)
  same_value (flag a) (num y) = f.eq (number_of a) y
  same_value (flag a) (flag b) = if a then b else not b
  same_value _ _ = false

  abbrev pub truthy_value : Value F → Bool
  truthy_value missing = false
  truthy_value null = false
  truthy_value (flag b) = b
  truthy_value (text s) = not (str_eq s "")
  truthy_value (num x) = not (f.eq x nought)

  -- `a or b`
  abbrev pub or_value : Value F → Value F → Value F
  or_value a b = if truthy_value a then a else b

  -- `_float(value, default)`
  unfoldable pub to_float : Value F → F → F
  to_float missing default = default
  to_float null default = default
  to_float (flag b) default = number_of b
  to_float (text s) default = if str_eq s "" then default else get_or (f.parse s) default
  to_float (num x) default = x

  -- `_int(value, default)`
  unfoldable pub to_int : Python F → Value F → ℤ → ℤ
  to_int python v default = if is_blank v then default else get_or (python.int_of v) default

  -- `_text(value)`, as code points
  unfoldable pub to_text : Python F → Value F → List ℕ
  to_text python v = if truthy_value v then strip (codes (python.text_of v)) else []

  -- `_as_bool(value)`
  unfoldable pub as_bool : Python F → Value F → Bool
  as_bool python v =
      is_true v
      || is_stage ("1" ∷ "true" ∷ "yes" ∷ "y" ∷ "on" ∷ [])
          (lower (strip (codes (python.text_of v))))
