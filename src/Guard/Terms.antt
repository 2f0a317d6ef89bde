-- ===== src/Guard/Terms.antt =====
-- What the final guards of live_order_final_guard.py read and answer: the settings, the counter of the
-- day, the blocks and the repairs.
use crypto_ai_system.Common.{
  ℕ, suc, String, Bool, true, not, ◌||◌, Option, none, some, List, [], ◌∷◌, str_eq, get_or,
  if◌then◌else◌,
}
use crypto_ai_system.Registry.{File}
use crypto_ai_system.Ledger.{Ledger}
use crypto_ai_system.Text.{codes, lower, same_text}
use crypto_ai_system.Guard.Promotion.{CanaryOrder}
use crypto_ai_system.Guard.RiskGate.{GateRecord, GateReason}

-- The settings the guards read. `base_url_host` is `urlparse(LIVE_STRATEGY_BASE_URL).hostname`.
pub record Settings (F : Type 0) : Type 0 where
  pub order_enabled : Bool
  pub place_order_enabled : Bool
  pub confirmation_phrase : String
  pub confirmation : String
  pub manual_kill_switch : Bool
  pub daily_loss_limit_usdt : F
  pub min_clean_canary_orders : ℕ
  pub base_url_host : Option String
  pub api_key : String
  pub api_secret : String
  pub max_order_notional_usdt : F
  pub absolute_max_notional_usdt : F
  pub max_daily_order_count : ℕ
  pub max_open_notional_usdt : F

-- The counter file: the submitted orders by day, or something that is not an object.
pub data Counter : Type 0 where
  not_an_object : Counter
  days : List (String × ℕ) → Counter

unfoldable pub count_of : String → List (String × ℕ) → ℕ
count_of day [] = 0
count_of day (entry ∷ rest) = if str_eq entry.0 day then entry.1 else count_of day rest

unfoldable pub put_count : String → ℕ → List (String × ℕ) → List (String × ℕ)
put_count day n [] = (day, n) ∷ []
put_count day n (entry ∷ rest) =
    if str_eq entry.0 day then (day, n) ∷ rest else entry ∷ put_count day n rest

abbrev pub counts : Counter → List (String × ℕ)
counts not_an_object = []
counts (days entries) = entries

unfoldable pub count_today : Counter → String → ℕ
unfolding count_of
count_today counter day = count_of day (counts counter)

unfoldable pub record_submission : Counter → String → Counter
unfolding count_of put_count
record_submission counter day =
    days (put_count day (suc (count_of day (counts counter))) (counts counter))

pub data Status : Type 0 where
  blocked repair_required ready : Status

pub data Block : Type 0 where
  order_disabled place_order_disabled no_confirmation kill_switch_engaged : Block
  loss_limit_not_configured loss_limit_reached promotion_not_ready connectivity_intent : Block
  host_not_allowed key_not_configured cap_not_configured cap_above_ceiling : Block
  notional_above_cap daily_count_not_configured daily_count_reached : Block
  exposure_cap_not_configured exposure_above_cap not_reduce_only : Block
  risk_gate : GateReason → Block

pub data Repair : Type 0 where
  notional_missing not_created symbol_missing quantity_missing quantity_not_numeric : Repair

pub record Verdict : Type 0 where
  pub status : Status
  pub approved : Bool
  pub blocks : List Block
  pub repairs : List Repair

-- The state the entry guard reads: the counter, the day, the clock in seconds, and three registries.
pub record Evidence (F : Type 0) : Type 0 where
  pub counter : Counter
  pub day : String
  pub now : ℕ
  pub ledger : Ledger F
  pub canary_orders : File CanaryOrder
  pub gates : File GateRecord

abbrev pub default_phrase : String
default_phrase = "I_UNDERSTAND_THIS_TRADES_LIVE_FUNDS_AUTONOMOUSLY"

abbrev pub expected_phrase : String → String
expected_phrase s = if str_eq s "" then default_phrase else s

abbrev pub no_host : Option String → Bool
no_host host = not (same_text (lower (codes (get_or host ""))) (codes "fapi.binance.com"))

abbrev pub no_key : String → String → Bool
no_key key secret = str_eq key "" || str_eq secret ""

abbrev pub not_ready : Option String → Bool
not_ready none = true
not_ready (some s) = not (str_eq s "ORDER_INTENT_CREATED")

abbrev pub to_reasons : List GateReason → List Block
to_reasons [] = []
to_reasons (r ∷ rest) = risk_gate r ∷ to_reasons rest
