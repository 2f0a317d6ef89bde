-- ===== src/Guard/RiskGate.antt =====
-- The persisted risk-gate record and its check (`get_risk_gate_record`, `verify_strategy_risk_gate`
-- of src/crypto_ai_system/registry/risk_gate_registry.py), and the order intent that it is bound to.
use crypto_ai_system.Common.{
  ℕ, String, Bool, true, false, not, ◌||◌, Option, none, some, List, [], ◌∷◌, concat, str_eq, ltb,
  get_or, if◌then◌else◌,
}
use crypto_ai_system.Float.{Scalar}
use crypto_ai_system.Registry.{File, load_registry_records}
use crypto_ai_system.Text.{codes, lower, strip, same_text}

-- What the live guard reads of an order intent.
pub record LiveIntent (F : Type 0) : Type 0 where
  pub status : Option String
  pub symbol : Option String
  pub quantity : Scalar F
  pub order_notional_usdt : Scalar F
  pub notional_usdt : Scalar F
  pub reduce_only : Bool
  pub connectivity_test : Bool
  pub risk_gate_id : Option String
  pub profile_id : Option String
  pub order_intent_hash : Option String
  pub order_intent_record_sha256 : Option String
  pub client_order_id : Option String

-- A record of the registry without its own hash; `expires_at_utc` as `parse_time` reads it, in
-- seconds.
pub record GateBody : Type 0 where
  pub risk_gate_id : Option String
  pub approved : Bool
  pub stage : Option String
  pub profile_id : Option String
  pub expires_at : Option ℕ
  pub order_intent_hash : Option String

pub record GateRecord : Type 0 where
  pub body : GateBody
  pub record_sha256 : Option String

pub data GateReason : Type 0 where
  record_missing not_approved stage_mismatch profile_mismatch : GateReason
  gate_expired integrity_mismatch intent_hash_mismatch lookup_error : GateReason

-- `value or other`, and the truth value, of an optional text.
abbrev pub is_present : Option String → Bool
is_present none = false
is_present (some s) = not (str_eq s "")

abbrev pub present_or : Option String → Option String → Option String
present_or a b = if is_present a then a else b

abbrev pub same_option : Option String → Option String → Bool
same_option none none = true
same_option none (some t) = false
same_option (some s) none = false
same_option (some s) (some t) = str_eq s t

abbrev pub of_id : String → GateRecord → Bool
of_id gate_id r = same_option r.body.risk_gate_id (some gate_id)

unfoldable pub last_match : String → Option GateRecord → List GateRecord → Option GateRecord
last_match gate_id found [] = found
last_match gate_id found (r ∷ rest) =
    last_match gate_id (if of_id gate_id r then some r else found) rest

-- The outer option is the error of a damaged registry, the inner one a record that is not there.
abbrev pub found_in : String → Option (List GateRecord) → Option (Option GateRecord)
found_in gate_id none = none
found_in gate_id (some records) = some (last_match gate_id none records)

-- `get_risk_gate_record`
unfoldable pub get_risk_gate_record : File GateRecord → Option String → Option (Option GateRecord)
unfolding last_match
get_risk_gate_record file none = some none
get_risk_gate_record file (some gate_id) =
    if str_eq gate_id "" then some none else found_in gate_id (load_registry_records file)

-- `str(value or "").strip()`, and the same in lower case.
abbrev pub stripped : Option String → List ℕ
stripped value = strip (codes (get_or value ""))

abbrev pub folded : Option String → List ℕ
folded value = lower (stripped value)

-- A note where the test holds.
abbrev pub when {ℓ} : {A : Type ℓ} → Bool → A → List A
when b a = if b then a ∷ [] else []

abbrev is_testnet : List ℕ → Bool
is_testnet stage = same_text stage (codes "signed_testnet") || same_text stage (codes "testnet")

abbrev pub stage_differs : List ℕ → List ℕ → Bool
stage_differs want stage =
    if is_testnet want then not (is_testnet stage) else not (same_text stage want)

abbrev is_past : ℕ → Option ℕ → Bool
is_past now none = true
is_past now (some expires) = ltb expires now

abbrev hash_differs : (GateBody → String) → GateRecord → Bool
hash_differs sha256 r =
    not (is_present r.record_sha256) || not (same_option r.record_sha256 (some (sha256 r.body)))

abbrev unbound : {F : Type 0} → GateBody → LiveIntent F → Bool
unbound body intent =
    if is_present body.order_intent_hash
    then not (
        same_option (present_or intent.order_intent_hash intent.order_intent_record_sha256)
          body.order_intent_hash)
    else false

module _ {F : Type 0} (sha256 : GateBody → String) where
  -- The reasons of `verify_strategy_risk_gate(record, intent, execution_stage, now)`; it approves
  -- where there are none.
  unfoldable pub verify_strategy_risk_gate :
      Option GateRecord → LiveIntent F → String → ℕ → List GateReason
  verify_strategy_risk_gate none intent stage now = GateReason.record_missing ∷ []
  verify_strategy_risk_gate (some r) intent stage now = concat (
      when (not r.body.approved) GateReason.not_approved
      ∷ when (stage_differs (folded (some stage)) (folded r.body.stage)) GateReason.stage_mismatch
      ∷ when (not (same_text (stripped r.body.profile_id) (stripped intent.profile_id)))
          GateReason.profile_mismatch
      ∷ when (is_past now r.body.expires_at) GateReason.gate_expired
      ∷ when (hash_differs sha256 r) GateReason.integrity_mismatch
      ∷ when (unbound r.body intent) GateReason.intent_hash_mismatch
      ∷ [])

  abbrev pub gate_reasons : LiveIntent F → ℕ → Option (Option GateRecord) → List GateReason
  gate_reasons intent now none = GateReason.lookup_error ∷ []
  gate_reasons intent now (some r) = verify_strategy_risk_gate r intent "live" now

  -- `_verify_live_risk_gate`: its reasons, none where the gate approves.
  unfoldable pub verify_live_risk_gate : File GateRecord → LiveIntent F → ℕ → List GateReason
  unfolding verify_strategy_risk_gate get_risk_gate_record
  verify_live_risk_gate file intent now =
      gate_reasons intent now (get_risk_gate_record file intent.risk_gate_id)
