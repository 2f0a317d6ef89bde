-- ===== src/Guard/Persist.antt =====
-- The persistence of a risk-gate record, and what its verification then says
-- (`persist_risk_gate_record` of src/crypto_ai_system/registry/risk_gate_registry.py).
use crypto_ai_system.Common.{
  ℕ, ◌+◌, String, Bool, true, false, not, Option, none, some, List, [], ◌∷◌, ◌++◌, ◌≡◌, refl, arith,
  concat, str_eq, eq_iff, ltb, get_or, if◌then◌else◌,
}
use crypto_ai_system.Registry.{File, load_registry_records, append_registry_record}
use crypto_ai_system.Registry.Integrity.{load-append}
use crypto_ai_system.Text.{same_text}
use crypto_ai_system.Guard.RiskGate.{
  LiveIntent, GateBody, GateRecord, GateReason, when, present_or, same_option, stage_differs,
  folded, stripped, of_id, last_match, get_risk_gate_record, verify_strategy_risk_gate,
  verify_live_risk_gate,
}

-- The result of the gate; `expires_at` is none where it does not have the key.
pub record GateResult : Type 0 where
  pub risk_gate_id : Option String
  pub approved : Bool
  pub stage : Option String
  pub profile_id : Option String
  pub expires_at : Option (Option ℕ)
  pub order_intent_hash : Option String

-- The registry and the file of the latest record.
pub record GateStore : Type 0 where
  pub registry : File GateRecord
  pub latest : Option GateRecord

abbrev or_own : Option String → Option String → Option String
or_own none own = own
or_own (some hash) own = some hash

unfoldable pub gate_body : GateResult → Option String → ℕ → ℕ → GateBody
gate_body result order_intent_hash ttl_seconds now = record {
  risk_gate_id = result.risk_gate_id;
  approved = result.approved;
  stage = result.stage;
  profile_id = result.profile_id;
  expires_at = get_or result.expires_at (some (now + ttl_seconds));
  order_intent_hash = or_own order_intent_hash result.order_intent_hash;
}

abbrev pub stored : GateRecord → GateStore → Option (File GateRecord) → Option GateStore
stored r store none = none
stored r store (some registry) = some (record { registry = registry; latest = some r })

module _ (sha256 : GateBody → String) where
  unfoldable pub gate_record : GateBody → GateRecord
  gate_record body = record { body = body; record_sha256 = some (sha256 body) }

  -- `none` is the exception of the append, which comes before the write of the latest record.
  unfoldable pub persist_risk_gate_record :
      GateStore → GateResult → Option String → ℕ → ℕ → Option GateStore
  unfolding gate_body gate_record
  persist_risk_gate_record store result order_intent_hash ttl_seconds now =
      let r = gate_record (gate_body result order_intent_hash ttl_seconds now) in
      stored r store (append_registry_record store.registry true r)

last_match-append :
    (gate_id : String) (found : Option GateRecord) (rows : List GateRecord) (r : GateRecord)
    → of_id gate_id r ≡ true
    → last_match gate_id found (rows ++ r ∷ []) ≡ some r
unfolding last_match
last_match-append gate_id found [] r h = rw h refl
last_match-append gate_id found (x ∷ rest) r h =
    last_match-append gate_id (if of_id gate_id x then some x else found) rest r h

-- A lookup behind an append finds the record that was appended.
get-appended :
    (file : File GateRecord) {file' : File GateRecord} {rows : List GateRecord} (r : GateRecord)
    (gate_id : String)
    → load_registry_records file ≡ some rows
    → append_registry_record file true r ≡ some file'
    → r.body.risk_gate_id ≡ some gate_id
    → str_eq gate_id "" ≡ false
    → get_risk_gate_record file' (some gate_id) ≡ some (some r)
unfolding get_risk_gate_record
get-appended file {file'} {rows} r gate_id loaded appended named long =
    let (after, _, _) = load-append file true r appended in
    let own : of_id gate_id r ≡ true = rw named ((eq_iff gate_id gate_id).1 refl) in
    rw (long, after, loaded, last_match-append gate_id none rows r own) refl

stored-registry :
    (r : GateRecord) (store : GateStore) (o : Option (File GateRecord)) {store' : GateStore}
    → stored r store o ≡ some store'
    → o ≡ some store'.registry
stored-registry r store none h = cc
stored-registry r store (some registry) h = ground (arith, h)

module _ {F : Type 0} (sha256 : GateBody → String) where
  -- The reasons against a record that is approved, of the live stage and of the intent's profile,
  -- and whose own hash is right.
  verify-persisted :
      (body : GateBody) (intent : LiveIntent F) (hash : String) (expires later : ℕ)
      → str_eq (sha256 body) "" ≡ false
      → body.approved ≡ true
      → stage_differs (folded (some "live")) (folded body.stage) ≡ false
      → same_text (stripped body.profile_id) (stripped intent.profile_id) ≡ true
      → body.expires_at ≡ some expires
      → body.order_intent_hash ≡ some hash
      → str_eq hash "" ≡ false
      → verify_strategy_risk_gate sha256 (some (gate_record sha256 body)) intent "live" later
        ≡ concat (
            when (ltb expires later) GateReason.gate_expired
            ∷ when
                (not (
                  same_option
                    (present_or intent.order_intent_hash intent.order_intent_record_sha256)
                    (some hash)))
                GateReason.intent_hash_mismatch
            ∷ [])
  unfolding verify_strategy_risk_gate gate_record
  verify-persisted body intent hash expires later own approved stage profile expiry bound long =
      let same = (eq_iff (sha256 body) (sha256 body)).1 refl in
      rw (same, own, approved, stage, profile, expiry, bound, long) refl

  -- On a registry that a read accepts, with hashes that are not empty: the live verification of an
  -- approved live record that was persisted without an expiry of its own, bound to an intent's hash,
  -- finds against an intent of its profile that it has expired, where the time to live is over, and
  -- that its hash is another, where it is; and nothing else.
  pub verify-persist :
      (store : GateStore) {store' : GateStore} {rows : List GateRecord} (result : GateResult)
      (hash gate_id : String) (ttl_seconds now later : ℕ) (intent : LiveIntent F)
      → ((body : GateBody) → str_eq (sha256 body) "" ≡ false)
      → str_eq hash "" ≡ false
      → str_eq gate_id "" ≡ false
      → load_registry_records store.registry ≡ some rows
      → persist_risk_gate_record sha256 store result (some hash) ttl_seconds now ≡ some store'
      → result.risk_gate_id ≡ some gate_id
      → intent.risk_gate_id ≡ some gate_id
      → result.approved ≡ true
      → stage_differs (folded (some "live")) (folded result.stage) ≡ false
      → same_text (stripped result.profile_id) (stripped intent.profile_id) ≡ true
      → result.expires_at ≡ none
      → verify_live_risk_gate sha256 store'.registry intent later
        ≡ concat (
            when (ltb (now + ttl_seconds) later) GateReason.gate_expired
            ∷ when
                (not (
                  same_option
                    (present_or intent.order_intent_hash intent.order_intent_record_sha256)
                    (some hash)))
                GateReason.intent_hash_mismatch
            ∷ [])
  unfolding verify_live_risk_gate persist_risk_gate_record
  verify-persist store {store'} {rows} result hash gate_id ttl_seconds now later intent hashes long
        named loaded persisted of_result of_intent approved stage profile expiry =
      let body = gate_body result (some hash) ttl_seconds now in
      let r = gate_record sha256 body in
      let appended =
        stored-registry r store (append_registry_record store.registry true r) persisted in
      rw (of_intent, get-appended store.registry r gate_id loaded appended of_result named)
        (verify-persisted body intent hash (now + ttl_seconds) later (hashes body) approved stage
          profile (rw expiry refl) refl long)
