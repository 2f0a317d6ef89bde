-- ===== src/Guard/Promotion.antt =====
-- The promotion evidence of src/crypto_ai_system/execution/live_promotion.py.
use crypto_ai_system.Common.{
  ℕ, zero, suc, ◌+◌, String, Bool, true, false, ◌&&◌, Option, none, some, List, [], ◌∷◌, leb,
  str_eq, count, count-append, if◌then◌else◌, ◌≡◌, ◌≤◌, arith,
}
use crypto_ai_system.Registry.{File, load_registry_records, append_registry_record}
use crypto_ai_system.Registry.Integrity.{load-append}

pub record CanaryOrder : Type 0 where
  pub reconcile_status : Option String
  pub clean : Bool
  pub exchange_order_id : Option String
  pub client_order_id : Option String
  pub symbol : Option String
  pub mismatches : List String
  pub recorded_at_utc : String

abbrev pub is_empty : List String → Bool
is_empty [] = true
is_empty (_ ∷ _) = false

abbrev pub is_reconciled : Option String → Bool
is_reconciled none = false
is_reconciled (some s) = str_eq s "RECONCILED"

unfoldable pub canary_order :
    Option String
    → Option String
    → Option String
    → Option String
    → List String
    → String
    → CanaryOrder
canary_order status exchange_id client_id symbol mismatches now = record {
  reconcile_status = status;
  clean = is_reconciled status && is_empty mismatches;
  exchange_order_id = exchange_id;
  client_order_id = client_id;
  symbol = symbol;
  mismatches = mismatches;
  recorded_at_utc = now;
}

-- `record_canary_order`; `none` is the registry's refusal to append.
unfoldable pub record_canary_order :
    File CanaryOrder
    → Option String
    → Option String
    → Option String
    → Option String
    → List String
    → String
    → Option (File CanaryOrder)
unfolding canary_order
record_canary_order file status exchange_id client_id symbol mismatches now =
    append_registry_record file true
      (canary_order status exchange_id client_id symbol mismatches now)

abbrev is_clean : CanaryOrder → Bool
is_clean order = order.clean

abbrev clean_count : Option (List CanaryOrder) → ℕ
clean_count none = 0
clean_count (some orders) = count is_clean orders

-- `clean_canary_order_count`: a damaged registry is no evidence.
unfoldable pub clean_canary_order_count : File CanaryOrder → ℕ
clean_canary_order_count file = clean_count (load_registry_records file)

-- `live_promotion_ready(required)`; a negative requirement reads as 0 here, which is refused too.
unfoldable pub live_promotion_ready : ℕ → File CanaryOrder → Bool
unfolding clean_canary_order_count
live_promotion_ready zero file = false
live_promotion_ready (suc n) file = leb (suc n) (clean_canary_order_count file)

-- On a registry that a read accepts, recording a canary order raises the count of clean orders by
-- one where its status is RECONCILED and it has no mismatches, and by nothing otherwise.
pub record_canary_order-count :
    (file : File CanaryOrder) (status exchange_id client_id symbol : Option String)
    (mismatches : List String) (now : String) {orders : List CanaryOrder} {file' : File CanaryOrder}
    → load_registry_records file ≡ some orders
    → record_canary_order file status exchange_id client_id symbol mismatches now ≡ some file'
    → clean_canary_order_count file'
      ≡ clean_canary_order_count file
        + (if is_reconciled status && is_empty mismatches then 1 else 0)
unfolding record_canary_order clean_canary_order_count
record_canary_order-count file status exchange_id client_id symbol mismatches now {orders = orders}
      loaded written =
    let order = canary_order status exchange_id client_id symbol mismatches now in
    let (after, _, _) = load-append file true order written in
    rw (after, loaded) (omega (arith, count-append is_clean orders (order ∷ [])))

-- Promotion holds exactly where the requirement is positive and at least that many canary orders on
-- record are clean, so a damaged registry never promotes.
pub live_promotion_ready_lem :
    (required : ℕ) (file : File CanaryOrder)
    → live_promotion_ready required file ≡ true
    → (1 ≤ required) × (required ≤ clean_canary_order_count file)
unfolding live_promotion_ready
live_promotion_ready_lem zero file h = ground arith
live_promotion_ready_lem (suc n) file h = ground arith
