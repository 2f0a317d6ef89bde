-- ===== src/Ledger.antt =====
-- The realized live P&L and the daily-loss breaker
-- (src/crypto_ai_system/execution/live_pnl_ledger.py).
pub mod Breaker
use crypto_ai_system.Common.{
  ℕ, zero, suc, String, Bool, true, false, not, Option, none, some, List, [], ◌∷◌, str_eq,
  if◌then◌else◌,
}
use crypto_ai_system.Float.{Float, Scalar, num, or_else, nought, to_float_or, positive}
use crypto_ai_system.Float
use crypto_ai_system.Common.Int.{pos, negsuc}
use crypto_ai_system.Trade.{Side}
use crypto_ai_system.Registry.{File, load_registry_records, append_registry_record}

-- One realized round trip, as `record_live_outcome` persists it.
pub record LiveOutcome (F : Type 0) : Type 0 where
  pub realized_pnl_usdt : Scalar F
  pub symbol : String
  pub side : Side
  pub quantity : F
  pub open_price : F
  pub close_price : F
  pub open_order_id : Option String
  pub close_order_id : Option String
  pub strategy_id : Option String
  pub opened_at_utc : String
  pub closed_at_utc : String
  -- the time of the append, which the registry adds
  pub created_at_utc : String

abbrev pub Ledger : Type 0 → Type 0
Ledger F = File (LiveOutcome F)

-- `text[:n]`
unfoldable pub prefix : ℕ → String → String
prefix zero s = ""
prefix (suc n) String.[] = ""
prefix (suc n) (String.◌∷◌ c s) = String.◌∷◌ c (prefix n s)

module _ {F : Type 0} ⦃f : Float F⦄ where
  -- `record_live_outcome`, on a record that is not rounded yet.
  unfoldable pub record_live_outcome : Ledger F → F → LiveOutcome F → Option (Ledger F)
  record_live_outcome ledger realized outcome =
      append_registry_record ledger true
        (record outcome { realized_pnl_usdt = num (f.round 8 realized) })

  -- `float(record.get("realized_pnl_usdt") or 0.0)`; `none` is the ValueError that is skipped.
  unfoldable pub realized_of : Scalar F → Option F
  realized_of Scalar.null = some nought
  realized_of (Scalar.text s) = if str_eq s "" then some nought else f.parse s
  realized_of (Scalar.num x) = some (if f.eq x nought then nought else x)

  -- `record.get("closed_at_utc") or record.get("created_at_utc") or ""`
  abbrev pub stamp : LiveOutcome F → String
  stamp outcome =
      if str_eq outcome.closed_at_utc "" then outcome.created_at_utc else outcome.closed_at_utc

  -- One round of the sum.
  unfoldable pub add_outcome : String → F → LiveOutcome F → F
  unfolding prefix realized_of
  add_outcome day total outcome =
      if str_eq (prefix 10 (stamp outcome)) day
      then (elim (realized_of outcome.realized_pnl_usdt) [ none ↦ total | some x ↦ f.add total x ])
      else total

  unfoldable pub sum_outcomes : String → F → List (LiveOutcome F) → F
  unfolding add_outcome
  sum_outcomes day total [] = total
  sum_outcomes day total (outcome ∷ rest) = sum_outcomes day (add_outcome day total outcome) rest

  abbrev pub day_total : String → Option (List (LiveOutcome F)) → Option F
  day_total day none = none
  day_total day (some rows) = some (f.round 8 (sum_outcomes day nought rows))

  -- `live_daily_realized_pnl_usdt`; `none` is the error of a damaged registry.
  unfoldable pub live_daily_realized_pnl_usdt : Ledger F → String → Option F
  unfolding sum_outcomes
  live_daily_realized_pnl_usdt ledger day = day_total day (load_registry_records ledger)

  -- `-abs(limit)`
  abbrev pub loss_floor : F → F
  loss_floor limit = f.sub nought (f.abs limit)

  abbrev pub at_floor : F → Option F → Option Bool
  at_floor limit none = none
  at_floor limit (some realized) = some (f.le realized (loss_floor limit))

  -- `daily_loss_limit_breached`: no limit counts as breached, before any file is read.
  unfoldable pub daily_loss_limit_breached : Option F → Ledger F → String → Option Bool
  daily_loss_limit_breached none ledger day = some true
  daily_loss_limit_breached (some limit) ledger day =
      if f.le limit nought
      then some true
      else at_floor limit (live_daily_realized_pnl_usdt ledger day)
