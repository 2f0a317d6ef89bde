-- ===== src/Live/Model.antt =====
-- The data of live_position_kernel.py: the tracked position, the venue's answers, and the world that
-- a cycle runs in. The world keeps a trace of what the cycle did, in order.
use crypto_ai_system.Common.{String, Bool, Option, none, some, get_or, List, [], ◌∷◌, ◌++◌}
use crypto_ai_system.Common.Int.{ℤ}
use crypto_ai_system.Float.{Scalar}
use crypto_ai_system.Trade.{Direction, Side, Reason, OrderStatus, Plan, Attribution}
use crypto_ai_system.Ledger.{LiveOutcome, Ledger}

-- `close_attempt_status`
pub data CloseAttempt : Type 0 where
  pending_close_dead : Option OrderStatus → CloseAttempt
  close_pending : Option OrderStatus → CloseAttempt
  close_pending_query_failed : CloseAttempt
  close_fill_unconfirmed : Option OrderStatus → CloseAttempt
  submit_status : Option String → CloseAttempt

pub record Position (F : Type 0) : Type 0 where
  pub plan : Plan F
  pub open plan use *
  pub quantity : F
  pub opened_at_utc : String
  pub cycle_id : Option String
  pub symbol : Option String
  pub entry_client_order_id : Option String
  pub entry_exchange_order_id : Option String
  pub research_signal_id : Option String
  pub decision_id : Option String
  pub risk_gate_id : Option String
  pub order_intent_id : Option String
  pub attribution : Attribution
  pub position_id : String
  pub last_seen_price : Option F
  -- the write-ahead note of a close that is not confirmed
  pub close_client_order_id : Option String
  pub close_reason_pending : Option Reason
  pub close_attempt_status : Option CloseAttempt
  pub close_attempt_failed_at_utc : Option String

-- The position file: `{"status": "CLOSED"}`, an open position, or anything else.
pub data Slot (F : Type 0) : Type 0 where
  junk : Slot F
  closed : Slot F
  opened : Position F → Slot F

-- The reduceOnly order that closes a position.
pub record CloseIntent (F : Type 0) : Type 0 where
  pub symbol : Option String
  pub direction : Direction
  pub side : Side
  pub entry_price : F
  pub quantity : F
  pub order_notional_usdt : F
  pub reduce_only : Bool
  pub close_reason : Reason
  pub position_id : String
  pub risk_gate_id : Option String
  pub client_order_id : String

-- What `submit_close` returns: whether the order may have reached the venue, and its identifiers.
pub record CloseResult : Type 0 where
  pub external_order_submission_performed : Bool
  pub status : Option String
  pub client_order_id : Option String
  pub exchange_order_id : Option String

-- What `query_order` returns, read as far as the kernel reads it.
pub record Query (F : Type 0) : Type 0 where
  pub ok : Bool
  pub status : Option OrderStatus
  pub avg_price : Scalar F
  pub executed_qty : Scalar F
  pub order_id : Option String
  pub error_code : Option ℤ

pub data Effect (F : Type 0) : Type 0 where
  saved : Position F → Effect F
  cleared : Effect F
  submitted : CloseIntent F → Effect F
  queried : String → String → Effect F
  recorded : LiveOutcome F → Effect F

-- The two injected calls. What the venue answers may depend on all that was done before.
pub record Venue (F : Type 0) : Type 0 where
  pub submit_close : List (Effect F) → CloseIntent F → CloseResult
  pub query_order : List (Effect F) → String → String → Query F

-- The clock, and the hashes of a position's identity and of a close order's identity (symbol,
-- direction, creation time).
pub record Services (F : Type 0) : Type 0 where
  pub now : String
  pub position_hash : Option String → F → String → String
  pub close_order_id : Option String → Direction → String → String

pub record World (F : Type 0) : Type 0 where
  pub slot : Slot F
  pub ledger : Ledger F
  pub trace : List (Effect F)

pub record Settlement (F : Type 0) : Type 0 where
  pub position_id : String
  pub close_reason : Reason
  pub exit_price : F
  pub quantity : F
  pub realized_pnl_usdt : F
  pub result_R : F
  pub regime : String
  pub close_exchange_order_id : Option String

-- What a cycle returns; `raised` is the error of a damaged outcome registry.
pub data Report (F : Type 0) : Type 0 where
  nothing : Report F
  closed_position : Settlement F → Report F
  close_pending : Reason → Option OrderStatus → Report F
  close_unconfirmed : Reason → Option OrderStatus → Report F
  close_failed : Reason → Option String → Report F
  raised : Report F

-- `str(value)` of an optional text.
abbrev pub str_of : Option String → String
str_of s = get_or s "None"

module _ {F : Type 0} where
  -- `load_open_live_position`
  unfoldable pub load_open : Slot F → Option (Position F)
  load_open junk = none
  load_open closed = none
  load_open (opened p) = some p

  -- `_save_position`, `_clear_position`, and the appended ledger.
  abbrev pub save : Position F → World F → World F
  save p w = record w { slot = opened p; trace = w.trace ++ saved p ∷ [] }

  abbrev pub clear : World F → World F
  clear w = record w { slot = closed; trace = w.trace ++ cleared ∷ [] }

  abbrev pub note : Effect F → World F → World F
  note e w = record w { trace = w.trace ++ e ∷ [] }
