-- ===== src/Paper/Model.antt =====
-- The data of paper_position_kernel.py: fills, positions, exits and outcomes.
use crypto_ai_system.Common.{String, Option, none, some, get_or, List}
use crypto_ai_system.Float.{Scalar}
use crypto_ai_system.Trade.{Reason, OrderStatus, Plan, Attribution, Intent, first_id}

pub record Reconciliation : Type 0 where
  pub research_signal_id : Option String
  pub decision_id : Option String
  pub risk_gate_id : Option String
  pub order_intent_id : Option String
  pub execution_id : Option String
  pub reconciliation_id : Option String

-- `execution_record`, with its `simulated_fill` and its `expected_order_intent`.
pub record Execution (F : Type 0) : Type 0 where
  pub fill_status : Option OrderStatus
  pub avg_fill_price : Scalar F
  pub filled_quantity : Scalar F
  pub intent : Intent F
  pub research_signal_id : Option String
  pub decision_id : Option String
  pub risk_gate_id : Option String
  pub order_intent_id : Option String
  pub execution_id : Option String

pub record Position (F : Type 0) : Type 0 where
  pub plan : Plan F
  pub open plan use *
  pub quantity : F
  pub opened_at_utc : String
  pub cycle_id : Option String
  pub research_signal_id : Option String
  pub decision_id : Option String
  pub risk_gate_id : Option String
  pub order_intent_id : Option String
  pub execution_id : Option String
  pub reconciliation_id : Option String
  pub attribution : Attribution
  pub entry_reconciliation : Reconciliation
  pub position_id : String
  pub last_seen_price : Option F
  pub book_id : Option String

-- A stored position: `{"status": "CLOSED"}`, an open position, or anything else (no file, no
-- object, another status).
pub data Slot (F : Type 0) : Type 0 where
  junk : Slot F
  closed : Slot F
  opened : Position F → Slot F

pub record Exit (F : Type 0) : Type 0 where
  pub reason : Reason
  pub exit_price : F
  pub result_R : F

pub record OutcomeContext (F : Type 0) : Type 0 where
  pub exit_price : F
  pub result_R : F
  pub close_reason : Reason
  pub regime : String
  pub book_id : Option String

-- One persisted outcome: the entry's reconciliation and the context of the close.
pub record Outcome (F : Type 0) : Type 0 where
  pub reconciliation : Reconciliation
  pub context : OutcomeContext F

-- What the kernel takes from elsewhere: the clock, the hash of a new position's identity
-- (execution id, entry price, opening time) and the outcome analytics, which answer with the
-- outcome's id and status.
pub record Services (F : Type 0) : Type 0 where
  pub now : String
  pub position_hash : Option String → F → String → String
  pub analyze : Outcome F → Option String × Option String

pub record Summary (F : Type 0) : Type 0 where
  pub book_id : Option String
  pub position : Position F
  pub close_reason : Reason
  pub exit_price : F
  pub result_R : F
  pub outcome_id : Option String
  pub outcome_status : Option String

-- The result of one settlement: the position file, the outcomes and the returned summary.
pub record Settled (F : Type 0) : Type 0 where
  pub slot : Slot F
  pub outcomes : List (Outcome F)
  pub summary : Option (Summary F)

-- `load_open_position`
unfoldable pub load_open : {F : Type 0} → Slot F → Option (Position F)
load_open junk = none
load_open closed = none
load_open (opened p) = some p

-- `regime or "unknown"`
unfoldable pub regime_or_unknown : Option String → String
regime_or_unknown regime = get_or (first_id regime none) "unknown"
