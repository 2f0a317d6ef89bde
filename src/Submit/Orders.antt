-- ===== src/Submit/Orders.antt =====
-- The entry and the close of live_strategy_execution.py, on a world of the submitted-order counter and
-- the trace of what was sent. The adapter is a parameter, as in the code that the tests replace.
use crypto_ai_system.Common.{
  String, Bool, true, false, ◌||◌, Option, none, some, get_or, List, [], ◌∷◌, ◌++◌, if◌then◌else◌,
}
use crypto_ai_system.Float.{Float}
use crypto_ai_system.Guard.RiskGate.{LiveIntent, GateBody}
use crypto_ai_system.Guard.Terms.{Settings, Evidence, Verdict, Status, record_submission}
use crypto_ai_system.Guard.Final.{evaluate_live_close_guard, evaluate_live_order_final_guard}
use crypto_ai_system.Submit.Retry.{Submit, Answer, is_ambiguous_submit, resolve_ambiguous_submit}

pub data Sent (F : Type 0) : Type 0 where
  posted : LiveIntent F → Sent F
  queried : String → String → Sent F

-- The signed calls of the adapter; what the venue answers may depend on all that was sent before.
pub record Adapter (F : Type 0) : Type 0 where
  pub submit_order : List (Sent F) → LiveIntent F → Submit
  pub query_order : List (Sent F) → String → String → Answer

pub record World (F : Type 0) : Type 0 where
  pub evidence : Evidence F
  pub sent : List (Sent F)

pub data State : Type 0 where
  rejected submitted unknown : State

-- What became of the order.
pub data Outcome : Type 0 where
  guard_refused : Status → Outcome
  order_submitted submit_unresolved submit_failed : Outcome

pub record Result : Type 0 where
  pub state : State
  pub outcome : Outcome
  pub exchange_order_id : Option String
  pub client_order_id : Option String
  pub submit_confirmed_by_query : Option Bool
  pub external_order_submission_performed : Bool

-- `(submitted, unresolved, resolution)`; the resolution is its `order_exists`, where one was made.
pub record Resolved (F : Type 0) : Type 0 where
  pub submitted : Bool
  pub unresolved : Bool
  pub was_queried : Bool
  pub sent : List (Sent F)

module _ {F : Type 0} where
  abbrev asked : List (Sent F) → Option Bool → Resolved F
  asked sent none = record { submitted = false; unresolved = true; was_queried = true; sent = sent }
  asked sent (some true) = record {
    submitted = true;
    unresolved = false;
    was_queried = true;
    sent = sent;
  }
  asked sent (some false) = record {
    submitted = false;
    unresolved = false;
    was_queried = true;
    sent = sent;
  }

  -- `_resolve_submit`
  unfoldable pub resolve_submit : Adapter F → List (Sent F) → LiveIntent F → Submit → Resolved F
  resolve_submit adapter sent intent submit =
      let symbol = get_or intent.symbol "None" in
      let id = get_or intent.client_order_id "None" in
      if submit.submitted
      then record { submitted = true; unresolved = false; was_queried = false; sent = sent }
      else if is_ambiguous_submit submit
      then asked (sent ++ queried symbol id ∷ [])
          (resolve_ambiguous_submit (adapter.query_order sent symbol id))
      else record { submitted = false; unresolved = false; was_queried = false; sent = sent }

  abbrev outcome_of : Resolved F → Outcome
  outcome_of r =
      if r.submitted
      then order_submitted
      else if r.unresolved
      then submit_unresolved
      else submit_failed

  abbrev pub is_performed : Resolved F → Bool
  is_performed r = r.submitted || r.unresolved

  abbrev pub attempted : Submit → Resolved F → Result
  attempted submit r = record {
    state = if r.submitted then submitted else unknown;
    outcome = outcome_of r;
    exchange_order_id = submit.exchange_order_id;
    client_order_id = submit.client_order_id;
    submit_confirmed_by_query = if r.was_queried then some r.submitted else none;
    external_order_submission_performed = is_performed r;
  }

abbrev pub refused_by : Verdict → Result
refused_by v = record {
  state = rejected;
  outcome = guard_refused v.status;
  exchange_order_id = none;
  client_order_id = none;
  submit_confirmed_by_query = none;
  external_order_submission_performed = false;
}

module _ {F : Type 0} where
  -- `submit_order` and its resolution.
  unfoldable pub send : Adapter F → List (Sent F) → LiveIntent F → Submit × Resolved F
  unfolding resolve_submit
  send adapter sent intent =
      let submit = adapter.submit_order sent intent in
      (submit, resolve_submit adapter (sent ++ posted intent ∷ []) intent submit)

  -- `record_submission`, where the order may be live.
  abbrev pub counted : Bool → Evidence F → Evidence F
  counted b e = if b then record e { counter = record_submission e.counter e.day } else e

module _ {F : Type 0} ⦃f : Float F⦄ (s : Settings F) (adapter : Adapter F) where
  abbrev pub close_after : Submit × Resolved F → World F → Result × World F
  close_after (submit, r) w = (attempted submit r, record w { sent = r.sent })

  unfoldable pub submit_live_close_order : World F → LiveIntent F → Result × World F
  unfolding send
  submit_live_close_order w intent =
      let v = evaluate_live_close_guard s intent in
      if v.approved then close_after (send adapter w.sent intent) w else (refused_by v, w)

module _ {F : Type 0} ⦃f : Float F⦄ (sha256 : GateBody → String) (s : Settings F)
    (adapter : Adapter F) where
  abbrev pub entry_after : Submit × Resolved F → World F → Result × World F
  entry_after (submit, r) w =
      (attempted submit r, record { evidence = counted (is_performed r) w.evidence; sent = r.sent })

  abbrev pub enter : World F → LiveIntent F → Option Verdict → Option Result × World F
  enter w intent none = (none, w)
  enter w intent (some v) =
      if v.approved
      then (let (result, after) = entry_after (send adapter w.sent intent) w in
          (some result, after))
      else (some (refused_by v), w)

  -- `submit_live_strategy_order`; no result is the error that the guard raises.
  unfoldable pub submit_live_strategy_order : World F → LiveIntent F → F → Option Result × World F
  unfolding send
  submit_live_strategy_order w intent exposure =
      enter w intent (evaluate_live_order_final_guard sha256 s w.evidence intent exposure)
