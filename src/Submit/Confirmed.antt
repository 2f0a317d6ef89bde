-- ===== src/Submit/Confirmed.antt =====
-- What a reconciled entry says, and which entries are never reconciled
-- (signed_testnet_reconciliation.py and live_strategy_execution.py).
use crypto_ai_system.Common.{
  String, Bool, true, false, not, Option, none, some, List, [], ◌∷◌, ◌≡◌, refl, arith,
  if◌then◌else◌, if-both,
}
use mathlib.Core.Path.{subst}
use crypto_ai_system.Float.{Float}
use crypto_ai_system.Trade.{Side, is_filled}
use crypto_ai_system.Guard.RiskGate.{LiveIntent, GateBody, is_present}
use crypto_ai_system.Guard.Terms.{Settings, Verdict}
use crypto_ai_system.Guard.Final.{evaluate_live_order_final_guard}
use crypto_ai_system.Guard.Bounds.{when-append, when-nil, last-nil, not-false}
use crypto_ai_system.Submit.Orders.{Adapter, World, Result, enter, submit_live_strategy_order, send}
use crypto_ai_system.Submit.Reconcile.{
  OrderResult, Answers, Tolerances, reconciled, no_submission, Unreachable, Mismatch,
  order_not_found, order_status_query_failed, position_query_failed, balance_query_failed, lacks_id,
  is_reducing, closing_mismatches, opening_mismatches, mismatches_of, unreachable_of, status_for,
  position_amt, status_in, executed_in, number_of, reconcile_signed_testnet,
  run_live_strategy_reconciliation,
}

status_for-reconciled :
    (us : List Unreachable) (ms : List Mismatch)
    → status_for us ms ≡ reconciled
    → (us ≡ []) × (ms ≡ [])
unfolding status_for
status_for-reconciled [] [] h = (refl, refl)
status_for-reconciled [] (m ∷ ms) h = ground arith
status_for-reconciled (u ∷ us) ms h = ground arith

module _ {F : Type 0} ⦃f : Float F⦄ where
  -- The order was performed and has the venue's identifier, all three queries were answered, the
  -- venue knows the order, and the comparison of the fill with the position finds nothing.
  pub record IsConfirmed (t : Tolerances F) (r : OrderResult F) (a : Answers F) : Type 0 where
    pub performed : r.external_order_submission_performed ≡ true
    pub identified : is_present r.exchange_order_id ≡ true
    pub order_ok : a.order_ok ≡ true
    pub positions_ok : a.positions_ok ≡ true
    pub balance_ok : a.balance_ok ≡ true
    pub known : lacks_id a.order ≡ false
    pub agrees :
        (if is_reducing r
          then closing_mismatches t (is_filled (status_in a.order)) r.side (position_amt r a)
          else opening_mismatches t
              (is_filled (status_in a.order))
              r.side
              (position_amt r a)
              (executed_in a.order)
              (number_of r.quantity))
        ≡ []

  confirmed :
      (t : Tolerances F) (r : OrderResult F) (a : Answers F)
      → r.external_order_submission_performed ≡ true
      → is_present r.exchange_order_id ≡ true
      → unreachable_of a ≡ []
      → mismatches_of t r a ≡ []
      → IsConfirmed t r a
  unfolding unreachable_of mismatches_of
  confirmed t r a done id us ms =
      let (o, us₁) = when-append (not a.order_ok) order_status_query_failed _ us in
      let (p, us₂) = when-append (not a.positions_ok) position_query_failed _ us₁ in
      let (k, ms₁) = when-append (lacks_id a.order) order_not_found _ ms in
      record {
        performed = done;
        identified = id;
        order_ok = not-false _ o;
        positions_ok = not-false _ p;
        balance_ok =
            not-false _ (when-nil (not a.balance_ok) balance_query_failed (last-nil _ us₂));
        known = k;
        agrees = last-nil _ ms₁;
      }

  sent-confirmed :
      (t : Tolerances F) (r : OrderResult F) (a : Answers F) (done present : Bool)
      → r.external_order_submission_performed ≡ done
      → is_present r.exchange_order_id ≡ present
      → (reconcile_signed_testnet t r a).status ≡ reconciled
      → IsConfirmed t r a
  unfolding reconcile_signed_testnet
  sent-confirmed t r a false present e g h = ground arith
  sent-confirmed t r a true false e g h = ground arith
  sent-confirmed t r a true true e g h =
      let (us, ms) =
        status_for-reconciled (unreachable_of a) (mismatches_of t r a) (ground arith) in
      confirmed t r a e g us ms

  -- An order is reported as reconciled only where it was performed and has the venue's identifier,
  -- the three queries were answered, the venue knows the order, and the comparison of the fill with
  -- the position, as an opening or as a closing order, finds no mismatch.
  pub reconcile_signed_testnet-reconciled :
      (t : Tolerances F) (r : OrderResult F) (a : Answers F)
      → (reconcile_signed_testnet t r a).status ≡ reconciled
      → IsConfirmed t r a
  reconcile_signed_testnet-reconciled t r a h = sent-confirmed t r a _ _ refl refl h

  -- The order result that an entry writes, for its intent's side.
  abbrev pub written : Result → LiveIntent F → Option Side → OrderResult F
  written result intent side = record {
    external_order_submission_performed = result.external_order_submission_performed;
    exchange_order_id = result.exchange_order_id;
    symbol = intent.symbol;
    side = side;
    quantity = intent.quantity;
    reduce_only = intent.reduce_only;
    position_effect = none;
  }

  unidentified :
      (t : Tolerances F) (r : OrderResult F) (a : Answers F)
      → r.exchange_order_id ≡ none
      → (run_live_strategy_reconciliation t r (some a)).status ≡ no_submission
  unfolding run_live_strategy_reconciliation reconcile_signed_testnet
  unidentified t r a h = ground arith

  module _ (sha256 : GateBody → String) (s : Settings F) (adapter : Adapter F) where
    abbrev HasNoId : Option Result × World F → Type 0
    HasNoId (none, after) = Unit
    HasNoId (some result, after) = result.exchange_order_id ≡ none

    enter-HasNoId :
        (w : World F) (intent : LiveIntent F) (v : Option Verdict)
        → (adapter.submit_order w.sent intent).exchange_order_id ≡ none
        → HasNoId (enter sha256 s adapter w intent v)
    unfolding send
    enter-HasNoId w intent none h = tt
    enter-HasNoId w intent (some v) h = if-both HasNoId v.approved _ _ (λ ok. h) (λ no. refl)

    -- Where the answer to the submit of an entry carries no identifier of the venue, as that of a
    -- lost answer does not, the reconciliation of what the entry has written is NO_SUBMISSION, also
    -- where a query has confirmed the order, and whatever the venue says of its fill.
    pub submit_live_strategy_order-unidentified :
        (w : World F) (intent : LiveIntent F) (exposure : F) (side : Option Side) (t : Tolerances F)
        (a : Answers F) {result : Result} {after : World F}
        → (adapter.submit_order w.sent intent).exchange_order_id ≡ none
        → submit_live_strategy_order sha256 s adapter w intent exposure ≡ (some result, after)
        → (run_live_strategy_reconciliation t (written result intent side) (some a)).status
          ≡ no_submission
    unfolding submit_live_strategy_order
    submit_live_strategy_order-unidentified w intent exposure side t a {result} {after} h e =
        let found =
          enter-HasNoId w intent
            (evaluate_live_order_final_guard sha256 s w.evidence intent exposure) h in
        unidentified t (written result intent side) a (subst HasNoId e found)
