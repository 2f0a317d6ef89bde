-- ===== src/Submit/Performed.antt =====
-- Which submits are reported as performed (live_strategy_execution.py).
use crypto_ai_system.Common.{
  not, ◌&&◌, ◌||◌, ◌==◌, get_or, Bool, true, false, Option, none, some, List, ◌≡◌, arith,
}
use crypto_ai_system.Guard.RiskGate.{LiveIntent}
use crypto_ai_system.Common.Int.{pos, negsuc}
use crypto_ai_system.Submit.Retry.{
  Classification, ErrorState, Submit, Answer, no_answer, found, refused, is_ambiguous_submit,
  resolve_ambiguous_submit,
}
use crypto_ai_system.Submit.Orders.{Adapter, Sent, is_performed, resolve_submit}

-- The venue has refused the order with an error that is a rejection.
abbrev is_refusal : Option Classification → Bool
is_refusal none = false
is_refusal (some c) = elim c.state [ ErrorState.unknown ↦ false | ErrorState.rejected ↦ true ]

-- The answer to a query is -2013, an unknown order.
abbrev is_absent : Answer → Bool
is_absent (refused (some (negsuc n))) = n == 2012
is_absent _ = false

abbrev pub may_be_live : Submit → Answer → Bool
may_be_live submit answer =
    submit.submitted || (not (is_refusal submit.classification) && not (is_absent answer))

module _ {F : Type 0} where
  pub resolve_submit-performed :
      (adapter : Adapter F) (sent : List (Sent F)) (intent : LiveIntent F) (submit : Submit)
      (answer : Answer)
      → adapter.query_order sent
          (get_or intent.symbol "None")
          (get_or intent.client_order_id "None")
        ≡ answer
      → is_performed (resolve_submit adapter sent intent submit) ≡ may_be_live submit answer
  unfolding resolve_submit is_ambiguous_submit resolve_ambiguous_submit
  resolve_submit-performed adapter sent intent submit no_answer e = rw e (ground arith)
  resolve_submit-performed adapter sent intent submit (found status) e = rw e (ground arith)
  resolve_submit-performed adapter sent intent submit (refused none) e = rw e (ground arith)
  resolve_submit-performed adapter sent intent submit (refused (some (pos n))) e =
      rw e (ground arith)
  resolve_submit-performed adapter sent intent submit (refused (some (negsuc n))) e =
      rw e (ground arith)
