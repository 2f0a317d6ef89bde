-- ===== src/Submit/Retry.antt =====
-- The reading of a failed submit (src/crypto_ai_system/execution/retry_policy.py).
use crypto_ai_system.Common.{
  ℕ, String, Bool, true, false, not, ◌&&◌, ◌==◌, Option, none, some, leb, ltb, if◌then◌else◌, ◌≡◌,
  ◌≢◌, ◌≤◌, ◌<◌, refl, arith,
}
use crypto_ai_system.Common.Int.{ℤ, pos, negsuc}
use crypto_ai_system.Text.{codes, lower, contains}

pub data ErrorState : Type 0 where
  unknown rejected : ErrorState

pub data Action : Type 0 where
  backoff_and_query query_before_retry do_not_retry limited_backoff_then_query manual_review :
      Action

pub record Classification : Type 0 where
  pub state : ErrorState
  pub retry : Bool
  pub action : Action

abbrev pub is_timeout : Option String → Bool
is_timeout none = false
is_timeout (some name) = contains (codes "timeout") (lower (codes name))

-- `status_code and first <= status_code < past`, of a status that `None` and 0 are not.
abbrev is_client_error : Option ℕ → Bool
is_client_error none = false
is_client_error (some code) = leb 400 code && ltb code 500

abbrev is_server_error : Option ℕ → Bool
is_server_error none = false
is_server_error (some code) = leb 500 code

abbrev is_rate_limit : Option ℕ → Bool
is_rate_limit none = false
is_rate_limit (some code) = code == 429

unfoldable pub classify_exchange_error : Option ℕ → Option String → Classification
classify_exchange_error code name =
    if is_rate_limit code
    then record { state = unknown; retry = false; action = backoff_and_query }
    else if is_timeout name
    then record { state = unknown; retry = false; action = query_before_retry }
    else if is_client_error code
    then record { state = rejected; retry = false; action = do_not_retry }
    else if is_server_error code
    then record { state = unknown; retry = true; action = limited_backoff_then_query }
    else record { state = unknown; retry = false; action = manual_review }

-- A result of the adapter's `submit_order`.
pub record Submit : Type 0 where
  pub submitted : Bool
  pub classification : Option Classification
  pub exchange_order_id : Option String
  pub client_order_id : Option String

abbrev is_rejected : Option Classification → Bool
is_rejected none = false
is_rejected (some c) = elim c.state [ unknown ↦ false | rejected ↦ true ]

unfoldable pub is_ambiguous_submit : Submit → Bool
is_ambiguous_submit submit =
    if submit.submitted then false else not (is_rejected submit.classification)

-- What the venue says of an order by its client order id: the query raised or answered something that
-- is no object, or it answered `ok`, or it answered an error with a code.
pub data Answer : Type 0 where
  no_answer : Answer
  found : Option String → Answer
  refused : Option ℤ → Answer

abbrev is_not_found : Option ℤ → Bool
is_not_found none = false
is_not_found (some (pos n)) = false
is_not_found (some (negsuc n)) = n == 2012

-- The `order_exists` of `resolve_ambiguous_submit`.
unfoldable pub resolve_ambiguous_submit : Answer → Option Bool
resolve_ambiguous_submit no_answer = none
resolve_ambiguous_submit (found status) = some true
resolve_ambiguous_submit (refused code) = if is_not_found code then some false else none

-- An error is read as a rejection only for a status from 400 to 499 that is not 429 and whose error
-- name does not speak of a timeout; and no rejection is retried.
classify_exchange_error-rejected :
    (code : Option ℕ) (name : Option String)
    → (classify_exchange_error code name).state ≡ rejected
    → ((c : ℕ) × (code ≡ some c) × (400 ≤ c) × (c < 500) × (c ≢ 429))
      × (is_timeout name ≡ false)
      × ((classify_exchange_error code name).retry ≡ false)
unfolding classify_exchange_error
classify_exchange_error-rejected none name h = ground arith
classify_exchange_error-rejected (some c) name h =
    ((c, refl, ground arith, ground arith, ground arith), ground arith, ground arith)
