-- ===== src/Submit/Reconcile.antt =====
-- The reconciliation of a submitted order with the venue (`reconcile_signed_testnet` of
-- src/crypto_ai_system/execution/signed_testnet_reconciliation.py), and its live entry point in
-- live_strategy_execution.py.
use crypto_ai_system.Common.{
  String, Bool, true, false, not, ◌&&◌, ◌||◌, Option, none, some, get_or, List, [], ◌∷◌, concat,
  if◌then◌else◌,
}
use crypto_ai_system.Float.{Float, Scalar, nought}
use crypto_ai_system.Trade.{Side, OrderStatus, is_filled}
use crypto_ai_system.Text.{codes, lower, same_text}
use crypto_ai_system.Guard.RiskGate.{is_present, same_option, when}
use crypto_ai_system.Guard.Final.{float_of}

-- What the reconciliation reads of an order result, its intent included.
pub record OrderResult (F : Type 0) : Type 0 where
  pub external_order_submission_performed : Bool
  pub exchange_order_id : Option String
  pub symbol : Option String
  pub side : Option Side
  pub quantity : Scalar F
  pub reduce_only : Bool
  pub position_effect : Option String

-- The response of an order query that is an object.
pub record OrderFields (F : Type 0) : Type 0 where
  pub status : Option OrderStatus
  pub executed_qty : Scalar F
  pub avg_price : Scalar F
  pub order_id : Option String

pub record PositionRow (F : Type 0) : Type 0 where
  pub symbol : Option String
  pub position_amt : Scalar F
  pub entry_price : Scalar F

-- The three answers of the venue; an order response that is no object is `none`.
pub record Answers (F : Type 0) : Type 0 where
  pub order_ok : Bool
  pub order : Option (OrderFields F)
  pub positions_ok : Bool
  pub positions : List (PositionRow F)
  pub balance_ok : Bool

pub data Unreachable : Type 0 where
  order_status_query_failed position_query_failed balance_query_failed : Unreachable

pub data Mismatch : Type 0 where
  order_not_found reduce_only_sell_flipped reduce_only_buy_flipped order_filled_but_no_position :
      Mismatch
  buy_order_but_short sell_order_but_long filled_qty_does_not_match : Mismatch

pub data Reconciled : Type 0 where
  no_submission unreconciled mismatch reconciled : Reconciled

pub record Report (F : Type 0) : Type 0 where
  pub status : Reconciled
  pub order_status : Option OrderStatus
  pub executed_qty : F
  pub avg_fill_price : F
  pub mismatches : List Mismatch
  pub unreachable : List Unreachable
  pub filled : Bool

-- `_QTY_TOLERANCE` and the relative tolerance, as floats.
pub record Tolerances (F : Type 0) : Type 0 where
  pub qty_tolerance : F
  pub relative : F

abbrev pub is_buy : Option Side → Bool
is_buy (some Side.buy) = true
is_buy _ = false

abbrev pub is_sell : Option Side → Bool
is_sell (some Side.sell) = true
is_sell _ = false

abbrev upper_is : Option String → String → Bool
upper_is none word = false
upper_is (some s) word = same_text (lower (codes s)) (codes word)

-- `reduce_only` of the expected order.
unfoldable pub is_reducing : {F : Type 0} → OrderResult F → Bool
is_reducing r =
    r.reduce_only || upper_is r.position_effect "close" || upper_is r.position_effect "reduce"

-- `_find(positions, "symbol", symbol)`
unfoldable pub find_position :
    {F : Type 0} → Option String → List (PositionRow F) → Option (PositionRow F)
find_position symbol [] = none
find_position symbol (row ∷ rest) =
    if same_option row.symbol symbol then some row else find_position symbol rest

unfoldable pub status_for : List Unreachable → List Mismatch → Reconciled
status_for [] [] = reconciled
status_for [] (m ∷ ms) = mismatch
status_for (u ∷ us) ms = unreconciled

module _ {F : Type 0} ⦃f : Float F⦄ where
  -- `_float(value)`
  abbrev pub number_of : Scalar F → F
  number_of v = get_or (float_of v) nought

  abbrev amount_in : Option (PositionRow F) → F
  amount_in none = nought
  amount_in (some row) = number_of row.position_amt

  -- The venue's position in the symbol of the order.
  unfoldable pub position_amt : OrderResult F → Answers F → F
  unfolding find_position
  position_amt r a = amount_in (find_position r.symbol a.positions)

  abbrev pub status_in : Option (OrderFields F) → Option OrderStatus
  status_in none = none
  status_in (some o) = o.status

  abbrev pub executed_in : Option (OrderFields F) → F
  executed_in none = nought
  executed_in (some o) = number_of o.executed_qty

  abbrev price_in : Option (OrderFields F) → F
  price_in none = nought
  price_in (some o) = number_of o.avg_price

  abbrev pub lacks_id : Option (OrderFields F) → Bool
  lacks_id none = false
  lacks_id (some o) = not (is_present o.order_id)

  -- `max(a, b)`
  abbrev pub larger : F → F → F
  larger a b = if f.lt a b then b else a

  unfoldable pub unreachable_of : Answers F → List Unreachable
  unreachable_of a = concat (
      when (not a.order_ok) order_status_query_failed
      ∷ when (not a.positions_ok) position_query_failed
      ∷ when (not a.balance_ok) balance_query_failed
      ∷ [])

  -- The checks of a closing order, and of an opening one.
  unfoldable pub closing_mismatches : Tolerances F → Bool → Option Side → F → List Mismatch
  closing_mismatches t filled side amt = concat (
      when (filled && is_sell side && f.lt amt (f.sub nought t.qty_tolerance))
        reduce_only_sell_flipped
      ∷ when (filled && is_buy side && f.lt t.qty_tolerance amt) reduce_only_buy_flipped
      ∷ [])

  unfoldable pub opening_mismatches : Tolerances F → Bool → Option Side → F → F → F → List Mismatch
  opening_mismatches t filled side amt executed expected = concat (
      when (filled && f.lt (f.abs amt) t.qty_tolerance) order_filled_but_no_position
      ∷ when (filled && is_buy side && f.lt amt nought) buy_order_but_short
      ∷ when (filled && is_sell side && f.lt nought amt) sell_order_but_long
      ∷ when
          (filled
            && f.lt (larger t.qty_tolerance (f.mul expected t.relative))
                (f.abs (f.sub executed (f.abs amt))))
          filled_qty_does_not_match
      ∷ [])

  unfoldable pub mismatches_of : Tolerances F → OrderResult F → Answers F → List Mismatch
  unfolding closing_mismatches opening_mismatches position_amt is_reducing
  mismatches_of t r a =
      let filled = is_filled (status_in a.order) in
      concat (
        when (lacks_id a.order) order_not_found
        ∷ (if is_reducing r
            then closing_mismatches t filled r.side (position_amt r a)
            else opening_mismatches t filled r.side (position_amt r a) (executed_in a.order)
                (number_of r.quantity))
        ∷ [])

  abbrev pub nothing_sent : Report F
  nothing_sent = record {
    status = no_submission;
    order_status = none;
    executed_qty = nought;
    avg_fill_price = nought;
    mismatches = [];
    unreachable = [];
    filled = false;
  }

  -- `reconcile_signed_testnet`
  unfoldable pub reconcile_signed_testnet : Tolerances F → OrderResult F → Answers F → Report F
  unfolding mismatches_of unreachable_of status_for
  reconcile_signed_testnet t r a =
      if not r.external_order_submission_performed || not (is_present r.exchange_order_id)
      then nothing_sent
      else record {
        status = status_for (unreachable_of a) (mismatches_of t r a);
        order_status = status_in a.order;
        executed_qty = executed_in a.order;
        avg_fill_price = price_in a.order;
        mismatches = mismatches_of t r a;
        unreachable = unreachable_of a;
        filled = is_filled (status_in a.order);
      }

  -- `run_live_strategy_reconciliation`; no answers is an exception of the adapter.
  unfoldable pub run_live_strategy_reconciliation :
      Tolerances F → OrderResult F → Option (Answers F) → Report F
  unfolding reconcile_signed_testnet
  run_live_strategy_reconciliation t r none =
      if r.external_order_submission_performed
      then record nothing_sent { status = unreconciled }
      else nothing_sent
  run_live_strategy_reconciliation t r (some a) =
      if r.external_order_submission_performed then reconcile_signed_testnet t r a else nothing_sent
