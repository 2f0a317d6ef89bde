-- ===== src/Live/Close.antt =====
-- The settlement of live_position_kernel.py: an unconfirmed close is resolved first, then the exit is
-- decided, noted on disk, submitted and read back. Each operation is a function of the world; where
-- Python mutates the loaded position, the function carries it along.
use crypto_ai_system.Common.{String, Option, none, some, get_or, ◌&&◌, if◌then◌else◌}
use crypto_ai_system.Float.{Float, Scalar, nought, positive, to_float}
use crypto_ai_system.Trade.{Reason, manual_exit, is_filled, first_id, result_r}
use crypto_ai_system.Ledger.{LiveOutcome, Ledger, record_live_outcome}
use crypto_ai_system.Live.Model.{
  CloseAttempt, pending_close_dead, close_pending_query_failed, Position, Query, queried, recorded,
  Venue, Services, World, Settlement, Report, closed_position, close_unconfirmed, raised, save,
  clear, note, str_of,
}
use crypto_ai_system.Live.Orders.{is_dead, is_unknown_order, opening_side, realized_pnl_usdt}

-- What a pending close leaves to do: it decides the cycle, or the cycle goes on with the position.
pub data Pending (F : Type 0) : Type 0 where
  decided : World F → Report F → Pending F
  free : World F → Position F → Pending F

module _ {F : Type 0} ⦃f : Float F⦄ (services : Services F) (regime : Option String) where
  -- `filled_qty or _f(position.get("quantity"))`
  abbrev pub closed_qty : Position F → F → F
  closed_qty p filled_qty = if f.eq filled_qty nought then p.quantity else filled_qty

  -- The row that a close is recorded as.
  unfoldable pub outcome_row : Position F → F → F → Option String → LiveOutcome F
  outcome_row p exit_price qty order_id = record {
    realized_pnl_usdt = Scalar.null;
    symbol = str_of p.symbol;
    side = opening_side p.direction;
    quantity = qty;
    open_price = p.entry_price;
    close_price = exit_price;
    open_order_id = p.entry_exchange_order_id;
    close_order_id = order_id;
    strategy_id = p.attribution.strategy_id;
    opened_at_utc = p.opened_at_utc;
    closed_at_utc = services.now;
    created_at_utc = services.now;
  }

  abbrev pub finish_close :
      World F → LiveOutcome F → Settlement F → Option (Ledger F) → World F × Report F
  finish_close w row s none = (w, raised)
  finish_close w row s (some ledger) =
      (clear (note (recorded row) (record w { ledger = ledger })), closed_position s)

  -- The summary that a close returns.
  unfoldable pub settlement_of : Position F → Reason → F → F → Option String → Settlement F
  unfolding result_r realized_pnl_usdt first_id
  settlement_of p reason exit_price qty order_id = record {
    position_id = p.position_id;
    close_reason = reason;
    exit_price = exit_price;
    quantity = qty;
    realized_pnl_usdt = f.round 8 (realized_pnl_usdt p.direction p.entry_price exit_price qty);
    result_R = f.round 8 (result_r p.direction p.entry_price exit_price p.risk);
    regime = get_or (first_id regime none) "unknown";
    close_exchange_order_id = order_id;
  }

  -- `_settle_from_fill`: the outcome is recorded before the position is cleared.
  unfoldable pub settle_from_fill :
      Position F → Reason → F → F → Option String → World F → World F × Report F
  unfolding outcome_row settlement_of
  settle_from_fill p reason exit_price filled_qty order_id w =
      let qty = closed_qty p filled_qty in
      let row = outcome_row p exit_price qty order_id in
      finish_close w row (settlement_of p reason exit_price qty order_id) (
        record_live_outcome w.ledger (realized_pnl_usdt p.direction p.entry_price exit_price qty)
          row)

  abbrev pub retire : Position F → Position F
  retire p = record p { close_client_order_id = none; close_reason_pending = none }

  abbrev pub decide : World F × Report F → Pending F
  decide (w, r) = decided w r

  -- A pending close that the venue knows.
  unfoldable pub resolve_known : Position F → Reason → Query F → World F → Pending F
  unfolding is_filled is_dead
  resolve_known p reason q w =
      let price = to_float q.avg_price in
      let dead = record (retire p) { close_attempt_status = some (pending_close_dead q.status) } in
      let waiting = record p {
        close_attempt_status = some (CloseAttempt.close_pending q.status);
      } in
      if is_filled q.status && positive price
      then decide (settle_from_fill p reason price (to_float q.executed_qty) q.order_id w)
      else if is_dead q.status
      then free (save dead w) dead
      else decided (save waiting w) (Report.close_pending reason q.status)

  -- A pending close that the query does not find.
  unfoldable pub resolve_missing : Position F → Reason → Query F → World F → Pending F
  unfolding is_unknown_order
  resolve_missing p reason q w =
      let silent = record p { close_attempt_status = some close_pending_query_failed } in
      if is_unknown_order q.error_code
      then free (save (retire p) w) (retire p)
      else decided (save silent w) (close_unconfirmed reason none)

  -- The close that a stored position waits for: an empty identifier is none.
  abbrev pub pending_id : Position F → Option String
  pending_id p = first_id p.close_client_order_id none

  abbrev pub resolve_query : Position F → Reason → Query F → World F → Pending F
  resolve_query p reason q w =
      if q.ok then resolve_known p reason q w else resolve_missing p reason q w

  module _ (venue : Venue F) where
    unfoldable pub resolve_id : Position F → World F → Option String → Pending F
    resolve_id p w none = free w p
    resolve_id p w (some id) =
        resolve_query p (get_or p.close_reason_pending manual_exit)
          (venue.query_order w.trace (str_of p.symbol) id) (note (queried (str_of p.symbol) id) w)

    -- `_resolve_pending_close`
    unfoldable pub resolve_pending_close : Position F → World F → Pending F
    unfolding first_id resolve_id
    resolve_pending_close p w = resolve_id p w (pending_id p)
