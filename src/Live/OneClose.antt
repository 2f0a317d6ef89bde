-- ===== src/Live/OneClose.antt =====
-- A cycle submits at most one close order, and none while one may be live (live_position_kernel.py).
use crypto_ai_system.Common.{
  ℕ, ◌+◌, ◌≤◌, String, Bool, true, false, not, Option, none, some, [], ◌∷◌, ◌≡◌, refl, arith, ap,
  ◌||◌, if◌then◌else◌, count-append,
}
use crypto_ai_system.Float.{Float, nought, to_float}
use crypto_ai_system.Trade.{Reason, Candle, Plan, is_filled, max_hold_bars}
use crypto_ai_system.Live.Model.{
  close_fill_unconfirmed, submit_status, Position, Slot, CloseResult, Query, submitted, queried,
  Venue, Services, World, Report, load_open, save, note, str_of,
}
use crypto_ai_system.Live.Orders.{close_intent}
use crypto_ai_system.Live.Signal.{exit_signal}
use crypto_ai_system.Live.Close.{
  Pending, decided, free, resolve_id, resolve_pending_close, pending_id,
}
use crypto_ai_system.Live.Cycle.{
  confirm, after_submit, pending_close, close_order, act, proceed, settle_slot,
  settle_open_live_position,
}
use crypto_ai_system.Live.Waiting.{
  Held, is_refuted, is_submission, query-submissions, resolve_id-Held, save-submissions,
  settle_from_fill-submissions, submissions,
}

module _ {F : Type 0} ⦃f : Float F⦄ where
  module _ (services : Services F) (regime : Option String) (venue : Venue F) where
    module _ (candle : Option (Candle F)) (last_close : Option F) (manual : Bool)
        (timeframe : String) where
      proceed-Held :
          (w : World F) (refuted : Bool) (pending : Pending F)
          → Held services regime venue w refuted pending
          → refuted ≡ false
          → submissions (proceed services regime venue candle last_close manual timeframe pending).0
            ≡ submissions w
      unfolding proceed
      proceed-Held w refuted (decided w' r) h alive = h
      proceed-Held w refuted (free w' p) (refutes, h) alive = cc

      waiting_id :
          (p : Position F) (w : World F) (id : String) (i : Option String)
          → i ≡ some id
          → is_refuted (venue.query_order w.trace (str_of p.symbol) id) ≡ false
          → submissions
              (proceed services regime venue candle last_close manual timeframe
                (resolve_id services regime venue p w i)).0
            ≡ submissions w
      waiting_id p w id i e alive =
          rw e (proceed-Held w _ _ (resolve_id-Held services regime venue p w id) alive)

      waiting_slot :
          (p : Position F) (w : World F) (id : String) (o : Option (Position F))
          → o ≡ some p
          → pending_id services regime p ≡ some id
          → is_refuted (venue.query_order w.trace (str_of p.symbol) id) ≡ false
          → submissions (settle_slot services regime venue candle last_close manual timeframe w o).0
            ≡ submissions w
      unfolding settle_slot resolve_pending_close
      waiting_slot p w id o e waits alive =
          rw e (waiting_id p w id (pending_id services regime p) waits alive)

      -- While the stored position waits for a close order, a cycle submits no other one, unless the
      -- venue answers that the order is canceled, rejected or expired, or that it never existed.
      pub pending_close_blocks :
          (p : Position F) (w : World F) (id : String)
          → w.slot ≡ Slot.opened p
          → pending_id services regime p ≡ some id
          → is_refuted (venue.query_order w.trace (str_of p.symbol) id) ≡ false
          → submissions
              (settle_open_live_position services regime venue candle last_close manual timeframe
                w).0
            ≡ submissions w
      unfolding settle_open_live_position load_open
      pending_close_blocks p w id at waits alive =
          waiting_slot p w id (load_open w.slot) (ap load_open at) waits alive

      once-if :
          (n : ℕ) (b : Bool) (x y : World F × Report F)
          → submissions x.0 ≤ n
          → submissions y.0 ≤ n
          → submissions (if b then x else y).0 ≤ n
      once-if n true x y hx hy = hx
      once-if n false x y hx hy = hy

      confirm-submissions :
          (p : Position F) (reason : Reason) (r : CloseResult) (q : Query F) (w : World F)
          → submissions (confirm services regime venue p reason r q w).0 ≤ submissions w
      unfolding confirm
      confirm-submissions p reason r q w =
          let price = to_float q.avg_price in
          once-if (submissions w) (not (is_filled q.status) || f.le price nought) _ _
            (omega (
              arith,
              save-submissions services regime venue
                  (record p {
                    close_attempt_status = some (close_fill_unconfirmed q.status);
                    close_attempt_failed_at_utc = some services.now;
                  })
                  w,
            ))
            (omega (
              arith,
              settle_from_fill-submissions services regime venue p reason price
                  (to_float q.executed_qty) r.exchange_order_id w,
            ))

      after_submit-submissions :
          (p : Position F) (reason : Reason) (r : CloseResult) (w : World F)
          → submissions (after_submit services regime venue p reason r w).0 ≤ submissions w
      unfolding after_submit
      after_submit-submissions p reason r w =
          let id = str_of r.client_order_id in
          let asked = note (queried (str_of p.symbol) id) w in
          let q = venue.query_order w.trace (str_of p.symbol) id in
          once-if (submissions w) r.external_order_submission_performed _ _
            (omega (
              arith,
              confirm-submissions p reason r q asked,
              query-submissions services regime venue (str_of p.symbol) id w,
            ))
            (omega (
              arith,
              save-submissions services regime venue
                  (record p {
                    close_client_order_id = none;
                    close_reason_pending = none;
                    close_attempt_status = some (submit_status r.status);
                    close_attempt_failed_at_utc = some services.now;
                  })
                  w,
            ))

      close_order-submissions :
          (p : Position F) (reason : Reason) (w : World F)
          → submissions (close_order services regime venue p reason last_close w).0
            ≤ submissions w + 1
      unfolding close_order
      close_order-submissions p reason w =
          let i = close_intent services p reason last_close in
          let q = pending_close services regime venue p reason i in
          let w' = save q w in
          omega (
            arith,
            after_submit-submissions q reason (venue.submit_close w'.trace i)
                (note (submitted i) w'),
            count-append is_submission w'.trace (submitted i ∷ []),
            save-submissions services regime venue q w,
          )

      act-submissions :
          (p : Position F) (w : World F) (decision : Plan F × Option Reason)
          → submissions
              (act services regime venue candle last_close manual timeframe p w decision).0
            ≤ submissions w + 1
      unfolding act
      act-submissions p w (counted, none) = omega (
        arith,
        save-submissions services regime venue
            (record p { plan = counted; last_seen_price = last_close }) w,
      )
      act-submissions p w (counted, some reason) =
          close_order-submissions (record p { plan = counted }) reason w

      proceed-submissions :
          (w : World F) (refuted : Bool) (pending : Pending F)
          → Held services regime venue w refuted pending
          → submissions (proceed services regime venue candle last_close manual timeframe pending).0
            ≤ submissions w + 1
      unfolding proceed
      proceed-submissions w refuted (decided w' r) h = omega (arith, h)
      proceed-submissions w refuted (free w' p) (_, h) = omega (
        arith,
        h,
        act-submissions p w'
            (exit_signal p.plan candle last_close (max_hold_bars timeframe) manual),
      )

      resolve_any-Held :
          (p : Position F) (w : World F) (id : Option String)
          → (b : Bool) × Held services regime venue w b (resolve_id services regime venue p w id)
      unfolding resolve_id
      resolve_any-Held p w none = (true, (refl, refl))
      resolve_any-Held p w (some id) = (_, resolve_id-Held services regime venue p w id)

      settle_slot-submissions :
          (w : World F) (o : Option (Position F))
          → submissions (settle_slot services regime venue candle last_close manual timeframe w o).0
            ≤ submissions w + 1
      unfolding settle_slot resolve_pending_close
      settle_slot-submissions w none = omega arith
      settle_slot-submissions w (some p) =
          let (b, held) = resolve_any-Held p w (pending_id services regime p) in
          proceed-submissions w b _ held

      -- A cycle submits at most one close order.
      pub submits_at_most_once :
          (w : World F)
          → submissions
              (settle_open_live_position services regime venue candle last_close manual timeframe
                w).0
            ≤ submissions w + 1
      unfolding settle_open_live_position
      submits_at_most_once w = settle_slot-submissions w (load_open w.slot)
