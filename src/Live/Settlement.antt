-- ===== src/Live/Settlement.antt =====
-- A cycle settles a position from a fill of the venue or leaves it open (live_position_kernel.py).
use crypto_ai_system.Common.{
  ℕ, String, Bool, true, false, not, ◌++◌, [], ◌∷◌, Option, none, some, List, ◌≡◌, refl, arith, ◌∙◌,
  get_or, ◌||◌, inl, inr, Bool-cases, if◌then◌else◌,
}
use crypto_ai_system.Float.{Float, nought, to_float}
use crypto_ai_system.Trade.{Reason, manual_exit, Candle, Plan, is_filled, max_hold_bars}
use crypto_ai_system.Paper.Exits.{SameTerms}
use crypto_ai_system.Paper.Lifecycle.{settle_trade_plan-SameTerms}
use crypto_ai_system.Live.Agreement.{exit_signal-settle_trade_plan}
use crypto_ai_system.Live.Model.{
  Position, Slot, CloseIntent, CloseResult, Effect, Venue, Services, World, Settlement, Report,
  nothing, closed_position, close_pending, close_unconfirmed, close_failed, raised, str_of, note,
  save, submitted, queried,
}
use crypto_ai_system.Live.Signal.{exit_signal}
use crypto_ai_system.Live.Orders.{close_intent}
use crypto_ai_system.Live.Close.{
  Pending, decided, free, outcome_row, resolve_known, resolve_missing, resolve_pending_close,
  resolve_id, pending_id,
}
use crypto_ai_system.Live.Cycle.{
  confirm, after_submit, pending_close, close_order, act, proceed, settle_slot,
  settle_open_live_position,
}
use crypto_ai_system.Live.Fills.{
  Faithful, IsCloseOrder, IsFill, IsSame, IsSame-refl, Resolved, Resolved-if, StillOpen,
  resolve_known-Resolved, resolve_missing-Resolved, settle_from_fill-Faithful,
}

module _ {F : Type 0} ⦃f : Float F⦄ where
  module _ (services : Services F) (regime : Option String) (venue : Venue F) where
    StillOpen-trans :
        (q p : Position F) (slot : Slot F) → IsSame q p → StillOpen q slot → StillOpen p slot
    StillOpen-trans q p slot same (r, at, like) = (r, at, ground arith)

    outcome_row-same :
        (q p : Position F) (price qty : F) (order : Option String)
        → IsSame q p
        → outcome_row services regime q price qty order
          ≡ outcome_row services regime p price qty order
    unfolding outcome_row
    outcome_row-same q p price qty order same = ground arith

    IsFill-same :
        (q p : Position F) (pending : Option String) (s : Settlement F) (trace : List (Effect F))
        → IsSame q p
        → IsFill services regime venue q pending s trace
        → IsFill services regime venue p pending s trace
    IsFill-same q p pending s trace same fill = record {
      done = fill.done;
      id = fill.id;
      rest = fill.rest;
      asked = rw (← same.symbol) fill.asked;
      of_close = fill.of_close;
      filled = rw (← same.symbol) fill.filled;
      at_price = rw (← same.symbol) fill.at_price;
      of_qty = rw (← same.symbol, ← same.quantity) fill.of_qty;
      priced = fill.priced;
    }

    Faithful-same :
        (q p : Position F) (pending : Option String) (w₀ w w' : World F) (r : Report F)
        → IsSame q p
        → w.ledger ≡ w₀.ledger
        → Faithful services regime venue q pending w w' r
        → Faithful services regime venue p pending w₀ w' r
    Faithful-same q p pending w₀ w w' (closed_position s) same e (gone, id, fill, row) = (
      gone,
      id ∙ same.position_id,
      IsFill-same q p pending s w'.trace same fill,
      cc (
        row,
        e,
        same.terms.direction,
        same.terms.entry_price,
        outcome_row-same q p s.exit_price s.quantity s.close_exchange_order_id same,
      ),
    )
    Faithful-same q p pending w₀ w w' nothing same e (still, kept) =
        (StillOpen-trans q p w'.slot same still, kept ∙ e)
    Faithful-same q p pending w₀ w w' (close_pending a b) same e (still, kept) =
        (StillOpen-trans q p w'.slot same still, kept ∙ e)
    Faithful-same q p pending w₀ w w' (close_unconfirmed a b) same e (still, kept) =
        (StillOpen-trans q p w'.slot same still, kept ∙ e)
    Faithful-same q p pending w₀ w w' (close_failed a b) same e (still, kept) =
        (StillOpen-trans q p w'.slot same still, kept ∙ e)
    Faithful-same q p pending w₀ w w' raised same e (still, kept) =
        (StillOpen-trans q p w'.slot same still, kept ∙ e)

    confirm-Faithful :
        (p : Position F) (pending : Option String) (reason : Reason) (r : CloseResult)
        (done : List (Effect F)) (id : String) (w : World F)
        → w.trace ≡ done ++ queried (str_of p.symbol) id ∷ []
        → IsCloseOrder services regime venue pending done id
        → StillOpen p w.slot
        → let q = venue.query_order done (str_of p.symbol) id in
          let x = confirm services regime venue p reason r q w in
          Faithful services regime venue p pending w x.0 x.1
    unfolding confirm
    confirm-Faithful p pending reason r done id w asked of_close still =
        let q = venue.query_order done (str_of p.symbol) id in
        elim (Bool-cases (not (is_filled q.status) || f.le (to_float q.avg_price) nought)) [
          | inl refused ↦ rw refused ((_, refl, ground arith), refl)
          | inr fits ↦ rw fits (
              settle_from_fill-Faithful services regime venue p pending reason
                (to_float q.avg_price) (to_float q.executed_qty) r.exchange_order_id w
                (record {
                  done = done;
                  id = id;
                  asked = asked;
                  of_close = of_close;
                  filled = ground arith;
                  at_price = refl;
                  of_qty = refl;
                  priced = inr (ground arith);
                })
                still)
        ]

    Faithful-if :
        (p : Position F) (pending : Option String) (w : World F) (b : Bool)
        (x y : World F × Report F)
        → (b ≡ true → Faithful services regime venue p pending w x.0 x.1)
        → (b ≡ false → Faithful services regime venue p pending w y.0 y.1)
        → let r = if b then x else y in Faithful services regime venue p pending w r.0 r.1
    Faithful-if p pending w true x y hx hy = hx refl
    Faithful-if p pending w false x y hx hy = hy refl

    after_submit-Faithful :
        (p : Position F) (pending : Option String) (reason : Reason) (before : List (Effect F))
        (i : CloseIntent F) (w : World F)
        → w.trace ≡ before ++ submitted i ∷ []
        → StillOpen p w.slot
        → let x = after_submit services regime venue p reason (venue.submit_close before i) w in
          Faithful services regime venue p pending w x.0 x.1
    unfolding after_submit
    after_submit-Faithful p pending reason before i w sent_last still =
        let r = venue.submit_close before i in
        let id = str_of r.client_order_id in
        let asked = note (queried (str_of p.symbol) id) w in
        let q = venue.query_order w.trace (str_of p.symbol) id in
        let x = confirm services regime venue p reason r q asked in
        Faithful-if p pending w r.external_order_submission_performed _ _
          (λ sent.
            Faithful-same p p pending w asked x.0 x.1 (IsSame-refl services regime venue p) refl (
              confirm-Faithful p pending reason r w.trace id asked refl
                (inr (before, i, sent_last, refl)) still))
          (λ blocked. ((_, refl, ground arith), refl))

    close_order-Faithful :
        (p : Position F) (pending : Option String) (reason : Reason) (last_close : Option F)
        (w : World F)
        → let x = close_order services regime venue p reason last_close w in
          Faithful services regime venue p pending w x.0 x.1
    unfolding close_order
    close_order-Faithful p pending reason last_close w =
        let i = close_intent services p reason last_close in
        let q = pending_close services regime venue p reason i in
        let w' = note (submitted i) (save q w) in
        let r = venue.submit_close (save q w).trace i in
        let x = after_submit services regime venue q reason r w' in
        Faithful-same q p pending w w' x.0 x.1 (ground arith) refl (
          after_submit-Faithful q pending reason (save q w).trace i w' refl
            (q, refl, IsSame-refl services regime venue q))

    Resolved-same :
        (p : Position F) (pending : Option String) (w₀ w : World F) (left : Pending F)
        → w.ledger ≡ w₀.ledger
        → Resolved services regime venue p pending w left
        → Resolved services regime venue p pending w₀ left
    Resolved-same p pending w₀ w (decided w' r) e h =
        Faithful-same p p pending w₀ w w' r (IsSame-refl services regime venue p) e h
    Resolved-same p pending w₀ w (free w' q) e (same, still, kept) = (same, still, kept ∙ e)

    module _ (candle : Option (Candle F)) (last_close : Option F) (manual : Bool)
        (timeframe : String) where
      act-Faithful :
          (q p : Position F) (pending : Option String) (w w₀ : World F)
          (decision : Plan F × Option Reason)
          → IsSame q p
          → SameTerms decision.0 q.plan
          → w.ledger ≡ w₀.ledger
          → let x = act services regime venue candle last_close manual timeframe q w decision in
            Faithful services regime venue p pending w₀ x.0 x.1
      unfolding act
      act-Faithful q p pending w w₀ (counted, none) same terms e = ((_, refl, ground arith), e)
      act-Faithful q p pending w w₀ (counted, some reason) same terms e =
          let q' = record q { plan = counted } in
          let x = close_order services regime venue q' reason last_close w in
          Faithful-same q' p pending w₀ w x.0 x.1 (ground arith) e
            (close_order-Faithful q' pending reason last_close w)

      exit_signal-SameTerms :
          (plan : Plan F) (max_hold : ℕ)
          → SameTerms (exit_signal plan candle last_close max_hold manual).0 plan
      exit_signal-SameTerms plan max_hold =
          rw ((exit_signal-settle_trade_plan plan candle last_close max_hold manual).0)
            (settle_trade_plan-SameTerms plan candle last_close max_hold manual)

      proceed-Faithful :
          (p : Position F) (pending : Option String) (w : World F) (left : Pending F)
          → Resolved services regime venue p pending w left
          → let x = proceed services regime venue candle last_close manual timeframe left in
            Faithful services regime venue p pending w x.0 x.1
      unfolding proceed
      proceed-Faithful p pending w (decided w' r) h = h
      proceed-Faithful p pending w (free w' q) (same, still, kept) =
          act-Faithful q p pending w' w _ same
            (exit_signal-SameTerms q.plan (max_hold_bars timeframe)) kept

      resolve_id-Resolved :
          (p : Position F) (w : World F) (id : Option String)
          → StillOpen p w.slot
          → Resolved services regime venue p id w (resolve_id services regime venue p w id)
      unfolding resolve_id
      resolve_id-Resolved p w none still = (IsSame-refl services regime venue p, still, refl)
      resolve_id-Resolved p w (some id) still =
          let q = venue.query_order w.trace (str_of p.symbol) id in
          let asked = note (queried (str_of p.symbol) id) w in
          let reason = get_or p.close_reason_pending manual_exit in
          Resolved-if services regime venue p (some id) w q.ok _ _
            (λ known.
              Resolved-same p (some id) w asked (resolve_known services regime p reason q asked)
                refl
                (resolve_known-Resolved services regime venue p reason w.trace id asked refl still))
            (λ unknown.
              Resolved-same p (some id) w asked (resolve_missing services regime p reason q asked)
                refl (resolve_missing-Resolved services regime venue p (some id) reason q asked))

      -- A cycle on an open position either closes it from a fill that the venue reported, where the
      -- trace has asked, for the close order that the position waited for or for the one that was
      -- submitted just before: at that fill's price (above zero or at least not at or below it), and at
      -- its quantity, or at the position's where the fill reports zero, with exactly its row appended
      -- to the outcome registry; or it leaves the position open under its terms, and the registry as
      -- it was.
      pub settle_open_live_position-Faithful :
          (p : Position F) (w : World F)
          → w.slot ≡ Slot.opened p
          → let x =
              settle_open_live_position services regime venue candle last_close manual timeframe
                w in
            Faithful services regime venue p (pending_id services regime p) w x.0 x.1
      unfolding settle_open_live_position settle_slot resolve_pending_close
      settle_open_live_position-Faithful p w at = simp at (
          proceed-Faithful p (pending_id services regime p) w _ (
            resolve_id-Resolved p w (pending_id services regime p)
              (p, at, IsSame-refl services regime venue p)))
