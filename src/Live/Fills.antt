-- ===== src/Live/Fills.antt =====
-- What a settlement and the resolution of a pending close leave of the position (live_position_kernel.py).
use crypto_ai_system.Common.{
  String, ◌++◌, ◌∙◌, [], ◌∷◌, Bool, true, false, Option, none, some, List, ◌≡◌, refl, arith, ap,
  ◌&&◌, ◌⊎◌, inl, if◌then◌else◌,
}
use mathlib.Core.List.{append_assoc}
use crypto_ai_system.Float.{Float, nought, positive, to_float}
use crypto_ai_system.Trade.{Reason, is_filled}
use crypto_ai_system.Ledger.{Ledger, record_live_outcome}
use crypto_ai_system.Paper.Exits.{SameTerms}
use crypto_ai_system.Live.Model.{
  Position, Slot, closed, CloseIntent, submitted, queried, recorded, cleared, Query, Effect, Venue,
  Services, World, Settlement, Report, closed_position, str_of,
}
use crypto_ai_system.Live.Orders.{realized_pnl_usdt, is_dead, is_unknown_order}
use crypto_ai_system.Live.Close.{
  Pending, decided, free, closed_qty, outcome_row, settlement_of, settle_from_fill, finish_close,
  resolve_known, resolve_missing,
}

module _ {F : Type 0} ⦃f : Float F⦄ where
  -- `q` is the position `p`, up to the candle count, the last price and the notes on its close.
  pub record IsSame (q p : Position F) : Type 0 where
    pub terms : SameTerms q.plan p.plan
    pub quantity : q.quantity ≡ p.quantity
    pub position_id : q.position_id ≡ p.position_id
    pub symbol : q.symbol ≡ p.symbol
    pub entry_order : q.entry_exchange_order_id ≡ p.entry_exchange_order_id
    pub strategy : q.attribution ≡ p.attribution
    pub opened : q.opened_at_utc ≡ p.opened_at_utc

  abbrev pub StillOpen : Position F → Slot F → Type 0
  StillOpen p slot = (q : Position F) × (slot ≡ Slot.opened q) × IsSame q p

  module _ (services : Services F) (regime : Option String) (venue : Venue F) where
    -- The order that a query asks for is one of the close: the one that the position waited for, or
    -- the one that the trace says was just submitted, by the identifier that the submit gave it.
    abbrev pub IsCloseOrder : Option String → List (Effect F) → String → Type 0
    IsCloseOrder pending done id =
        (pending ≡ some id)
        ⊎ ((before : List (Effect F)) × (intent : CloseIntent F) × (done
              ≡ before ++ submitted intent ∷ [])
            × (id ≡ str_of (venue.submit_close before intent).client_order_id))

    -- The settlement is of a fill of the close order: after the effects `done` the trace goes on with
    -- the query for that order, and the answer is a fill at the price of the settlement, which is not
    -- zero or below. Its quantity is the filled one, or the position's where the answer has zero.
    pub record IsFill (p : Position F) (pending : Option String) (s : Settlement F)
        (trace : List (Effect F)) : Type 0 where
      pub done : List (Effect F)
      pub id : String
      pub rest : List (Effect F)
      pub asked : trace ≡ done ++ queried (str_of p.symbol) id ∷ rest
      pub of_close : IsCloseOrder pending done id
      pub filled : is_filled (venue.query_order done (str_of p.symbol) id).status ≡ true
      pub at_price : s.exit_price ≡ to_float (venue.query_order done (str_of p.symbol) id).avg_price
      pub of_qty :
          let qty = to_float (venue.query_order done (str_of p.symbol) id).executed_qty in
          s.quantity ≡ (if f.eq qty nought then p.quantity else qty)
      pub priced : (positive s.exit_price ≡ true) ⊎ (f.le s.exit_price nought ≡ false)

    -- What a cycle on the open position `p` leaves, by its report.
    abbrev pub Faithful : Position F → Option String → World F → World F → Report F → Type 0
    Faithful p pending w w' (closed_position s) =
        (w'.slot ≡ closed)
        × (s.position_id ≡ p.position_id)
        × IsFill p pending s w'.trace
        × (record_live_outcome w.ledger
              (realized_pnl_usdt p.direction p.entry_price s.exit_price s.quantity)
              (outcome_row services regime p s.exit_price s.quantity s.close_exchange_order_id)
            ≡ some w'.ledger)
    Faithful p pending w w' _ = StillOpen p w'.slot × (w'.ledger ≡ w.ledger)

    pub IsSame-refl : (p : Position F) → IsSame p p
    IsSame-refl p = ground arith

    -- A fill, as the query that reported it.
    pub record HasFill (p : Position F) (pending : Option String) (price qty : F)
        (trace : List (Effect F)) : Type 0 where
      pub done : List (Effect F)
      pub id : String
      pub asked : trace ≡ done ++ queried (str_of p.symbol) id ∷ []
      pub of_close : IsCloseOrder pending done id
      pub filled : is_filled (venue.query_order done (str_of p.symbol) id).status ≡ true
      pub at_price : price ≡ to_float (venue.query_order done (str_of p.symbol) id).avg_price
      pub of_qty : qty ≡ to_float (venue.query_order done (str_of p.symbol) id).executed_qty
      pub priced : (positive price ≡ true) ⊎ (f.le price nought ≡ false)

    -- The effects of a recorded close stand behind the query.
    HasFill-IsFill :
        (p : Position F) (pending : Option String) (price qty : F) (s : Settlement F)
        (trace more : List (Effect F))
        → HasFill p pending price qty trace
        → s.exit_price ≡ price
        → s.quantity ≡ closed_qty services regime p qty
        → IsFill p pending s (trace ++ more)
    HasFill-IsFill p pending price qty s trace more fill same_price same_qty = record {
      done = fill.done;
      id = fill.id;
      rest = more;
      asked =
          ap (λ t. t ++ more) fill.asked
          ∙ append_assoc fill.done (queried (str_of p.symbol) fill.id ∷ []) more;
      of_close = fill.of_close;
      filled = fill.filled;
      at_price = same_price ∙ fill.at_price;
      of_qty = same_qty ∙ ap (closed_qty services regime p) fill.of_qty;
      priced = rw same_price fill.priced;
    }

    finish_close-Faithful :
        (p : Position F) (pending : Option String) (reason : Reason) (price qty : F)
        (order : Option String) (w : World F) (ledger : Option (Ledger F))
        → HasFill p pending price qty w.trace
        → StillOpen p w.slot
        → let amount = closed_qty services regime p qty in
          let row = outcome_row services regime p price amount order in
          record_live_outcome w.ledger
              (realized_pnl_usdt p.direction p.entry_price price amount)
              row
            ≡ ledger
          → let r =
              finish_close services regime w row
                (settlement_of services regime p reason price amount order)
                ledger in
            Faithful p pending w r.0 r.1
    unfolding settlement_of
    finish_close-Faithful p pending reason price qty order w none fill still e = (still, refl)
    finish_close-Faithful p pending reason price qty order w (some ledger) fill still e = (
      refl,
      refl,
      (let amount = closed_qty services regime p qty in
          let row = outcome_row services regime p price amount order in
          rw (append_assoc w.trace (recorded row ∷ []) (cleared ∷ [])) (
            HasFill-IsFill p pending price qty
              (settlement_of services regime p reason price amount order) w.trace
              (recorded row ∷ cleared ∷ []) fill refl refl)),
      e,
    )

    pub settle_from_fill-Faithful :
        (p : Position F) (pending : Option String) (reason : Reason) (price qty : F)
        (order : Option String) (w : World F)
        → HasFill p pending price qty w.trace
        → StillOpen p w.slot
        → let r = settle_from_fill services regime p reason price qty order w in
          Faithful p pending w r.0 r.1
    unfolding settle_from_fill
    settle_from_fill-Faithful p pending reason price qty order w fill still =
        finish_close-Faithful p pending reason price qty order w _ fill still refl

    -- What a pending close leaves: a faithful report, or the open position with its ledger.
    abbrev pub Resolved : Position F → Option String → World F → Pending F → Type 0
    Resolved p pending w (decided w' r) = Faithful p pending w w' r
    Resolved p pending w (free w' q) = IsSame q p × StillOpen p w'.slot × (w'.ledger ≡ w.ledger)

    pub Resolved-if :
        (p : Position F) (pending : Option String) (w : World F) (b : Bool) (x y : Pending F)
        → (b ≡ true → Resolved p pending w x)
        → (b ≡ false → Resolved p pending w y)
        → Resolved p pending w (if b then x else y)
    Resolved-if p pending w true x y hx hy = hx refl
    Resolved-if p pending w false x y hx hy = hy refl

    pub resolve_missing-Resolved :
        (p : Position F) (pending : Option String) (reason : Reason) (q : Query F) (w : World F)
        → Resolved p pending w (resolve_missing services regime p reason q w)
    unfolding resolve_missing
    resolve_missing-Resolved p pending reason q w =
        Resolved-if p pending w (is_unknown_order q.error_code) _ _
          (λ _. (ground arith, (_, refl, ground arith), refl))
          (λ _. ((_, refl, ground arith), refl))

    pub resolve_known-Resolved :
        (p : Position F) (reason : Reason) (done : List (Effect F)) (id : String) (w : World F)
        → w.trace ≡ done ++ queried (str_of p.symbol) id ∷ []
        → StillOpen p w.slot
        → Resolved p
            (some id)
            w
            (resolve_known services regime p reason (venue.query_order done (str_of p.symbol) id) w)
    unfolding resolve_known
    resolve_known-Resolved p reason done id w asked still =
        let q = venue.query_order done (str_of p.symbol) id in
        Resolved-if p (some id) w (is_filled q.status && positive (to_float q.avg_price)) _ _
          (λ h.
            settle_from_fill-Faithful p (some id) reason (to_float q.avg_price)
              (to_float q.executed_qty) q.order_id w
              (record {
                done = done;
                id = id;
                asked = asked;
                of_close = inl refl;
                filled = ground arith;
                at_price = refl;
                of_qty = refl;
                priced = inl (ground arith);
              })
              still)
          (λ _.
            Resolved-if p (some id) w (is_dead q.status) _ _
              (λ _. (ground arith, (_, refl, ground arith), refl))
              (λ _. ((_, refl, ground arith), refl)))
