-- ===== src/Live/Waiting.antt =====
-- The resolution of a pending close submits nothing (live_position_kernel.py).
use crypto_ai_system.Common.{
  ℕ, String, Bool, true, false, Option, none, some, [], ◌∷◌, ◌++◌, ◌≡◌, refl, arith, ◌∙◌, ◌&&◌,
  if◌then◌else◌, count, count-append, get_or,
}
use crypto_ai_system.Float.{Float, positive, to_float}
use crypto_ai_system.Trade.{Reason, manual_exit, is_filled}
use crypto_ai_system.Ledger.{LiveOutcome, Ledger}
use crypto_ai_system.Live.Model.{
  Position, Query, Effect, submitted, queried, Venue, Services, World, Settlement, save, note,
  str_of,
}
use crypto_ai_system.Live.Orders.{is_dead, is_unknown_order}
use crypto_ai_system.Live.Close.{
  Pending, decided, free, finish_close, settle_from_fill, resolve_known, resolve_missing,
  resolve_id,
}

module _ {F : Type 0} where
  abbrev pub is_submission : Effect F → Bool
  is_submission (submitted i) = true
  is_submission _ = false

  -- How many close orders the world has seen submitted.
  abbrev pub submissions : World F → ℕ
  submissions w = count is_submission w.trace

  -- The venue's answer proves that a close order will never fill.
  unfoldable pub is_refuted : Query F → Bool
  unfolding is_dead is_unknown_order
  is_refuted q = if q.ok then is_dead q.status else is_unknown_order q.error_code

module _ {F : Type 0} ⦃f : Float F⦄ where
  module _ (services : Services F) (regime : Option String) (venue : Venue F) where
    finish_close-submissions :
        (w : World F) (row : LiveOutcome F) (s : Settlement F) (ledger : Option (Ledger F))
        → submissions (finish_close services regime w row s ledger).0 ≡ submissions w
    finish_close-submissions w row s none = refl
    finish_close-submissions w row s (some ledger) = omega (
      arith,
      count-append is_submission w.trace (Effect.recorded row ∷ []),
      count-append is_submission (w.trace ++ Effect.recorded row ∷ []) (Effect.cleared ∷ []),
    )

    pub settle_from_fill-submissions :
        (p : Position F) (reason : Reason) (price qty : F) (order : Option String) (w : World F)
        → submissions (settle_from_fill services regime p reason price qty order w).0
          ≡ submissions w
    unfolding settle_from_fill
    settle_from_fill-submissions p reason price qty order w = finish_close-submissions w _ _ _

    pub save-submissions : (p : Position F) (w : World F) → submissions (save p w) ≡ submissions w
    save-submissions p w = omega (arith, count-append is_submission w.trace (Effect.saved p ∷ []))

    pub query-submissions :
        (a b : String) (w : World F) → submissions (note (queried a b) w) ≡ submissions w
    query-submissions a b w = omega (arith, count-append is_submission w.trace (queried a b ∷ []))

    -- Nothing is submitted so far, and the cycle goes on only over a close that is refuted.
    abbrev pub Held : World F → Bool → Pending F → Type 0
    Held w refuted (decided w' r) = submissions w' ≡ submissions w
    Held w refuted (free w' p) = (refuted ≡ true) × (submissions w' ≡ submissions w)

    Held-if :
        (w : World F) (refuted b : Bool) (x y : Pending F)
        → (b ≡ true → Held w refuted x)
        → (b ≡ false → Held w refuted y)
        → Held w refuted (if b then x else y)
    Held-if w refuted true x y hx hy = hx refl
    Held-if w refuted false x y hx hy = hy refl

    resolve_known-Held :
        (p : Position F) (reason : Reason) (q : Query F) (w : World F)
        → Held w (is_dead q.status) (resolve_known services regime p reason q w)
    unfolding resolve_known
    resolve_known-Held p reason q w =
        Held-if w (is_dead q.status) (is_filled q.status && positive (to_float q.avg_price)) _ _
          (λ fits.
            settle_from_fill-submissions p reason (to_float q.avg_price) (to_float q.executed_qty)
              q.order_id w)
          (λ more.
            Held-if w (is_dead q.status) (is_dead q.status) _ _
              (λ dead. (dead, save-submissions _ w)) (λ alive. save-submissions _ w))

    resolve_missing-Held :
        (p : Position F) (reason : Reason) (q : Query F) (w : World F)
        → Held w (is_unknown_order q.error_code) (resolve_missing services regime p reason q w)
    unfolding resolve_missing
    resolve_missing-Held p reason q w =
        Held-if w (is_unknown_order q.error_code) (is_unknown_order q.error_code) _ _
          (λ gone. (gone, save-submissions _ w)) (λ unknown. save-submissions _ w)

    Held-weaken :
        (w w' : World F) (a b : Bool) (x : Pending F)
        → submissions w' ≡ submissions w
        → a ≡ b
        → Held w' a x
        → Held w b x
    Held-weaken w w' a b (decided v r) e same h = h ∙ e
    Held-weaken w w' a b (free v p) e same (refuted, h) = (rw (← same) refuted, h ∙ e)

    pub resolve_id-Held :
        (p : Position F) (w : World F) (id : String)
        → Held w
            (is_refuted (venue.query_order w.trace (str_of p.symbol) id))
            (resolve_id services regime venue p w (some id))
    unfolding resolve_id is_refuted
    resolve_id-Held p w id =
        let q = venue.query_order w.trace (str_of p.symbol) id in
        let asked = note (queried (str_of p.symbol) id) w in
        let same = query-submissions (str_of p.symbol) id w in
        let reason = get_or p.close_reason_pending manual_exit in
        Held-if w _ q.ok _ _
          (λ known.
            Held-weaken w asked _ _ (resolve_known services regime p reason q asked) same
              (simp known) (resolve_known-Held p reason q asked))
          (λ unknown.
            Held-weaken w asked _ _ (resolve_missing services regime p reason q asked) same
              (simp unknown) (resolve_missing-Held p reason q asked))
