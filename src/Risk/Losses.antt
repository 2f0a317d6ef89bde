-- ===== src/Risk/Losses.antt =====
-- When the risk guard lets a new position be opened (risk_guard.py).
use crypto_ai_system.Common.{
  ℕ, ◌+◌, ◌≤◌, ◌<◌, Bool, true, false, ◌&&◌, Option, none, some, List, [], ◌∷◌, ◌++◌, ◌≡◌, refl,
  ◌-◌, drop, all, all-All, drop-split, length-drop, subst, arith, ap, ◌∙◌, All, length, leb,
}
use mathlib.Core.Option.{some-injective}
use crypto_ai_system.Float.{Float, nought}
use crypto_ai_system.Registry.{File, load_registry_records}
use crypto_ai_system.Risk.{
  OutcomeRow, ClosedTrade, Limits, RiskStatus, closed_trades, sorted, reverse_onto, is_loss,
  leading_losses, consecutive_losses, pnl_since, drawdowns_r, drawdown_limit_r, day_start,
  week_start, problems_of, status_of, judged, guarded, run_risk_guard,
}

module _ {F : Type 0} ⦃f : Float F⦄ where
  leading_losses-reverse_onto :
      (done losses : List (ClosedTrade F))
      → All (λ t. is_loss t ≡ true) losses
      → leading_losses (reverse_onto done losses) ≡ length losses + leading_losses done
  leading_losses-reverse_onto done [] all = omega arith
  leading_losses-reverse_onto done (t ∷ rest) (loss, all) =
      ground (arith, loss, leading_losses-reverse_onto (t ∷ done) rest all)

  reverse_onto-append :
      (done before losses : List (ClosedTrade F))
      → reverse_onto done (before ++ losses) ≡ reverse_onto (reverse_onto done before) losses
  reverse_onto-append done [] losses = refl
  reverse_onto-append done (t ∷ rest) losses = reverse_onto-append (t ∷ done) rest losses

  consecutive_losses-append :
      (before losses : List (ClosedTrade F))
      → All (λ t. is_loss t ≡ true) losses
      → length losses ≤ consecutive_losses (before ++ losses)
  unfolding consecutive_losses
  consecutive_losses-append before losses all =
      rw (reverse_onto-append [] before losses)
        (omega (arith, leading_losses-reverse_onto (reverse_onto [] before) losses all))

  -- What a status that allows a position says of the history.
  record IsWithin (limits : Limits F) (now : ℕ) (trades : List (ClosedTrade F)) : Type 0 where
    daily : f.le (pnl_since (day_start now) trades) limits.daily_max_loss_r ≡ false
    weekly : f.le (pnl_since (week_start now) trades) limits.weekly_max_loss_r ≡ false
    streak : consecutive_losses trades < limits.max_consecutive_losses
    drawdown : f.le (drawdowns_r trades).1 (f.sub nought (drawdown_limit_r limits)) ≡ false

  status_of-IsWithin :
      (limits : Limits F) (now : ℕ) (trades : List (ClosedTrade F))
      → (status_of limits now trades).allow_new_position ≡ true
      → IsWithin limits now trades
  unfolding status_of problems_of
  status_of-IsWithin limits now trades h = record {
    daily = ground arith;
    weekly = ground arith;
    streak = ground arith;
    drawdown = ground arith;
  }

  -- The last `n` trades are there, and all of them are losses.
  abbrev pub streak_reached : ℕ → List (ClosedTrade F) → Bool
  streak_reached n trades = leb n (length trades) && all is_loss (drop (length trades - n) trades)

  streak_reached-consecutive_losses :
      (n : ℕ) (trades : List (ClosedTrade F))
      → streak_reached n trades ≡ true
      → n ≤ consecutive_losses trades
  streak_reached-consecutive_losses n trades h =
      let k : ℕ = length trades - n in
      let losses : List (ClosedTrade F) = drop k trades in
      let (before, e) = drop-split k trades in
      let counted : length losses ≤ consecutive_losses trades =
        subst (λ xs. length losses ≤ consecutive_losses xs) e
          (consecutive_losses-append before losses (all-All is_loss losses (ground arith))) in
      ground (arith, counted, length-drop k trades)

  judged-IsWithin :
      (limits : Limits F) (now : ℕ) (o : Option (List (ClosedTrade F))) {status : RiskStatus F}
      → judged limits now o ≡ some status
      → status.allow_new_position ≡ true
      → (trades : List (ClosedTrade F)) × (o ≡ some trades) × IsWithin limits now (sorted trades)
  judged-IsWithin limits now none ran allowed = cc
  judged-IsWithin limits now (some trades) ran allowed = (
    trades,
    refl,
    status_of-IsWithin limits now (sorted trades)
        (ap (λ (s : RiskStatus F). s.allow_new_position) (some-injective _ _ ran) ∙ allowed),
  )

  guarded-IsWithin :
      (limits : Limits F) (now : ℕ) (o : Option (List (OutcomeRow F))) {status : RiskStatus F}
      → guarded limits now o ≡ some status
      → status.allow_new_position ≡ true
      → (rows : List (OutcomeRow F)) × (trades : List (ClosedTrade F)) × (o ≡ some rows)
        × (closed_trades rows ≡ some trades)
        × IsWithin limits now (sorted trades)
  guarded-IsWithin limits now none ran allowed =
      let blocked : false ≡ true =
        ap (λ (s : RiskStatus F). s.allow_new_position) (some-injective _ _ ran) ∙ allowed in
      cc
  guarded-IsWithin limits now (some rows) ran allowed =
      let (trades, numbers, within) = judged-IsWithin limits now (closed_trades rows) ran allowed in
      (rows, trades, refl, numbers, within)

  -- The guard lets a new position be opened only where the registry was read and each closed outcome
  -- has a number; and where, in the order of their closing times, the results of the day and of the
  -- week are not at or below their limits, the last trades, as many as the limit of consecutive
  -- losses, are not all losses, and the current drawdown is not at or below its limit.
  pub run_risk_guard_allowed :
      (limits : Limits F) (now : ℕ) (file : File (OutcomeRow F)) {status : RiskStatus F}
      → run_risk_guard limits now file ≡ some status
      → status.allow_new_position ≡ true
      → (rows : List (OutcomeRow F)) × (trades : List (ClosedTrade F)) × (load_registry_records file
          ≡ some rows)
        × (closed_trades rows ≡ some trades)
        × (f.le (pnl_since (day_start now) (sorted trades)) limits.daily_max_loss_r ≡ false)
        × (f.le (pnl_since (week_start now) (sorted trades)) limits.weekly_max_loss_r ≡ false)
        × (streak_reached limits.max_consecutive_losses (sorted trades) ≡ false)
        × (f.le (drawdowns_r (sorted trades)).1 (f.sub nought (drawdown_limit_r limits)) ≡ false)
  unfolding run_risk_guard
  run_risk_guard_allowed limits now file ran allowed =
      let (rows, trades, read, numbers, within) =
        guarded-IsWithin limits now (load_registry_records file) ran allowed in
      let streak : streak_reached limits.max_consecutive_losses (sorted trades) ≡ false = ground (
        arith,
        within.streak,
        streak_reached-consecutive_losses limits.max_consecutive_losses (sorted trades),
      ) in
      (rows, trades, read, numbers, within.daily, within.weekly, streak, within.drawdown)
