-- ===== src/Backtest/Ledger.antt =====
-- The trades of a simulation: their bars, their number, and that a later bar changes none of those
-- that were closed before it (execution_simulator.py).
use crypto_ai_system.Common.{
  ℕ, suc, ◌+◌, ◌-◌, ◌≤◌, ◌<◌, Option, none, some, List, [], ◌∷◌, ◌≡◌, refl, arith, length, if-both,
}
use crypto_ai_system.Float.{Float}
use crypto_ai_system.Trade.{Direction}
use crypto_ai_system.Rules.{Row, evaluate_spec}
use crypto_ai_system.Backtest.Simulator.{
  ExitReason, Position, Trade, Ledger, Setup, nothing, with_entry, with_trade, to_number,
  position_at, opened, enter, exit_on, close, force_closed, simulate_from,
}

-- Trades that follow one another: each leaves at or after the bar that it enters at, within the
-- frame, counts its bars, and the next one enters two bars after it or later.
abbrev pub IsOrderly : {F : Type 0} → ℕ → ℕ → List (Trade F) → Type 0
IsOrderly earliest n [] = Unit
IsOrderly earliest n (t ∷ rest) =
    (earliest ≤ t.entry_bar)
    × (t.entry_bar ≤ t.exit_bar)
    × (t.exit_bar < n)
    × (t.bars_held ≡ t.exit_bar - t.entry_bar + 1)
    × IsOrderly (t.exit_bar + 2) n rest

module _ {F : Type 0} where
  -- The first bar that a trade can enter at, and what the state of the loop promises.
  abbrev earliest : ℕ → Option (Position F × Row F) → ℕ
  earliest i none = i + 1
  earliest i (some (p, last)) = p.entry_bar

  abbrev Fits : ℕ → Option (Position F × Row F) → List (Row F) → Type 0
  Fits i none rows = Unit
  Fits i (some (p, last)) [] = p.entry_bar + 1 ≤ i
  Fits i (some (p, last)) (row ∷ rest) = p.entry_bar ≤ i

  abbrev EntersAt : ℕ → Option (Position F) → Type 0
  EntersAt bar none = Unit
  EntersAt bar (some p) = p.entry_bar ≡ bar

  Fits-held :
      (i : ℕ) (p : Position F) (row : Row F) (rest : List (Row F))
      → p.entry_bar ≤ i
      → Fits (suc i) (some (p, row)) rest
  Fits-held i p row [] le = omega arith
  Fits-held i p row (next ∷ rest) le = omega arith

  IsOrderly-later :
      (a b n : ℕ) (trades : List (Trade F)) → a ≤ b → IsOrderly b n trades → IsOrderly a n trades
  IsOrderly-later a b n [] le h = tt
  IsOrderly-later a b n (t ∷ rest) le h = (omega (arith, h.0), h.1, h.2, h.3, h.4)

module _ {F : Type 0} ⦃f : Float F⦄ (setup : Setup F) where
  position_at-EntersAt :
      (bar : ℕ) (signal next : Row F) (side : Direction) (atr price : F)
      → EntersAt bar (position_at setup bar signal next side atr price)
  unfolding position_at
  position_at-EntersAt bar signal next side atr price = ground arith

  opened-EntersAt :
      (bar : ℕ) (signal next : Row F) (side : Direction) (atr price : Option F)
      → EntersAt bar (opened setup bar signal next side atr price)
  opened-EntersAt bar signal next side none price = tt
  opened-EntersAt bar signal next side (some atr) none = tt
  opened-EntersAt bar signal next side (some atr) (some price) =
      position_at-EntersAt bar signal next side atr price

  enter-EntersAt : (bar : ℕ) (signal next : Row F) → EntersAt bar (enter setup bar signal next)
  unfolding enter
  enter-EntersAt bar signal next =
      if-both (EntersAt bar) (evaluate_spec setup.spec signal).matched _ _
        (λ matched. opened-EntersAt bar signal next _ _ _) (λ unmatched. tt)

  force_closed-IsOrderly :
      (i n : ℕ) (p : Position F) (last : Row F)
      → p.entry_bar + 1 ≤ i
      → i ≡ n
      → IsOrderly p.entry_bar n (force_closed setup (i - 1) p last).trades
  unfolding force_closed close
  force_closed-IsOrderly i n p last le e =
      elim (to_number (last "close"))
        as (λ (o : Option F).
          let r : Ledger F = elim o [
            | none ↦ nothing
            | some price ↦
                with_trade
                  (close setup p (i - 1) last ExitReason.force_close price
                    (i - 1 - p.entry_bar + 1))
                  nothing
          ] in
          IsOrderly p.entry_bar n r.trades) [
            | none ↦ tt
            | some price ↦ (omega arith, omega arith, omega arith, refl, tt)
          ]

  pub simulate_from-IsOrderly :
      (i n : ℕ) (s : Option (Position F × Row F)) (rows : List (Row F))
      → Fits i s rows
      → i + length rows ≡ n
      → IsOrderly (earliest i s) n (simulate_from setup i s rows).trades
  unfolding simulate_from close
  simulate_from-IsOrderly i n none [] fits e = tt
  simulate_from-IsOrderly i n none (row ∷ []) fits e = tt
  simulate_from-IsOrderly i n none (row ∷ next ∷ more) fits e =
      elim (enter setup (suc i) row next)
          as (λ (o : Option (Position F)).
            EntersAt (suc i) o
            → let r : Ledger F = elim o [
              | none ↦ simulate_from setup (suc i) none (next ∷ more)
              | some p ↦ with_entry (simulate_from setup (suc i) (some (p, row)) (next ∷ more))
            ] in
              IsOrderly (i + 1) n r.trades) [
                | none ↦ λ at.
                    IsOrderly-later (i + 1) (suc i + 1) n _ (omega arith)
                      (simulate_from-IsOrderly (suc i) n none (next ∷ more) tt (omega (arith, e)))
                | some p ↦ λ at. IsOrderly-later (i + 1) p.entry_bar n _ (omega (arith, at)) (
                    simulate_from-IsOrderly (suc i) n (some (p, row)) (next ∷ more)
                      (omega (arith, at)) (omega (arith, e)))
              ]
        (enter-EntersAt (suc i) row next)
  simulate_from-IsOrderly i n (some (p, last)) [] fits e =
      force_closed-IsOrderly i n p last fits (omega (arith, e))
  simulate_from-IsOrderly i n (some (p, last)) (row ∷ rest) fits e =
      let bars_held : ℕ = i - p.entry_bar + 1 in
      elim (exit_on setup p bars_held row)
        as (λ (o : Option (ExitReason × F)).
          let r : Ledger F = elim o [
            | none ↦ simulate_from setup (suc i) (some (p, row)) rest
            | some (reason, price) ↦
                with_trade (close setup p i row reason price bars_held)
                  (simulate_from setup (suc i) none rest)
          ] in
          IsOrderly p.entry_bar n r.trades) [
            | none ↦
                simulate_from-IsOrderly (suc i) n (some (p, row)) rest (Fits-held i p row rest fits)
                  (omega (arith, e))
            | some (reason, price) ↦ (
              omega arith,
              fits,
              omega (arith, e),
              refl,
              IsOrderly-later (i + 2) (suc i + 1) n _ (omega arith)
                  (simulate_from-IsOrderly (suc i) n none rest tt (omega (arith, e))),
            )
          ]
