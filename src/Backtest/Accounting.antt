-- ===== src/Backtest/Accounting.antt =====
-- What the trades of a simulation account for (execution_simulator.py).
use crypto_ai_system.Common.{
  ℕ, suc, ◌+◌, ◌-◌, Option, none, some, List, [], ◌∷◌, ◌≡◌, ◌⊎◌, inl, inr, refl, arith, length,
}
use crypto_ai_system.Float.{Float}
use crypto_ai_system.Rules.{Row}
use crypto_ai_system.Backtest.Simulator.{
  ExitReason, Position, Trade, Ledger, Setup, nothing, with_entry, with_trade, to_number, enter,
  exit_on, close, force_closed, simulate_from, simulate_strategy,
}
use crypto_ai_system.Backtest.Ledger.{IsOrderly, simulate_from-IsOrderly}

module _ {F : Type 0} where
  -- `k` positions that were open and those that were entered have each become a trade, but for one
  -- at most, where there is no closing price.
  abbrev Accounts : ℕ → Option F → Ledger F → Type 0
  Accounts k price ledger =
      (k + ledger.entries ≡ length ledger.trades)
      ⊎ ((k + ledger.entries ≡ length ledger.trades + 1) × (price ≡ none))

  with_entry-Accounts :
      (price : Option F) (ledger : Ledger F)
      → Accounts 1 price ledger
      → Accounts 0 price (with_entry ledger)
  with_entry-Accounts price ledger (inl e) = inl (omega (arith, e))
  with_entry-Accounts price ledger (inr (e, missing)) = inr (omega (arith, e), missing)

  with_trade-Accounts :
      (price : Option F) (t : Trade F) (ledger : Ledger F)
      → Accounts 0 price ledger
      → Accounts 1 price (with_trade t ledger)
  with_trade-Accounts price t ledger (inl e) = inl (omega (arith, e))
  with_trade-Accounts price t ledger (inr (e, missing)) = inr (omega (arith, e), missing)

  with_none :
      (price : Option F) (ledger : Ledger F)
      → Accounts 0 price ledger
      → (ledger.entries ≡ length ledger.trades)
        ⊎ ((ledger.entries ≡ length ledger.trades + 1) × (price ≡ none))
  with_none price ledger (inl e) = inl (omega (arith, e))
  with_none price ledger (inr (e, missing)) = inr (omega (arith, e), missing)

module _ {F : Type 0} ⦃f : Float F⦄ where
  -- The closing price of the last bar; `price` where there is none.
  abbrev pub last_price : Option F → List (Row F) → Option F
  last_price price [] = price
  last_price price (row ∷ rest) = last_price (to_number (row "close")) rest

  abbrev Closes : Option F → Option (Position F × Row F) → Type 0
  Closes price none = Unit
  Closes price (some (p, last)) = price ≡ to_number (last "close")

  abbrev opened : Option (Position F × Row F) → ℕ
  opened none = 0
  opened (some s) = 1

  module _ (setup : Setup F) where
    force_closed-Accounts :
        (i : ℕ) (p : Position F) (last : Row F) (price : Option F)
        → price ≡ to_number (last "close")
        → Accounts 1 price (force_closed setup i p last)
    unfolding force_closed
    force_closed-Accounts i p last price e =
        elim (to_number (last "close"))
            as (λ (o : Option F).
              let r : Ledger F = elim o [
                | none ↦ nothing
                | some x ↦
                    with_trade (close setup p i last ExitReason.force_close x (i - p.entry_bar + 1))
                      nothing
              ] in
              price ≡ o → Accounts 1 price r) [
                | none ↦ λ same. inr (refl, same)
                | some x ↦ λ same. inl refl
              ]
          e

    simulate_from-Accounts :
        (i : ℕ) (s : Option (Position F × Row F)) (rows : List (Row F)) (price : Option F)
        → Closes price s
        → Accounts (opened s) (last_price price rows) (simulate_from setup i s rows)
    unfolding simulate_from
    simulate_from-Accounts i none [] price closes = inl refl
    simulate_from-Accounts i none (row ∷ []) price closes = inl refl
    simulate_from-Accounts i none (row ∷ next ∷ more) price closes =
        let price' = last_price price (row ∷ next ∷ more) in
        elim (enter setup (suc i) row next)
          as (λ (o : Option (Position F)).
            let r : Ledger F = elim o [
              | none ↦ simulate_from setup (suc i) none (next ∷ more)
              | some p ↦ with_entry (simulate_from setup (suc i) (some (p, row)) (next ∷ more))
            ] in
            Accounts 0 price' r) [
              | none ↦ simulate_from-Accounts (suc i) none (next ∷ more) price tt
              | some p ↦ with_entry-Accounts price' _ (
                  simulate_from-Accounts (suc i) (some (p, row)) (next ∷ more)
                    (to_number (row "close")) refl)
            ]
    simulate_from-Accounts i (some (p, last)) [] price closes =
        force_closed-Accounts (i - 1) p last price closes
    simulate_from-Accounts i (some (p, last)) (row ∷ rest) price closes =
        let bars_held : ℕ = i - p.entry_bar + 1 in
        let price' = last_price price (row ∷ rest) in
        elim (exit_on setup p bars_held row)
          as (λ (o : Option (ExitReason × F)).
            let r : Ledger F = elim o [
              | none ↦ simulate_from setup (suc i) (some (p, row)) rest
              | some (reason, x) ↦
                  with_trade (close setup p i row reason x bars_held)
                    (simulate_from setup (suc i) none rest)
            ] in
            Accounts 1 price' r) [
              | none ↦
                  simulate_from-Accounts (suc i) (some (p, row)) rest (to_number (row "close")) refl
              | some (reason, x) ↦
                  with_trade-Accounts price' (close setup p i row reason x bars_held) _
                    (simulate_from-Accounts (suc i) none rest (to_number (row "close")) tt)
            ]

-- The trades of a simulation follow one another: each enters after the first bar, leaves at or after
-- the bar that it enters at and within the frame, counts its bars, and the next one enters two bars
-- after it or later. Every entry has become a trade, but for one at most, and that only where the
-- last bar has no closing price.
pub simulate_strategy-IsOrderly :
    {F : Type 0} ⦃f : Float F⦄ (setup : Setup F) (rows : List (Row F))
    → IsOrderly 1 (length rows) (simulate_strategy setup rows).trades
      × (((simulate_strategy setup rows).entries ≡ length (simulate_strategy setup rows).trades)
          ⊎ (((simulate_strategy setup rows).entries
                ≡ length (simulate_strategy setup rows).trades + 1)
              × (last_price none rows ≡ none)))
unfolding simulate_strategy
simulate_strategy-IsOrderly setup rows = (
  simulate_from-IsOrderly setup 0 (length rows) none rows tt (omega arith),
  with_none (last_price none rows) (simulate_from setup 0 none rows)
      (simulate_from-Accounts setup 0 none rows none tt),
)
