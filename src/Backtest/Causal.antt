-- ===== src/Backtest/Causal.antt =====
-- Later bars change no trade that a bar has closed (execution_simulator.py).
use crypto_ai_system.Common.{
  ℕ, suc, ◌+◌, ◌-◌, Bool, true, false, Option, none, some, List, [], ◌∷◌, ◌++◌, ◌≡◌, refl, keep,
  leb, if-both,
}
use crypto_ai_system.Float.{Float}
use crypto_ai_system.Rules.{Row}
use crypto_ai_system.Backtest.Simulator.{
  ExitReason, Position, Trade, Ledger, Setup, nothing, with_entry, with_trade, to_number, hit_stop,
  hit_target, enter, exit_on, held_out, close, force_closed, simulate_from, simulate_strategy,
}

-- A trade that a bar has closed, and not the end of the frame.
abbrev pub is_settled : ExitReason → Bool
is_settled ExitReason.force_close = false
is_settled _ = true

module _ {F : Type 0} where
  abbrev pub was_settled : Trade F → Bool
  was_settled t = is_settled t.exit_reason

  -- Some later trades follow those of the first list that bars have closed.
  abbrev Extends : Ledger F → Ledger F → Type 0
  Extends short long =
      (later : List (Trade F)) × (long.trades ≡ keep was_settled short.trades ++ later)

  with_trade-Extends :
      (t : Trade F) (short long : Ledger F)
      → was_settled t ≡ true
      → Extends short long
      → Extends (with_trade t short) (with_trade t long)
  with_trade-Extends t short long settled (later, e) = (later, rw (settled, e) refl)

  abbrev SettlesBy : Option (ExitReason × F) → Type 0
  SettlesBy none = Unit
  SettlesBy (some (reason, price)) = is_settled reason ≡ true

module _ {F : Type 0} ⦃f : Float F⦄ (setup : Setup F) where
  held_out-SettlesBy :
      (bars_held : ℕ) (price : Option F)
      → SettlesBy (held_out setup.spec.max_holding_bars bars_held price)
  held_out-SettlesBy bars_held none = tt
  held_out-SettlesBy bars_held (some x) =
      if-both SettlesBy (leb setup.spec.max_holding_bars bars_held) _ _ (λ due. refl) (λ early. tt)

  exit_on-SettlesBy :
      (p : Position F) (bars_held : ℕ) (row : Row F) → SettlesBy (exit_on setup p bars_held row)
  unfolding exit_on
  exit_on-SettlesBy p bars_held row =
      let low = to_number (row "low") in
      let high = to_number (row "high") in
      if-both SettlesBy (hit_stop p.side low high p.stop) _ _ (λ stopped. refl)
        (λ running.
          if-both SettlesBy (hit_target p.side low high p.target) _ _ (λ reached. refl)
            (λ missed. held_out-SettlesBy bars_held (to_number (row "close"))))

  force_closed-Extends :
      (i : ℕ) (p : Position F) (last : Row F) (long : Ledger F)
      → Extends (force_closed setup i p last) long
  unfolding force_closed close
  force_closed-Extends i p last long =
      elim (to_number (last "close"))
        as (λ (o : Option F).
          let r : Ledger F = elim o [
            | none ↦ nothing
            | some x ↦
                with_trade (close setup p i last ExitReason.force_close x (i - p.entry_bar + 1))
                  nothing
          ] in
          Extends r long) [ none ↦ (long.trades, refl) | some x ↦ (long.trades, refl) ]

  simulate_from-Extends :
      (i : ℕ) (s : Option (Position F × Row F)) (rows more : List (Row F))
      → Extends (simulate_from setup i s rows) (simulate_from setup i s (rows ++ more))
  unfolding simulate_from close
  simulate_from-Extends i none [] more = (_, refl)
  simulate_from-Extends i none (row ∷ []) more = (_, refl)
  simulate_from-Extends i none (row ∷ next ∷ rest) more =
      elim (enter setup (suc i) row next)
        as (λ (o : Option (Position F)).
          let short : Ledger F = elim o [
            | none ↦ simulate_from setup (suc i) none (next ∷ rest)
            | some p ↦ with_entry (simulate_from setup (suc i) (some (p, row)) (next ∷ rest))
          ] in
          let long : Ledger F = elim o [
            | none ↦ simulate_from setup (suc i) none (next ∷ rest ++ more)
            | some p ↦
                with_entry (simulate_from setup (suc i) (some (p, row)) (next ∷ rest ++ more))
          ] in
          Extends short long) [
            | none ↦ simulate_from-Extends (suc i) none (next ∷ rest) more
            | some p ↦ simulate_from-Extends (suc i) (some (p, row)) (next ∷ rest) more
          ]
  simulate_from-Extends i (some (p, last)) [] more =
      force_closed-Extends (i - 1) p last (simulate_from setup i (some (p, last)) more)
  simulate_from-Extends i (some (p, last)) (row ∷ rest) more =
      let bars_held : ℕ = i - p.entry_bar + 1 in
      elim (exit_on setup p bars_held row)
          as (λ (o : Option (ExitReason × F)).
            let short : Ledger F = elim o [
              | none ↦ simulate_from setup (suc i) (some (p, row)) rest
              | some (reason, x) ↦
                  with_trade (close setup p i row reason x bars_held)
                    (simulate_from setup (suc i) none rest)
            ] in
            let long : Ledger F = elim o [
              | none ↦ simulate_from setup (suc i) (some (p, row)) (rest ++ more)
              | some (reason, x) ↦
                  with_trade (close setup p i row reason x bars_held)
                    (simulate_from setup (suc i) none (rest ++ more))
            ] in
            SettlesBy o → Extends short long) [
              | none ↦ λ settles. simulate_from-Extends (suc i) (some (p, row)) rest more
              | some (reason, x) ↦ λ settles.
                  with_trade-Extends (close setup p i row reason x bars_held)
                    (simulate_from setup (suc i) none rest)
                    (simulate_from setup (suc i) none (rest ++ more)) settles
                    (simulate_from-Extends (suc i) none rest more)
            ]
        (exit_on-SettlesBy p bars_held row)

-- A frame that goes on with more bars has the trades that bars closed in the shorter one, in their
-- order, and after them its later ones: no trade that a bar has closed depends on a later bar.
pub simulate_strategy-causal :
    {F : Type 0} ⦃f : Float F⦄ (setup : Setup F) (rows more : List (Row F))
    → (later : List (Trade F)) × ((simulate_strategy setup (rows ++ more)).trades
        ≡ keep was_settled (simulate_strategy setup rows).trades ++ later)
unfolding simulate_strategy
simulate_strategy-causal setup rows more = simulate_from-Extends setup 0 none rows more
