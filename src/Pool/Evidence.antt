-- ===== src/Pool/Evidence.antt =====
-- Real results as pressure on the pool (src/crypto_ai_system/strategy_factory/live_evidence.py): the
-- results of each strategy, and its score blended by them.
use crypto_ai_system.Common.{
  ℕ, ◌+◌, String, Option, none, some, List, [], ◌∷◌, ltb, str_eq, if◌then◌else◌,
}
use crypto_ai_system.Common.Int.{pos}
use crypto_ai_system.Float.{Float, Scalar, nought}
use crypto_ai_system.Backtest.Metrics.{as_float}

-- `strategy_id -> (n, mean r_multiple)`
abbrev pub LiveStats : Type 0 → Type 0
LiveStats F = List (String × (ℕ × F))

pub record Row (F : Type 0) : Type 0 where
  pub strategy_id : Option String
  pub r_multiple : Scalar F

pub record Sls (F : Type 0) : Type 0 where
  pub score : Option F
  pub live_n : ℕ
  pub live_expectancy : Option F
  pub pseudo_trades : ℕ

-- `pseudo_trades if pseudo_trades > 0 else DEFAULT_PSEUDO_TRADES`
abbrev pseudo_or_default : ℕ → ℕ
pseudo_or_default k = if ltb 0 k then k else 20

module _ {F : Type 0} ⦃f : Float F⦄ where
  -- `sums[id] = (n + 1, total + r)`
  abbrev add_result : String → F → LiveStats F → LiveStats F
  add_result id r [] = (id, (1, f.add nought r)) ∷ []
  add_result id r ((name, (n, total)) ∷ rest) =
      let more = add_result id r rest in
      if str_eq name id then (name, (n + 1, f.add total r)) ∷ rest else (name, (n, total)) ∷ more

  -- The strategy and the result of a row that counts.
  abbrev usable : Row F → Option (String × F)
  usable row = elim row.strategy_id [
    | none ↦ none
    | some id ↦ elim (as_float row.r_multiple) [
      | none ↦ none
      | some r ↦ if str_eq id "" then none else some (id, r)
    ]
  ]

  unfoldable sums_from : LiveStats F → List (Row F) → LiveStats F
  unfolding as_float
  sums_from sums [] = sums
  sums_from sums (row ∷ rest) = elim (usable row) [
    | none ↦ sums_from sums rest
    | some (id, r) ↦ sums_from (add_result id r sums) rest
  ]

  abbrev means_of : LiveStats F → LiveStats F
  means_of [] = []
  means_of ((id, (n, total)) ∷ rest) =
      if ltb 0 n then (id, (n, f.div total (f.of_int (pos n)))) ∷ means_of rest else means_of rest

  unfoldable pub live_stats_by_strategy : List (Row F) → LiveStats F
  unfolding sums_from
  live_stats_by_strategy rows = means_of (sums_from [] rows)

  unfoldable pub shrunk_live_blended_score : ℕ → Option F → ℕ → Option F → Option F
  shrunk_live_blended_score pseudo_trades none live_n live_expectancy = none
  shrunk_live_blended_score pseudo_trades (some backtest_score) live_n none = some backtest_score
  shrunk_live_blended_score pseudo_trades (some backtest_score) live_n (some live_expectancy) =
      let k = pseudo_or_default pseudo_trades in
      let w = f.div (f.of_int (pos live_n)) (f.of_int (pos (live_n + k))) in
      if ltb 0 live_n
      then some
          (f.add (f.mul w live_expectancy) (f.mul (f.sub (f.of_int (pos 1)) w) backtest_score))
      else some backtest_score

  -- `live_stats.get(id, (0, None))`
  abbrev pub lookup : String → LiveStats F → ℕ × Option F
  lookup id [] = (0, none)
  lookup id ((name, (n, expectancy)) ∷ rest) =
      let found = lookup id rest in if str_eq name id then (n, some expectancy) else found

  -- `sls_for_entry`, for the identifier and the admission score of the entry.
  unfoldable pub sls_for_score : ℕ → LiveStats F → String → Option F → Sls F
  unfolding shrunk_live_blended_score
  sls_for_score pseudo_trades live_stats id champion_score =
      let (n, expectancy) = lookup id live_stats in
      record {
        score = shrunk_live_blended_score pseudo_trades champion_score n expectancy;
        live_n = n;
        live_expectancy = expectancy;
        pseudo_trades = pseudo_trades;
      }
