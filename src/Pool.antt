-- ===== src/Pool.antt =====
-- The active strategy pool (src/crypto_ai_system/strategy_factory/active_strategy_pool.py): its
-- entries, the admission of a champion, and the file and registry that keep them. Statuses are those
-- of `StrategyStatus`, and a score of a spec is a number or missing.
pub mod Admission
pub mod Audit
pub mod Evidence
pub mod Register
pub mod Weakest
use crypto_ai_system.Common.{
  ℕ, ◌+◌, String, Bool, true, false, not, ◌&&◌, Option, none, some, List, [], ◌∷◌, ◌++◌, ltb,
  str_eq, length, count, keep, any, map, concat, if◌then◌else◌, get_or,
}
use crypto_ai_system.Float.{Float}
use crypto_ai_system.Lifecycle.{
  StrategyStatus, paper_active, warning, probation, suspended, same_status,
}
use crypto_ai_system.Pool.Evidence.{Sls, LiveStats, sls_for_score}

pub record Spec : Type 0 where
  pub strategy_id : String
  pub strategy_rule_hash : String
  pub strategy_family : String
  pub symbol_scope : List String
  pub generation_id : Option String

pub record Robustness (F : Type 0) : Type 0 where
  pub verdict : Option String
  pub robustness_score : Option F
  pub trades_per_parameter : Option F
  pub warnings : List String

-- `robustness` is none where the entry has none of its keys; the last two fields are those that
-- strategy_feedback_step.py reads.
pub record Entry (F : Type 0) : Type 0 where
  pub strategy_id : String
  pub strategy_rule_hash : String
  pub status : StrategyStatus
  pub stage : String
  pub champion_score : Option F
  pub generation_id : Option String
  pub strategy_spec : Option Spec
  pub added_at_utc : String
  pub updated_at_utc : String
  pub robustness : Option (Robustness F)
  pub consecutive_failures : ℕ
  pub backtest_win_rate : Option F

pub record Pool (F : Type 0) : Type 0 where
  pub stage : String
  pub active_strategies : List (Entry F)

-- What a comparison with the weakest occupant leaves in its decision.
pub record SlsAudit (F : Type 0) : Type 0 where
  pub weakest_live_n : ℕ
  pub weakest_live_expectancy : Option F
  pub weakest_frozen_score : Option F
  pub sls_pseudo_trades : ℕ

pub data Decision (F : Type 0) : Type 0 where
  rule_already_active : String → Decision F
  id_already_active : String → Decision F
  added : String → ℕ → ℕ → Decision F
  pool_full : String → String → Option F → Option F → F → SlsAudit F → Decision F
  replaced : String → String → Option F → Option F → ℕ → SlsAudit F → Decision F

-- The statuses that hold a slot: `status in OCCUPYING_STATUSES`.
unfoldable pub is_occupying : StrategyStatus → Bool
is_occupying paper_active = true
is_occupying warning = true
is_occupying probation = true
is_occupying _ = false

-- The keyword arguments of `add_champion` and `register_champion`.
pub record Terms (F : Type 0) : Type 0 where
  pub generation_id : Option String
  pub cap : ℕ
  pub min_improvement : F
  pub now : String
  pub robustness : Option (Robustness F)
  pub live_stats : LiveStats F
  -- `resolve_pseudo_trades()`
  pub pseudo_trades : ℕ

abbrev trades_on : Option String → List String → Bool
trades_on none scope = true
trades_on (some symbol) [] = false
trades_on (some symbol) (first ∷ rest) = str_eq first symbol

abbrev or_generation : Option String → Option String → Option String
or_generation none other = other
or_generation (some id) other = some id

module _ {F : Type 0} where
  abbrev pub empty_pool : String → Pool F
  empty_pool stage = record { stage = stage; active_strategies = [] }

  abbrev pub occupies : Entry F → Bool
  occupies e = is_occupying e.status

  abbrev pub holds_rule : String → Entry F → Bool
  holds_rule rule_hash e = str_eq e.strategy_rule_hash rule_hash && occupies e

  abbrev pub holds_id : String → Entry F → Bool
  holds_id id e = str_eq e.strategy_id id && occupies e

  unfoldable pub occupying_entries : Pool F → List (Entry F)
  unfolding is_occupying
  occupying_entries pool = keep occupies pool.active_strategies

  unfoldable pub is_rule_hash_active : Pool F → String → Bool
  unfolding is_occupying
  is_rule_hash_active pool rule_hash = any (holds_rule rule_hash) pool.active_strategies

  unfoldable pub is_strategy_id_active : Pool F → String → Bool
  unfolding is_occupying
  is_strategy_id_active pool id = any (holds_id id) pool.active_strategies

  abbrev matches_family : String → Option String → Entry F → Bool
  matches_family family symbol e = elim e.strategy_spec [
    | none ↦ false
    | some spec ↦ str_eq spec.strategy_family family && trades_on symbol spec.symbol_scope
  ]

  unfoldable pub family_count : Pool F → String → Option String → ℕ
  unfolding occupying_entries
  family_count pool family symbol = count (matches_family family symbol) (occupying_entries pool)

  abbrev find_in : String → List (Entry F) → Option (Entry F)
  find_in id [] = none
  find_in id (e ∷ rest) =
      let found = find_in id rest in if str_eq e.strategy_id id then some e else found

  unfoldable pub find_entry : Pool F → String → Option (Entry F)
  find_entry pool id = find_in id pool.active_strategies

  abbrev routed : Entry F → List Spec
  routed e = elim e.strategy_spec [
    | none ↦ []
    | some spec ↦ if same_status e.status paper_active then spec ∷ [] else []
  ]

  unfoldable pub paper_active_specs : Pool F → List Spec
  unfolding same_status
  paper_active_specs pool = concat (map routed pool.active_strategies)

  unfoldable pub make_entry : Terms F → Spec → Option F → Entry F
  make_entry terms spec champion_score = record {
    strategy_id = spec.strategy_id;
    strategy_rule_hash = spec.strategy_rule_hash;
    status = paper_active;
    stage = "paper";
    champion_score = champion_score;
    generation_id = or_generation terms.generation_id spec.generation_id;
    strategy_spec = some spec;
    added_at_utc = terms.now;
    updated_at_utc = terms.now;
    robustness = terms.robustness;
    consecutive_failures = 0;
    backtest_win_rate = none;
  }

  abbrev pub with_status : String → StrategyStatus → String → Entry F → Entry F
  with_status id new_status now e =
      if str_eq e.strategy_id id && not (same_status e.status new_status)
      then record e { status = new_status; updated_at_utc = now }
      else e

  abbrev pub set_entries : String → StrategyStatus → String → List (Entry F) → List (Entry F)
  set_entries id new_status now [] = []
  set_entries id new_status now (e ∷ rest) =
      with_status id new_status now e ∷ set_entries id new_status now rest

  -- `set_status`, without the flag of its second result.
  unfoldable pub set_status : Pool F → String → StrategyStatus → String → Pool F
  unfolding same_status
  set_status pool id new_status now = record pool {
    active_strategies = set_entries id new_status now pool.active_strategies;
  }

  unfoldable pub append_entry : Pool F → Entry F → Pool F
  append_entry pool e = record pool { active_strategies = pool.active_strategies ++ e ∷ [] }

module _ {F : Type 0} ⦃f : Float F⦄ where
  -- `sls_for_entry`
  abbrev pub sls_for_entry : Terms F → Entry F → Sls F
  sls_for_entry terms e =
      sls_for_score terms.pseudo_trades terms.live_stats e.strategy_id e.champion_score

  -- `_comparison_score`
  abbrev pub comparison_score : Terms F → Entry F → F
  comparison_score terms e = get_or (sls_for_entry terms e).score f.minus_infinity

  -- `min(occupying, key=_comparison_score)`, the first of the least, from the first occupant.
  unfoldable pub weakest_from : Terms F → Entry F → List (Entry F) → Entry F
  weakest_from terms best [] = best
  weakest_from terms best (e ∷ rest) =
      let from_e = weakest_from terms e rest in
      let from_best = weakest_from terms best rest in
      if f.lt (comparison_score terms e) (comparison_score terms best) then from_e else from_best

  -- Whether the champion is clearly better than the weakest occupant.
  unfoldable pub is_better : Option F → Option F → F → Bool
  is_better none weakest min_improvement = false
  is_better (some x) none min_improvement = false
  is_better (some x) (some y) min_improvement =
      if f.lt (f.sub x y) min_improvement then false else true

  abbrev pub audit_of : Terms F → Entry F → SlsAudit F
  audit_of terms e =
      let sls = sls_for_entry terms e in
      record {
        weakest_live_n = sls.live_n;
        weakest_live_expectancy = sls.live_expectancy;
        weakest_frozen_score = e.champion_score;
        sls_pseudo_trades = terms.pseudo_trades;
      }

  -- The end of `add_champion`, for a full pool and its weakest occupant.
  unfoldable pub challenge : Terms F → Pool F → Spec → Option F → Entry F → Pool F × Decision F
  unfolding is_better set_status append_entry make_entry
  challenge terms pool spec champion_score weakest =
      let sls = sls_for_entry terms weakest in
      if is_better champion_score sls.score terms.min_improvement
      then (
        append_entry (set_status pool weakest.strategy_id suspended terms.now)
            (make_entry terms spec champion_score),
        replaced spec.strategy_id weakest.strategy_id sls.score champion_score terms.cap
            (audit_of terms weakest),
      )
      else (
        pool,
        pool_full spec.strategy_id weakest.strategy_id sls.score champion_score
            terms.min_improvement (audit_of terms weakest),
      )

  -- `none` is the ValueError of `min` on no occupants, which a cap of zero leads to.
  unfoldable pub displace :
      Terms F → Pool F → Spec → Option F → List (Entry F) → Option (Pool F × Decision F)
  unfolding challenge weakest_from
  displace terms pool spec champion_score [] = none
  displace terms pool spec champion_score (e ∷ rest) =
      some (challenge terms pool spec champion_score (weakest_from terms e rest))

  unfoldable pub add_champion : Terms F → Pool F → Spec → Option F → Option (Pool F × Decision F)
  unfolding is_rule_hash_active is_strategy_id_active occupying_entries displace append_entry
      make_entry
  add_champion terms pool spec champion_score =
      let occupying = occupying_entries pool in
      if is_rule_hash_active pool spec.strategy_rule_hash
      then some (pool, rule_already_active spec.strategy_id)
      else if is_strategy_id_active pool spec.strategy_id
      then some (pool, id_already_active spec.strategy_id)
      else if ltb (length occupying) terms.cap
      then some (
        append_entry pool (make_entry terms spec champion_score),
        added spec.strategy_id (length occupying + 1) terms.cap,
      )
      else displace terms pool spec champion_score occupying
