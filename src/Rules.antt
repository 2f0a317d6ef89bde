-- ===== src/Rules.antt =====
-- The entry rules of a strategy and their evaluation on a row of features
-- (src/crypto_ai_system/strategy_factory/strategy_evaluator.py, and the specs of strategy_spec.py).
-- A cell of a row is missing, a text or a number.
pub mod Missing
use crypto_ai_system.Common.{
  ℕ, String, Bool, true, false, not, ◌||◌, Option, none, some, List, [], ◌∷◌, str_eq, any, all, map,
  if◌then◌else◌,
}
use crypto_ai_system.Float.{Float, Scalar, null, text, num}
use crypto_ai_system.Trade.{Direction}

-- A condition compares with a constant, or with another feature where that one is named.
pub record RuleCondition (F : Type 0) : Type 0 where
  pub feature : String
  pub comparison : String
  pub value : Scalar F
  pub value_from : Option String

pub data StrategyDirection : Type 0 where
  long short long_short : StrategyDirection

pub record StrategySpec (F : Type 0) : Type 0 where
  pub strategy_id : String
  pub strategy_rule_hash : String
  pub direction : StrategyDirection
  pub operator : String
  pub conditions : List (RuleCondition F)
  pub stop_atr : F
  pub target_atr : F
  pub max_holding_bars : ℕ

-- A row of the feature frame; a name that it does not have is `null`.
abbrev pub Row : Type 0 → Type 0
Row F = String → Scalar F

pub record MatchResult : Type 0 where
  pub matched : Bool
  pub direction : Option Direction
  pub condition_results : List (Option Bool)

-- `r is True`
abbrev pub is_true : Option Bool → Bool
is_true none = false
is_true (some b) = b

-- `_direction_for`
abbrev direction_for : StrategyDirection → Direction
direction_for StrategyDirection.short = Direction.short
direction_for _ = Direction.long

abbrev pub is_match : String → List (Option Bool) → Bool
is_match operator results =
    if str_eq operator "OR" then any is_true results else all is_true results

module _ {F : Type 0} ⦃f : Float F⦄ where
  -- `_cell`; a number that does not equal itself is NaN.
  unfoldable pub cell : Row F → String → Option (Scalar F)
  cell row name = elim (row name) [
    | null ↦ none
    | text s ↦ some (text s)
    | num x ↦ if f.eq x x then some (num x) else none
  ]

  abbrev equal : Scalar F → Scalar F → Bool
  equal (text s) (text t) = str_eq s t
  equal (num x) (num y) = f.eq x y
  equal _ _ = false

  abbrev order : String → F → F → Option Bool
  order op x y =
      if str_eq op ">"
      then some (f.lt y x)
      else if str_eq op ">="
      then some (f.le y x)
      else if str_eq op "<"
      then some (f.lt x y)
      else if str_eq op "<="
      then some (f.le x y)
      else none

  -- An order of two numbers; with a text it is indeterminate.
  abbrev ordered : String → Scalar F → Scalar F → Option Bool
  ordered op (num x) (num y) = order op x y
  ordered op _ _ = none

  unfoldable pub compared : String → Option (Scalar F) → Option (Scalar F) → Option Bool
  compared op none right = none
  compared op (some left) none = none
  compared op (some left) (some right) =
      if str_eq op "=="
      then some (equal left right)
      else if str_eq op "!="
      then some (not (equal left right))
      else ordered op left right

  abbrev constant : Scalar F → Option (Scalar F)
  constant null = none
  constant (text s) = some (text s)
  constant (num x) = some (num x)

  abbrev pub right_of : RuleCondition F → Row F → Option (Scalar F)
  right_of cond row = elim cond.value_from [
    | none ↦ constant cond.value
    | some name ↦ cell row name
  ]

  unfoldable pub evaluate_condition : RuleCondition F → Row F → Option Bool
  unfolding cell compared
  evaluate_condition cond row = compared cond.comparison (cell row cond.feature) (right_of cond row)

  unfoldable pub evaluate_spec : StrategySpec F → Row F → MatchResult
  unfolding evaluate_condition
  evaluate_spec spec row =
      let results = map (λ c. evaluate_condition c row) spec.conditions in
      let matched = is_match spec.operator results in
      record {
        matched = matched;
        direction = if matched then some (direction_for spec.direction) else none;
        condition_results = results;
      }
