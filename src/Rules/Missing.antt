-- ===== src/Rules/Missing.antt =====
-- Missing features never make a match (strategy_evaluator.py).
use crypto_ai_system.Common.{
  String, Bool, true, Option, none, some, List, [], ◌∷◌, ◌≡◌, ◌⊎◌, inl, inr, refl, arith, str_eq,
  any, all, map, sym, Bool-cases,
}
use crypto_ai_system.Float.{Float, Scalar}
use crypto_ai_system.Rules.{
  RuleCondition, StrategySpec, Row, cell, compared, right_of, evaluate_condition, is_true,
  evaluate_spec,
}

module _ {F : Type 0} ⦃f : Float F⦄ where
  -- Each cell of the first row is missing, or as in the second.
  abbrev pub IsThinned : Row F → Row F → Type 0
  IsThinned thin row = (name : String) → (cell thin name ≡ none) ⊎ (cell thin name ≡ cell row name)

  right_of-thinned :
      (cond : RuleCondition F) (thin row : Row F)
      → IsThinned thin row
      → (right_of cond thin ≡ none) ⊎ (right_of cond thin ≡ right_of cond row)
  right_of-thinned cond thin row thinned =
      elim cond.value_from
        as (λ v.
          let c : RuleCondition F = record cond { value_from = v } in
          (right_of c thin ≡ none) ⊎ (right_of c thin ≡ right_of c row)) [
            | none ↦ inr refl
            | some name ↦ thinned name
          ]

  compared-thinned :
      (op : String) (l l' r r' : Option (Scalar F))
      → (l ≡ none) ⊎ (l ≡ l')
      → (r ≡ none) ⊎ (r ≡ r')
      → is_true (compared op l r) ≡ true
      → is_true (compared op l' r') ≡ true
  unfolding compared
  compared-thinned op none l' r r' hl hr h = cc
  compared-thinned op (some a) l' none r' hl hr h = cc
  compared-thinned op (some a) l' (some b) r' (inl e) hr h = cc
  compared-thinned op (some a) l' (some b) r' (inr e) (inl e₁) h = cc
  compared-thinned op (some a) l' (some b) r' (inr e) (inr e₁) h = rw (sym e, sym e₁) h

  evaluate_condition-thinned :
      (thin row : Row F)
      → IsThinned thin row
      → (cond : RuleCondition F) → is_true (evaluate_condition cond thin) ≡ true
      → is_true (evaluate_condition cond row) ≡ true
  unfolding evaluate_condition
  evaluate_condition-thinned thin row thinned cond =
      compared-thinned cond.comparison _ _ _ _ (thinned cond.feature)
        (right_of-thinned cond thin row thinned)

  results : List (RuleCondition F) → Row F → List (Option Bool)
  results conditions row = map (λ c. evaluate_condition c row) conditions

  any-thinned :
      (thin row : Row F)
      → IsThinned thin row
      → (conditions : List (RuleCondition F)) → any is_true (results conditions thin) ≡ true
      → any is_true (results conditions row) ≡ true
  unfolding results
  any-thinned thin row thinned [] h = h
  any-thinned thin row thinned (c ∷ rest) h =
      ground
        (arith, evaluate_condition-thinned thin row thinned c, any-thinned thin row thinned rest)

  all-thinned :
      (thin row : Row F)
      → IsThinned thin row
      → (conditions : List (RuleCondition F)) → all is_true (results conditions thin) ≡ true
      → all is_true (results conditions row) ≡ true
  unfolding results
  all-thinned thin row thinned [] h = h
  all-thinned thin row thinned (c ∷ rest) h =
      ground
        (arith, evaluate_condition-thinned thin row thinned c, all-thinned thin row thinned rest)

  -- A row of which some features are missing or NaN, and the others as in another row, matches only
  -- where the other row does.
  pub evaluate_spec-thinned :
      (spec : StrategySpec F) (thin row : Row F)
      → ((name : String) → (cell thin name ≡ none) ⊎ (cell thin name ≡ cell row name))
      → (evaluate_spec spec thin).matched ≡ true
      → (evaluate_spec spec row).matched ≡ true
  unfolding evaluate_spec results
  evaluate_spec-thinned spec thin row thinned = elim (Bool-cases (str_eq spec.operator "OR")) [
    | inl either ↦ rw either (any-thinned thin row thinned spec.conditions)
    | inr both ↦ rw both (all-thinned thin row thinned spec.conditions)
  ]
