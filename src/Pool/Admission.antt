-- ===== src/Pool/Admission.antt =====
-- What the admission of a champion does to the occupants of the pool (active_strategy_pool.py).
use crypto_ai_system.Common.{
  ℕ, ◌+◌, ◌≤◌, String, Bool, true, false, Option, none, some, List, [], ◌∷◌, ◌++◌, ◌≡◌, refl, arith,
  ap, eq_iff, count, count-append, count-any, any-count, count-keep, length-keep, length, keep, any,
  ltb, str_eq, if◌then◌else◌, if-both,
}
use crypto_ai_system.Float.{Float}
use crypto_ai_system.Lifecycle.{StrategyStatus, suspended, same_status}
use crypto_ai_system.Pool.{
  Spec, Entry, Pool, Decision, Terms, is_occupying, occupies, holds_rule, holds_id,
  occupying_entries, is_rule_hash_active, is_strategy_id_active, make_entry, with_status,
  set_entries, set_status, append_entry, weakest_from, challenge, displace, add_champion,
}

same_status-suspended :
    (s : StrategyStatus) → same_status s suspended ≡ true → is_occupying s ≡ false
unfolding is_occupying same_status
same_status-suspended StrategyStatus.generated h = refl
same_status-suspended StrategyStatus.validated h = refl
same_status-suspended StrategyStatus.backtested h = refl
same_status-suspended StrategyStatus.batch_champion h = refl
same_status-suspended StrategyStatus.paper_active h = cc
same_status-suspended StrategyStatus.signed_testnet_candidate h = refl
same_status-suspended StrategyStatus.signed_testnet_active h = refl
same_status-suspended StrategyStatus.live_canary_candidate h = refl
same_status-suspended StrategyStatus.live_active h = refl
same_status-suspended StrategyStatus.warning h = cc
same_status-suspended StrategyStatus.probation h = cc
same_status-suspended StrategyStatus.suspended h = refl
same_status-suspended StrategyStatus.archived h = refl

module _ {F : Type 0} where
  -- At most `cap` occupants, no two of one rule set, and no two of one identifier.
  pub record IsExclusive (cap : ℕ) (entries : List (Entry F)) : Type 0 where
    pub capped : count occupies entries ≤ cap
    pub one_rule : (rule_hash : String) → count (holds_rule rule_hash) entries ≤ 1
    pub one_id : (id : String) → count (holds_id id) entries ≤ 1

  -- The pool that an admission leaves, which may raise instead.
  abbrev pub IsExclusiveAfter : ℕ → Option (Pool F × Decision F) → Type 0
  IsExclusiveAfter cap none = Unit
  IsExclusiveAfter cap (some r) = IsExclusive cap r.0.active_strategies

  with_status-suspended :
      (id now : String) (e : Entry F)
      → occupies (with_status id suspended now e)
        ≡ (if str_eq e.strategy_id id then false else occupies e)
  unfolding is_occupying
  with_status-suspended id now e = ground (arith, same_status-suspended e.status)

  -- A suspension frees the slots of its identifier.
  count-occupies-suspended :
      (id now : String) (es : List (Entry F))
      → count occupies (set_entries id suspended now es) + count (holds_id id) es
        ≡ count occupies es
  count-occupies-suspended id now [] = refl
  count-occupies-suspended id now (e ∷ rest) =
      ground (arith, with_status-suspended id now e, count-occupies-suspended id now rest)

  count-holds_rule-suspended :
      (rule_hash id now : String) (es : List (Entry F))
      → count (holds_rule rule_hash) (set_entries id suspended now es)
        ≤ count (holds_rule rule_hash) es
  count-holds_rule-suspended rule_hash id now [] = omega arith
  count-holds_rule-suspended rule_hash id now (e ∷ rest) =
      ground
        (arith, with_status-suspended id now e, count-holds_rule-suspended rule_hash id now rest)

  count-holds_id-suspended :
      (held id now : String) (es : List (Entry F))
      → count (holds_id held) (set_entries id suspended now es) ≤ count (holds_id held) es
  count-holds_id-suspended held id now [] = omega arith
  count-holds_id-suspended held id now (e ∷ rest) =
      ground (arith, with_status-suspended id now e, count-holds_id-suspended held id now rest)

  -- A new entry takes a free slot, with a rule set and an identifier that no occupant has.
  append_entry-IsExclusive :
      (cap : ℕ) (es : List (Entry F)) (e : Entry F)
      → occupies e ≡ true
      → count occupies es + 1 ≤ cap
      → count (holds_rule e.strategy_rule_hash) es ≡ 0
      → count (holds_id e.strategy_id) es ≡ 0
      → IsExclusive cap es
      → IsExclusive cap (es ++ e ∷ [])
  append_entry-IsExclusive cap es e active room new_rule new_id s = record {
    capped = ground (arith, count-append occupies es (e ∷ []));
    one_rule = λ h. ground (
      arith,
      count-append (holds_rule h) es (e ∷ []),
      eq_iff e.strategy_rule_hash h,
      s.one_rule h,
    );
    one_id = λ id.
        ground
          (arith, count-append (holds_id id) es (e ∷ []), eq_iff e.strategy_id id, s.one_id id);
  }

  suspended-IsExclusive :
      (cap : ℕ) (id now : String) (es : List (Entry F))
      → IsExclusive cap es
      → IsExclusive cap (set_entries id suspended now es)
  suspended-IsExclusive cap id now es s = record {
    capped = omega (arith, s.capped, count-occupies-suspended id now es);
    one_rule = λ h. omega (arith, s.one_rule h, count-holds_rule-suspended h id now es);
    one_id = λ held. omega (arith, s.one_id held, count-holds_id-suspended held id now es);
  }

module _ {F : Type 0} ⦃f : Float F⦄ where
  -- A test that holds of the weakest occupant holds of one of the occupants.
  pub weakest_from-member :
      (terms : Terms F) (test : Entry F → Bool) (best : Entry F) (rest : List (Entry F))
      → test (weakest_from terms best rest) ≡ true
      → any test (best ∷ rest) ≡ true
  unfolding weakest_from
  weakest_from-member terms test best [] h = ground arith
  weakest_from-member terms test best (e ∷ rest) h =
      ground
        (arith, weakest_from-member terms test e rest, weakest_from-member terms test best rest)

  challenge-IsExclusive :
      (terms : Terms F) (pool : Pool F) (spec : Spec) (champion_score : Option F)
      (weakest : Entry F) (cap : ℕ)
      → 1 ≤ count (holds_id weakest.strategy_id) pool.active_strategies
      → count (holds_rule spec.strategy_rule_hash) pool.active_strategies ≡ 0
      → count (holds_id spec.strategy_id) pool.active_strategies ≡ 0
      → IsExclusive cap pool.active_strategies
      → IsExclusive cap (challenge terms pool spec champion_score weakest).0.active_strategies
  unfolding challenge set_status append_entry make_entry is_occupying
  challenge-IsExclusive terms pool spec champion_score weakest cap frees new_rule new_id s =
      let es = pool.active_strategies in
      let id = weakest.strategy_id in
      let freed = set_entries id suspended terms.now es in
      if-both (λ (r : Pool F × Decision F). IsExclusive cap r.0.active_strategies) _ _ _
        (λ better.
          append_entry-IsExclusive cap freed (make_entry terms spec champion_score) refl
            (omega (arith, frees, s.capped, count-occupies-suspended id terms.now es))
            (omega
              (arith, new_rule, count-holds_rule-suspended spec.strategy_rule_hash id terms.now es))
            (omega (arith, new_id, count-holds_id-suspended spec.strategy_id id terms.now es))
            (suspended-IsExclusive cap id terms.now es s))
        (λ worse. s)

  displace-IsExclusive :
      (terms : Terms F) (pool : Pool F) (spec : Spec) (champion_score : Option F) (cap : ℕ)
      (occupying : List (Entry F))
      → occupying ≡ keep occupies pool.active_strategies
      → count (holds_rule spec.strategy_rule_hash) pool.active_strategies ≡ 0
      → count (holds_id spec.strategy_id) pool.active_strategies ≡ 0
      → IsExclusive cap pool.active_strategies
      → IsExclusiveAfter cap (displace terms pool spec champion_score occupying)
  unfolding displace
  displace-IsExclusive terms pool spec champion_score cap [] e new_rule new_id s = tt
  displace-IsExclusive terms pool spec champion_score cap (best ∷ rest) e new_rule new_id s =
      let w = weakest_from terms best rest in
      let has_id = λ (x : Entry F). str_eq x.strategy_id w.strategy_id in
      let member =
        weakest_from-member terms has_id best rest ((eq_iff w.strategy_id w.strategy_id).1 refl) in
      challenge-IsExclusive terms pool spec champion_score w cap
        (omega (
          arith,
          any-count has_id (best ∷ rest) member,
          ap (count has_id) e,
          count-keep has_id occupies pool.active_strategies,
        ))
        new_rule new_id s

  -- An admission to a sound pool leaves one, up to the larger of the two caps.
  pub add_champion-IsExclusive :
      (terms : Terms F) (pool : Pool F) (spec : Spec) (champion_score : Option F) (cap : ℕ)
      → terms.cap ≤ cap
      → IsExclusive cap pool.active_strategies
      → IsExclusiveAfter cap (add_champion terms pool spec champion_score)
  unfolding add_champion is_rule_hash_active is_strategy_id_active occupying_entries append_entry
      make_entry is_occupying
  add_champion-IsExclusive terms pool spec champion_score cap le s =
      let es = pool.active_strategies in
      if-both (IsExclusiveAfter cap) (is_rule_hash_active pool spec.strategy_rule_hash) _ _
        (λ yes. s)
        (λ fresh_rule.
          if-both (IsExclusiveAfter cap) (is_strategy_id_active pool spec.strategy_id) _ _
            (λ yes. s)
            (λ fresh_id.
              let new_rule = count-any (holds_rule spec.strategy_rule_hash) es fresh_rule in
              let new_id = count-any (holds_id spec.strategy_id) es fresh_id in
              if-both (IsExclusiveAfter cap) (ltb (length (occupying_entries pool)) terms.cap) _ _
                (λ room.
                  append_entry-IsExclusive cap es (make_entry terms spec champion_score) refl
                    (ground (arith, le, length-keep occupies es)) new_rule new_id s)
                (λ full.
                  displace-IsExclusive terms pool spec champion_score cap _ refl new_rule new_id
                    s)))
