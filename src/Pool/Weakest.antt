-- ===== src/Pool/Weakest.antt =====
-- Which occupant a champion displaces (active_strategy_pool.py).
use crypto_ai_system.Common.{
  ℕ, String, Bool, true, false, not, ◌&&◌, Option, none, some, List, [], ◌∷◌, ◌++◌, ◌≡◌, refl,
  arith, length, All, ltb, map, sym, ap, ◌∙◌, str_eq, if-both, if◌then◌else◌,
}
use mathlib.Core.List.{Memᴰ}
use mathlib.Core.List.Memᴰ.{head, tail}
use mathlib.Core.Option.{some-injective}
use crypto_ai_system.Float.{Float}
use crypto_ai_system.Lifecycle.{paper_active, suspended, same_status}
use crypto_ai_system.Pool.{
  Spec, Entry, Pool, Decision, SlsAudit, Terms, replaced, occupying_entries, is_rule_hash_active,
  is_strategy_id_active, comparison_score, sls_for_entry, is_better, weakest_from, challenge,
  displace, add_champion, set_entries, set_status, append_entry, make_entry,
}

-- What `<` promises of floats, those that are NaN included.
pub record IsStrict (F : Type 0) ⦃f : Float F⦄ : Type 0 where
  pub irreflexive : (a : F) → f.lt a a ≡ false
  pub transitive : (a b c : F) → f.lt a b ≡ true → f.lt b c ≡ true → f.lt a c ≡ true

swap_if {ℓ} :
    {A : Type ℓ} (a b : Bool) (x y : A)
    → (if a && not b then x else y) ≡ (if a then (if b then y else x) else y)
swap_if false b x y = refl
swap_if true false x y = refl
swap_if true true x y = refl

module _ {F : Type 0} ⦃f : Float F⦄ (laws : IsStrict F) (terms : Terms F) where
  -- A score that is not below the best so far is not below the weakest.
  weakest_from-above :
      (x : F) (best : Entry F) (rest : List (Entry F))
      → f.lt x (comparison_score terms best) ≡ false
      → f.lt x (comparison_score terms (weakest_from terms best rest)) ≡ false
  unfolding weakest_from
  weakest_from-above x best [] h = h
  weakest_from-above x best (e ∷ rest) h =
      let key = comparison_score terms in
      if-both (λ w. f.lt x (key w) ≡ false) (f.lt (key e) (key best)) _ _
        (λ lower.
          weakest_from-above x e rest
            (ground (arith, laws.transitive x (key e) (key best), lower, h)))
        (λ higher. weakest_from-above x best rest h)

  abbrev pub AtLeast : Entry F → Entry F → Type 0
  AtLeast w e = f.lt (comparison_score terms e) (comparison_score terms w) ≡ false

  weakest_from-AtLeast :
      (best : Entry F) (rest : List (Entry F))
      → All (AtLeast (weakest_from terms best rest)) (best ∷ rest)
  unfolding weakest_from
  weakest_from-AtLeast best [] = (laws.irreflexive (comparison_score terms best), tt)
  weakest_from-AtLeast best (e ∷ rest) =
      let key = comparison_score terms in
      if-both (λ w. All (AtLeast w) (best ∷ e ∷ rest)) (f.lt (key e) (key best)) _ _
        (λ lower.
          let not_below : f.lt (key best) (key e) ≡ false =
            ground (
              arith,
              laws.transitive (key e) (key best) (key e),
              laws.irreflexive (key e),
              lower,
            ) in
          (weakest_from-above (key best) e rest not_below, weakest_from-AtLeast e rest))
        (λ higher.
          let below_best = weakest_from-AtLeast best rest in
          (below_best.0, (weakest_from-above (key e) best rest higher, below_best.1)))

  -- The champion's score is there, and not by less than the least improvement above that of the
  -- occupant, where the occupant has one.
  abbrev pub IsBetter : Option F → Option F → Type 0
  IsBetter champion weakest =
      (x : F) × (champion ≡ some x)
      × ((y : F) → weakest ≡ some y → f.lt (f.sub x y) terms.min_improvement ≡ false)

  is_better-IsBetter :
      (champion weakest : Option F)
      → is_better champion weakest terms.min_improvement ≡ true
      → IsBetter champion weakest
  unfolding is_better
  is_better-IsBetter none weakest h = cc
  is_better-IsBetter (some x) none h = (x, refl, λ y e. cc)
  is_better-IsBetter (some x) (some y) h =
      (x, refl, λ z e. rw (← some-injective _ _ e) (ground arith))

  -- The entry as it was, or suspended now, if it has the displaced identifier.
  abbrev pub set_aside : String → Entry F → Entry F
  set_aside displaced e =
      if str_eq e.strategy_id displaced
      then (if same_status e.status suspended
          then e
          else record e { status = suspended; updated_at_utc = terms.now })
      else e

  -- The occupant that a replacement displaces: it is one of the occupants, with the identifier and
  -- the score that the decision names; the champion is clearly better, and no occupant has a lower
  -- score. The entries with its identifier are suspended, the others stay, and the champion is added
  -- behind them as an active one.
  pub record IsDisplaced (pool pool' : Pool F) (spec : Spec) (displaced : String)
      (weakest_score champion_score : Option F) (w : Entry F) : Type 0 where
    pub occupant : Memᴰ w (occupying_entries pool)
    pub named : w.strategy_id ≡ displaced
    pub score : (sls_for_entry terms w).score ≡ weakest_score
    pub better : IsBetter champion_score weakest_score
    pub least : All (AtLeast w) (occupying_entries pool)
    pub champion : Entry F
    pub is_spec : champion.strategy_spec ≡ some spec
    pub has_id : champion.strategy_id ≡ spec.strategy_id
    pub has_rule : champion.strategy_rule_hash ≡ spec.strategy_rule_hash
    pub has_score : champion.champion_score ≡ champion_score
    pub is_active : champion.status ≡ paper_active
    pub stored :
        pool'.active_strategies ≡ map (set_aside displaced) pool.active_strategies ++ champion ∷ []

  past :
      (best e : Entry F) (rest : List (Entry F)) (w : Entry F)
      → Memᴰ w (best ∷ rest)
      → Memᴰ w (best ∷ e ∷ rest)
  past best e rest w (head same) = head same
  past best e rest w (tail m) = tail (tail m)

  set_entries-map :
      (displaced : String) (es : List (Entry F))
      → set_entries displaced suspended terms.now es ≡ map (set_aside displaced) es
  set_entries-map displaced [] = refl
  set_entries-map displaced (e ∷ rest) =
      rw
        (
          swap_if (str_eq e.strategy_id displaced) (same_status e.status suspended)
              (record e { status = suspended; updated_at_utc = terms.now }) e,
          set_entries-map displaced rest,
        )
        refl

  weakest_from-Mem :
      (best : Entry F) (rest : List (Entry F)) → Memᴰ (weakest_from terms best rest) (best ∷ rest)
  unfolding weakest_from
  weakest_from-Mem best [] = head refl
  weakest_from-Mem best (e ∷ rest) =
      let key = comparison_score terms in
      if-both (λ w. Memᴰ w (best ∷ e ∷ rest)) (f.lt (key e) (key best)) _ _
        (λ lower. tail (weakest_from-Mem e rest))
        (λ higher. past best e rest _ (weakest_from-Mem best rest))

  -- What a result that replaces an occupant shows.
  abbrev Displaces : Pool F → Spec → Option F → Option (Pool F × Decision F) → Type 0
  Displaces pool spec score r =
      (pool' : Pool F) (id displaced : String) (weakest_score champion_score : Option F) (cap : ℕ)
      (audit : SlsAudit F)
      → r ≡ some (pool', replaced id displaced weakest_score champion_score cap audit)
      → (w : Entry F) × IsDisplaced pool pool' spec displaced weakest_score champion_score w

  challenge-Displaces :
      (pool : Pool F) (spec : Spec) (score : Option F) (best : Entry F) (rest : List (Entry F))
      → occupying_entries pool ≡ best ∷ rest
      → Displaces pool spec score
          (some (challenge terms pool spec score (weakest_from terms best rest)))
  unfolding challenge set_status append_entry make_entry
  challenge-Displaces pool spec score best rest occupied =
      let w = weakest_from terms best rest in
      if-both (λ r. Displaces pool spec score (some r))
        (is_better score (sls_for_entry terms w).score terms.min_improvement) _ _
        (λ better pool' id displaced weakest_score champion_score cap audit e.
          let es = pool.active_strategies in
          let champion = make_entry terms spec score in
          let named : w.strategy_id ≡ displaced = cc in
          let same_pool : append_entry (set_status pool w.strategy_id suspended terms.now) champion
              ≡ pool' =
            cc in
          (
            w,
            record {
              occupant = rw occupied (weakest_from-Mem best rest);
              named = named;
              score = cc;
              better = is_better-IsBetter champion_score weakest_score cc;
              least = rw occupied (weakest_from-AtLeast best rest);
              champion = make_entry terms spec score;
              is_spec = refl;
              has_id = refl;
              has_rule = refl;
              has_score = cc;
              is_active = refl;
              stored =
                  sym (ap (λ (p : Pool F). p.active_strategies) same_pool)
                  ∙ ap (λ entries. entries ++ make_entry terms spec score ∷ [])
                      (set_entries-map w.strategy_id es ∙ ap (λ d. map (set_aside d) es) named);
            },
          ))
        (λ worse pool' id displaced weakest_score champion_score cap audit e. cc)

  displace-Displaces :
      (pool : Pool F) (spec : Spec) (score : Option F) (occupants : List (Entry F))
      → occupying_entries pool ≡ occupants
      → Displaces pool spec score (displace terms pool spec score occupants)
  unfolding displace
  displace-Displaces pool spec score [] occupied = λ pool' id d w c cap audit e. cc
  displace-Displaces pool spec score (best ∷ rest) occupied =
      challenge-Displaces pool spec score best rest occupied

  -- Over an order that is irreflexive and transitive, a champion displaces only an occupant that no
  -- occupant has a lower blended score than, and, where that occupant has a score, only with a score
  -- whose difference to it is not below the least improvement asked for. The stored pool is then
  -- the old one with the entries of that identifier suspended, and the champion behind them.
  pub add_champion-IsDisplaced :
      (pool pool' : Pool F) (spec : Spec) (score : Option F) (id displaced : String)
      (weakest_score champion_score : Option F) (cap : ℕ) (audit : SlsAudit F)
      → add_champion terms pool spec score
        ≡ some (pool', replaced id displaced weakest_score champion_score cap audit)
      → (w : Entry F) × IsDisplaced pool pool' spec displaced weakest_score champion_score w
  unfolding add_champion
  add_champion-IsDisplaced pool pool' spec score id displaced weakest_score champion_score cap
        audit =
      let P = Displaces pool spec score in
      if-both P (is_rule_hash_active pool spec.strategy_rule_hash) _ _
        (λ active pool' id d w c cap audit e. cc)
        (λ fresh_rule.
          if-both P (is_strategy_id_active pool spec.strategy_id) _ _
            (λ active pool' id d w c cap audit e. cc)
            (λ fresh_id.
              if-both P (ltb (length (occupying_entries pool)) terms.cap) _ _
                (λ room pool' id d w c cap audit e. cc)
                (λ full. displace-Displaces pool spec score (occupying_entries pool) refl)))
        pool' id displaced weakest_score champion_score cap audit
