-- ===== src/Pool/Audit.antt =====
-- The registration of a champion stores the pool that the decision leaves, and audits the decision
-- (active_strategy_pool.py).
use crypto_ai_system.Common.{
  true, false, Option, none, some, List, [], ◌∷◌, ◌++◌, ◌≡◌, refl, subst, arith, ltb, length,
  if-both,
}
use crypto_ai_system.Float.{Float}
use crypto_ai_system.Registry.{File, row, append_registry_record}
use crypto_ai_system.Pool.{
  Spec, Entry, Pool, Decision, Terms, occupying_entries, is_rule_hash_active, is_strategy_id_active,
  sls_for_entry, is_better, weakest_from, challenge, displace, add_champion,
}
use crypto_ai_system.Pool.Register.{
  Store, AuditRow, load_pool, is_admitted, saved, recorded, audit_row, register_champion,
}

module _ {F : Type 0} where
  -- A rejection leaves the pool.
  abbrev KeepsRejected : Pool F → Option (Pool F × Decision F) → Type 0
  KeepsRejected pool none = Unit
  KeepsRejected pool (some r) = is_admitted r.1 ≡ false → r.0 ≡ pool

  abbrev pub IsAudited :
      Store F → Spec → Pool F → Decision F → Store F × Option (Decision F) → Type 0
  IsAudited store spec pool d result =
      (load_pool result.0.pool_file ≡ pool)
      × (result.0.registry.lines ≡ store.registry.lines ++ row (audit_row spec d) ∷ [])

  saved-load :
      (store : Store F) (r : Pool F × Decision F)
      → KeepsRejected (load_pool store.pool_file) (some r)
      → load_pool (saved store r).pool_file ≡ r.0
  unfolding load_pool
  saved-load store r keeps = ground (arith, keeps)

  saved-registry :
      (store : Store F) (r : Pool F × Decision F) → (saved store r).registry ≡ store.registry
  saved-registry store r = ground arith

  append-lines :
      (file file' : File (AuditRow F)) (a : AuditRow F)
      → append_registry_record file true a ≡ some file'
      → file'.lines ≡ file.lines ++ row a ∷ []
  unfolding append_registry_record
  append-lines file file' a e = ground (arith, e)

  recorded-IsAudited :
      (store : Store F) (spec : Spec) (r : Pool F × Decision F) (d : Decision F)
      (o : Option (File (AuditRow F)))
      → KeepsRejected (load_pool store.pool_file) (some r)
      → append_registry_record store.registry true (audit_row spec r.1) ≡ o
      → (recorded r.1 (saved store r) o).1 ≡ some d
      → IsAudited store spec r.0 d (recorded r.1 (saved store r) o)
  recorded-IsAudited store spec r d none keeps e done = cc
  recorded-IsAudited store spec r d (some file) keeps e done = (
    saved-load store r keeps,
    append-lines store.registry file (audit_row spec d) (ground (arith, e, done)),
  )

module _ {F : Type 0} ⦃f : Float F⦄ where
  challenge-KeepsRejected :
      (terms : Terms F) (pool : Pool F) (spec : Spec) (score : Option F) (w : Entry F)
      → KeepsRejected pool (some (challenge terms pool spec score w))
  unfolding challenge is_admitted
  challenge-KeepsRejected terms pool spec score w =
      if-both (λ r. KeepsRejected pool (some r))
        (is_better score (sls_for_entry terms w).score terms.min_improvement) _ _
        (λ better (h : true ≡ false). cc) (λ worse h. refl)

  displace-KeepsRejected :
      (terms : Terms F) (pool : Pool F) (spec : Spec) (score : Option F)
      (occupants : List (Entry F))
      → KeepsRejected pool (displace terms pool spec score occupants)
  unfolding displace
  displace-KeepsRejected terms pool spec score [] = tt
  displace-KeepsRejected terms pool spec score (best ∷ rest) =
      challenge-KeepsRejected terms pool spec score (weakest_from terms best rest)

  add_champion-KeepsRejected :
      (terms : Terms F) (pool : Pool F) (spec : Spec) (score : Option F)
      → KeepsRejected pool (add_champion terms pool spec score)
  unfolding add_champion is_admitted
  add_champion-KeepsRejected terms pool spec score =
      let P = KeepsRejected pool in
      if-both P (is_rule_hash_active pool spec.strategy_rule_hash) _ _ (λ active h. refl)
        (λ fresh_rule.
          if-both P (is_strategy_id_active pool spec.strategy_id) _ _ (λ active h. refl)
            (λ fresh_id.
              if-both P (ltb (length (occupying_entries pool)) terms.cap) _ _ (λ room h. cc)
                (λ full. displace-KeepsRejected terms pool spec score (occupying_entries pool))))

  -- A registration that returns has stored the very pool that the admission to the loaded one
  -- gives, and has added its decision, a rejection too, behind the rows of the registry.
  pub register_champion-IsAudited :
      (terms : Terms F) (store : Store F) (spec : Spec) (score : Option F) {pool : Pool F}
      {d decision : Decision F}
      → add_champion terms (load_pool store.pool_file) spec score ≡ some (pool, d)
      → (register_champion terms store spec score).1 ≡ some decision
      → IsAudited store spec pool decision (register_champion terms store spec score)
  unfolding register_champion
  register_champion-IsAudited terms store spec score {pool} {d} {decision} e =
      let keeps = add_champion-KeepsRejected terms (load_pool store.pool_file) spec score in
      rw e (λ done.
        recorded-IsAudited store spec (pool, d) decision _
          (subst (KeepsRejected (load_pool store.pool_file)) e keeps) refl done)
