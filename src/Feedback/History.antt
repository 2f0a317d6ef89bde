-- ===== src/Feedback/History.antt =====
-- The pool over a history of admissions (active_strategy_pool.py) and lifecycle runs
-- (strategy_feedback_step.py).
use crypto_ai_system.Common.{
  ℕ, ◌≤◌, String, Bool, true, Option, none, some, List, [], ◌∷◌, ◌≡◌, refl, arith, any, count,
  if-both,
}
use crypto_ai_system.Float.{Float}
use crypto_ai_system.Registry.{File}
use crypto_ai_system.Lifecycle.{Decision, Thresholds}
use crypto_ai_system.Pool.{
  Spec, Entry, Pool, Terms, is_occupying, occupies, holds_rule, holds_id, add_champion, empty_pool,
}
use crypto_ai_system.Pool
use crypto_ai_system.Pool.Admission.{IsExclusive, IsExclusiveAfter, add_champion-IsExclusive}
use crypto_ai_system.Pool.Register.{
  Store, AuditRow, load_pool, is_admitted, saved, recorded, registered, register_champion,
}
use crypto_ai_system.Feedback.{
  Outcome, LifecycleRow, Turn, Pass, changes_status, decided_entry, log_decision, logged, row_of,
  decided, behind, decision_on, finished, evaluate_entry, evaluate_entries, finish_run,
  run_strategy_lifecycle_feedback,
}

module _ {F : Type 0} where
  -- The rule set and the identifier of an entry stay, and it occupies no slot that it did not.
  pub record IsKept (before after : Entry F) : Type 0 where
    pub same_rule : after.strategy_rule_hash ≡ before.strategy_rule_hash
    pub same_id : after.strategy_id ≡ before.strategy_id
    pub released : occupies after ≡ true → occupies before ≡ true

  abbrev IsKeptTurn : Entry F → Option (Turn F) → Type 0
  IsKeptTurn e none = Unit
  IsKeptTurn e (some turn) = IsKept e turn.entry

  -- Every entry of a pass is one of those before it, kept.
  abbrev AllKept : List (Entry F) → List (Entry F) → Type 0
  AllKept [] [] = Unit
  AllKept [] (x ∷ after) = ⊥
  AllKept (e ∷ before) [] = ⊥
  AllKept (e ∷ before) (x ∷ after) = IsKept e x × AllKept before after

  abbrev IsKeptPass : List (Entry F) → Pass F → Type 0
  IsKeptPass before (log, none) = Unit
  IsKeptPass before (log, some (entries, rows)) = AllKept before entries

  decided_entry-IsKept :
      (now : String) (d : Decision) (e : Entry F)
      → occupies e ≡ true
      → IsKept e (decided_entry now d e)
  decided_entry-IsKept now d e active =
      if-both (IsKept e) d.status_changed _ _
        (λ changes. record { same_rule = refl; same_id = refl; released = λ h. active })
        (λ stays. record { same_rule = refl; same_id = refl; released = λ h. h })

  logged-IsKeptTurn :
      (now : String) (e : Entry F) (row : LifecycleRow) (o : Option (File LifecycleRow))
      → occupies e ≡ true
      → IsKeptTurn e (logged now e row o)
  logged-IsKeptTurn now e row none active = tt
  logged-IsKeptTurn now e row (some log) active = decided_entry-IsKept now row.decision e active

  decided-IsKeptTurn :
      (now : String) (log : File LifecycleRow) (e : Entry F) (d : Option Decision)
      → occupies e ≡ true
      → IsKeptTurn e (decided now log e d)
  decided-IsKeptTurn now log e none active = tt
  decided-IsKeptTurn now log e (some d) active =
      logged-IsKeptTurn now e (row_of e d) (log_decision (row_of e d) log) active

  behind-IsKeptPass :
      (e : Entry F) (before : List (Entry F)) (turn : Turn F) (rest : Pass F)
      → IsKept e turn.entry
      → IsKeptPass before rest
      → IsKeptPass (e ∷ before) (behind turn rest)
  behind-IsKeptPass e before turn (log, none) first later = tt
  behind-IsKeptPass e before turn (log, some (entries, rows)) first later = (first, later)

  AllKept-count :
      (test : Entry F → Bool)
      → ((e x : Entry F) → IsKept e x → test x ≡ true → test e ≡ true)
      → (before after : List (Entry F)) → AllKept before after
      → count test after ≤ count test before
  AllKept-count test keeps [] [] kept = omega arith
  AllKept-count test keeps [] (x ∷ after) kept = absurd kept
  AllKept-count test keeps (e ∷ before) [] kept = absurd kept
  AllKept-count test keeps (e ∷ before) (x ∷ after) (first, later) =
      ground (arith, keeps e x first, AllKept-count test keeps before after later)

  AllKept-IsExclusive :
      (cap : ℕ) (before after : List (Entry F))
      → AllKept before after
      → IsExclusive cap before
      → IsExclusive cap after
  AllKept-IsExclusive cap before after kept s = record {
    capped =
        omega (arith, s.capped, AllKept-count occupies (λ e x k h. k.released h) before after kept);
    one_rule = λ rule_hash. omega (
      arith,
      s.one_rule rule_hash,
      AllKept-count (holds_rule rule_hash) (λ e x k h. ground (arith, k.released, k.same_rule))
          before after kept,
    );
    one_id = λ id. omega (
      arith,
      s.one_id id,
      AllKept-count (holds_id id) (λ e x k h. ground (arith, k.released, k.same_id)) before after
          kept,
    );
  }

  finish_run-IsExclusive :
      (cap : ℕ) (pool_file : Option (Pool F)) (pass : Pass F)
      → IsKeptPass (load_pool pool_file).active_strategies pass
      → IsExclusive cap (load_pool pool_file).active_strategies
      → IsExclusive cap (load_pool (finish_run pool_file pass).pool_file).active_strategies
  unfolding finish_run load_pool
  finish_run-IsExclusive cap pool_file (log, none) kept s = s
  finish_run-IsExclusive cap pool_file (log, some (entries, rows)) kept s =
      if-both (λ (o : Option (Pool F)). IsExclusive cap (load_pool o).active_strategies)
        (any changes_status rows) _ _
        (λ changed. AllKept-IsExclusive cap (load_pool pool_file).active_strategies entries kept s)
        (λ quiet. s)

  recorded-IsExclusive :
      (cap : ℕ) (d : Pool.Decision F) (store : Store F) (o : Option (File (AuditRow F)))
      → IsExclusive cap (load_pool store.pool_file).active_strategies
      → IsExclusive cap (load_pool (recorded d store o).0.pool_file).active_strategies
  recorded-IsExclusive cap d store none s = s
  recorded-IsExclusive cap d store (some registry) s = s

  saved-IsExclusive :
      (cap : ℕ) (store : Store F) (r : Pool F × Pool.Decision F)
      → IsExclusive cap r.0.active_strategies
      → IsExclusive cap (load_pool store.pool_file).active_strategies
      → IsExclusive cap (load_pool (saved store r).pool_file).active_strategies
  unfolding load_pool
  saved-IsExclusive cap store r after before =
      if-both (λ (x : Store F). IsExclusive cap (load_pool x.pool_file).active_strategies)
        (is_admitted r.1) _ _ (λ admitted. after) (λ rejected. before)

  registered-IsExclusive :
      (cap : ℕ) (spec : Spec) (store : Store F) (o : Option (Pool F × Pool.Decision F))
      → IsExclusiveAfter cap o
      → IsExclusive cap (load_pool store.pool_file).active_strategies
      → IsExclusive cap (load_pool (registered spec store o).0.pool_file).active_strategies
  registered-IsExclusive cap spec store none after before = before
  registered-IsExclusive cap spec store (some r) after before =
      recorded-IsExclusive cap r.1 (saved store r) _ (saved-IsExclusive cap store r after before)

module _ {F : Type 0} ⦃f : Float F⦄ (t : Thresholds F) where
  evaluate_entry-IsKeptTurn :
      (outcomes : List (Outcome F)) (now : String) (log : File LifecycleRow) (e : Entry F)
      → IsKeptTurn e (evaluate_entry t outcomes now log e)
  unfolding evaluate_entry
  evaluate_entry-IsKeptTurn outcomes now log e =
      if-both (IsKeptTurn e) (occupies e) _ _
        (λ active. decided-IsKeptTurn now log e (decision_on t outcomes e) active)
        (λ idle. record { same_rule = refl; same_id = refl; released = λ h. h })

  evaluate_entries-IsKeptPass :
      (outcomes : List (Outcome F)) (now : String) (log : File LifecycleRow) (es : List (Entry F))
      → IsKeptPass es (evaluate_entries t outcomes now log es)
  unfolding evaluate_entries
  evaluate_entries-IsKeptPass outcomes now log [] = tt
  evaluate_entries-IsKeptPass outcomes now log (e ∷ rest) =
      elim (evaluate_entry t outcomes now log e)
          as (λ (o : Option (Turn F)).
            IsKeptTurn e o
            → IsKeptPass (e ∷ rest) (elim o [
              | none ↦ (log, none)
              | some turn ↦ behind turn (evaluate_entries t outcomes now turn.log rest)
            ])) [
              | none ↦ λ first. tt
              | some turn ↦ λ first.
                  behind-IsKeptPass e rest turn _ first
                    (evaluate_entries-IsKeptPass outcomes now turn.log rest)
            ]
        (evaluate_entry-IsKeptTurn outcomes now log e)

  finished-IsExclusive :
      (cap : ℕ) (now : String) (pool_file : Option (Pool F)) (log : File LifecycleRow)
      (o : Option (List (Outcome F)))
      → IsExclusive cap (load_pool pool_file).active_strategies
      → IsExclusive cap (load_pool (finished t now pool_file log o).pool_file).active_strategies
  finished-IsExclusive cap now pool_file log none s = s
  finished-IsExclusive cap now pool_file log (some outcomes) s =
      finish_run-IsExclusive cap pool_file _
        (evaluate_entries-IsKeptPass outcomes now log (load_pool pool_file).active_strategies) s

-- The file of the pool through admissions with caps of at most `cap`, and lifecycle runs.
module _ {F : Type 0} ⦃f : Float F⦄ (cap : ℕ) where
  pub data Step (pool_file : Option (Pool F)) : Option (Pool F) → Type 0 where
    admit :
        (terms : Terms F) (registry : File (AuditRow F)) (spec : Spec) (champion_score : Option F)
        → terms.cap ≤ cap
        → Step pool_file
            (register_champion terms
              (record { pool_file = pool_file; registry = registry })
              spec
              champion_score).0.pool_file
    evaluate :
        (t : Thresholds F) (outcome_file : File (Outcome F)) (now : String)
        (log : File LifecycleRow)
        → Step pool_file
            (run_strategy_lifecycle_feedback t outcome_file now pool_file log).pool_file

  pub data Reach : Option (Pool F) → Type 0 where
    start : Reach none
    next : {before after : Option (Pool F)} → Reach before → Step before after → Reach after

  Step-IsExclusive :
      {before after : Option (Pool F)}
      → IsExclusive cap (load_pool before).active_strategies
      → Step before after
      → IsExclusive cap (load_pool after).active_strategies
  unfolding register_champion run_strategy_lifecycle_feedback
  Step-IsExclusive {before} s (admit terms registry spec champion_score le) =
      registered-IsExclusive cap spec (record { pool_file = before; registry = registry }) _
        (add_champion-IsExclusive terms (load_pool before) spec champion_score cap le s) s
  Step-IsExclusive {before} s (evaluate t outcome_file now log) =
      finished-IsExclusive t cap now before log _ s

  -- In every history of admissions, each with a cap of at most `cap`, and of lifecycle runs, from a
  -- missing file, at most `cap` entries of the stored pool hold a slot, no two of them with the same
  -- rule set and no two with the same identifier.
  pub Reach-IsExclusive :
      {pool_file : Option (Pool F)}
      → Reach pool_file
      → IsExclusive cap (load_pool pool_file).active_strategies
  unfolding load_pool
  Reach-IsExclusive start = record {
    capped = omega arith;
    one_rule = λ h. omega arith;
    one_id = λ id. omega arith;
  }
  Reach-IsExclusive (next r s) = Step-IsExclusive (Reach-IsExclusive r) s
