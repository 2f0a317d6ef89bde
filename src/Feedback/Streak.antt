-- ===== src/Feedback/Streak.antt =====
-- What a run of the lifecycle feedback stores (strategy_feedback_step.py): nothing where no status
-- changes.
use crypto_ai_system.Common.{
  String, true, Option, none, some, List, [], ◌∷◌, ◌≡◌, refl, arith, ◌∙◌, inl, inr, any-count,
  count, count-append, if-both, Bool-cases,
}
use crypto_ai_system.Float.{Float}
use crypto_ai_system.Registry.{File, load_registry_records}
use crypto_ai_system.Lifecycle.{Decision, Thresholds}
use crypto_ai_system.Pool.{Entry, Pool, occupies}
use crypto_ai_system.Pool.Register.{load_pool}
use crypto_ai_system.Feedback.{
  Outcome, LifecycleRow, Summary, Run, Turn, Pass, changes_status, log_decision, logged, row_of,
  decided, behind, decision_on, finished, evaluate_entry, evaluate_entries, finish_run,
  run_strategy_lifecycle_feedback,
}

module _ {F : Type 0} where
  -- The registry is as before where no decision of the turn, or of the pass, changes a status.
  abbrev IsQuietTurn : File LifecycleRow → Option (Turn F) → Type 0
  IsQuietTurn log none = Unit
  IsQuietTurn log (some turn) = count changes_status turn.rows ≡ 0 → turn.log ≡ log

  abbrev IsQuietPass : File LifecycleRow → Pass F → Type 0
  IsQuietPass log (log', none) = Unit
  IsQuietPass log (log', some (entries, rows)) = count changes_status rows ≡ 0 → log' ≡ log

  logged_change :
      (now : String) (log : File LifecycleRow) (e : Entry F) (row : LifecycleRow)
      (o : Option (File LifecycleRow))
      → row.decision.status_changed ≡ true
      → IsQuietTurn log (logged now e row o)
  logged_change now log e row none loud = tt
  logged_change now log e row (some log') loud = λ quiet. ground arith

  logged-IsQuietTurn :
      (now : String) (log : File LifecycleRow) (e : Entry F) (row : LifecycleRow)
      → IsQuietTurn log (logged now e row (log_decision row log))
  logged-IsQuietTurn now log e row = elim (Bool-cases row.decision.status_changed) [
    | inl loud ↦ logged_change now log e row (log_decision row log) loud
    | inr still ↦ rw still (λ quiet. refl)
  ]

  decided-IsQuietTurn :
      (now : String) (log : File LifecycleRow) (e : Entry F) (d : Option Decision)
      → IsQuietTurn log (decided now log e d)
  decided-IsQuietTurn now log e none = tt
  decided-IsQuietTurn now log e (some d) = logged-IsQuietTurn now log e (row_of e d)

  behind-IsQuietPass :
      (turn : Turn F) (log : File LifecycleRow) (rest : Pass F)
      → IsQuietTurn log (some turn)
      → IsQuietPass turn.log rest
      → IsQuietPass log (behind turn rest)
  behind-IsQuietPass turn log (log', none) first later = tt
  behind-IsQuietPass turn log (log', some (entries, rows)) first later = λ quiet.
      let parts = count-append changes_status turn.rows rows in
      later (omega (arith, parts, quiet)) ∙ first (omega (arith, parts, quiet))

  finish_run-quiet :
      (pool_file : Option (Pool F)) (log : File LifecycleRow) (pass : Pass F) {s : Summary}
      → IsQuietPass log pass
      → (finish_run pool_file pass).summary ≡ some s
      → s.status_changes ≡ 0
      → ((finish_run pool_file pass).pool_file ≡ pool_file)
        × ((finish_run pool_file pass).log ≡ log)
  unfolding finish_run
  finish_run-quiet pool_file log (log', none) still e quiet = cc
  finish_run-quiet pool_file log (log', some (entries, rows)) {s} still e quiet =
      let none_changes : count changes_status rows ≡ 0 = cc in
      (ground (arith, none_changes, any-count changes_status rows), still none_changes)

module _ {F : Type 0} ⦃f : Float F⦄ (t : Thresholds F) where
  evaluate_entry-IsQuietTurn :
      (outcomes : List (Outcome F)) (now : String) (log : File LifecycleRow) (e : Entry F)
      → IsQuietTurn log (evaluate_entry t outcomes now log e)
  unfolding evaluate_entry
  evaluate_entry-IsQuietTurn outcomes now log e =
      if-both (IsQuietTurn log) (occupies e) _ _
        (λ active. decided-IsQuietTurn now log e (decision_on t outcomes e)) (λ idle quiet. refl)

  evaluate_entries-IsQuietPass :
      (outcomes : List (Outcome F)) (now : String) (log : File LifecycleRow) (es : List (Entry F))
      → IsQuietPass log (evaluate_entries t outcomes now log es)
  unfolding evaluate_entries
  evaluate_entries-IsQuietPass outcomes now log [] = λ quiet. refl
  evaluate_entries-IsQuietPass outcomes now log (e ∷ rest) =
      elim (evaluate_entry t outcomes now log e)
          as (λ (o : Option (Turn F)).
            IsQuietTurn log o
            → IsQuietPass log (elim o [
              | none ↦ (log, none)
              | some turn ↦ behind turn (evaluate_entries t outcomes now turn.log rest)
            ])) [
              | none ↦ λ first. tt
              | some turn ↦ λ first.
                  behind-IsQuietPass turn log _ first
                    (evaluate_entries-IsQuietPass outcomes now turn.log rest)
            ]
        (evaluate_entry-IsQuietTurn outcomes now log e)

  -- A run in which no status changes leaves the stored pool, each entry's streak of failures
  -- included, and the registry of decisions as they were, whatever streaks it has found.
  pub run_strategy_lifecycle_feedback-quiet :
      (outcome_file : File (Outcome F)) (now : String) (pool_file : Option (Pool F))
      (log : File LifecycleRow) {s : Summary}
      → (run_strategy_lifecycle_feedback t outcome_file now pool_file log).summary ≡ some s
      → s.status_changes ≡ 0
      → ((run_strategy_lifecycle_feedback t outcome_file now pool_file log).pool_file ≡ pool_file)
        × ((run_strategy_lifecycle_feedback t outcome_file now pool_file log).log ≡ log)
  unfolding run_strategy_lifecycle_feedback
  run_strategy_lifecycle_feedback-quiet outcome_file now pool_file log {s} =
      elim (load_registry_records outcome_file)
        as (λ (o : Option (List (Outcome F))).
          let r : Run F = finished t now pool_file log o in
          r.summary ≡ some s → s.status_changes ≡ 0 → (r.pool_file ≡ pool_file) × (r.log ≡ log)) [
            | none ↦ λ e quiet. (refl, refl)
            | some outcomes ↦ finish_run-quiet pool_file log _ (
                evaluate_entries-IsQuietPass outcomes now log
                  (load_pool pool_file).active_strategies)
          ]
