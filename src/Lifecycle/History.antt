-- ===== src/Lifecycle/History.antt =====
-- The lifecycle over many evaluations (strategy_lifecycle_agent.py).
use crypto_ai_system.Common.{
  ℕ, suc, ◌+◌, true, false, ◌&&◌, List, [], ◌∷◌, ◌++◌, length, leb, ◌≡◌, ◌≤◌, ◌⊎◌, inl, inr, refl,
  arith, ap, ◌∙◌, Bool-cases, if-both,
}
use crypto_ai_system.Float.{Float}
use crypto_ai_system.Lifecycle.{
  StrategyStatus, suspended, archived, Thresholds, Performance, Findings, LifecycleReason,
  is_terminal, next_status, next_streak, findings_of, evaluate_lifecycle, rank, same_status,
}

next_streak-le : (x : Findings) (n : ℕ) → next_streak x n ≤ suc n
unfolding next_streak
next_streak-le x n = ground arith

module _ {F : Type 0} where
  next_status-terminal :
      (t : Thresholds F) (x : Findings) (streak : ℕ) (current : StrategyStatus)
      → is_terminal current ≡ true
      → (next_status t x streak current).0 ≡ current
  unfolding next_status
  next_status-terminal t x streak current h = rw h refl

  abbrev IsEarned : Thresholds F → ℕ → StrategyStatus → Type 0
  IsEarned t streak s =
      is_terminal s ≡ true → (t.archive_consecutive ≤ streak) ⊎ (t.suspend_consecutive ≤ streak)

  next_status-IsEarned :
      (t : Thresholds F) (x : Findings) (streak : ℕ) (current : StrategyStatus)
      → is_terminal current ≡ false
      → IsEarned t streak (next_status t x streak current).0
  unfolding next_status is_terminal
  next_status-IsEarned t x streak current h =
      let P = λ (r : StrategyStatus × List LifecycleReason). IsEarned t streak r.0 in
      if-both P (is_terminal current) _ _ (λ yes. ground arith)
        (λ no.
          if-both P (x.archive_metrics && leb t.archive_consecutive streak) _ _
            (λ yes blocked. inl (ground arith))
            (λ no₁.
              if-both P (x.suspend_metrics && leb t.suspend_consecutive streak) _ _
                (λ yes blocked. inr (ground arith))
                (λ no₂.
                  if-both P x.probation _ _ (λ yes blocked. ground arith)
                    (λ no₃.
                      if-both P x.warn _ _ (λ yes blocked. ground arith)
                        (λ no₄ blocked. ground arith)))))

module _ {F : Type 0} ⦃f : Float F⦄ (t : Thresholds F) where
  -- The evaluations of a strategy in their order, each with the streak that the one before has
  -- returned. (strategy_feedback_step.py stores a streak only where a status has changed.)
  unfoldable pub run : StrategyStatus → ℕ → List (Performance F) → StrategyStatus × ℕ
  unfolding evaluate_lifecycle
  run status streak [] = (status, streak)
  run status streak (p ∷ rest) =
      let d = evaluate_lifecycle t status p streak in run d.new_status d.consecutive_failures rest

  run-kept :
      (status : StrategyStatus) (streak : ℕ) (history : List (Performance F))
      → is_terminal status ≡ true
      → (run status streak history).0 ≡ status
  unfolding run evaluate_lifecycle
  run-kept status streak [] h = refl
  run-kept status streak (p ∷ rest) h =
      let x = findings_of t p in
      let same = next_status-terminal t x (next_streak x streak) status h in
      run-kept (next_status t x (next_streak x streak) status).0 (next_streak x streak) rest
        (ap is_terminal same ∙ h)
      ∙ same

  run-append :
      (status : StrategyStatus) (streak : ℕ) (before after : List (Performance F))
      → run status streak (before ++ after)
        ≡ (let mid = run status streak before in run mid.0 mid.1 after)
  unfolding run
  run-append status streak [] after = refl
  run-append status streak (p ∷ rest) after =
      let d = evaluate_lifecycle t status p streak in
      run-append d.new_status d.consecutive_failures rest after

  IsFinal-is_terminal :
      (s : StrategyStatus) → (s ≡ suspended) ⊎ (s ≡ archived) → is_terminal s ≡ true
  unfolding is_terminal
  IsFinal-is_terminal s (inl e) = rw e refl
  IsFinal-is_terminal s (inr e) = rw e refl

  one_more :
      (s : StrategyStatus) (streak : ℕ) (p : Performance F)
      → (s ≡ suspended) ⊎ (s ≡ archived)
      → let d = evaluate_lifecycle t s p streak in
        (d.new_status ≡ s)
        × (d.status_changed ≡ false)
        × (d.is_recovery ≡ false)
        × (d.new_entry_blocked ≡ true)
        × (d.requires_manual_reactivation ≡ true)
  unfolding evaluate_lifecycle next_status is_terminal rank same_status
  one_more s streak p (inl e) = rw e (refl, refl, refl, refl, refl)
  one_more s streak p (inr e) = rw e (refl, refl, refl, refl, refl)

  -- A strategy that some evaluations have suspended or archived keeps that status through all further
  -- ones, whatever its performance; and a further one reports no change and no recovery, and blocks
  -- entries until a manual reactivation.
  pub run-terminal :
      (status final : StrategyStatus) (streak : ℕ) (before after : List (Performance F))
      (p : Performance F)
      → (run status streak before).0 ≡ final
      → (final ≡ suspended) ⊎ (final ≡ archived)
      → let mid = run status streak (before ++ after) in
        let d = evaluate_lifecycle t mid.0 p mid.1 in
        (mid.0 ≡ final)
        × (d.new_status ≡ final)
        × (d.status_changed ≡ false)
        × (d.is_recovery ≡ false)
        × (d.new_entry_blocked ≡ true)
        × (d.requires_manual_reactivation ≡ true)
  unfolding evaluate_lifecycle
  run-terminal status final streak before after p reached h =
      let terminal = IsFinal-is_terminal final h in
      let mid = run status streak before in
      let still =
        ap (λ r. r.0) (run-append status streak before after)
        ∙ run-kept mid.0 mid.1 after (ap is_terminal reached ∙ terminal)
        ∙ reached in
      let last = run status streak (before ++ after) in
      let kept : (last.0 ≡ suspended) ⊎ (last.0 ≡ archived) = elim h [
        | inl e ↦ inl (still ∙ e)
        | inr e ↦ inr (still ∙ e)
      ] in
      let (same, changed, recovery, blocked, manual) = one_more last.0 last.1 p kept in
      (still, same ∙ still, changed, recovery, blocked, manual)

  -- A strategy whose entries are not blocked is blocked only after evaluations that, with its streak,
  -- are at least as many as the consecutive failures asked for a suspension or for an archival.
  pub run-blocked :
      (status : StrategyStatus) (streak : ℕ) (history : List (Performance F))
      → is_terminal status ≡ false
      → is_terminal (run status streak history).0 ≡ true
      → (t.archive_consecutive ≤ streak + length history)
        ⊎ (t.suspend_consecutive ≤ streak + length history)
  unfolding run evaluate_lifecycle
  run-blocked status streak [] open_now blocked = ground arith
  run-blocked status streak (p ∷ rest) open_now blocked =
      let x = findings_of t p in
      let n = next_streak x streak in
      let next = (next_status t x n status).0 in
      let bound = next_streak-le x streak in
      elim (Bool-cases (is_terminal next)) [
        | inl now ↦ elim (next_status-IsEarned t x n status open_now now) [
          | inl a ↦ inl (omega (arith, a, bound))
          | inr b ↦ inr (omega (arith, b, bound))
        ]
        | inr later ↦ elim (run-blocked next n rest later blocked) [
          | inl a ↦ inl (omega (arith, a, bound))
          | inr b ↦ inr (omega (arith, b, bound))
        ]
      ]
