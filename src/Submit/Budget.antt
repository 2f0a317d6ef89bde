-- ===== src/Submit/Budget.antt =====
-- The budget of the day and what a refusal leaves alone (live_strategy_execution.py and the counter of
-- live_order_final_guard.py).
use crypto_ai_system.Common.{
  ◌&&◌, ◌++◌, get_or, ℕ, suc, ◌+◌, String, Bool, true, false, Option, none, some, List, [], ◌∷◌,
  str_eq, if◌then◌else◌, ◌≡◌, ◌≤◌, ◌⊎◌, inl, inr, refl, arith, Bool-cases, if-both,
}
use text.Mathlib.TextPositions.{eq_refl}
use crypto_ai_system.Float.{Float}
use crypto_ai_system.Guard.RiskGate.{LiveIntent, GateBody}
use crypto_ai_system.Guard.Terms.{
  Settings, Evidence, Counter, Verdict, count_of, put_count, counts, count_today, record_submission,
}
use crypto_ai_system.Guard.Final.{evaluate_live_order_final_guard, evaluate_live_close_guard}
use crypto_ai_system.Guard.Clearance.{IsCleared, evaluate_live_order_final_guard-approved}
use crypto_ai_system.Guard.Bounds.{IsBounded, evaluate_live_close_guard-approved}
use crypto_ai_system.Submit.Performed.{may_be_live, resolve_submit-performed}
use crypto_ai_system.Submit.Orders.{
  Adapter, World, Result, posted, is_performed, send, counted, enter, submit_live_strategy_order,
  submit_live_close_order,
}

count_of-put_count :
    (day : String) (n : ℕ) (entries : List (String × ℕ))
    → count_of day (put_count day n entries) ≡ n
unfolding count_of put_count
count_of-put_count day n [] = rw (eq_refl day) refl
count_of-put_count day n (entry ∷ rest) = elim (Bool-cases (str_eq entry.0 day)) [
  | inl e ↦ rw (e, eq_refl day) refl
  | inr e ↦ rw (e, e) (count_of-put_count day n rest)
]

-- A recorded submission is one more of its day.
record_submission-count_today :
    (counter : Counter) (day : String)
    → count_today (record_submission counter day) day ≡ suc (count_today counter day)
unfolding count_today record_submission
record_submission-count_today counter day =
    count_of-put_count day (suc (count_of day (counts counter))) (counts counter)

abbrev pub of_result : Option Result → ℕ
of_result none = 0
of_result (some r) = if r.external_order_submission_performed then 1 else 0

of_result-le : (r : Option Result) → of_result r ≤ 1
of_result-le none = omega arith
of_result-le (some r) = ground arith

abbrev pub performed_count : List (Option Result) → ℕ
performed_count [] = 0
performed_count (r ∷ rest) = of_result r + performed_count rest

abbrev pub is_let_through : Option Verdict → Bool
is_let_through none = false
is_let_through (some v) = v.approved

module _ {F : Type 0} where
  abbrev submitted_today : World F → ℕ
  submitted_today w = count_today w.evidence.counter w.evidence.day

  counted-count :
      (b : Bool) (e : Evidence F)
      → ((counted b e).day ≡ e.day)
        × (count_today (counted b e).counter (counted b e).day
            ≡ count_today e.counter e.day + (if b then 1 else 0))
  counted-count false e = (refl, omega arith)
  counted-count true e = (refl, omega (arith, record_submission-count_today e.counter e.day))

module _ {F : Type 0} ⦃f : Float F⦄ (sha256 : GateBody → String) (s : Settings F)
    (adapter : Adapter F) where
  -- The day stays, and the count of the day grows by what was performed.
  abbrev IsCounted : World F → Option Result × World F → Type 0
  IsCounted w (result, after) =
      (after.evidence.day ≡ w.evidence.day)
      × (submitted_today after ≡ submitted_today w + of_result result)

  enter-IsCounted :
      (w : World F) (intent : LiveIntent F) (v : Option Verdict)
      → IsCounted w (enter sha256 s adapter w intent v)
  enter-IsCounted w intent none = (refl, omega arith)
  enter-IsCounted w intent (some v) =
      let (submit, r) = send adapter w.sent intent in
      if-both (IsCounted w) v.approved _ _ (λ ok. counted-count (is_performed r) w.evidence)
        (λ no. (refl, omega arith))

  submit_live_strategy_order-performed :
      (w : World F) (intent : LiveIntent F) (exposure : F)
      → IsCounted w (submit_live_strategy_order sha256 s adapter w intent exposure)
  unfolding submit_live_strategy_order
  submit_live_strategy_order-performed w intent exposure =
      enter-IsCounted w intent (evaluate_live_order_final_guard sha256 s w.evidence intent exposure)

  -- What the venue knows of an attempt: it took the order; or it did not refuse it, and does not
  -- answer the query that follows with an unknown order.
  abbrev venue_may_hold : World F → LiveIntent F → Bool
  venue_may_hold w intent =
      let symbol = get_or intent.symbol "None" in
      let id = get_or intent.client_order_id "None" in
      may_be_live (adapter.submit_order w.sent intent)
        (adapter.query_order (w.sent ++ posted intent ∷ []) symbol id)

  enter-performed :
      (w : World F) (intent : LiveIntent F) (v : Option Verdict)
      → of_result (enter sha256 s adapter w intent v).0
        ≡ (if is_let_through v && venue_may_hold w intent then 1 else 0)
  unfolding send
  enter-performed w intent none = refl
  enter-performed w intent (some v) =
      let symbol = get_or intent.symbol "None" in
      let id = get_or intent.client_order_id "None" in
      let trace = w.sent ++ posted intent ∷ [] in
      let performed =
        resolve_submit-performed adapter trace intent (adapter.submit_order w.sent intent)
          (adapter.query_order trace symbol id) refl in
      rw (← performed) (ground arith)

  -- An attempt of an entry that the guard lets through is reported as performed, and counts one more
  -- against its day, exactly where the venue may hold the order: where it took it, or where it did
  -- not refuse it and does not answer the query that follows with an unknown order. Any other
  -- attempt is not performed and counts nothing, and the day stays.
  pub submit_live_strategy_order-counted :
      (w : World F) (intent : LiveIntent F) (exposure : F)
      → let (result, after) = submit_live_strategy_order sha256 s adapter w intent exposure in
        let v = evaluate_live_order_final_guard sha256 s w.evidence intent exposure in
        let one : ℕ = if is_let_through v && venue_may_hold w intent then 1 else 0 in
        (after.evidence.day ≡ w.evidence.day)
        × (of_result result ≡ one)
        × (count_today after.evidence.counter after.evidence.day
            ≡ count_today w.evidence.counter w.evidence.day + one)
  unfolding submit_live_strategy_order
  submit_live_strategy_order-counted w intent exposure =
      let v = evaluate_live_order_final_guard sha256 s w.evidence intent exposure in
      let counts = enter-IsCounted w intent v in
      let performed = enter-performed w intent v in
      (counts.0, performed, omega (arith, counts.1, performed))

  -- Either nothing was sent, counted or performed, or the guard's conditions hold.
  abbrev IsGuarded : World F → LiveIntent F → F → Option Result × World F → Type 0
  IsGuarded w intent exposure (result, after) =
      ((after ≡ w) × (of_result result ≡ 0)) ⊎ IsCleared sha256 s w.evidence intent exposure

  enter-IsGuarded :
      (w : World F) (intent : LiveIntent F) (exposure : F) (v : Option Verdict)
      → evaluate_live_order_final_guard sha256 s w.evidence intent exposure ≡ v
      → IsGuarded w intent exposure (enter sha256 s adapter w intent v)
  enter-IsGuarded w intent exposure none e = inl (refl, refl)
  enter-IsGuarded w intent exposure (some v) e =
      if-both (IsGuarded w intent exposure) v.approved _ _
        (λ ok.
          inr (evaluate_live_order_final_guard-approved sha256 s w.evidence intent exposure e ok))
        (λ no. inl (refl, refl))

  -- An entry changes nothing, sends nothing and reports nothing performed, or every condition of the
  -- final guard holds of it.
  pub submit_live_strategy_order-guarded :
      (w : World F) (intent : LiveIntent F) (exposure : F)
      → let (result, after) = submit_live_strategy_order sha256 s adapter w intent exposure in
        ((after ≡ w) × (of_result result ≡ 0)) ⊎ IsCleared sha256 s w.evidence intent exposure
  unfolding submit_live_strategy_order
  submit_live_strategy_order-guarded w intent exposure = enter-IsGuarded w intent exposure _ refl

  -- A sequence of attempts on one day, each with the exposure the caller has found.
  unfoldable pub run : World F → List (LiveIntent F × F) → List (Option Result) × World F
  unfolding submit_live_strategy_order
  run w [] = ([], w)
  run w (attempt ∷ rest) =
      let (result, after) = submit_live_strategy_order sha256 s adapter w attempt.0 attempt.1 in
      let (results, last) = run after rest in (result ∷ results, last)

  one_attempt :
      (w : World F) (intent : LiveIntent F) (exposure : F)
      → count_today w.evidence.counter w.evidence.day ≤ s.max_daily_order_count
      → let (result, after) = submit_live_strategy_order sha256 s adapter w intent exposure in
        count_today after.evidence.counter after.evidence.day ≤ s.max_daily_order_count
  one_attempt w intent exposure h =
      let (_, counts) = submit_live_strategy_order-performed w intent exposure in
      elim (submit_live_strategy_order-guarded w intent exposure) [
        | inl (_, none_performed) ↦ omega (arith, counts, none_performed)
        | inr c ↦
            let under = c.under_count in
            omega (
              arith,
              counts,
              under,
              of_result-le (submit_live_strategy_order sha256 s adapter w intent exposure).0,
            )
      ]

  -- Over any sequence of attempts on one day, whatever the venue answers, the submissions that may be
  -- live, with those counted before, are the count of the day after them, and no more than the daily
  -- cap where the count before was not.
  pub run-within_budget :
      (w : World F) (attempts : List (LiveIntent F × F))
      → count_today w.evidence.counter w.evidence.day ≤ s.max_daily_order_count
      → let (results, last) = run w attempts in
        (count_today last.evidence.counter last.evidence.day
          ≡ count_today w.evidence.counter w.evidence.day + performed_count results)
        × (count_today last.evidence.counter last.evidence.day ≤ s.max_daily_order_count)
  unfolding run
  run-within_budget w [] h = (omega arith, h)
  run-within_budget w (attempt ∷ rest) h =
      let (result, after) = submit_live_strategy_order sha256 s adapter w attempt.0 attempt.1 in
      let (_, counted_one) = submit_live_strategy_order-performed w attempt.0 attempt.1 in
      let (total, capped) = run-within_budget after rest (one_attempt w attempt.0 attempt.1 h) in
      (omega (arith, counted_one, total), capped)

module _ {F : Type 0} ⦃f : Float F⦄ (s : Settings F) (adapter : Adapter F) where
  abbrev IsCloseGuarded : World F → LiveIntent F → Result × World F → Type 0
  IsCloseGuarded w intent (result, after) =
      (after.evidence ≡ w.evidence)
      × (((after ≡ w) × (result.external_order_submission_performed ≡ false))
          ⊎ (IsBounded s intent × (intent.reduce_only ≡ true)))

  -- A close never touches the evidence, so it does not consume the entries' budget; and it sends
  -- nothing unless the live boundary is on and the intent is a well-formed reduceOnly order.
  pub submit_live_close_order-guarded :
      (w : World F) (intent : LiveIntent F)
      → let (result, after) = submit_live_close_order s adapter w intent in
        (after.evidence ≡ w.evidence)
        × (((after ≡ w) × (result.external_order_submission_performed ≡ false))
            ⊎ (IsBounded s intent × (intent.reduce_only ≡ true)))
  unfolding submit_live_close_order
  submit_live_close_order-guarded w intent =
      if-both (IsCloseGuarded w intent) (evaluate_live_close_guard s intent).approved _ _
        (λ ok. (refl, inr (evaluate_live_close_guard-approved s intent ok)))
        (λ no. (refl, inl (refl, refl)))
