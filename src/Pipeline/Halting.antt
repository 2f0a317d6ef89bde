-- ===== src/Pipeline/Halting.antt =====
-- A halting stage keeps the trading stage from running, and the cycle from looking healthy
-- (orchestrator.py, exit_codes.py).
use crypto_ai_system.Common.{
  ℕ, String, Bool, true, false, Option, none, some, List, [], ◌∷◌, ◌++◌, ◌≡◌, refl, arith, ap, ◌∙◌,
  any, if◌then◌else◌, Bool-cases, inl, inr,
}
use crypto_ai_system.Pipeline.{
  Agent, Pipeline, Context, Progress, PipelineRun, StageResult, StageStatus, halts, run_agent,
  run_stages, skipped_result, trade_stage, run_once, recorded, halts_as, code_as, code_of,
  first_code, exit_code_for, is_healthy,
}

-- The code of a result that halts is there and is one of the unhealthy ones.
abbrev IsAlarm : Option ℕ → Type 0
IsAlarm none = ⊥
IsAlarm (some code) = is_healthy code ≡ false

abbrev IsQuietOrAlarm : Option ℕ → Type 0
IsQuietOrAlarm none = Unit
IsQuietOrAlarm (some code) = is_healthy code ≡ false

code_as-IsQuietOrAlarm :
    (status : StageStatus) (fatal : Bool) (stage : String)
    → IsQuietOrAlarm (code_as status fatal stage)
unfolding is_healthy
code_as-IsQuietOrAlarm StageStatus.ok fatal stage = tt
code_as-IsQuietOrAlarm StageStatus.degraded fatal stage = tt
code_as-IsQuietOrAlarm StageStatus.skipped fatal stage = tt
code_as-IsQuietOrAlarm StageStatus.blocked fatal stage = ground arith
code_as-IsQuietOrAlarm StageStatus.error fatal stage = ground arith

code_as-IsAlarm :
    (status : StageStatus) (fatal : Bool) (stage : String)
    → halts_as status fatal ≡ true
    → IsAlarm (code_as status fatal stage)
unfolding is_healthy
code_as-IsAlarm StageStatus.ok fatal stage h = cc
code_as-IsAlarm StageStatus.degraded fatal stage h = cc
code_as-IsAlarm StageStatus.skipped fatal stage h = cc
code_as-IsAlarm StageStatus.blocked fatal stage h = ground arith
code_as-IsAlarm StageStatus.error fatal stage h = ground arith

IsAlarmed : Option (ℕ × StageResult) → Type 0
IsAlarmed none = ⊥
IsAlarmed (some (code, r)) = is_healthy code ≡ false

-- Some result of those that halt alarms, or one before it does.
first_code-IsAlarmed :
    (results : List StageResult) → any halts results ≡ true → IsAlarmed (first_code results)
unfolding first_code halts code_of IsAlarmed
first_code-IsAlarmed [] h = cc
first_code-IsAlarmed (r ∷ rest) h =
    elim (code_of r)
        as (λ (o : Option ℕ).
          let found : Option (ℕ × StageResult) = elim o [
            | none ↦ first_code rest
            | some code ↦ some (code, r)
          ] in
          IsQuietOrAlarm o → (halts r ≡ true → IsAlarm o) → IsAlarmed found) [
            | none ↦ λ quiet alarm. elim (Bool-cases (halts r)) [
              | inl fatal ↦ absurd (alarm fatal)
              | inr calm ↦ first_code-IsAlarmed rest (ground (arith, calm, h))
            ]
            | some code ↦ λ quiet alarm. quiet
          ]
      (code_as-IsQuietOrAlarm r.status r.fatal r.stage) (code_as-IsAlarm r.status r.fatal r.stage)

exit_code_for-alarm :
    {W : Type 0} (run : PipelineRun W)
    → any halts run.results ≡ true
    → is_healthy (exit_code_for run).0 ≡ false
unfolding exit_code_for IsAlarmed
exit_code_for-alarm run h =
    elim (first_code run.results)
        as (λ (o : Option (ℕ × StageResult)).
          let code : ℕ × Option StageResult = elim o [
            | none ↦ (if run.trade_executed then 0 else 2, none)
            | some (code, r) ↦ (code, some r)
          ] in
          IsAlarmed o → is_healthy code.0 ≡ false) [
            | none ↦ λ alarmed. absurd alarmed
            | some (code, r) ↦ λ alarmed. alarmed
          ]
      (first_code-IsAlarmed run.results h)

any-append_left : (xs ys : List StageResult) → any halts xs ≡ true → any halts (xs ++ ys) ≡ true
any-append_left [] ys h = cc
any-append_left (x ∷ xs) ys h = ground (arith, any-append_left xs ys)

module _ {W : Type 0} where
  -- The pre-trade loop is halted just where one of its results halts.
  run_stages-halted :
      (agents : List (Agent W)) (ctx : Context) (w : W)
      → (run_stages agents ctx w).halted ≡ any halts (run_stages agents ctx w).results
  unfolding run_stages
  run_stages-halted [] ctx w = refl
  run_stages-halted (agent ∷ rest) ctx w =
      let r = run_agent agent ctx w in ground (arith, run_stages-halted rest (recorded r.1 ctx) r.0)

  trade_stage-skipped :
      (trading : Agent W) (pre : Progress W)
      → pre.halted ≡ true
      → trade_stage trading pre ≡ (pre.world, skipped_result trading)
  unfolding trade_stage
  trade_stage-skipped trading pre h = rw h refl

  -- Where a result of the pre-trade stages halts, the cycle does not run the trading agent: its stage
  -- is skipped, the feedback runs on what the pre-trade stages have left, no trade is reported, and
  -- the exit code is not a healthy one.
  pub run_once_halted :
      (p : Pipeline W) (cycle_id : String) (w : W)
      → any halts
          (run_stages p.pre_trade (record { cycle_id = some cycle_id; results = [] }) w).results
        ≡ true
      → let pre = run_stages p.pre_trade (record { cycle_id = some cycle_id; results = [] }) w in
        let skip = skipped_result p.trading in
        let feedback = run_agent p.feedback (recorded skip pre.context) pre.world in
        ((run_once p cycle_id w).results ≡ pre.results ++ (skip ∷ feedback.1 ∷ []))
        × ((run_once p cycle_id w).world ≡ feedback.0)
        × ((run_once p cycle_id w).trade_executed ≡ false)
        × (is_healthy (exit_code_for (run_once p cycle_id w)).0 ≡ false)
  unfolding run_once skipped_result
  run_once_halted p cycle_id w h =
      let ctx : Context = record { cycle_id = some cycle_id; results = [] } in
      let pre : Progress W = run_stages p.pre_trade ctx w in
      let skip = trade_stage-skipped p.trading pre (run_stages-halted p.pre_trade ctx w ∙ h) in
      (
        rw skip refl,
        rw skip refl,
        ap (λ (r : W × StageResult). r.1.trade_executed) skip,
        exit_code_for-alarm (run_once p cycle_id w) (any-append_left pre.results _ h),
      )
