-- ===== src/Tests/Pipeline.antt =====
-- A cycle whose data stage raises, over a state that counts the orders.
use crypto_ai_system.Common.{
  ℕ, ◌+◌, String, Bool, true, false, some, none, [], ◌∷◌, ◌++◌, ◌≡◌, refl, inl, inr,
}
use crypto_ai_system.Pipeline.{
  Pipeline, Context, StageResult, StageStatus, run_agent, run_stages, skipped_result, run_once,
  recorded, exit_code_for, is_healthy,
}
use crypto_ai_system.Pipeline.Halting.{run_once_halted}

abbrev result_of : String → Bool → StageResult
result_of stage traded = record {
  stage = stage;
  status = StageStatus.ok;
  reasons = [];
  fatal = false;
  trade_executed = traded;
  cycle_id = none;
}

abbrev pipeline : Pipeline ℕ
pipeline = record {
  pre_trade =
      record { name = "data"; fatal_on_error = true; execute = λ ctx w. (w, inl "ReadTimeout") }
      ∷ [];
  trading = record {
    name = "trading";
    fatal_on_error = true;
    execute = λ ctx w. (w + 1, inr (result_of "trading" true));
  };
  feedback = record {
    name = "feedback";
    fatal_on_error = false;
    execute = λ ctx w. (w, inr (result_of "feedback" false));
  };
}

abbrev fresh : Context
fresh = record { cycle_id = some "cycle_1"; results = [] }

run_once_halted_example :
    let pre = run_stages pipeline.pre_trade fresh 7 in
    let skip = skipped_result pipeline.trading in
    let feedback = run_agent pipeline.feedback (recorded skip pre.context) pre.world in
    ((run_once pipeline "cycle_1" 7).results ≡ pre.results ++ (skip ∷ feedback.1 ∷ []))
    × ((run_once pipeline "cycle_1" 7).world ≡ feedback.0)
    × ((run_once pipeline "cycle_1" 7).trade_executed ≡ false)
    × (is_healthy (exit_code_for (run_once pipeline "cycle_1" 7)).0 ≡ false)
unfolding run_stages
run_once_halted_example = run_once_halted pipeline "cycle_1" 7 refl

orders_untouched : (run_once pipeline "cycle_1" 7).world ≡ 7
unfolding run_once
orders_untouched = refl
