-- ===== src/Pipeline.antt =====
-- A cycle of the pipeline (src/crypto_ai_system/pipeline/orchestrator.py, base.py, contracts.py) and
-- its exit code (exit_codes.py). What the agents read and write, the files and the slots of the
-- context among them, is a state that the model takes as a parameter; the timing is left out.
pub mod Halting
use crypto_ai_system.Common.{
  ℕ, String, Bool, true, false, not, ◌&&◌, ◌||◌, Option, none, some, List, [], ◌∷◌, ◌++◌, ◌==◌,
  str_eq, if◌then◌else◌, ◌⊎◌, inl, inr,
}

pub data StageStatus : Type 0 where
  ok degraded skipped blocked error : StageStatus

-- `trade_executed` and `cycle_id` are the outputs that the pipeline itself reads or writes.
pub record StageResult : Type 0 where
  pub stage : String
  pub status : StageStatus
  pub reasons : List String
  pub fatal : Bool
  pub trade_executed : Bool
  pub cycle_id : Option String

pub record Context : Type 0 where
  pub cycle_id : Option String
  pub results : List (String × StageResult)

-- `execute` gives the state that it leaves and its result; `inl` is the text of its exception.
pub record Agent (W : Type 0) : Type 0 where
  pub name : String
  pub fatal_on_error : Bool
  pub execute : Context → W → W × (String ⊎ StageResult)

pub record Pipeline (W : Type 0) : Type 0 where
  pub pre_trade : List (Agent W)
  pub trading : Agent W
  pub feedback : Agent W

-- What a part of a cycle leaves.
pub record Progress (W : Type 0) : Type 0 where
  pub world : W
  pub context : Context
  pub results : List StageResult
  pub halted : Bool

pub record PipelineRun (W : Type 0) : Type 0 where
  pub world : W
  pub results : List StageResult
  pub trade_executed : Bool
  pub cycle_id : Option String

abbrev pub halts_as : StageStatus → Bool → Bool
halts_as error fatal = fatal
halts_as blocked fatal = fatal
halts_as _ fatal = false

unfoldable pub halts : StageResult → Bool
halts r = halts_as r.status r.fatal

-- `PipelineContext.record`, `self.results[result.stage] = result`.
abbrev put_result : StageResult → List (String × StageResult) → List (String × StageResult)
put_result r [] = (r.stage, r) ∷ []
put_result r ((name, old) ∷ rest) =
    let more = put_result r rest in
    if str_eq name r.stage then (name, r) ∷ rest else (name, old) ∷ more

abbrev pub recorded : StageResult → Context → Context
recorded r ctx = record ctx { results = put_result r ctx.results }

-- `outputs.setdefault("cycle_id", cycle_id)`
abbrev stamped : Option String → StageResult → StageResult
stamped none r = r
stamped (some id) r = elim r.cycle_id [ none ↦ record r { cycle_id = some id } | some own ↦ r ]

module _ {W : Type 0} where
  abbrev captured : Agent W → String ⊎ StageResult → StageResult
  captured agent (inl text) = record {
    stage = agent.name;
    status = error;
    reasons = text ∷ [];
    fatal = agent.fatal_on_error;
    trade_executed = false;
    cycle_id = none;
  }
  captured agent (inr r) = r

  -- `Agent.run`
  unfoldable pub run_agent : Agent W → Context → W → W × StageResult
  run_agent agent ctx w =
      let (after, answer) = agent.execute ctx w in
      (after, stamped ctx.cycle_id (captured agent answer))

  -- The loop over the pre-trade agents, which stops behind the first result that halts.
  unfoldable pub run_stages : List (Agent W) → Context → W → Progress W
  unfolding run_agent halts
  run_stages [] ctx w = record { world = w; context = ctx; results = []; halted = false }
  run_stages (agent ∷ rest) ctx w =
      let (after, r) = run_agent agent ctx w in
      let here = recorded r ctx in
      let more = run_stages rest here after in
      if halts r
      then record { world = after; context = here; results = r ∷ []; halted = true }
      else record more { results = r ∷ more.results }

  unfoldable pub skipped_result : Agent W → StageResult
  skipped_result agent = record {
    stage = agent.name;
    status = skipped;
    reasons = "upstream stage halted the pipeline (fail-closed)" ∷ [];
    fatal = false;
    trade_executed = false;
    cycle_id = none;
  }

  -- The trading stage, or its skip.
  unfoldable pub trade_stage : Agent W → Progress W → W × StageResult
  unfolding run_agent skipped_result
  trade_stage trading pre =
      if pre.halted
      then (pre.world, skipped_result trading)
      else run_agent trading pre.context pre.world

  -- `Pipeline.run_once`, in a cycle of the given identifier.
  unfoldable pub run_once : Pipeline W → String → W → PipelineRun W
  unfolding run_stages trade_stage
  run_once p cycle_id w =
      let pre = run_stages p.pre_trade (record { cycle_id = some cycle_id; results = [] }) w in
      let (traded, trade_result) = trade_stage p.trading pre in
      let (final, feedback_result) =
        run_agent p.feedback (recorded trade_result pre.context) traded in
      record {
        world = final;
        results = pre.results ++ (trade_result ∷ feedback_result ∷ []);
        trade_executed = trade_result.trade_executed;
        cycle_id = some cycle_id;
      }

-- The code of a result that ends the search, if it does.
abbrev pub code_as : StageStatus → Bool → String → Option ℕ
code_as error fatal stage =
    if str_eq stage "feedback"
    then some 50
    else if not fatal
    then none
    else if str_eq stage "trading"
    then some 30
    else some 20
code_as blocked fatal stage = if fatal then some 10 else none
code_as _ fatal stage = none

unfoldable pub code_of : StageResult → Option ℕ
code_of r = code_as r.status r.fatal r.stage

unfoldable pub first_code : List StageResult → Option (ℕ × StageResult)
unfolding code_of
first_code [] = none
first_code (r ∷ rest) =
    let more = first_code rest in elim (code_of r) [ none ↦ more | some code ↦ some (code, r) ]

-- `exit_code_for`; the reason of a halt is the summary of the result beside the code.
unfoldable pub exit_code_for : {W : Type 0} → PipelineRun W → ℕ × Option StageResult
unfolding first_code
exit_code_for run = elim (first_code run.results) [
  | none ↦ (if run.trade_executed then 0 else 2, none)
  | some (code, r) ↦ (code, some r)
]

-- `code not in UNHEALTHY_CODES`
unfoldable pub is_healthy : ℕ → Bool
is_healthy code = not (code == 10 || code == 20 || code == 30 || code == 40 || code == 50)
