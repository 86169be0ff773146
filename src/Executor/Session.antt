-- ===== src/Executor/Session.antt =====
-- `ExecutionSession::execute` of executor/src/session.rs and `PipelineExecutionResult` of
-- executor/src/explain.rs: the scripts of a session, one after the other on one store.
pub mod Laws
use mathlib.Core.List.{foldr}
use move_language_server.Base.{
  ℕ, ◌+◌, ◌-◌, ◌%◌, ◌^◌, Bool, true, false, List, [], ◌∷◌, map, Option, none, some, ◌>>=◌,
}
use move_language_server.Base.Text.{Bytes}
use move_language_server.Executor.Tags.{ModuleId}
use move_language_server.Executor.Cache.{FakeRemoteCache, new}
use move_language_server.Executor.Script.{
  ExecutionMeta, Machine, StepExecutionResult, error, expected_error, success, execute_script,
}

pub data ExecutionUnit (Module Script : Type 0) : Type 0 where
  module_unit : Module → ExecutionUnit Module Script
  script_unit : Bytes → Script → ExecutionMeta → ExecutionUnit Module Script

abbrev pub total_gas : ℕ
total_gas = 1000000

-- StepResultInfo: name, gas spent, size of the write set, result
pub record StepResultInfo (Explained : Type 0) : Type 0 where
  pub name : Bytes
  pub gas_spent : ℕ
  pub write_set_size : ℕ
  pub step_result : StepExecutionResult Explained

abbrev pub is_error : {Explained : Type 0} → StepExecutionResult Explained → Bool
is_error (error _) = true
is_error (expected_error _) = false
is_error (success _) = false

-- PipelineExecutionResult::last
unfoldable pub last :
    {Explained : Type 0} → List (StepResultInfo Explained) → Option (StepExecutionResult Explained)
last [] = none
last (step ∷ []) = some step.step_result
last (step ∷ next ∷ steps) = last (next ∷ steps)

-- PipelineExecutionResult::overall_gas_spent
unfoldable pub overall_gas_spent : {Explained : Type 0} → List (StepResultInfo Explained) → ℕ
overall_gas_spent [] = 0
overall_gas_spent (step ∷ steps) = step.gas_spent + overall_gas_spent steps

module _ (vm : Machine) where
  open vm use {Script, Value, Explained}

  abbrev pub ScriptUnit : Type 0
  ScriptUnit = Bytes × Script × ExecutionMeta

  abbrev write_set_size_of : StepExecutionResult Explained → ℕ
  write_set_size_of (success explained) = vm.write_set_size explained
  write_set_size_of (error _) = 0
  write_set_size_of (expected_error _) = 0

  -- A row of the session's results. The subtraction is one of `u64`, with its wrap-around.
  abbrev pub step_info : Bytes → StepExecutionResult Explained → ℕ → StepResultInfo Explained
  step_info name result remaining_gas = record {
    name = name;
    gas_spent = (total_gas + 2 ^ 64 - remaining_gas) % 2 ^ 64;
    write_set_size = write_set_size_of result;
    step_result = result;
  }

  -- The end of the loop's body: an `Error` leaves the loop, and else it goes on with the store.
  unfoldable pub after_step :
      Bytes
      → (FakeRemoteCache → Option (List (StepResultInfo Explained)))
      → StepExecutionResult Explained × FakeRemoteCache × ℕ
      → Option (List (StepResultInfo Explained))
  after_step name continue (step_result, store, gas) = elim (is_error step_result) [
    | true ↦ some (step_info name step_result gas ∷ [])
    | false ↦ do step_results ← continue store; some (step_info name step_result gas ∷ step_results)
  ]

  -- The loop over the scripts. The arguments are the first script's.
  unfoldable pub run_scripts :
      FakeRemoteCache → List ScriptUnit → List Value → Option (List (StepResultInfo Explained))
  unfolding after_step
  run_scripts data_store [] script_args = some []
  run_scripts data_store ((name, script, meta) ∷ scripts) script_args =
      execute_script vm meta data_store script script_args total_gas
      >>= after_step name (λ store. run_scripts store scripts [])

  module _ {Module : Type 0} (self_id : Module → ModuleId) (serialize : Module → Option Bytes) where
    unfoldable pub modules : List (ExecutionUnit Module Script) → List Module
    modules [] = []
    modules (module_unit m ∷ units) = m ∷ modules units
    modules (script_unit _ _ _ ∷ units) = modules units

    unfoldable pub scripts : List (ExecutionUnit Module Script) → List ScriptUnit
    scripts [] = []
    scripts (module_unit m ∷ units) = scripts units
    scripts (script_unit name script meta ∷ units) = (name, script, meta) ∷ scripts units

    -- ExecutionSession::execute
    unfoldable pub execute :
        List (ExecutionUnit Module Script) → List Value → Option (List (StepResultInfo Explained))
    unfolding modules scripts run_scripts
    execute units script_args = do
      data_store ← new self_id serialize (modules units)
      run_scripts data_store (scripts units) script_args
