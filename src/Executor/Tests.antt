-- ===== src/Executor/Tests.antt =====
-- Runs of scripts and sessions on a small machine.
use move_language_server.Base.{
  arith, ℕ, ◌-◌, ◌≡◌, ◌⊎◌, inl, refl, true, List, [], ◌∷◌, ◌++◌, none, some,
}
use move_language_server.Base.Assoc.{insert}
use move_language_server.Base.Text.{Bytes, codes}
use move_language_server.Executor.Tags.{StructTag, time_metadata}
use move_language_server.Executor.Cache.{
  FakeRemoteCache, SerializedTransactionEffects, ResourceChanges, get_resource_bytes, merge_effects,
  serialize_effects,
}
use move_language_server.Executor.Cache.Laws.{last_write}
use move_language_server.Executor.Script.{
  ExecutionMeta, default_meta, Machine, move_abort, RunResult, finished, failed,
  StepExecutionResult, error, expected_error, success, execute_script, refuses, run_script,
}
use move_language_server.Executor.Script.Laws.{
  answer_of, execute_script_keeps, execute_script_resources,
}
use move_language_server.Executor.Session.{StepResultInfo, run_scripts, ScriptUnit}
use move_language_server.Executor.Session.Laws.{
  Stops, TakesGas, run_scripts-Stops, run_alone, run_scripts_dry,
}

-- An empty script aborts with 7, any other writes its bytes to the time resource.
abbrev sample_run : FakeRemoteCache → Bytes → List Bytes → List ℕ → ℕ → RunResult Bytes × ℕ
sample_run cache [] args signers gas = (failed (move_abort none 7), gas - 5)
sample_run cache (b ∷ bytes) args signers gas =
    (finished ((1, (time_metadata, some (b ∷ bytes)) ∷ []) ∷ []), gas - 10)

abbrev sample_machine : Machine
sample_machine = record {
  Script = Bytes;
  Value = Bytes;
  Explained = ℕ;
  serialize_script = some;
  simple_serialize = λ v. v;
  to_bytes = λ n. n ∷ [];
  run = sample_run;
  type_mismatch = 1;
  explain_effects = λ effects cache. some 0;
  set_write_set_size = λ e size. size;
  write_set_size = λ e. e;
  explain_failure = λ status cache. codes "aborted";
  explain_type_error = λ script signers. codes "types";
}

abbrev sample_store : FakeRemoteCache
sample_store = record { modules = []; resources = [] }

abbrev abort_meta : ExecutionMeta
abort_meta = record default_meta { aborts_with = some 7; current_time = some 3 }

abbrev sample_effects : SerializedTransactionEffects
sample_effects = ((1, time_metadata), some (codes "a")) ∷ ((1, time_metadata), none) ∷ []

abbrev abort_result : StepExecutionResult ℕ
abort_result = expected_error (codes "Expected error: " ++ codes "aborted")

execute_script_keeps_example : sample_store ≡ sample_store
unfolding execute_script refuses run_script
execute_script_keeps_example =
    execute_script_keeps sample_machine abort_meta sample_store [] [] 100 abort_result sample_store
      95 refl (inl (λ e h. cc))

abbrev script_bytes : Bytes
script_bytes = codes "s"

abbrev sample_changes : ResourceChanges Bytes
sample_changes = (1, (time_metadata, some script_bytes) ∷ []) ∷ []

abbrev store_after : FakeRemoteCache
store_after = record { modules = []; resources = ((1, time_metadata), script_bytes) ∷ [] }

execute_script_resources_example :
    (store_after.modules ≡ sample_store.modules)
    × (((addr : ℕ) (tag : StructTag)
          → get_resource_bytes store_after addr tag ≡ get_resource_bytes sample_store addr tag)
        ⊎ ((bytes : Bytes) × (effects : ResourceChanges Bytes) × (some script_bytes ≡ some bytes)
            × (answer_of sample_machine default_meta sample_store bytes [] 100 ≡ finished effects)
            × ((addr : ℕ) (tag : StructTag)
                → get_resource_bytes store_after addr tag
                  ≡ last_write
                      (addr, tag)
                      (serialize_effects (λ (v : Bytes). v) effects).0
                      (get_resource_bytes sample_store addr tag))))
unfolding execute_script merge_effects serialize_effects refuses run_script insert
execute_script_resources_example =
    execute_script_resources sample_machine default_meta sample_store script_bytes [] 100
      (success 1) store_after 90 refl

abbrev dry_meta : ExecutionMeta
dry_meta = record default_meta { dry_run = true }

abbrev dry_units : List (ScriptUnit sample_machine)
dry_units = (codes "one", script_bytes, dry_meta) ∷ (codes "two", script_bytes, dry_meta) ∷ []

run_scripts_dry_example :
    run_scripts sample_machine sample_store dry_units []
    ≡ run_alone sample_machine sample_store dry_units []
run_scripts_dry_example =
    run_scripts_dry sample_machine sample_store dry_units [] (refl, (refl, tt))

abbrev failing_units : List (ScriptUnit sample_machine)
failing_units = (codes "one", [], default_meta) ∷ (codes "two", script_bytes, default_meta) ∷ []

abbrev failing_rows : List (StepResultInfo ℕ)
failing_rows =
    record {
      name = codes "one";
      gas_spent = 5;
      write_set_size = 0;
      step_result = error (codes "aborted");
    }
    ∷ []

sample_machine-TakesGas : TakesGas sample_machine
sample_machine-TakesGas ds [] args signers gas = omega arith
sample_machine-TakesGas ds (b ∷ bytes) args signers gas = omega arith

run_scripts-Stops_example : Stops sample_machine failing_rows failing_units
unfolding run_scripts execute_script refuses run_script
run_scripts-Stops_example =
    run_scripts-Stops sample_machine sample_machine-TakesGas sample_store failing_units []
      failing_rows refl

-- A comment on the first line and a script on the second.
abbrev doc_source : Bytes
doc_source = codes "/// a\nscript {}"

abbrev doc_lines : Bytes → List ℕ
doc_lines s = 0 ∷ 6 ∷ []
