-- ===== src/Executor/Script.antt =====
-- `execute_script` of executor/src/execution.rs: one script on the store, by the virtual machine,
-- with the resources of its doc comments put into a copy of the store.
pub mod Laws
use move_language_server.Base.{
  ℕ, ◌==◌, String, Bool, true, false, List, [], ◌∷◌, ◌++◌, ◌&&◌, Option, none, some, ◌>>=◌,
  if◌then◌else◌,
}
use move_language_server.Base.Assoc.{insert}
use move_language_server.Base.Classes.{Eq, nat_eq, pair_eq}
use move_language_server.Base.Text.{Bytes, codes}
use move_language_server.Executor.Tags.{
  StructTag, ModuleId, tag_eq, oracle_coins_module, time_metadata, block_metadata,
  coin_balance_metadata,
}
use move_language_server.Executor.Cache.{
  FakeRemoteCache, ResourceKey, ResourceChanges, get_module, serialize_effects, merge_effects,
}

-- ExecutionMeta of executor/src/meta.rs
pub record ExecutionMeta : Type 0 where
  pub signers : List ℕ
  pub accounts_balance : List (ℕ × Bytes × ℕ)
  pub oracle_prices : List (StructTag × ℕ)
  pub current_time : Option ℕ
  pub block : Option ℕ
  pub aborts_with : Option ℕ
  pub status : Option ℕ
  pub dry_run : Bool

abbrev pub default_meta : ExecutionMeta
default_meta = record {
  signers = [];
  accounts_balance = [];
  oracle_prices = [];
  current_time = none;
  block = none;
  aborts_with = none;
  status = none;
  dry_run = false;
}

-- The ends of a run that the code tells apart. Status codes are their numbers.
pub data VmStatus : Type 0 where
  executed : VmStatus
  error : ℕ → VmStatus
  move_abort : Option ModuleId → ℕ → VmStatus
  execution_failure : ℕ → Option ModuleId → ℕ → ℕ → VmStatus

-- StepExecutionResult of executor/src/explain.rs, over the explained effects.
pub data StepExecutionResult (Explained : Type 0) : Type 0 where
  error : Bytes → StepExecutionResult Explained
  expected_error : Bytes → StepExecutionResult Explained
  success : Explained → StepExecutionResult Explained

pub data RunResult (Value : Type 0) : Type 0 where
  finished : ResourceChanges Value → RunResult Value
  failed : VmStatus → RunResult Value

-- What the executor takes from the virtual machine, and the texts of its explanations.
-- `run` answers with the gas that remains.
pub record Machine : Type 1 where
  pub Script : Type 0
  pub Value : Type 0
  pub Explained : Type 0
  pub serialize_script : Script → Option Bytes
  pub simple_serialize : Value → Bytes
  pub to_bytes : ℕ → Bytes
  pub run : FakeRemoteCache → Bytes → List Value → List ℕ → ℕ → RunResult Value × ℕ
  pub type_mismatch : ℕ
  pub explain_effects : ResourceChanges Value → FakeRemoteCache → Option Explained
  pub set_write_set_size : Explained → ℕ → Explained
  pub write_set_size : Explained → ℕ
  pub explain_failure : VmStatus → FakeRemoteCache → Bytes
  pub explain_type_error : Script → List ℕ → Bytes

module _ (vm : Machine) where
  open vm use {Script, Value, Explained}

  unfoldable pub put_resource : FakeRemoteCache → ResourceKey → ℕ → FakeRemoteCache
  put_resource ds key n = record ds { resources = insert key (vm.to_bytes n) ds.resources }

  unfoldable pub put_prices : FakeRemoteCache → List (StructTag × ℕ) → FakeRemoteCache
  unfolding put_resource
  put_prices ds [] = ds
  put_prices ds ((tag, val) ∷ prices) = put_prices (put_resource ds (1, tag) val) prices

  unfoldable pub put_balances : FakeRemoteCache → List (ℕ × Bytes × ℕ) → FakeRemoteCache
  unfolding put_resource
  put_balances ds [] = ds
  put_balances ds ((account, coin, val) ∷ balances) =
      put_balances (put_resource ds (account, coin_balance_metadata coin) val) balances

  -- The copy of the store that the script sees.
  unfoldable pub prepare : ExecutionMeta → FakeRemoteCache → FakeRemoteCache
  unfolding put_prices put_balances
  prepare meta data_store =
      let timed : FakeRemoteCache = elim meta.current_time [
        | none ↦ data_store
        | some now ↦ put_resource data_store (1, time_metadata) now
      ] in
      let height : ℕ = elim meta.block [ none ↦ 100 | some b ↦ b ] in
      let blocked = put_resource timed (1, block_metadata) height in
      put_balances (put_prices blocked meta.oracle_prices) meta.accounts_balance

  -- `with_expected_error` and `with_error`
  abbrev pub with_expected_error : Bytes → StepExecutionResult Explained
  with_expected_error s = expected_error (codes "Expected error: " ++ s)

  abbrev pub expect : Option ℕ → ℕ → Bytes → StepExecutionResult Explained
  expect none found message = error message
  expect (some wanted) found message =
      if found == wanted then with_expected_error message else error message

  -- The arms of the `match` on the failed status; `none` is `unreachable!`.
  unfoldable pub judge :
      ExecutionMeta → FakeRemoteCache → Script → VmStatus → Option (StepExecutionResult Explained)
  judge meta data_store script (move_abort at code) =
      some (expect meta.aborts_with code (vm.explain_failure (move_abort at code) data_store))
  judge meta data_store script (execution_failure code at function offset) = some (
      expect meta.status code
        (vm.explain_failure (execution_failure code at function offset) data_store))
  judge meta data_store script (VmStatus.error code) =
      if code == vm.type_mismatch
      then some (error (vm.explain_type_error script meta.signers))
      else some (error (vm.explain_failure (VmStatus.error code) data_store))
  judge meta data_store script executed = none

  -- The effects of a run that finished, on the store and as a result.
  unfoldable pub finish :
      ExecutionMeta
      → FakeRemoteCache
      → FakeRemoteCache
      → ResourceChanges Value
      → Option (StepExecutionResult Explained × FakeRemoteCache)
  finish meta data_store ds effects = do
    explained ← vm.explain_effects effects ds
    let serialized = serialize_effects vm.simple_serialize effects
    some (
      success (vm.set_write_set_size explained serialized.1),
      if meta.dry_run then data_store else merge_effects data_store serialized.0,
    )

  unfoldable pub conclude :
      ExecutionMeta
      → FakeRemoteCache
      → Script
      → RunResult Value
      → Option (StepExecutionResult Explained × FakeRemoteCache)
  unfolding finish judge prepare
  conclude meta data_store script (finished effects) =
      finish meta data_store (prepare meta data_store) effects
  conclude meta data_store script (failed status) = do
    result ← judge meta data_store script status
    some (result, data_store)

  -- Prices are given and there is no module to hold them.
  unfoldable pub refuses : ExecutionMeta → FakeRemoteCache → Bool
  unfolding get_module
  refuses meta data_store =
      let no_coins : Bool = elim (get_module data_store oracle_coins_module) [
        | none ↦ true
        | some _ ↦ false
      ] in
      let has_prices : Bool = elim meta.oracle_prices [ [] ↦ false | _ ∷ _ ↦ true ] in
      has_prices && no_coins

  unfoldable pub run_script :
      ExecutionMeta
      → FakeRemoteCache
      → Script
      → List Value
      → ℕ
      → Option (StepExecutionResult Explained × FakeRemoteCache × ℕ)
  unfolding conclude
  run_script meta data_store script args gas = do
    bytes ← vm.serialize_script script
    let answer = vm.run (prepare meta data_store) bytes args meta.signers gas
    (result, store) ← conclude meta data_store script answer.0
    some (result, store, answer.1)

  abbrev pub missing_coins : Bytes
  missing_coins = codes "Cannot use `price:` comments: missing `0x1::Coins` module"

  -- The step's result, the store after it and the gas that remains; `none` is the function's own
  -- error or a panic.
  unfoldable pub execute_script :
      ExecutionMeta
      → FakeRemoteCache
      → Script
      → List Value
      → ℕ
      → Option (StepExecutionResult Explained × FakeRemoteCache × ℕ)
  execute_script meta data_store script args gas =
      if refuses meta data_store
      then some (error missing_coins, data_store, gas)
      else run_script meta data_store script args gas
