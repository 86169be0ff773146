-- ===== src/Executor/Script/Laws.antt =====
-- What a script leaves in the store, and which of its failures count as expected.
use move_language_server.Base.{
  ℕ, ◌≡◌, ◌≢◌, ◌⊎◌, inl, inr, refl, ap, ◌∙◌, true, false, List, Option, some, Bool-cases,
  >>=-eq-some,
}
use move_language_server.Base.Text.{Bytes}
use move_language_server.Executor.Tags.{StructTag, time_metadata}
use move_language_server.Executor.Cache.{
  FakeRemoteCache, ResourceChanges, get_resource_bytes, serialize_effects, merge_effects,
}
use move_language_server.Executor.Cache.Laws.{last_write, merge_effects-last_write}
use move_language_server.Executor.Script.{
  ExecutionMeta, Machine, StepExecutionResult, error, success, RunResult, finished, failed, prepare,
  judge, conclude, refuses, run_script, missing_coins, execute_script,
}

module _ (vm : Machine) where
  open vm use {Script, Value, Explained}

  abbrev Out : Type 0
  Out = StepExecutionResult Explained × FakeRemoteCache

  abbrev result : Explained → ResourceChanges Value → Explained
  result e effects = vm.set_write_set_size e (serialize_effects vm.simple_serialize effects).1

  -- The store with the effects merged in.
  abbrev pub written : FakeRemoteCache → ResourceChanges Value → FakeRemoteCache
  written ds effects = merge_effects ds (serialize_effects vm.simple_serialize effects).0

  -- How an answer of `execute_script` came about.
  pub data Ran (meta : ExecutionMeta) (ds : FakeRemoteCache) (script : Script) (args : List Value)
      (gas : ℕ) (r : StepExecutionResult Explained) (store : FakeRemoteCache) : Type 0 where
    refused : (m : Bytes) → r ≡ error m → store ≡ ds → Ran meta ds script args gas r store
    concluded :
        (bytes : Bytes)
        → vm.serialize_script script ≡ some bytes
        → conclude vm meta ds script (vm.run (prepare vm meta ds) bytes args meta.signers gas).0
          ≡ some (r, store)
        → Ran meta ds script args gas r store

  pub ran :
      (meta : ExecutionMeta) (ds : FakeRemoteCache) (script : Script) (args : List Value) (gas : ℕ)
      (r : StepExecutionResult Explained) (store : FakeRemoteCache) (left : ℕ)
      → execute_script vm meta ds script args gas ≡ some (r, store, left)
      → Ran meta ds script args gas r store
  unfolding execute_script
  ran meta ds script args gas r store left h = elim (Bool-cases (refuses vm meta ds)) [
    | inl y ↦
        let e : some (error (missing_coins vm), ds, gas) ≡ some (r, store, left) =
          rw (y, execute_script) at h in
        refused (missing_coins vm) (cc e) (cc e)
    | inr n ↦
        let e : run_script vm meta ds script args gas ≡ some (r, store, left) =
          rw (n, execute_script) at h in
        unfold run_script in
        (let (bytes, serialized, more) = >>=-eq-some (vm.serialize_script script) _ e in
          let ((r', store'), concl, last) =
            >>=-eq-some {A = StepExecutionResult Explained × FakeRemoteCache} _ _ more in
          concluded bytes serialized (concl ∙ cc last))
  ]

  -- On a failed run the store stays; on a finished one it is merged, unless the run is dry.
  pub conclude_store :
      (meta : ExecutionMeta) (ds : FakeRemoteCache) (script : Script) (answer : RunResult Value)
      (r : StepExecutionResult Explained) (store : FakeRemoteCache)
      → conclude vm meta ds script answer ≡ some (r, store)
      → (store ≡ ds)
        ⊎ ((effects : ResourceChanges Value) × (e : Explained) × (answer ≡ finished effects)
            × (r ≡ success e)
            × (meta.dry_run ≡ false)
            × (store ≡ written ds effects))
  conclude_store meta ds script (finished effects) r store h =
      unfold conclude in
      (let (explained, told, e) =
          >>=-eq-some (vm.explain_effects effects (prepare vm meta ds)) _ h in
        elim (Bool-cases meta.dry_run) [
          | inl y ↦
              let same : ◌≡◌ {A = Option Out} (some (success (result explained effects), ds))
                  (some (r, store)) =
                rw y at e in
              inl (cc same)
          | inr n ↦
              let merged : ◌≡◌ {A = Option Out}
                  (some (success (result explained effects), written ds effects))
                  (some (r, store)) =
                rw n at e in
              inr (effects, result explained effects, refl, cc merged, n, cc merged)
        ])
  conclude_store meta ds script (failed status) r store h =
      unfold conclude in
      (let (result, told, e) = >>=-eq-some (judge vm meta ds script status) _ h in inl (cc e))

  -- The run that `execute_script` makes.
  abbrev pub answer_of : ExecutionMeta → FakeRemoteCache → Bytes → List Value → ℕ → RunResult Value
  answer_of meta ds bytes args gas = (vm.run (prepare vm meta ds) bytes args meta.signers gas).0

  -- A step keeps the store, or it is a success that is not dry and the store has just the
  -- effects of the run merged in.
  pub execute_script_store :
      (meta : ExecutionMeta) (ds : FakeRemoteCache) (script : Script) (args : List Value) (gas : ℕ)
      (r : StepExecutionResult Explained) (store : FakeRemoteCache) (left : ℕ)
      → execute_script vm meta ds script args gas ≡ some (r, store, left)
      → (store ≡ ds)
        ⊎ ((bytes : Bytes) × (effects : ResourceChanges Value) × (e : Explained)
            × (vm.serialize_script script ≡ some bytes)
            × (answer_of meta ds bytes args gas ≡ finished effects)
            × (r ≡ success e)
            × (meta.dry_run ≡ false)
            × (store ≡ written ds effects))
  execute_script_store meta ds script args gas r store left h =
      elim (ran meta ds script args gas r store left h) [
        | refused m wrong same ↦ inl same
        | concluded bytes serialized concl ↦
            elim (conclude_store meta ds script (answer_of meta ds bytes args gas) r store concl) [
              | inl same ↦ inl same
              | inr (effects, e, answered, good, wet, merged) ↦
                  inr (bytes, effects, e, serialized, answered, good, wet, merged)
            ]
      ]

  -- A step with a result other than a success, or a dry one, leaves the store as it was.
  pub execute_script_keeps :
      (meta : ExecutionMeta) (ds : FakeRemoteCache) (script : Script) (args : List Value) (gas : ℕ)
      (r : StepExecutionResult Explained) (store : FakeRemoteCache) (left : ℕ)
      → execute_script vm meta ds script args gas ≡ some (r, store, left)
      → ((e : Explained) → r ≢ success e) ⊎ (meta.dry_run ≡ true)
      → store ≡ ds
  execute_script_keeps meta ds script args gas r store left h why =
      elim (execute_script_store meta ds script args gas r store left h) [
        | inl same ↦ same
        | inr (bytes, effects, e, serialized, answered, good, wet, merged) ↦ elim why [
          | inl bad ↦ absurd (bad e good)
          | inr dry ↦ cc
        ]
      ]

  -- After a step each resource is what it was before the step, or, when the run finished with
  -- effects, what the last write of these to it left over what was there before the step: the
  -- resources that the meta puts under the script are no part of the store. Modules stay.
  pub execute_script_resources :
      (meta : ExecutionMeta) (ds : FakeRemoteCache) (script : Script) (args : List Value) (gas : ℕ)
      (r : StepExecutionResult Explained) (store : FakeRemoteCache) (left : ℕ)
      → execute_script vm meta ds script args gas ≡ some (r, store, left)
      → (store.modules ≡ ds.modules)
        × (((addr : ℕ) (tag : StructTag)
              → get_resource_bytes store addr tag ≡ get_resource_bytes ds addr tag)
            ⊎ ((bytes : Bytes) × (effects : ResourceChanges Value) × (vm.serialize_script script
                  ≡ some bytes)
                × (answer_of meta ds bytes args gas ≡ finished effects)
                × ((addr : ℕ) (tag : StructTag)
                    → get_resource_bytes store addr tag
                      ≡ last_write
                          (addr, tag)
                          (serialize_effects vm.simple_serialize effects).0
                          (get_resource_bytes ds addr tag))))
  execute_script_resources meta ds script args gas r store left h =
      elim (execute_script_store meta ds script args gas r store left h) [
        | inl same ↦ (
          ap (λ s. s.modules) same,
          inl (λ addr tag. ap (λ s. get_resource_bytes s addr tag) same),
        )
        | inr (bytes, effects, e, serialized, answered, good, wet, merged) ↦
            let es = (serialize_effects vm.simple_serialize effects).0 in
            (
              ap (λ s. s.modules) merged ∙ (merge_effects-last_write ds es 0 time_metadata).1,
              inr (
                bytes,
                effects,
                serialized,
                answered,
                λ addr tag.
                    ap (λ s. get_resource_bytes s addr tag) merged
                    ∙ (merge_effects-last_write ds es addr tag).0,
              ),
            )
      ]
