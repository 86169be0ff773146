-- ===== src/Executor/Session/Laws.antt =====
-- Which scripts of a session run, and on which store.
use move_language_server.Base.{
  ℕ, ◌+◌, ◌-◌, ◌%◌, ◌^◌, ◌≤◌, Bool-cases, ◌≡◌, ◌≢◌, ◌⊎◌, inl, inr, refl, ap, ◌∙◌, arith, Bool, true,
  false, List, [], ◌∷◌, Option, some, ◌>>=◌, Option-cases, All, >>=-eq-some,
}
use move_language_server.Base.Text.{Bytes}
use move_language_server.Executor.Cache.{FakeRemoteCache}
use move_language_server.Executor.Script.{
  Machine, StepExecutionResult, error, expected_error, success, execute_script, refuses, run_script,
  conclude, prepare, missing_coins,
}
use move_language_server.Executor.Script.Laws.{execute_script_keeps}
use move_language_server.Executor.Session.{
  StepResultInfo, ScriptUnit, is_error, total_gas, step_info, after_step, run_scripts,
}

module _ (vm : Machine) where
  open vm use {Script, Value, Explained}

  abbrev Row : Type 0
  Row = StepResultInfo Explained

  -- One step and the rest of a run, with the store between them.
  pub data Runs (ds : FakeRemoteCache) (unit : ScriptUnit vm) (units : List (ScriptUnit vm))
      (args : List Value) (row : Row) (rows : List Row) : Type 0 where
    runs :
        (result : StepExecutionResult Explained) (store : FakeRemoteCache) (gas : ℕ)
        → execute_script vm unit.2 ds unit.1 args total_gas ≡ some (result, store, gas)
        → row ≡ step_info vm unit.0 result gas
        → ((is_error result ≡ true) × (rows ≡ []))
          ⊎ ((is_error result ≡ false) × (run_scripts vm store units [] ≡ some rows))
        → Runs ds unit units args row rows

  abbrev Out : Type 0
  Out = StepExecutionResult Explained × FakeRemoteCache × ℕ

  -- What a body of the loop makes.
  Ends : Bytes → (FakeRemoteCache → Option (List Row)) → Out → List Row → Type 0
  Ends name continue (result, store, gas) [] = ⊥
  Ends name continue (result, store, gas) (row ∷ rows) =
      (row ≡ step_info vm name result gas)
      × (((is_error result ≡ true) × (rows ≡ []))
          ⊎ ((is_error result ≡ false) × (continue store ≡ some rows)))

  goes_on :
      (name : Bytes) (continue : FakeRemoteCache → Option (List Row))
      (result : StepExecutionResult Explained) (store : FakeRemoteCache) (gas : ℕ)
      (steps rows : List Row)
      → is_error result ≡ false
      → continue store ≡ some steps
      → some (step_info vm name result gas ∷ steps) ≡ some rows
      → Ends name continue (result, store, gas) rows
  unfolding Ends
  goes_on name continue result store gas steps [] good more last = cc
  goes_on name continue result store gas steps (row ∷ rows) good more last = (cc, inr (good, cc))

  after_step-Ends :
      (name : Bytes) (continue : FakeRemoteCache → Option (List Row)) (out : Out) (rows : List Row)
      → after_step vm name continue out ≡ some rows
      → Ends name continue out rows
  unfolding after_step Ends
  after_step-Ends name continue (error m, store, gas) [] h = cc
  after_step-Ends name continue (error m, store, gas) (row ∷ rows) h = (cc, inl (refl, cc))
  after_step-Ends name continue (expected_error m, store, gas) rows h =
      let (steps, more, last) =
        >>=-eq-some (continue store)
          (λ steps. some (step_info vm name (expected_error m) gas ∷ steps)) h in
      goes_on name continue (expected_error m) store gas steps rows refl more last
  after_step-Ends name continue (success e, store, gas) rows h =
      let (steps, more, last) =
        >>=-eq-some (continue store) (λ steps. some (step_info vm name (success e) gas ∷ steps))
          h in
      goes_on name continue (success e) store gas steps rows refl more last

  run_scripts_cases :
      (ds : FakeRemoteCache) (unit : ScriptUnit vm) (units : List (ScriptUnit vm))
      (args : List Value) (rows : List Row)
      → run_scripts vm ds (unit ∷ units) args ≡ some rows
      → (out : Out) × (execute_script vm unit.2 ds unit.1 args total_gas ≡ some out)
        × Ends unit.0 (λ store. run_scripts vm store units []) out rows
  run_scripts_cases ds (name, script, meta) units args rows h =
      unfold run_scripts in
      (let (out, ran, more) =
          >>=-eq-some (execute_script vm meta ds script args total_gas)
            (after_step vm name (λ store. run_scripts vm store units [])) h in
        (out, ran, after_step-Ends name (λ store. run_scripts vm store units []) out rows more))

  -- Rows follow scripts: each row is a script's, an `Error` has no row after it, and without one
  -- the rows end where the scripts do.
  pub Stops : List Row → List (ScriptUnit vm) → Type 0
  Stops [] units = units ≡ []
  Stops (row ∷ rows) [] = ⊥
  Stops (row ∷ rows) (unit ∷ units) =
      (row.name ≡ unit.0)
      × (row.gas_spent ≤ total_gas)
      × (is_error row.step_result ≡ true → rows ≡ [])
      × (is_error row.step_result ≡ false → Stops rows units)

  true_not_false : (b : Bool) → b ≡ true → b ≢ false
  true_not_false b h k = cc

  spent :
      (row : Row) (result : StepExecutionResult Explained) (name : Bytes) (gas : ℕ)
      → row ≡ step_info vm name result gas
      → gas ≤ total_gas
      → row.gas_spent ≤ total_gas
  spent row result name gas made left =
      let e : row.gas_spent ≡ (total_gas + 2 ^ 64 - gas) % 2 ^ 64 = ap (λ r. r.gas_spent) made in
      omega arith

  -- The virtual machine only takes from the gas that it is given.
  abbrev pub TakesGas : Type 0
  TakesGas =
      (ds : FakeRemoteCache) (script : Bytes) (args : List Value) (signers : List ℕ) (gas : ℕ)
      → (vm.run ds script args signers gas).1 ≤ gas

  gas_left :
      TakesGas
      → (ds : FakeRemoteCache) (unit : ScriptUnit vm) (args : List Value)
        (result : StepExecutionResult Explained) (store : FakeRemoteCache) (gas : ℕ)
      → execute_script vm unit.2 ds unit.1 args total_gas ≡ some (result, store, gas)
      → gas ≤ total_gas
  unfolding execute_script run_script
  gas_left takes ds (name, script, meta) args result store gas h =
      elim (Bool-cases (refuses vm meta ds)) [
        | inl y ↦
            let same : some (error (missing_coins vm), ds, total_gas) ≡ some (result, store, gas) =
              rw (y, execute_script) at h in
            let e : total_gas ≡ gas = cc same in omega arith
        | inr n ↦
            let (bytes, _, h1) =
              >>=-eq-some (vm.serialize_script script) _ (rw (n, execute_script) at h) in
            let ((r, left), _, h2) =
              >>=-eq-some {A = StepExecutionResult Explained × FakeRemoteCache}
                (conclude vm meta ds script
                  (vm.run (prepare vm meta ds) bytes args meta.signers total_gas).0)
                _ h1 in
            let h3 : some
                  (r, left, (vm.run (prepare vm meta ds) bytes args meta.signers total_gas).1)
                ≡ some (result, store, gas) =
              h2 in
            let e : (vm.run (prepare vm meta ds) bytes args meta.signers total_gas).1 ≡ gas =
              cc h3 in
            omega (arith, takes (prepare vm meta ds) bytes args meta.signers total_gas)
      ]

  -- Where the virtual machine only takes from the gas, a run makes a row for each script in their order
  -- up to the first that is an `Error`, which ends it; each spends at most the gas of a
  -- transaction.
  pub run_scripts-Stops :
      TakesGas
      → (ds : FakeRemoteCache) (units : List (ScriptUnit vm)) (args : List Value) (rows : List Row)
      → run_scripts vm ds units args ≡ some rows
      → Stops rows units
  unfolding run_scripts Stops Ends
  run_scripts-Stops takes ds [] args [] h = refl
  run_scripts-Stops takes ds [] args (row ∷ rows) h = cc
  run_scripts-Stops takes ds (unit ∷ units) args [] h =
      let (out, ran, more) = run_scripts_cases ds unit units args [] h in absurd more
  run_scripts-Stops takes ds (unit ∷ units) args (row ∷ rows) h =
      let ((result, store, gas), ran, ended) =
        run_scripts_cases ds unit units args (row ∷ rows) h in
      let (made, which) = ended in
      (
        ap (λ r. r.name) made,
        spent row result unit.0 gas made (gas_left takes ds unit args result store gas ran),
        elim which [
          | inl (bad, done) ↦ λ _. done
          | inr (good, more) ↦
              λ e. absurd (true_not_false _ e (ap (λ r. is_error r.step_result) made ∙ good))
        ],
        elim which [
          | inl (bad, done) ↦
              λ e. absurd (true_not_false _ (ap (λ r. is_error r.step_result) made ∙ bad) e)
          | inr (good, more) ↦ λ _. run_scripts-Stops takes store units [] rows more
        ],
      )

  -- A run in which each script has the store of the start.
  abbrev pub run_alone : FakeRemoteCache → List (ScriptUnit vm) → List Value → Option (List Row)
  run_alone ds [] args = some []
  run_alone ds ((name, script, meta) ∷ units) args =
      execute_script vm meta ds script args total_gas
      >>= after_step vm name (λ _. run_alone ds units [])

  after_step_ap :
      (name : Bytes) (f g : FakeRemoteCache → Option (List Row))
      (result : StepExecutionResult Explained) (store : FakeRemoteCache) (gas : ℕ)
      → f store ≡ g store
      → after_step vm name f (result, store, gas) ≡ after_step vm name g (result, store, gas)
  unfolding after_step
  after_step_ap name f g (error m) store gas h = refl
  after_step_ap name f g (expected_error m) store gas h =
      ap (λ rest. rest >>= λ steps. some (step_info vm name (expected_error m) gas ∷ steps)) h
  after_step_ap name f g (success e) store gas h =
      ap (λ rest. rest >>= λ steps. some (step_info vm name (success e) gas ∷ steps)) h

  -- In a session of dry runs each script runs on the store as it was at the start.
  pub run_scripts_dry :
      (ds : FakeRemoteCache) (units : List (ScriptUnit vm)) (args : List Value)
      → All (λ unit. unit.2.dry_run ≡ true) units
      → run_scripts vm ds units args ≡ run_alone ds units args
  unfolding run_scripts
  run_scripts_dry ds [] args dry = refl
  run_scripts_dry ds ((name, script, meta) ∷ units) args (d, dry) =
      elim (Option-cases (execute_script vm meta ds script args total_gas)) [
        | inl none_ran ↦ rw none_ran refl
        | inr ((result, store, gas), ran) ↦
            let same : store ≡ ds =
              execute_script_keeps vm meta ds script args total_gas result store gas ran (inr d) in
            let rest : run_scripts vm store units [] ≡ run_alone ds units [] =
              ap (λ s. run_scripts vm s units []) same ∙ run_scripts_dry ds units [] dry in
            rw ran (
              after_step_ap name (λ s. run_scripts vm s units []) (λ _. run_alone ds units [])
                result store gas rest)
      ]
