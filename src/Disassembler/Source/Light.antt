-- ===== src/Disassembler/Source/Light.antt =====
-- The light version of the disassembler, which does not look at the code of functions.
use move_language_server.Base.{
  ℕ, ◌≡◌, ap, true, false, List, [], ◌∷◌, Option, some, map, Bool-cases, inl, inr, length,
}
use move_language_server.Base.Text.{Bytes}
use move_language_server.Disassembler.Outcome.{Outcome, ok, panic, out_of_fuel, ◌>>=◌, >>=-eq-ok}
use move_language_server.Disassembler.Unit.{
  FunctionHandle, FunctionDefinition, CompiledUnit, is_script, function_defs, struct_defs, self_id,
  function_handle, identifier, signature,
}
use move_language_server.Disassembler.Imports.{Imports, new_imports}
use move_language_server.Disassembler.Types.{
  GenericPrefix, Generic, FType, new_generics, extract_type_params, signature_types,
}
use move_language_server.Disassembler.Exp.{Bytecode, Param}
use move_language_server.Disassembler.Source.{
  Config, FunctionsDef, SourceUnit, script, module_source, mock_body, params_of, optional_body,
  acquired, new_function, new_functions, new_structs, script_function, new_module, make_source_unit,
}

abbrev pub full : Config
full = record { light_version = false }

abbrev pub light : Config
light = record { light_version = true }

-- What is left of a function in the light version, and of a unit: a script is always whole.
abbrev pub light_function : FunctionsDef → FunctionsDef
light_function f = record f { acquires = []; body = some mock_body }

abbrev pub light_unit : SourceUnit → SourceUnit
light_unit (script imports function) = script imports function
light_unit (module_source name structs functions imports) =
    module_source name structs (map light_function functions) imports

ok-injective : {A : Type 0} {a b : A} → ok a ≡ ok b → a ≡ b
ok-injective h = cc

-- Two chains that begin alike, where what follows differs as the results do.
>>=-light :
    {A B C : Type 0} (m : Outcome A) (f : A → Outcome B) (g : A → Outcome C) (F : B → C) (b : B)
    → ((a : A) → f a ≡ ok b → g a ≡ ok (F b))
    → (m >>= f) ≡ ok b
    → (m >>= g) ≡ ok (F b)
unfolding ◌>>=◌
>>=-light (ok a) f g F b k h = k a h
>>=-light panic f g F b k h = cc
>>=-light out_of_fuel f g F b k h = cc

module _ (branch_offset : Bytecode → Option ℕ) (unit : CompiledUnit) (generics : GenericPrefix)
    (imports : Imports) where
  abbrev type_params : FunctionHandle → List Generic
  type_params handler = extract_type_params handler.type_parameters generics

  -- The end of `new_function`, in the full version.
  abbrev finished :
      FunctionDefinition → FunctionHandle → Bytes → List FType → List Param → Outcome FunctionsDef
  finished def handler name ret params = do
    body ←
        optional_body branch_offset unit generics imports def.code (length ret) params
          (type_params handler)
    acquires ← acquired branch_offset unit generics imports def.acquires_global_resources
    ok (record {
      is_public = def.is_public;
      is_native = def.is_native;
      name = name;
      type_params = type_params handler;
      ret = ret;
      params = params;
      acquires = acquires;
      body = body;
    })

  whole :
      (def : FunctionDefinition) (handler : FunctionHandle) (name : Bytes) (ret : List FType)
      (params : List Param) (f : FunctionsDef)
      → finished def handler name ret params ≡ ok f
      → ok (record {
        is_public = def.is_public;
        is_native = def.is_native;
        name = name;
        type_params = type_params handler;
        ret = ret;
        params = params;
        acquires = [];
        body = some mock_body;
      })
        ≡ ok (light_function f)
  whole def handler name ret params f h =
      let (body, e, h1) =
        >>=-eq-ok
          (optional_body branch_offset unit generics imports def.code (length ret) params
            (type_params handler))
          _ h in
      let (acquires, g, h2) =
        >>=-eq-ok (acquired branch_offset unit generics imports def.acquires_global_resources) _
          h1 in
      ap (λ x. ok (light_function x)) (ok-injective h2)

  new_function-light :
      (def : FunctionDefinition) (f : FunctionsDef)
      → new_function branch_offset unit generics imports full def ≡ ok f
      → new_function branch_offset unit generics imports light def ≡ ok (light_function f)
  unfolding new_function ◌>>=◌
  new_function-light def f =
      >>=-light (function_handle unit def.function) _ _ light_function f (λ handler.
        >>=-light (identifier unit handler.name) _ _ light_function f (λ name.
          >>=-light (signature unit handler.return_idx) _ _ light_function f (λ ret_sign.
            >>=-light (signature_types unit imports _ ret_sign) _ _ light_function f (λ ret.
              >>=-light (signature unit handler.parameters) _ _ light_function f (λ params_sign.
                >>=-light (params_of branch_offset unit generics imports _ params_sign) _ _
                  light_function f (λ params. whole def handler name ret params f))))))

  new_functions-light :
      (defs : List FunctionDefinition) (fs : List FunctionsDef)
      → new_functions branch_offset unit generics imports full defs ≡ ok fs
      → new_functions branch_offset unit generics imports light defs ≡ ok (map light_function fs)
  unfolding new_functions ◌>>=◌
  new_functions-light [] fs h = ap (λ gs. ok (map light_function gs)) (ok-injective h)
  new_functions-light (def ∷ defs) fs h =
      let (f, e, h1) = >>=-eq-ok (new_function branch_offset unit generics imports full def) _ h in
      let (rest, g, h2) =
        >>=-eq-ok (new_functions branch_offset unit generics imports full defs) _ h1 in
      rw (new_function-light def f e) (
        rw (new_functions-light defs rest g)
          (ap (λ gs. ok (map light_function gs)) (ok-injective h2)))

  new_module-light :
      (src : SourceUnit)
      → new_module branch_offset unit imports generics full ≡ ok src
      → new_module branch_offset unit imports generics light ≡ ok (light_unit src)
  unfolding new_module ◌>>=◌
  new_module-light src h =
      let (structs, e1, h1) =
        >>=-eq-ok (new_structs branch_offset unit generics imports (struct_defs unit)) _ h in
      let (fs, e2, h2) =
        >>=-eq-ok (new_functions branch_offset unit generics imports full (function_defs unit)) _
          h1 in
      let (id, e3, h3) = >>=-eq-ok (self_id unit) _ h2 in
      rw e1 (
        rw (new_functions-light (function_defs unit) fs e2)
          (rw e3 (ap (λ u. ok (light_unit u)) (ok-injective h3))))

-- Whatever the full version makes of a unit, the light version makes the same, but for functions
-- of modules without what they acquire and with the body that only aborts.
pub make_source_unit-light :
    (branch_offset : Bytecode → Option ℕ) (unit : CompiledUnit) (random : ℕ) (src : SourceUnit)
    → make_source_unit branch_offset unit random full ≡ ok src
    → make_source_unit branch_offset unit random light ≡ ok (light_unit src)
unfolding make_source_unit ◌>>=◌
make_source_unit-light branch_offset unit random src h =
    let (imports, e, h1) = >>=-eq-ok (new_imports unit) _ h in
    let generics = new_generics unit random in
    elim (Bool-cases (is_script unit)) [
      | inr n ↦ rw e (rw n (new_module-light branch_offset unit generics imports src (rw n at h1)))
      | inl y ↦
          let (function, g, h2) =
            >>=-eq-ok (script_function branch_offset unit generics imports) _ (rw y at h1) in
          rw e (rw y (rw g (ap (λ u. ok (light_unit u)) (ok-injective h2))))
    ]
