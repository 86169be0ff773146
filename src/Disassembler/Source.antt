-- ===== src/Disassembler/Source.antt =====
-- Declarations and whole units: functions.rs, structs.rs, module.rs, script.rs and lib.rs of
-- lang/disassembler/src.
pub mod Light
use move_language_server.Base.{
  ℕ, ◌+◌, Bool, true, false, List, [], ◌∷◌, ◌++◌, Option, none, some, if◌then◌else◌, length, map,
}
use move_language_server.Base.Assoc.{Assoc}
use move_language_server.Base.Text.{Bytes, codes}
use move_language_server.Disassembler.Outcome.{Outcome, ok, ◌>>=◌, if_let}
use move_language_server.Disassembler.Unit.{
  Kind, SignatureToken, StructDefinition, FieldDefinition, CodeUnit, FunctionDefinition, ScriptInfo,
  CompiledUnit, is_script, script_info, function_defs, struct_defs, self_id, identifier, signature,
  function_handle, struct_handle, struct_def,
}
use move_language_server.Disassembler.Imports.{ImportName, plain_name, alias, Imports, new_imports}
use move_language_server.Disassembler.Types.{
  GenericPrefix, Generic, new_generics, extract_type_params, FType, FullStructName,
  extract_struct_name, extract_type_signature, signature_types,
}
use move_language_server.Disassembler.Exp.{
  Bytecode, Param, Local, at, more_exps, no_exps, abort_exp, ld_exp, u64, ExpLocs,
}
use move_language_server.Disassembler.Translator.{Setting}
use move_language_server.Disassembler.Translator.Run.{Body, new_body, new_locals}
use move_language_server.Disassembler.Text.{Printer, indent_step, body_text}
use move_language_server.Disassembler.Words.{
  write_array, angle_array, generic_text, type_text, struct_name_text, underscore, is_used,
  unless_zero, spaces, import_text, decimal,
}

-- Config::light_version
pub record Config : Type 0 where
  pub light_version : Bool

pub record FunctionsDef : Type 0 where
  pub is_public : Bool
  pub is_native : Bool
  pub name : Bytes
  pub type_params : List Generic
  pub ret : List FType
  pub params : List Param
  pub acquires : List FullStructName
  pub body : Option Body

pub record Field : Type 0 where
  pub name : Bytes
  pub f_type : FType

pub record StructDef : Type 0 where
  pub is_nominal_resource : Bool
  pub is_native : Bool
  pub name : Bytes
  pub type_params : List Generic
  pub fields : List Field

-- Each parameter has its own flag, which its index names.
unfoldable pub params_from : ℕ → List FType → List Param
params_from index [] = []
params_from index (t ∷ types) =
    record { used = index; index = index; f_type = t } ∷ params_from (index + 1) types

-- Block::mock and Locals::mock
abbrev pub mock_body : Body
mock_body = record {
  block_exps = more_exps (at 1 (abort_exp (at 0 (ld_exp (u64 1))))) no_exps;
  locals = [];
  used = [];
}

module _ (branch_offset : Bytecode → Option ℕ) (unit : CompiledUnit) (generics : GenericPrefix)
    (imports : Imports) where
  -- FunctionsDef::params
  unfoldable pub params_of : List Generic → List SignatureToken → Outcome (List Param)
  unfolding params_from
  params_of type_params sign =
      signature_types unit imports type_params sign >>= λ types. ok (params_from 0 types)

  -- Body::new
  unfoldable pub body_of : CodeUnit → ℕ → List Param → List Generic → Outcome Body
  unfolding new_body new_locals
  body_of code ret_len params type_params = do
    sign ← signature unit code.locals
    locals ← new_locals unit imports type_params params sign
    new_body
        (record {
          unit = unit;
          imports = imports;
          locals = locals;
          type_params = type_params;
          ret_len = ret_len;
          branch_offset = branch_offset;
        })
        code.code

  unfoldable pub optional_body :
      Option CodeUnit → ℕ → List Param → List Generic → Outcome (Option Body)
  unfolding body_of
  optional_body none ret_len params type_params = ok none
  optional_body (some code) ret_len params type_params =
      body_of code ret_len params type_params >>= λ body. ok (some body)

  -- A script has no structures to acquire.
  unfoldable pub acquired : List ℕ → Outcome (List FullStructName)
  acquired [] = ok []
  acquired (index ∷ indexes) = do
    found ← struct_def unit index
    rest ← acquired indexes
    if_let found (ok rest)
        (λ def. do name ← extract_struct_name unit imports def.struct_handle; ok (name ∷ rest))

  -- FunctionsDef::new
  unfoldable pub new_function : Config → FunctionDefinition → Outcome FunctionsDef
  unfolding params_of optional_body acquired
  new_function config def = do
    handler ← function_handle unit def.function
    name ← identifier unit handler.name
    type_params ← ok (extract_type_params handler.type_parameters generics)
    ret_sign ← signature unit handler.return_idx
    ret ← signature_types unit imports type_params ret_sign
    params_sign ← signature unit handler.parameters
    params ← params_of type_params params_sign
    elim config.light_version [
      | true ↦ ok (record {
        is_public = def.is_public;
        is_native = def.is_native;
        name = name;
        type_params = type_params;
        ret = ret;
        params = params;
        acquires = [];
        body = some mock_body;
      })
      | false ↦ do
        body ← optional_body def.code (length ret) params type_params
        acquires ← acquired def.acquires_global_resources
        ok (record {
          is_public = def.is_public;
          is_native = def.is_native;
          name = name;
          type_params = type_params;
          ret = ret;
          params = params;
          acquires = acquires;
          body = body;
        })
    ]

  abbrev pub main_function : List Generic → List Param → Option Body → FunctionsDef
  main_function type_params params body = record {
    is_public = false;
    is_native = false;
    name = codes "main";
    type_params = type_params;
    ret = [];
    params = params;
    acquires = [];
    body = body;
  }

  -- FunctionsDef::script
  unfoldable pub script_function : Outcome FunctionsDef
  unfolding params_of body_of
  script_function = if_let (script_info unit) (ok (main_function [] [] none)) (λ info. do
    type_params ← ok (extract_type_params info.type_parameters generics)
    sign ← signature unit info.parameters
    params ← params_of type_params sign
    body ← body_of info.code 0 params type_params
    ok (main_function type_params params (some body)))

  unfoldable pub extract_fields : List Generic → List FieldDefinition → Outcome (List Field)
  extract_fields type_params [] = ok []
  extract_fields type_params (def ∷ defs) = do
    name ← identifier unit def.name
    t ← extract_type_signature unit imports type_params def.signature
    fields ← extract_fields type_params defs
    ok (record { name = name; f_type = t } ∷ fields)

  abbrev pub is_none {ℓ} : {A : Type ℓ} → Option A → Bool
  is_none none = true
  is_none (some a) = false

  -- StructDef::new
  unfoldable pub new_struct : StructDefinition → Outcome StructDef
  unfolding extract_fields
  new_struct def = do
    handler ← struct_handle unit def.struct_handle
    name ← identifier unit handler.name
    type_params ← ok (extract_type_params handler.type_parameters generics)
    fields ← if_let def.field_information (ok []) (extract_fields type_params)
    ok (record {
      is_nominal_resource = handler.is_nominal_resource;
      is_native = is_none def.field_information;
      name = name;
      type_params = type_params;
      fields = fields;
    })

  unfoldable pub new_structs : List StructDefinition → Outcome (List StructDef)
  unfolding new_struct
  new_structs [] = ok []
  new_structs (def ∷ defs) = do s ← new_struct def; rest ← new_structs defs; ok (s ∷ rest)

  unfoldable pub new_functions : Config → List FunctionDefinition → Outcome (List FunctionsDef)
  unfolding new_function
  new_functions config [] = ok []
  new_functions config (def ∷ defs) = do
    f ← new_function config def
    rest ← new_functions config defs
    ok (f ∷ rest)

pub data SourceUnit : Type 0 where
  script : Imports → FunctionsDef → SourceUnit
  module_source : Bytes → List StructDef → List FunctionsDef → Imports → SourceUnit

-- Module::new
unfoldable pub new_module :
    (Bytecode → Option ℕ) → CompiledUnit → Imports → GenericPrefix → Config → Outcome SourceUnit
unfolding new_structs new_functions
new_module branch_offset unit imports generics config = do
  structs ← new_structs branch_offset unit generics imports (struct_defs unit)
  functions ← new_functions branch_offset unit generics imports config (function_defs unit)
  (addr, name) ← self_id unit
  ok (module_source name structs functions imports)

-- Disassembler::new and make_source_unit; the random number is that of the generics.
unfoldable pub make_source_unit :
    (Bytecode → Option ℕ) → CompiledUnit → ℕ → Config → Outcome SourceUnit
unfolding new_module script_function new_imports new_generics
make_source_unit branch_offset unit random config = do
  imports ← new_imports unit
  generics ← ok (new_generics unit random)
  elim (is_script unit) [
    | true ↦ script_function branch_offset unit generics imports >>= λ function.
        ok (script imports function)
    | false ↦ new_module branch_offset unit imports generics config
  ]
