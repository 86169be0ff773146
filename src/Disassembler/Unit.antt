-- ===== src/Disassembler/Unit.antt =====
-- `CompiledUnit` of lang/disassembler/src/unit.rs: one view of a script's and of a module's tables.
-- The tables are those of the binary format; an index is into its table, and one out of range
-- panics.
use move_language_server.Base.{ℕ, Bool, true, false, List, [], Option, none, some}
use move_language_server.Base.Text.{Bytes, codes}
use move_language_server.Disassembler.Bytecode.{Bytecode}
use move_language_server.Executor.Tags.{ModuleId}
use move_language_server.Disassembler.Outcome.{Outcome, ok, ◌>>=◌, at_index}

-- SignatureToken of the binary format
mutual
  pub data SignatureToken : Type 0 where
    bool_token u8_token u64_token u128_token address_token signer_token : SignatureToken
    vector_token reference mutable_reference : SignatureToken → SignatureToken
    struct_token : ℕ → SignatureToken
    struct_instantiation : ℕ → SignatureTokens → SignatureToken
    type_parameter : ℕ → SignatureToken

  pub data SignatureTokens : Type 0 where
    no_tokens : SignatureTokens
    more_tokens : SignatureToken → SignatureTokens → SignatureTokens

pub data Kind : Type 0 where
  all_kind resource_kind copyable_kind : Kind

pub record ModuleHandle : Type 0 where
  pub address : ℕ
  pub name : ℕ

pub record StructHandle : Type 0 where
  pub module_idx : ℕ
  pub name : ℕ
  pub is_nominal_resource : Bool
  pub type_parameters : List Kind

pub record FunctionHandle : Type 0 where
  pub module_idx : ℕ
  pub name : ℕ
  pub parameters : ℕ
  pub return_idx : ℕ
  pub type_parameters : List Kind

pub record FieldDefinition : Type 0 where
  pub name : ℕ
  pub signature : SignatureToken

-- `none` is a native struct.
pub record StructDefinition : Type 0 where
  pub struct_handle : ℕ
  pub field_information : Option (List FieldDefinition)

pub record StructDefInstantiation : Type 0 where
  pub def : ℕ
  pub type_parameters : ℕ

pub record FunctionInstantiation : Type 0 where
  pub handle : ℕ
  pub type_parameters : ℕ

pub record FieldHandle : Type 0 where
  pub owner : ℕ
  pub field : ℕ

-- The index of the signature of the locals, and the code.
pub record CodeUnit : Type 0 where
  pub locals : ℕ
  pub code : List Bytecode

pub record FunctionDefinition : Type 0 where
  pub function : ℕ
  pub is_public : Bool
  pub is_native : Bool
  pub acquires_global_resources : List ℕ
  pub code : Option CodeUnit

-- The function of a script.
pub record ScriptInfo : Type 0 where
  pub code : CodeUnit
  pub type_parameters : List Kind
  pub parameters : ℕ

-- MoveValue, as far as the disassembler tells values apart.
pub data MoveValue : Type 0 where
  u8_value : ℕ → MoveValue
  address_value : ℕ → MoveValue
  vector_value : List (Option ℕ) → MoveValue
  other_value : MoveValue

-- The tables that scripts and modules share. A constant is given by its value, if it has one.
pub record Tables : Type 0 where
  pub module_handles : List ModuleHandle
  pub struct_handles : List StructHandle
  pub function_handles : List FunctionHandle
  pub function_instantiations : List FunctionInstantiation
  pub signatures : List (List SignatureToken)
  pub identifiers : List Bytes
  pub address_identifiers : List ℕ
  pub constant_pool : List (Option MoveValue)

-- The tables of a module alone.
pub record Definitions : Type 0 where
  pub self_module_handle_idx : ℕ
  pub struct_defs : List StructDefinition
  pub struct_def_instantiations : List StructDefInstantiation
  pub field_handles : List FieldHandle
  pub field_instantiations : List ℕ
  pub function_defs : List FunctionDefinition

pub data CompiledUnit : Type 0 where
  script_unit : Tables → ScriptInfo → CompiledUnit
  module_unit : Tables → Definitions → CompiledUnit

-- Both arms of an accessor of the shared tables.
abbrev pub tables : CompiledUnit → Tables
tables (script_unit t script) = t
tables (module_unit t d) = t

abbrev pub is_script : CompiledUnit → Bool
is_script (script_unit t script) = true
is_script (module_unit t d) = false

abbrev pub module_handles : CompiledUnit → List ModuleHandle
module_handles u = (tables u).module_handles

abbrev pub module_handle : CompiledUnit → ℕ → Outcome ModuleHandle
module_handle u = at_index (tables u).module_handles

abbrev pub identifiers : CompiledUnit → List Bytes
identifiers u = (tables u).identifiers

abbrev pub identifier : CompiledUnit → ℕ → Outcome Bytes
identifier u = at_index (tables u).identifiers

abbrev pub address : CompiledUnit → ℕ → Outcome ℕ
address u = at_index (tables u).address_identifiers

abbrev pub self_module_handle_idx : CompiledUnit → Option ℕ
self_module_handle_idx (script_unit t script) = none
self_module_handle_idx (module_unit t d) = some d.self_module_handle_idx

-- The id of a module is that of its own handle.
unfoldable pub self_id : CompiledUnit → Outcome ModuleId
self_id (script_unit t script) = ok (1, codes "<SELF>")
self_id (module_unit t d) = do
  handle ← at_index t.module_handles d.self_module_handle_idx
  a ← at_index t.address_identifiers handle.address
  n ← at_index t.identifiers handle.name
  ok (a, n)

abbrev pub function_handle : CompiledUnit → ℕ → Outcome FunctionHandle
function_handle u = at_index (tables u).function_handles

abbrev pub function_instantiation : CompiledUnit → ℕ → Outcome FunctionInstantiation
function_instantiation u = at_index (tables u).function_instantiations

abbrev pub signature : CompiledUnit → ℕ → Outcome (List SignatureToken)
signature u = at_index (tables u).signatures

abbrev pub struct_handle : CompiledUnit → ℕ → Outcome StructHandle
struct_handle u = at_index (tables u).struct_handles

abbrev pub constant : CompiledUnit → ℕ → Outcome (Option MoveValue)
constant u = at_index (tables u).constant_pool

abbrev pub struct_defs : CompiledUnit → List StructDefinition
struct_defs (script_unit t script) = []
struct_defs (module_unit t d) = d.struct_defs

abbrev pub script_info : CompiledUnit → Option ScriptInfo
script_info (script_unit t script) = some script
script_info (module_unit t d) = none

abbrev pub function_defs : CompiledUnit → List FunctionDefinition
function_defs (script_unit t script) = []
function_defs (module_unit t d) = d.function_defs

-- What a script lacks is `none`.
abbrev pub module_only {ℓ} :
    {A : Type ℓ} → (Definitions → List A) → CompiledUnit → ℕ → Outcome (Option A)
module_only table (script_unit t script) index = ok none
module_only table (module_unit t d) index = at_index (table d) index >>= λ a. ok (some a)

abbrev pub struct_def : CompiledUnit → ℕ → Outcome (Option StructDefinition)
struct_def = module_only (λ d. d.struct_defs)

abbrev pub struct_def_instantiation : CompiledUnit → ℕ → Outcome (Option StructDefInstantiation)
struct_def_instantiation = module_only (λ d. d.struct_def_instantiations)

abbrev pub field_instantiation : CompiledUnit → ℕ → Outcome (Option ℕ)
field_instantiation = module_only (λ d. d.field_instantiations)

abbrev pub field_handle : CompiledUnit → ℕ → Outcome (Option FieldHandle)
field_handle = module_only (λ d. d.field_handles)
