-- ===== src/Dove/Ast.antt =====
-- The syntax of Move sources that dove/src/index/meta.rs walks, with the constructors of the
-- parser's tree and the fields that the walk matches on. A list of a type inside itself is a type of
-- its own; locations, and payloads that no match reads, are left out.
use move_language_server.Base.{ℕ, Bool, List, Option}
use move_language_server.Base.Text.{Bytes}

-- address and name of a module
abbrev pub ModuleIdent : Type 0
ModuleIdent = ℕ × Bytes

pub data ModuleAccess : Type 0 where
  qualified_module_access : ModuleIdent → Bytes → ModuleAccess
  module_access : Bytes → Bytes → ModuleAccess
  name_access : Bytes → ModuleAccess

pub data Use : Type 0 where
  use_members : ModuleIdent → List Bytes → Use
  use_module : ModuleIdent → Option Bytes → Use

mutual
  pub data MoveType : Type 0 where
    unit_type : MoveType
    multiple : MoveTypes → MoveType
    apply : ModuleAccess → MoveTypes → MoveType
    -- mutable or not
    ref : Bool → MoveType → MoveType
    fun : MoveTypes → MoveType → MoveType

  pub data MoveTypes : Type 0 where
    no_types : MoveTypes
    more_types : MoveType → MoveTypes → MoveTypes

mutual
  pub data Bind : Type 0 where
    var : Bytes → Bind
    unpack : ModuleAccess → Option MoveTypes → Binds → Bind

  pub data Binds : Type 0 where
    no_binds : Binds
    more_binds : Bind → Binds → Binds

mutual
  pub data Exp : Type 0 where
    value move copy unit_exp break continue spec inferred_num unresolved_error : Exp
    lambda : Binds → Exp → Exp
    index : Exp → Exp → Exp
    call : ModuleAccess → Option MoveTypes → Exps → Exp
    pack : ModuleAccess → Option MoveTypes → Exps → Exp
    if_else : Exp → Exp → OptExp → Exp
    while : Exp → Exp → Exp
    block : List Use → Sequence → OptExp → Exp
    exp_list : Exps → Exp
    assign binop_exp : Exp → Exp → Exp
    abort dereference loop unary_exp borrow dot : Exp → Exp
    annotate : Exp → MoveType → Exp
    return : OptExp → Exp
    name : ModuleAccess → Option MoveTypes → Exp
    cast : Exp → MoveType → Exp

  pub data Exps : Type 0 where
    no_exps : Exps
    more_exps : Exp → Exps → Exps

  pub data OptExp : Type 0 where
    no_exp : OptExp
    some_exp : Exp → OptExp

  pub data Sequence : Type 0 where
    end_sequence : Sequence
    seq : Exp → Sequence → Sequence
    declare : Binds → Option MoveType → Sequence → Sequence
    bind : Binds → Option MoveType → Exp → Sequence → Sequence

pub data FunctionBody : Type 0 where
  defined : List Use → Sequence → OptExp → FunctionBody
  native_body : FunctionBody

pub record Function : Type 0 where
  pub function_name : Bytes
  pub parameters : List MoveType
  pub return_type : MoveType
  pub body : FunctionBody

pub data StructFields : Type 0 where
  defined_fields : List MoveType → StructFields
  native_fields : StructFields

pub data ModuleMember : Type 0 where
  use_member : Use → ModuleMember
  function_member : Function → ModuleMember
  struct_member : StructFields → ModuleMember
  spec_member : ModuleMember
  constant_member : MoveType → Exp → ModuleMember

pub record ModuleDefinition : Type 0 where
  pub module_name : Bytes
  pub members : List ModuleMember

pub record MoveScript : Type 0 where
  pub script_uses : List Use
  pub script_function : Function

pub data Definition : Type 0 where
  module_definition : ModuleDefinition → Definition
  address_definition : ℕ → List ModuleDefinition → Definition
  script_definition : MoveScript → Definition
