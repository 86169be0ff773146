-- ===== src/Dove/Meta.antt =====
-- `DefinitionMeta` of dove/src/index/meta.rs: the walk over a definition that collects the modules
-- it imports. `none` is the error of `Identifier::new`, which ends the walk.
pub mod Mentions
pub mod Names
pub mod Skipped
pub mod Splits
pub mod Laws
pub mod Imports
use move_language_server.Base.{
  ℕ, ◌==◌, ◌&&◌, Bool, true, false, List, [], ◌∷◌, ◌++◌, Option, none, some, ◌>>=◌, if◌then◌else◌,
}
use move_language_server.Base.Classes.{eqb, pair_eq, nat_eq}
use move_language_server.Base.Text.{Bytes, codes}
use move_language_server.Executor.Tags.{ModuleId, bytes_eq}
use move_language_server.Dove.Ast.{
  ModuleIdent, ModuleAccess, qualified_module_access, module_access, name_access, Use, use_members,
  use_module, MoveType, unit_type, multiple, apply, ref, fun, MoveTypes, no_types, more_types, Bind,
  var, unpack, Binds, no_binds, more_binds, Exp, value, move, copy, unit_exp, break, continue, spec,
  inferred_num, unresolved_error, lambda, index, call, pack, if_else, while, block, exp_list,
  assign, binop_exp, abort, dereference, loop, unary_exp, borrow, dot, annotate, return, name, cast,
  Exps, no_exps, more_exps, OptExp, no_exp, some_exp, Sequence, end_sequence, seq, declare, bind,
  FunctionBody, defined, native_body, Function, StructFields, defined_fields, native_fields,
  ModuleMember, use_member, function_member, struct_member, spec_member, constant_member,
  ModuleDefinition, MoveScript, Definition, module_definition, address_definition,
  script_definition,
}

-- A HashSet of module ids
abbrev pub Imports : Type 0
Imports = List ModuleId

unfoldable pub imported : ModuleId → Imports → Bool
imported id [] = false
imported id (i ∷ imports) = if eqb i id then true else imported id imports

-- HashSet::insert
unfoldable pub insert_id : ModuleId → Imports → Imports
unfolding imported
insert_id id imports = if imported id imports then imports else id ∷ imports

pub record DefinitionMeta : Type 0 where
  pub module_id : ModuleId
  pub imports : Imports

abbrev pub Walk : Type 0
Walk = Imports → Option Imports

-- One step of the walk and then another.
infixr 6 ◌then◌
abbrev pub ◌then◌ : Walk → Walk → Walk
(f then g) imports = f imports >>= g

abbrev pub no_op : Walk
no_op imports = some imports

-- `Identifier::new`, as the test whether it accepts the name.
module _ (is_identifier : Bytes → Bool) where
  unfoldable pub insert_import : ModuleIdent → Walk
  unfolding insert_id
  insert_import (address, n) imports =
      if is_identifier n then some (insert_id (address, n) imports) else none

  -- extract_uses and uses, which are the same.
  unfoldable pub uses : Use → Walk
  unfolding insert_import
  uses (use_members ident _) = insert_import ident
  uses (use_module ident _) = insert_import ident

  unfoldable pub access_usages : ModuleAccess → Walk
  unfolding insert_import
  access_usages (qualified_module_access ident _) = insert_import ident
  access_usages (module_access _ _) = no_op
  access_usages (name_access _) = no_op

  unfoldable mutual
    unfolding access_usages

    pub s_type_usages : MoveType → Walk
    s_type_usages (apply access s_types) = access_usages access then s_types_usages s_types
    s_type_usages (ref is_mut s_type) = s_type_usages s_type
    s_type_usages (fun s_types s_type) = s_types_usages s_types then s_type_usages s_type
    s_type_usages unit_type = no_op
    s_type_usages (multiple s_types) = s_types_usages s_types

    -- The loops over types.
    pub s_types_usages : MoveTypes → Walk
    s_types_usages no_types = no_op
    s_types_usages (more_types s_type s_types) = s_type_usages s_type then s_types_usages s_types

  unfoldable pub opt_types_usages : Option MoveTypes → Walk
  unfolding s_types_usages
  opt_types_usages none = no_op
  opt_types_usages (some s_types) = s_types_usages s_types

  unfoldable pub type_usages : MoveType → Walk
  unfolding s_type_usages s_types_usages
  type_usages unit_type = no_op
  type_usages (multiple s_types) = s_types_usages s_types
  type_usages (apply access s_types) = s_types_usages s_types then access_usages access
  type_usages (ref is_mut s_type) = s_type_usages s_type
  type_usages (fun s_types s_type) = s_type_usages s_type then s_types_usages s_types

  unfoldable pub opt_type_usages : Option MoveType → Walk
  unfolding type_usages
  opt_type_usages none = no_op
  opt_type_usages (some s_type) = type_usages s_type

  unfoldable mutual
    unfolding access_usages s_types_usages

    -- The nested bindings are walked only where type arguments are given.
    pub bind_usages : Bind → Walk
    bind_usages (var _) = no_op
    bind_usages (unpack access none binds) = access_usages access
    bind_usages (unpack access (some s_types) binds) =
        access_usages access then (s_types_usages s_types then binds_usages binds)

    pub binds_usages : Binds → Walk
    binds_usages no_binds = no_op
    binds_usages (more_binds b binds) = bind_usages b then binds_usages binds

  unfoldable pub uses_usages : List Use → Walk
  unfolding uses
  uses_usages [] = no_op
  uses_usages (u ∷ us) = uses u then uses_usages us

  unfoldable mutual
    unfolding access_usages opt_types_usages uses_usages binds_usages opt_type_usages s_type_usages

    pub expresion_usages : Exp → Walk
    expresion_usages value = no_op
    expresion_usages move = no_op
    expresion_usages copy = no_op
    expresion_usages unit_exp = no_op
    expresion_usages break = no_op
    expresion_usages continue = no_op
    expresion_usages (lambda _ _) = no_op
    expresion_usages spec = no_op
    expresion_usages (index _ _) = no_op
    expresion_usages inferred_num = no_op
    expresion_usages unresolved_error = no_op
    expresion_usages (call access s_types exps) =
        access_usages access then (opt_types_usages s_types then exps_usages exps)
    expresion_usages (pack access s_types exps) =
        access_usages access then (opt_types_usages s_types then exps_usages exps)
    expresion_usages (if_else eb et ef) =
        expresion_usages eb then (expresion_usages et then opt_exp_usages ef)
    expresion_usages (while eb eloop) = expresion_usages eb then expresion_usages eloop
    expresion_usages (block us sequence exp) =
        uses_usages us then (block_usages sequence then opt_exp_usages exp)
    expresion_usages (exp_list exps) = exps_usages exps
    expresion_usages (assign a e) = expresion_usages a then expresion_usages e
    expresion_usages (abort e) = expresion_usages e
    expresion_usages (dereference e) = expresion_usages e
    expresion_usages (loop e) = expresion_usages e
    expresion_usages (unary_exp e) = expresion_usages e
    expresion_usages (borrow e) = expresion_usages e
    expresion_usages (dot e) = expresion_usages e
    expresion_usages (annotate e _) = expresion_usages e
    expresion_usages (return e) = opt_exp_usages e
    expresion_usages (binop_exp e1 e2) = expresion_usages e1 then expresion_usages e2
    expresion_usages (name access s_types) = access_usages access then opt_types_usages s_types
    expresion_usages (cast e1 s_type) = expresion_usages e1 then s_type_usages s_type

    pub exps_usages : Exps → Walk
    exps_usages no_exps = no_op
    exps_usages (more_exps e exps) = expresion_usages e then exps_usages exps

    pub opt_exp_usages : OptExp → Walk
    opt_exp_usages no_exp = no_op
    opt_exp_usages (some_exp e) = expresion_usages e

    pub block_usages : Sequence → Walk
    block_usages end_sequence = no_op
    block_usages (seq e rest) = expresion_usages e then block_usages rest
    block_usages (declare binds s_type rest) =
        binds_usages binds then (opt_type_usages s_type then block_usages rest)
    block_usages (bind binds s_type e rest) =
        binds_usages binds
        then (opt_type_usages s_type then (expresion_usages e then block_usages rest))

  unfoldable pub internal_usages : FunctionBody → Walk
  unfolding uses_usages block_usages opt_exp_usages
  internal_usages (defined us sequence exp) =
      uses_usages us then (block_usages sequence then opt_exp_usages exp)
  internal_usages native_body = no_op

  unfoldable pub parameters_usages : List MoveType → Walk
  unfolding type_usages
  parameters_usages [] = no_op
  parameters_usages (t ∷ types) = type_usages t then parameters_usages types

  -- DefinitionMeta::signature and DefinitionMeta::function
  unfoldable pub function_usages : Function → Walk
  unfolding internal_usages parameters_usages
  function_usages func =
      (parameters_usages func.parameters then type_usages func.return_type)
      then internal_usages func.body

  unfoldable pub fields_usages : List MoveType → Walk
  unfolding s_type_usages
  fields_usages [] = no_op
  fields_usages (t ∷ types) = s_type_usages t then fields_usages types

  unfoldable pub member_usages : ModuleMember → Walk
  unfolding uses function_usages fields_usages expresion_usages
  member_usages (use_member u) = uses u
  member_usages (function_member func) = function_usages func
  member_usages (struct_member (defined_fields types)) = fields_usages types
  member_usages (struct_member native_fields) = no_op
  member_usages spec_member = no_op
  member_usages (constant_member signature e) = type_usages signature then expresion_usages e

  unfoldable pub members_usages : List ModuleMember → Walk
  unfolding member_usages
  members_usages [] = no_op
  members_usages (member ∷ members) = member_usages member then members_usages members

  -- DefinitionMeta::module
  unfoldable pub module_meta : ModuleDefinition → ℕ → Option DefinitionMeta
  unfolding members_usages
  module_meta m address =
      if is_identifier m.module_name
      then (do
        imports ← members_usages m.members []
        some (record { module_id = (address, m.module_name); imports = imports }))
      else none

  -- The random number of a script's name is an argument; `script_name` prints the name.
  module _ (script_name : Bytes → ℕ → Bytes) where
    -- DefinitionMeta::script
    unfoldable pub script_meta : MoveScript → ℕ → ℕ → Option DefinitionMeta
    unfolding uses_usages function_usages
    script_meta s address random =
        let n = script_name s.script_function.function_name random in
        if is_identifier n
        then (do
          imports ← (uses_usages s.script_uses then function_usages s.script_function) []
          some (record { module_id = (address, n); imports = imports }))
        else none

    unfoldable pub modules_meta : List ModuleDefinition → ℕ → Option (List DefinitionMeta)
    unfolding module_meta
    modules_meta [] address = some []
    modules_meta (m ∷ ms) address = do
      meta ← module_meta m address
      metas ← modules_meta ms address
      some (meta ∷ metas)

    -- DefinitionMeta::from_definition
    unfoldable pub from_definition : Definition → Option ℕ → ℕ → Option (List DefinitionMeta)
    unfolding modules_meta script_meta module_meta
    from_definition (module_definition m) none random = none
    from_definition (module_definition m) (some addr) random = do
      meta ← module_meta m addr
      some (meta ∷ [])
    from_definition (address_definition addr ms) address random = modules_meta ms addr
    from_definition (script_definition s) address random = do
      meta ← script_meta s (elim address [ none ↦ 1 | some a ↦ a ]) random
      some (meta ∷ [])
