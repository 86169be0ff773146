-- ===== src/Dove/Meta/Laws.antt =====
-- The walk inserts just the modules that a definition names.
use mathlib.Core.Path.{fun_ext}
use move_language_server.Base.{
  ◌≡◌, refl, sym, ap, ◌∙◌, Bool, List, [], ◌∷◌, ◌++◌, Option, none, some, ◌>>=◌, if◌then◌else◌,
}
use move_language_server.Base.Classes.{nat_eq, pair_eq}
use move_language_server.Base.Text.{Bytes}
use move_language_server.Executor.Tags.{bytes_eq}
use move_language_server.Dove.Ast.{
  ModuleIdent, ModuleAccess, qualified_module_access, module_access, name_access, Use, use_members,
  use_module, MoveType, unit_type, multiple, apply, ref, fun, MoveTypes, no_types, more_types, Bind,
  var, unpack, Binds, no_binds, more_binds, Exp, value, move, copy, unit_exp, break, continue, spec,
  inferred_num, unresolved_error, lambda, index, call, pack, if_else, while, block, exp_list,
  assign, binop_exp, abort, dereference, loop, unary_exp, borrow, dot, annotate, return, name, cast,
  Exps, no_exps, more_exps, OptExp, no_exp, some_exp, Sequence, end_sequence, seq, declare, bind,
  FunctionBody, defined, native_body, Function, defined_fields, native_fields, ModuleMember,
  use_member, function_member, struct_member, spec_member, constant_member,
}
use move_language_server.Dove.Meta.Mentions.{
  Mentioned, in_use, in_uses, in_access, in_type, in_types, in_opt_types, in_outer_type,
  in_opt_type, in_bind, in_binds, in_exp, in_exps, in_opt_exp, in_sequence, in_body, in_parameters,
  in_function, in_fields, in_member, in_members,
}
use move_language_server.Dove.Meta.{
  Imports, Walk, ◌then◌, no_op, insert_import, uses, access_usages, s_type_usages, s_types_usages,
  opt_types_usages, type_usages, opt_type_usages, bind_usages, binds_usages, uses_usages,
  expresion_usages, exps_usages, opt_exp_usages, block_usages, internal_usages, parameters_usages,
  function_usages, fields_usages, member_usages, members_usages,
}

then_no_op : (f : Walk) → (f then no_op) ≡ f
then_no_op f = fun_ext (λ imports. go (f imports))
  where
    go : (o : Option Imports) → (o >>= no_op) ≡ o
    go none = refl
    go (some imports) = refl

then_assoc : (f g h : Walk) → ((f then g) then h) ≡ (f then (g then h))
then_assoc f g h = fun_ext (λ imports. go (f imports))
  where
    go : (o : Option Imports) → ((o >>= g) >>= h) ≡ (o >>= (g then h))
    go none = refl
    go (some imports) = refl

module _ (is_identifier : Bytes → Bool) where
  -- Modules inserted one after the other.
  unfoldable pub insert_all : Mentioned → Walk
  insert_all [] = no_op
  insert_all (id ∷ ids) = insert_import is_identifier id then insert_all ids

  insert_all-append :
      (xs ys : Mentioned) → (insert_all xs then insert_all ys) ≡ insert_all (xs ++ ys)
  unfolding insert_all
  insert_all-append [] ys = refl
  insert_all-append (x ∷ xs) ys =
      then_assoc (insert_import is_identifier x) (insert_all xs) (insert_all ys)
      ∙ ap (λ g. insert_import is_identifier x then g) (insert_all-append xs ys)

  -- A walk that inserts the given modules, in order.
  pub data Inserts (f : Walk) (ids : Mentioned) : Type 0 where
    inserts : f ≡ insert_all ids → Inserts f ids

  nothing : Inserts no_op []
  unfolding insert_all
  nothing = inserts refl

  joined :
      {f g : Walk} {xs ys : Mentioned} → Inserts f xs → Inserts g ys → Inserts (f then g) (xs ++ ys)
  joined {f} {g} {xs} {ys} (inserts p) (inserts q) =
      inserts ((λ i. p i then q i) ∙ insert_all-append xs ys)

  one : (id : ModuleIdent) → Inserts (insert_import is_identifier id) (id ∷ [])
  unfolding insert_all
  one id = inserts (sym (then_no_op (insert_import is_identifier id)))

  uses-in_use : (x : Use) → Inserts (uses is_identifier x) (in_use x)
  unfolding uses
  uses-in_use (use_members ident xs) = one ident
  uses-in_use (use_module ident x) = one ident

  access_usages-in_access :
      (x : ModuleAccess) → Inserts (access_usages is_identifier x) (in_access x)
  unfolding access_usages
  access_usages-in_access (qualified_module_access ident x) = one ident
  access_usages-in_access (module_access x y) = nothing
  access_usages-in_access (name_access x) = nothing

  mutual
    unfolding s_type_usages s_types_usages in_type in_types

    s_type_usages-in_type : (x : MoveType) → Inserts (s_type_usages is_identifier x) (in_type x)
    s_type_usages-in_type unit_type = nothing
    s_type_usages-in_type (multiple ts) = s_types_usages-in_types ts
    s_type_usages-in_type (apply access ts) =
        joined (access_usages-in_access access) (s_types_usages-in_types ts)
    s_type_usages-in_type (ref is_mut t) = s_type_usages-in_type t
    s_type_usages-in_type (fun ts t) = joined (s_types_usages-in_types ts) (s_type_usages-in_type t)

    s_types_usages-in_types :
        (x : MoveTypes) → Inserts (s_types_usages is_identifier x) (in_types x)
    s_types_usages-in_types no_types = nothing
    s_types_usages-in_types (more_types t ts) =
        joined (s_type_usages-in_type t) (s_types_usages-in_types ts)

  opt_types_usages-in_opt_types :
      (x : Option MoveTypes) → Inserts (opt_types_usages is_identifier x) (in_opt_types x)
  unfolding opt_types_usages
  opt_types_usages-in_opt_types none = nothing
  opt_types_usages-in_opt_types (some ts) = s_types_usages-in_types ts

  type_usages-in_outer_type :
      (x : MoveType) → Inserts (type_usages is_identifier x) (in_outer_type x)
  unfolding type_usages in_outer_type
  type_usages-in_outer_type unit_type = nothing
  type_usages-in_outer_type (multiple ts) = s_types_usages-in_types ts
  type_usages-in_outer_type (apply access ts) =
      joined (s_types_usages-in_types ts) (access_usages-in_access access)
  type_usages-in_outer_type (ref is_mut t) = s_type_usages-in_type t
  type_usages-in_outer_type (fun ts t) =
      joined (s_type_usages-in_type t) (s_types_usages-in_types ts)

  opt_type_usages-in_opt_type :
      (x : Option MoveType) → Inserts (opt_type_usages is_identifier x) (in_opt_type x)
  unfolding opt_type_usages
  opt_type_usages-in_opt_type none = nothing
  opt_type_usages-in_opt_type (some t) = type_usages-in_outer_type t

  mutual
    unfolding bind_usages binds_usages in_bind in_binds

    bind_usages-in_bind : (x : Bind) → Inserts (bind_usages is_identifier x) (in_bind x)
    bind_usages-in_bind (var x) = nothing
    bind_usages-in_bind (unpack access none bs) = access_usages-in_access access
    bind_usages-in_bind (unpack access (some ts) bs) =
        joined (access_usages-in_access access)
          (joined (s_types_usages-in_types ts) (binds_usages-in_binds bs))

    binds_usages-in_binds : (x : Binds) → Inserts (binds_usages is_identifier x) (in_binds x)
    binds_usages-in_binds no_binds = nothing
    binds_usages-in_binds (more_binds b bs) =
        joined (bind_usages-in_bind b) (binds_usages-in_binds bs)

  uses_usages-in_uses : (x : List Use) → Inserts (uses_usages is_identifier x) (in_uses x)
  unfolding uses_usages
  uses_usages-in_uses [] = nothing
  uses_usages-in_uses (u ∷ us) = joined (uses-in_use u) (uses_usages-in_uses us)

  mutual
    unfolding expresion_usages exps_usages opt_exp_usages block_usages in_exp in_exps in_opt_exp
        in_sequence

    expresion_usages-in_exp : (x : Exp) → Inserts (expresion_usages is_identifier x) (in_exp x)
    expresion_usages-in_exp value = nothing
    expresion_usages-in_exp move = nothing
    expresion_usages-in_exp copy = nothing
    expresion_usages-in_exp unit_exp = nothing
    expresion_usages-in_exp break = nothing
    expresion_usages-in_exp continue = nothing
    expresion_usages-in_exp spec = nothing
    expresion_usages-in_exp inferred_num = nothing
    expresion_usages-in_exp unresolved_error = nothing
    expresion_usages-in_exp (lambda bs e) = nothing
    expresion_usages-in_exp (index e e') = nothing
    expresion_usages-in_exp (call access ts exps) =
        joined (access_usages-in_access access)
          (joined (opt_types_usages-in_opt_types ts) (exps_usages-in_exps exps))
    expresion_usages-in_exp (pack access ts exps) =
        joined (access_usages-in_access access)
          (joined (opt_types_usages-in_opt_types ts) (exps_usages-in_exps exps))
    expresion_usages-in_exp (if_else eb et ef) =
        joined (expresion_usages-in_exp eb)
          (joined (expresion_usages-in_exp et) (opt_exp_usages-in_opt_exp ef))
    expresion_usages-in_exp (while eb el) =
        joined (expresion_usages-in_exp eb) (expresion_usages-in_exp el)
    expresion_usages-in_exp (block us s exp) =
        joined (uses_usages-in_uses us)
          (joined (block_usages-in_sequence s) (opt_exp_usages-in_opt_exp exp))
    expresion_usages-in_exp (exp_list exps) = exps_usages-in_exps exps
    expresion_usages-in_exp (assign a e) =
        joined (expresion_usages-in_exp a) (expresion_usages-in_exp e)
    expresion_usages-in_exp (abort e) = expresion_usages-in_exp e
    expresion_usages-in_exp (dereference e) = expresion_usages-in_exp e
    expresion_usages-in_exp (loop e) = expresion_usages-in_exp e
    expresion_usages-in_exp (unary_exp e) = expresion_usages-in_exp e
    expresion_usages-in_exp (borrow e) = expresion_usages-in_exp e
    expresion_usages-in_exp (dot e) = expresion_usages-in_exp e
    expresion_usages-in_exp (annotate e t) = expresion_usages-in_exp e
    expresion_usages-in_exp (return exp) = opt_exp_usages-in_opt_exp exp
    expresion_usages-in_exp (binop_exp e1 e2) =
        joined (expresion_usages-in_exp e1) (expresion_usages-in_exp e2)
    expresion_usages-in_exp (name access ts) =
        joined (access_usages-in_access access) (opt_types_usages-in_opt_types ts)
    expresion_usages-in_exp (cast e t) =
        joined (expresion_usages-in_exp e) (s_type_usages-in_type t)

    exps_usages-in_exps : (x : Exps) → Inserts (exps_usages is_identifier x) (in_exps x)
    exps_usages-in_exps no_exps = nothing
    exps_usages-in_exps (more_exps e exps) =
        joined (expresion_usages-in_exp e) (exps_usages-in_exps exps)

    opt_exp_usages-in_opt_exp :
        (x : OptExp) → Inserts (opt_exp_usages is_identifier x) (in_opt_exp x)
    opt_exp_usages-in_opt_exp no_exp = nothing
    opt_exp_usages-in_opt_exp (some_exp e) = expresion_usages-in_exp e

    block_usages-in_sequence :
        (x : Sequence) → Inserts (block_usages is_identifier x) (in_sequence x)
    block_usages-in_sequence end_sequence = nothing
    block_usages-in_sequence (seq e s) =
        joined (expresion_usages-in_exp e) (block_usages-in_sequence s)
    block_usages-in_sequence (declare bs t s) =
        joined (binds_usages-in_binds bs)
          (joined (opt_type_usages-in_opt_type t) (block_usages-in_sequence s))
    block_usages-in_sequence (bind bs t e s) = joined (binds_usages-in_binds bs) (
        joined (opt_type_usages-in_opt_type t)
          (joined (expresion_usages-in_exp e) (block_usages-in_sequence s)))

  internal_usages-in_body :
      (x : FunctionBody) → Inserts (internal_usages is_identifier x) (in_body x)
  unfolding internal_usages
  internal_usages-in_body (defined us s exp) =
      joined (uses_usages-in_uses us)
        (joined (block_usages-in_sequence s) (opt_exp_usages-in_opt_exp exp))
  internal_usages-in_body native_body = nothing

  parameters_usages-in_parameters :
      (x : List MoveType) → Inserts (parameters_usages is_identifier x) (in_parameters x)
  unfolding parameters_usages
  parameters_usages-in_parameters [] = nothing
  parameters_usages-in_parameters (t ∷ ts) =
      joined (type_usages-in_outer_type t) (parameters_usages-in_parameters ts)

  function_usages-in_function :
      (x : Function) → Inserts (function_usages is_identifier x) (in_function x)
  unfolding function_usages
  function_usages-in_function func =
      joined
        (joined (parameters_usages-in_parameters func.parameters)
          (type_usages-in_outer_type func.return_type))
        (internal_usages-in_body func.body)

  fields_usages-in_fields :
      (x : List MoveType) → Inserts (fields_usages is_identifier x) (in_fields x)
  unfolding fields_usages
  fields_usages-in_fields [] = nothing
  fields_usages-in_fields (t ∷ ts) = joined (s_type_usages-in_type t) (fields_usages-in_fields ts)

  member_usages-in_member :
      (x : ModuleMember) → Inserts (member_usages is_identifier x) (in_member x)
  unfolding member_usages
  member_usages-in_member (use_member u) = uses-in_use u
  member_usages-in_member (function_member func) = function_usages-in_function func
  member_usages-in_member (struct_member (defined_fields ts)) = fields_usages-in_fields ts
  member_usages-in_member (struct_member native_fields) = nothing
  member_usages-in_member spec_member = nothing
  member_usages-in_member (constant_member t e) =
      joined (type_usages-in_outer_type t) (expresion_usages-in_exp e)

  pub members_usages-in_members :
      (x : List ModuleMember) → Inserts (members_usages is_identifier x) (in_members x)
  unfolding members_usages
  members_usages-in_members [] = nothing
  members_usages-in_members (member ∷ members) =
      joined (member_usages-in_member member) (members_usages-in_members members)
