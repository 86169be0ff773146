-- ===== src/Dove/Meta/Mentions.antt =====
-- Which modules the walk over a definition comes to, in the order of the text: a list, without the
-- walk's set and its errors. Left out is what stands in lambdas and indexed expressions, the types
-- of annotations, and the nested bindings of an unpacking that gives no type arguments.
use move_language_server.Base.{List, [], ◌∷◌, ◌++◌, Option, none, some}
use move_language_server.Dove.Ast.{
  ModuleIdent, ModuleAccess, qualified_module_access, module_access, name_access, Use, use_members,
  use_module, MoveType, unit_type, multiple, apply, ref, fun, MoveTypes, no_types, more_types, Bind,
  var, unpack, Binds, no_binds, more_binds, Exp, value, move, copy, unit_exp, break, continue, spec,
  inferred_num, unresolved_error, lambda, index, call, pack, if_else, while, block, exp_list,
  assign, binop_exp, abort, dereference, loop, unary_exp, borrow, dot, annotate, return, name, cast,
  Exps, no_exps, more_exps, OptExp, no_exp, some_exp, Sequence, end_sequence, seq, declare, bind,
  FunctionBody, defined, native_body, Function, defined_fields, native_fields, ModuleMember,
  use_member, function_member, struct_member, spec_member, constant_member,
}

abbrev pub Mentioned : Type 0
Mentioned = List ModuleIdent

abbrev pub in_use : Use → Mentioned
in_use (use_members ident _) = ident ∷ []
in_use (use_module ident _) = ident ∷ []

abbrev pub in_uses : List Use → Mentioned
in_uses [] = []
in_uses (u ∷ us) = in_use u ++ in_uses us

abbrev pub in_access : ModuleAccess → Mentioned
in_access (qualified_module_access ident _) = ident ∷ []
in_access (module_access _ _) = []
in_access (name_access _) = []

unfoldable mutual
  pub in_type : MoveType → Mentioned
  in_type unit_type = []
  in_type (multiple types) = in_types types
  in_type (apply access types) = in_access access ++ in_types types
  in_type (ref is_mut t) = in_type t
  in_type (fun types t) = in_types types ++ in_type t

  pub in_types : MoveTypes → Mentioned
  in_types no_types = []
  in_types (more_types t types) = in_type t ++ in_types types

abbrev pub in_opt_types : Option MoveTypes → Mentioned
in_opt_types none = []
in_opt_types (some types) = in_types types

-- A type outside of a struct: arguments and results come first.
unfoldable pub in_outer_type : MoveType → Mentioned
unfolding in_type in_types
in_outer_type unit_type = []
in_outer_type (multiple types) = in_types types
in_outer_type (apply access types) = in_types types ++ in_access access
in_outer_type (ref is_mut t) = in_type t
in_outer_type (fun types t) = in_type t ++ in_types types

abbrev pub in_opt_type : Option MoveType → Mentioned
in_opt_type none = []
in_opt_type (some t) = in_outer_type t

unfoldable mutual
  pub in_bind : Bind → Mentioned
  in_bind (var _) = []
  in_bind (unpack access none binds) = in_access access
  in_bind (unpack access (some types) binds) =
      in_access access ++ (in_types types ++ in_binds binds)

  pub in_binds : Binds → Mentioned
  in_binds no_binds = []
  in_binds (more_binds b binds) = in_bind b ++ in_binds binds

unfoldable mutual
  pub in_exp : Exp → Mentioned
  in_exp value = []
  in_exp move = []
  in_exp copy = []
  in_exp unit_exp = []
  in_exp break = []
  in_exp continue = []
  in_exp (lambda _ _) = []
  in_exp spec = []
  in_exp (index _ _) = []
  in_exp inferred_num = []
  in_exp unresolved_error = []
  in_exp (call access types exps) = in_access access ++ (in_opt_types types ++ in_exps exps)
  in_exp (pack access types exps) = in_access access ++ (in_opt_types types ++ in_exps exps)
  in_exp (if_else eb et ef) = in_exp eb ++ (in_exp et ++ in_opt_exp ef)
  in_exp (while eb eloop) = in_exp eb ++ in_exp eloop
  in_exp (block us sequence exp) = in_uses us ++ (in_sequence sequence ++ in_opt_exp exp)
  in_exp (exp_list exps) = in_exps exps
  in_exp (assign a e) = in_exp a ++ in_exp e
  in_exp (abort e) = in_exp e
  in_exp (dereference e) = in_exp e
  in_exp (loop e) = in_exp e
  in_exp (unary_exp e) = in_exp e
  in_exp (borrow e) = in_exp e
  in_exp (dot e) = in_exp e
  in_exp (annotate e _) = in_exp e
  in_exp (return e) = in_opt_exp e
  in_exp (binop_exp e1 e2) = in_exp e1 ++ in_exp e2
  in_exp (name access types) = in_access access ++ in_opt_types types
  in_exp (cast e t) = in_exp e ++ in_type t

  pub in_exps : Exps → Mentioned
  in_exps no_exps = []
  in_exps (more_exps e exps) = in_exp e ++ in_exps exps

  pub in_opt_exp : OptExp → Mentioned
  in_opt_exp no_exp = []
  in_opt_exp (some_exp e) = in_exp e

  pub in_sequence : Sequence → Mentioned
  in_sequence end_sequence = []
  in_sequence (seq e rest) = in_exp e ++ in_sequence rest
  in_sequence (declare binds t rest) = in_binds binds ++ (in_opt_type t ++ in_sequence rest)
  in_sequence (bind binds t e rest) =
      in_binds binds ++ (in_opt_type t ++ (in_exp e ++ in_sequence rest))

abbrev pub in_body : FunctionBody → Mentioned
in_body (defined us sequence exp) = in_uses us ++ (in_sequence sequence ++ in_opt_exp exp)
in_body native_body = []

abbrev pub in_parameters : List MoveType → Mentioned
in_parameters [] = []
in_parameters (t ∷ types) = in_outer_type t ++ in_parameters types

abbrev pub in_function : Function → Mentioned
in_function func =
    (in_parameters func.parameters ++ in_outer_type func.return_type) ++ in_body func.body

abbrev pub in_fields : List MoveType → Mentioned
in_fields [] = []
in_fields (t ∷ types) = in_type t ++ in_fields types

abbrev pub in_member : ModuleMember → Mentioned
in_member (use_member u) = in_use u
in_member (function_member func) = in_function func
in_member (struct_member (defined_fields types)) = in_fields types
in_member (struct_member native_fields) = []
in_member spec_member = []
in_member (constant_member t e) = in_outer_type t ++ in_exp e

abbrev pub in_members : List ModuleMember → Mentioned
in_members [] = []
in_members (member ∷ members) = in_member member ++ in_members members
