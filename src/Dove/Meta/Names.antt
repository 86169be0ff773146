-- ===== src/Dove/Meta/Names.antt =====
-- All modules that a definition names, wherever they stand in it, in the order of the text.
use move_language_server.Base.{List, [], ◌∷◌, ◌++◌, none, some}
use move_language_server.Dove.Ast.{
  Bind, var, unpack, Binds, no_binds, more_binds, Exp, value, move, copy, unit_exp, break, continue,
  spec, inferred_num, unresolved_error, lambda, index, call, pack, if_else, while, block, exp_list,
  assign, binop_exp, abort, dereference, loop, unary_exp, borrow, dot, annotate, return, name, cast,
  Exps, no_exps, more_exps, OptExp, no_exp, some_exp, Sequence, end_sequence, seq, declare, bind,
  FunctionBody, defined, native_body, Function, defined_fields, native_fields, ModuleMember,
  use_member, function_member, struct_member, spec_member, constant_member,
}
use move_language_server.Dove.Meta.Mentions.{
  Mentioned, in_use, in_uses, in_access, in_type, in_types, in_opt_types, in_outer_type,
  in_opt_type, in_parameters, in_fields,
}

unfoldable mutual
  pub all_bind : Bind → Mentioned
  all_bind (var _) = []
  all_bind (unpack access none binds) = in_access access ++ all_binds binds
  all_bind (unpack access (some types) binds) =
      in_access access ++ (in_types types ++ all_binds binds)

  pub all_binds : Binds → Mentioned
  all_binds no_binds = []
  all_binds (more_binds b binds) = all_bind b ++ all_binds binds

unfoldable mutual
  pub all_exp : Exp → Mentioned
  all_exp value = []
  all_exp move = []
  all_exp copy = []
  all_exp unit_exp = []
  all_exp break = []
  all_exp continue = []
  all_exp (lambda binds e) = all_binds binds ++ all_exp e
  all_exp spec = []
  all_exp (index a b) = all_exp a ++ all_exp b
  all_exp inferred_num = []
  all_exp unresolved_error = []
  all_exp (call access types exps) = in_access access ++ (in_opt_types types ++ all_exps exps)
  all_exp (pack access types exps) = in_access access ++ (in_opt_types types ++ all_exps exps)
  all_exp (if_else eb et ef) = all_exp eb ++ (all_exp et ++ all_opt_exp ef)
  all_exp (while eb eloop) = all_exp eb ++ all_exp eloop
  all_exp (block us sequence exp) = in_uses us ++ (all_sequence sequence ++ all_opt_exp exp)
  all_exp (exp_list exps) = all_exps exps
  all_exp (assign a e) = all_exp a ++ all_exp e
  all_exp (abort e) = all_exp e
  all_exp (dereference e) = all_exp e
  all_exp (loop e) = all_exp e
  all_exp (unary_exp e) = all_exp e
  all_exp (borrow e) = all_exp e
  all_exp (dot e) = all_exp e
  all_exp (annotate e t) = all_exp e ++ in_type t
  all_exp (return e) = all_opt_exp e
  all_exp (binop_exp e1 e2) = all_exp e1 ++ all_exp e2
  all_exp (name access types) = in_access access ++ in_opt_types types
  all_exp (cast e t) = all_exp e ++ in_type t

  pub all_exps : Exps → Mentioned
  all_exps no_exps = []
  all_exps (more_exps e exps) = all_exp e ++ all_exps exps

  pub all_opt_exp : OptExp → Mentioned
  all_opt_exp no_exp = []
  all_opt_exp (some_exp e) = all_exp e

  pub all_sequence : Sequence → Mentioned
  all_sequence end_sequence = []
  all_sequence (seq e rest) = all_exp e ++ all_sequence rest
  all_sequence (declare binds t rest) = all_binds binds ++ (in_opt_type t ++ all_sequence rest)
  all_sequence (bind binds t e rest) =
      all_binds binds ++ (in_opt_type t ++ (all_exp e ++ all_sequence rest))

abbrev pub all_body : FunctionBody → Mentioned
all_body (defined us sequence exp) = in_uses us ++ (all_sequence sequence ++ all_opt_exp exp)
all_body native_body = []

abbrev pub all_function : Function → Mentioned
all_function func =
    (in_parameters func.parameters ++ in_outer_type func.return_type) ++ all_body func.body

abbrev pub all_member : ModuleMember → Mentioned
all_member (use_member u) = in_use u
all_member (function_member func) = all_function func
all_member (struct_member (defined_fields types)) = in_fields types
all_member (struct_member native_fields) = []
all_member spec_member = []
all_member (constant_member t e) = in_outer_type t ++ all_exp e

abbrev pub all_members : List ModuleMember → Mentioned
all_members [] = []
all_members (member ∷ members) = all_member member ++ all_members members
