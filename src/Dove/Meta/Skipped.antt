-- ===== src/Dove/Meta/Skipped.antt =====
-- The names of modules that the walk over a definition does not come to: those in lambdas and indexed
-- expressions, in the types of annotations, and in the nested bindings of an unpacking that gives no
-- type arguments.
use move_language_server.Base.{List, [], ◌∷◌, ◌++◌, none, some}
use move_language_server.Dove.Ast.{
  Bind, var, unpack, Binds, no_binds, more_binds, Exp, value, move, copy, unit_exp, break, continue,
  spec, inferred_num, unresolved_error, lambda, index, call, pack, if_else, while, block, exp_list,
  assign, binop_exp, abort, dereference, loop, unary_exp, borrow, dot, annotate, return, name, cast,
  Exps, no_exps, more_exps, OptExp, no_exp, some_exp, Sequence, end_sequence, seq, declare, bind,
  FunctionBody, defined, native_body, Function, defined_fields, native_fields, ModuleMember,
  use_member, function_member, struct_member, spec_member, constant_member,
}
use move_language_server.Dove.Meta.Mentions.{Mentioned, in_type}
use move_language_server.Dove.Meta.Names.{all_binds, all_exp}

unfoldable mutual
  pub skipped_bind : Bind → Mentioned
  skipped_bind (var _) = []
  skipped_bind (unpack access none binds) = all_binds binds
  skipped_bind (unpack access (some types) binds) = skipped_binds binds

  pub skipped_binds : Binds → Mentioned
  skipped_binds no_binds = []
  skipped_binds (more_binds b binds) = skipped_bind b ++ (skipped_binds binds)

unfoldable mutual
  pub skipped_exp : Exp → Mentioned
  skipped_exp value = []
  skipped_exp move = []
  skipped_exp copy = []
  skipped_exp unit_exp = []
  skipped_exp break = []
  skipped_exp continue = []
  skipped_exp (lambda binds e) = all_binds binds ++ all_exp e
  skipped_exp spec = []
  skipped_exp (index a b) = all_exp a ++ all_exp b
  skipped_exp inferred_num = []
  skipped_exp unresolved_error = []
  skipped_exp (call access types exps) = skipped_exps exps
  skipped_exp (pack access types exps) = skipped_exps exps
  skipped_exp (if_else eb et ef) = skipped_exp eb ++ (skipped_exp et ++ (skipped_opt_exp ef))
  skipped_exp (while eb eloop) = skipped_exp eb ++ (skipped_exp eloop)
  skipped_exp (block us sequence exp) = skipped_sequence sequence ++ (skipped_opt_exp exp)
  skipped_exp (exp_list exps) = skipped_exps exps
  skipped_exp (assign a e) = skipped_exp a ++ (skipped_exp e)
  skipped_exp (abort e) = skipped_exp e
  skipped_exp (dereference e) = skipped_exp e
  skipped_exp (loop e) = skipped_exp e
  skipped_exp (unary_exp e) = skipped_exp e
  skipped_exp (borrow e) = skipped_exp e
  skipped_exp (dot e) = skipped_exp e
  skipped_exp (annotate e t) = skipped_exp e ++ in_type t
  skipped_exp (return e) = skipped_opt_exp e
  skipped_exp (binop_exp e1 e2) = skipped_exp e1 ++ (skipped_exp e2)
  skipped_exp (name access types) = []
  skipped_exp (cast e t) = skipped_exp e

  pub skipped_exps : Exps → Mentioned
  skipped_exps no_exps = []
  skipped_exps (more_exps e exps) = skipped_exp e ++ (skipped_exps exps)

  pub skipped_opt_exp : OptExp → Mentioned
  skipped_opt_exp no_exp = []
  skipped_opt_exp (some_exp e) = skipped_exp e

  pub skipped_sequence : Sequence → Mentioned
  skipped_sequence end_sequence = []
  skipped_sequence (seq e rest) = skipped_exp e ++ (skipped_sequence rest)
  skipped_sequence (declare binds t rest) = skipped_binds binds ++ (skipped_sequence rest)
  skipped_sequence (bind binds t e rest) =
      skipped_binds binds ++ (skipped_exp e ++ (skipped_sequence rest))

abbrev pub skipped_body : FunctionBody → Mentioned
skipped_body (defined us sequence exp) = skipped_sequence sequence ++ (skipped_opt_exp exp)
skipped_body native_body = []

abbrev pub skipped_function : Function → Mentioned
skipped_function func = skipped_body func.body

abbrev pub skipped_member : ModuleMember → Mentioned
skipped_member (use_member u) = []
skipped_member (function_member func) = skipped_function func
skipped_member (struct_member (defined_fields types)) = []
skipped_member (struct_member native_fields) = []
skipped_member spec_member = []
skipped_member (constant_member t e) = skipped_exp e

abbrev pub skipped_members : List ModuleMember → Mentioned
skipped_members [] = []
skipped_members (member ∷ members) = skipped_member member ++ (skipped_members members)
