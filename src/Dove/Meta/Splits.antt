-- ===== src/Dove/Meta/Splits.antt =====
-- All names of a definition are those that the walk comes to and those that it skips.
use move_language_server.Base.{
  arith, ◌≡◌, refl, Bool, true, false, ◌||◌, List, [], ◌∷◌, ◌++◌, none, some,
}
use move_language_server.Dove.Ast.{
  Bind, var, unpack, Binds, no_binds, more_binds, Exp, value, move, copy, unit_exp, break, continue,
  spec, inferred_num, unresolved_error, lambda, index, call, pack, if_else, while, block, exp_list,
  assign, binop_exp, abort, dereference, loop, unary_exp, borrow, dot, annotate, return, name, cast,
  Exps, no_exps, more_exps, OptExp, no_exp, some_exp, Sequence, end_sequence, seq, declare, bind,
  FunctionBody, defined, native_body, Function, defined_fields, native_fields, ModuleMember,
  use_member, function_member, struct_member, spec_member, constant_member,
}
use move_language_server.Dove.Meta.Mentions.{
  Mentioned, in_uses, in_access, in_type, in_types, in_opt_types, in_outer_type, in_opt_type,
  in_parameters, in_bind, in_binds, in_exp, in_exps, in_opt_exp, in_sequence, in_body, in_function,
  in_member, in_members,
}
use move_language_server.Dove.Meta.Names.{
  all_bind, all_binds, all_exp, all_exps, all_opt_exp, all_sequence, all_body, all_function,
  all_member, all_members,
}
use move_language_server.Dove.Meta.Skipped.{
  skipped_bind, skipped_binds, skipped_exp, skipped_exps, skipped_opt_exp, skipped_sequence,
  skipped_body, skipped_function, skipped_member, skipped_members,
}
use move_language_server.Base.Classes.{eqb, nat_eq, pair_eq}
use move_language_server.Base.{Bool-cases, inl, inr}
use move_language_server.Executor.Tags.{ModuleId, bytes_eq}
use move_language_server.Dove.Meta.{imported}

-- The names `all`, in any order, are `found` and `skipped`.
data Splits : Mentioned → Mentioned → Mentioned → Type 0 where
  same : {xs : Mentioned} → Splits xs xs []
  hidden : {xs : Mentioned} → Splits xs [] xs
  rest_hidden : (xs ys : Mentioned) → Splits (xs ++ ys) xs ys
  keep : (ks : Mentioned) {xs ys zs : Mentioned} → Splits xs ys zs → Splits (ks ++ xs) (ks ++ ys) zs
  before :
      {xs ys zs : Mentioned} → Splits xs ys zs → (ks : Mentioned) → Splits (xs ++ ks) (ys ++ ks) zs
  tail_hidden :
      {xs ys zs : Mentioned} → Splits xs ys zs → (ks : Mentioned) → Splits (xs ++ ks) ys (zs ++ ks)
  join :
      {ks bs cs xs ys zs : Mentioned}
      → Splits ks bs cs
      → Splits xs ys zs
      → Splits (ks ++ xs) (bs ++ ys) (cs ++ zs)

mutual
  unfolding in_bind in_binds all_bind all_binds skipped_bind skipped_binds

  bind_splits : (b : Bind) → Splits (all_bind b) (in_bind b) (skipped_bind b)
  bind_splits (var _) = same
  bind_splits (unpack access none binds) = rest_hidden (in_access access) (all_binds binds)
  bind_splits (unpack access (some types) binds) =
      keep (in_access access) (keep (in_types types) (binds_splits binds))

  binds_splits : (bs : Binds) → Splits (all_binds bs) (in_binds bs) (skipped_binds bs)
  binds_splits no_binds = same
  binds_splits (more_binds b binds) = join (bind_splits b) (binds_splits binds)

mutual
  unfolding in_exp in_exps in_opt_exp in_sequence all_exp all_exps all_opt_exp all_sequence
      skipped_exp skipped_exps skipped_opt_exp skipped_sequence

  exp_splits : (e : Exp) → Splits (all_exp e) (in_exp e) (skipped_exp e)
  exp_splits value = same
  exp_splits move = same
  exp_splits copy = same
  exp_splits unit_exp = same
  exp_splits break = same
  exp_splits continue = same
  exp_splits (lambda binds e) = hidden
  exp_splits spec = same
  exp_splits (index a b) = hidden
  exp_splits inferred_num = same
  exp_splits unresolved_error = same
  exp_splits (call access types exps) =
      keep (in_access access) (keep (in_opt_types types) (exps_splits exps))
  exp_splits (pack access types exps) =
      keep (in_access access) (keep (in_opt_types types) (exps_splits exps))
  exp_splits (if_else eb et ef) = join (exp_splits eb) (join (exp_splits et) (opt_exp_splits ef))
  exp_splits (while eb eloop) = join (exp_splits eb) (exp_splits eloop)
  exp_splits (block us sequence exp) =
      keep (in_uses us) (join (sequence_splits sequence) (opt_exp_splits exp))
  exp_splits (exp_list exps) = exps_splits exps
  exp_splits (assign a e) = join (exp_splits a) (exp_splits e)
  exp_splits (abort e) = exp_splits e
  exp_splits (dereference e) = exp_splits e
  exp_splits (loop e) = exp_splits e
  exp_splits (unary_exp e) = exp_splits e
  exp_splits (borrow e) = exp_splits e
  exp_splits (dot e) = exp_splits e
  exp_splits (annotate e t) = tail_hidden (exp_splits e) (in_type t)
  exp_splits (return e) = opt_exp_splits e
  exp_splits (binop_exp e1 e2) = join (exp_splits e1) (exp_splits e2)
  exp_splits (name access types) = same
  exp_splits (cast e t) = before (exp_splits e) (in_type t)

  exps_splits : (es : Exps) → Splits (all_exps es) (in_exps es) (skipped_exps es)
  exps_splits no_exps = same
  exps_splits (more_exps e exps) = join (exp_splits e) (exps_splits exps)

  opt_exp_splits : (e : OptExp) → Splits (all_opt_exp e) (in_opt_exp e) (skipped_opt_exp e)
  opt_exp_splits no_exp = same
  opt_exp_splits (some_exp e) = exp_splits e

  sequence_splits : (s : Sequence) → Splits (all_sequence s) (in_sequence s) (skipped_sequence s)
  sequence_splits end_sequence = same
  sequence_splits (seq e rest) = join (exp_splits e) (sequence_splits rest)
  sequence_splits (declare binds t rest) =
      join (binds_splits binds) (keep (in_opt_type t) (sequence_splits rest))
  sequence_splits (bind binds t e rest) =
      join (binds_splits binds) (keep (in_opt_type t) (join (exp_splits e) (sequence_splits rest)))

body_splits : (b : FunctionBody) → Splits (all_body b) (in_body b) (skipped_body b)
body_splits (defined us sequence exp) =
    keep (in_uses us) (join (sequence_splits sequence) (opt_exp_splits exp))
body_splits native_body = same

function_splits : (f : Function) → Splits (all_function f) (in_function f) (skipped_function f)
function_splits func =
    keep ((in_parameters func.parameters ++ in_outer_type func.return_type)) (body_splits func.body)

member_splits : (m : ModuleMember) → Splits (all_member m) (in_member m) (skipped_member m)
member_splits (use_member u) = same
member_splits (function_member func) = function_splits func
member_splits (struct_member (defined_fields types)) = same
member_splits (struct_member native_fields) = same
member_splits spec_member = same
member_splits (constant_member t e) = keep (in_outer_type t) (exp_splits e)

members_splits :
    (ms : List ModuleMember) → Splits (all_members ms) (in_members ms) (skipped_members ms)
members_splits [] = same
members_splits (member ∷ members) = join (member_splits member) (members_splits members)

imported-append :
    (id : ModuleId) (xs ys : Mentioned) → imported id (xs ++ ys) ≡ imported id xs || imported id ys
unfolding imported
imported-append id [] ys = refl
imported-append id (x ∷ xs) ys = elim (Bool-cases (eqb x id)) [
  | inl y ↦ rw y refl
  | inr n ↦ rw n (imported-append id xs ys)
]

or_false : (b : Bool) → b ≡ b || false
or_false true = refl
or_false false = refl

or_keep : (a b c d : Bool) → b ≡ c || d → a || b ≡ (a || c) || d
or_keep true b c d h = refl
or_keep false b c d h = h

or_before : (a b c d : Bool) → b ≡ c || d → b || a ≡ (c || a) || d
or_before true true c d h = ground arith
or_before true false c d h = ground arith
or_before false b true d h = ground arith
or_before false b false d h = ground arith

or_tail : (a b c d : Bool) → b ≡ c || d → b || a ≡ c || (d || a)
or_tail a b true d h = ground arith
or_tail a b false true h = ground arith
or_tail a b false false h = ground arith

or_join : (a b c x y z : Bool) → a ≡ b || c → x ≡ y || z → a || x ≡ (b || y) || (c || z)
or_join a true c x y z h k = ground arith
or_join a false true x true z h k = ground arith
or_join a false true x false z h k = ground arith
or_join a false false x y z h k = ground arith

imported-Splits :
    (id : ModuleId) (xs ys zs : Mentioned)
    → Splits xs ys zs
    → imported id xs ≡ imported id ys || imported id zs
unfolding imported
imported-Splits id _ ys _ same = or_false (imported id ys)
imported-Splits id _ _ zs hidden = refl
imported-Splits id _ _ _ (rest_hidden xs ys) = imported-append id xs ys
imported-Splits id _ _ _ (keep ks {xs} {ys} {zs} s) =
    rw (imported-append id ks xs, imported-append id ks ys)
      (or_keep (imported id ks) (imported id xs) (imported id ys) (imported id zs)
        (imported-Splits id xs ys zs s))
imported-Splits id _ _ _ (before {xs} {ys} {zs} s ks) =
    rw (imported-append id xs ks, imported-append id ys ks)
      (or_before (imported id ks) (imported id xs) (imported id ys) (imported id zs)
        (imported-Splits id xs ys zs s))
imported-Splits id _ _ _ (tail_hidden {xs} {ys} {zs} s ks) =
    rw (imported-append id xs ks, imported-append id zs ks)
      (or_tail (imported id ks) (imported id xs) (imported id ys) (imported id zs)
        (imported-Splits id xs ys zs s))
imported-Splits id _ _ _ (join {ks} {bs} {cs} {xs} {ys} {zs} s t) =
    rw (imported-append id ks xs, imported-append id bs ys, imported-append id cs zs)
      (or_join (imported id ks) (imported id bs) (imported id cs) (imported id xs) (imported id ys)
        (imported id zs) (imported-Splits id ks bs cs s) (imported-Splits id xs ys zs t))

pub imported-all_members :
    (id : ModuleId) (ms : List ModuleMember)
    → imported id (all_members ms) ≡ imported id (in_members ms) || imported id (skipped_members ms)
imported-all_members id ms = imported-Splits id _ _ _ (members_splits ms)
