-- ===== src/Disassembler/Translator/Build.antt =====
-- The expressions that one instruction makes: lang/disassembler/src/code/exp.
use move_language_server.Base.{
  ℕ, zero, suc, Bool, false, List, [], ◌∷◌, Option, none, some, map, length, get_elem?,
}
use move_language_server.Disassembler.Outcome.{Outcome, ok, if_let, ◌>>=◌}
use move_language_server.Disassembler.Unit.{
  MoveValue, address_value, vector_value, module_handle, identifier, function_handle, signature,
  struct_handle, struct_def, field_handle, constant, FieldHandle, StructDefinition,
}
use move_language_server.Disassembler.Exp.{
  Exp, ExpLoc, at, ExpLocs, no_exps, more_exps, Op, address_ld, vector_ld, BuildIn,
  parameters_count, LocAccess, Local, param, var, binary_exp, basket_exp, ld_exp, error_exp,
  local_exp, ref_exp, write_ref_exp, let_exp, nop_exp, ret_exp, plain_exp, build_in_exp, pack_exp,
  unpack_exp, field_ref_exp, pack_code, ld_const_code,
}
use move_language_server.Disassembler.Translator.{
  Setting, Translator, pop_exp, pop2_exp, pop_exp_vec, module_import, extract_signature, local_var,
  identifiers_at, zip_fields, pack_fields, err, minus, loc, followed, nops,
}

-- What makes an expression changes the translator.
abbrev pub Builds : Type 0
Builds = Translator → Outcome (Exp × Translator)

abbrev pub gives : Exp → Builds
gives exp t = ok (exp, t)

-- Of one operand.
unfoldable pub unary : (ExpLoc → Exp) → Builds
unfolding pop_exp
unary f t = let (exp, t1) = pop_exp t in ok (f exp, t1)

unfoldable pub basket : ExpLoc → ExpLoc
basket (at index (binary_exp left sign right)) =
    at index (basket_exp (at index (binary_exp left sign right)))
basket exp = exp

-- BinaryOp::exp
unfoldable pub binary_op : Op → Builds
unfolding pop2_exp basket
binary_op sign t =
    let ((left, right), t1) = pop2_exp t in ok (binary_exp (basket left) sign (basket right), t1)

-- WriteRef::exp
unfoldable pub write_ref : Builds
unfolding pop2_exp
write_ref t = let ((val, val_ref), t1) = pop2_exp t in ok (write_ref_exp val val_ref, t1)

abbrev pub value_of : ExpLoc → Exp
value_of (at index exp) = exp

abbrev pub all_bytes : List (Option ℕ) → Option (List ℕ)
all_bytes [] = some []
all_bytes (none ∷ vs) = none
all_bytes (some v ∷ vs) = elim (all_bytes vs) [ none ↦ none | some bs ↦ some (v ∷ bs) ]

unfoldable pub constant_exp : ℕ → Option MoveValue → Exp
constant_exp index (some (address_value addr)) = ld_exp (address_ld addr)
constant_exp index (some (vector_value v)) = elim (all_bytes v) [
  | some val ↦ ld_exp (vector_ld val)
  | none ↦ error_exp (ld_const_code index)
]
constant_exp index _ = error_exp (ld_const_code index)

abbrev pub flag : Local → ℕ
flag (param p) = p.used
flag (var v) = v.used

-- Local::mark_as_used
abbrev pub mark_as_used : Local → Translator → Translator
mark_as_used l t = record t { used = flag l ∷ t.used }

module _ (s : Setting) where
  unfoldable pub ld_const : ℕ → Builds
  unfolding constant_exp
  ld_const index t = constant s.unit index >>= λ value. ok (constant_exp index value, t)

  -- Loc::exp
  unfoldable pub loc_exp : Bool → LocAccess → ℕ → Builds
  unfolding local_var
  loc_exp explicit access index t =
      local_var s index >>= λ l. ok (local_exp explicit access l, mark_as_used l t)

  -- Ref::exp
  unfoldable pub reference_exp : ℕ → Bool → Builds
  unfolding local_var
  reference_exp index is_mut t = local_var s index >>= λ l. ok (ref_exp is_mut l, mark_as_used l t)

  -- What is assigned, and what is left: the last expression, unless there is none or it is itself
  -- an assignment.
  unfoldable pub assigned : List ExpLoc → Translator → ExpLoc × Translator
  unfolding pop_exp
  assigned [] t = (loc t nop_exp, t)
  assigned (at i (let_exp l e) ∷ exps) t = (loc t nop_exp, t)
  assigned (exp ∷ exps) t = pop_exp t

  -- Let::exp
  unfoldable pub let_of : ℕ → Builds
  unfolding local_var assigned
  let_of index t =
      local_var s index >>= λ l. let (exp, t1) = assigned t.expressions t in ok (let_exp l exp, t1)

  -- The expression popped last comes first.
  unfoldable pub pops : ℕ → ExpLocs → Translator → ExpLocs × Translator
  unfolding pop_exp
  pops zero exps t = (exps, t)
  pops (suc n) exps t = let (exp, t1) = pop_exp t in pops n (more_exps exp exps) t1

  -- Ret::exp
  unfoldable pub ret : Builds
  unfolding pops
  ret t = let (ret_list, t1) = pops s.ret_len no_exps t in ok (ret_exp ret_list false, t1)

  -- FnCall::plain
  unfoldable pub plain : ℕ → Option ℕ → Builds
  unfolding pop_exp_vec extract_signature module_import
  plain f_index type_params t = do
    handler ← function_handle s.unit f_index
    f_name ← identifier s.unit handler.name
    parameters ← signature s.unit handler.parameters
    (params, t1) ← ok (pop_exp_vec (length parameters) t)
    types ← extract_signature s type_params
    handle ← module_handle s.unit handler.module_idx
    import ← module_import s handle
    ok (plain_exp import f_name types params, t1)

  -- FnCall::build_in
  unfoldable pub build_in : BuildIn → ℕ → Option ℕ → Builds
  unfolding pop_exp_vec extract_signature module_import parameters_count
  build_in kind index type_params t = do
    found ← struct_def s.unit index
    if_let found (ok (err t, t)) (λ def. do
      struct_handler ← struct_handle s.unit def.struct_handle
      handle ← module_handle s.unit struct_handler.module_idx
      import ← module_import s handle
      (params, t1) ← ok (pop_exp_vec (parameters_count kind) t)
      types ← extract_signature s type_params
      name ← identifier s.unit struct_handler.name
      ok (build_in_exp kind (record { name = name; import = import }) types params, t1))

  -- Pack::exp
  unfoldable pub pack : ℕ → Option ℕ → Builds
  unfolding pack_fields extract_signature module_import
  pack index type_params t = do
    found ← struct_def s.unit index
    if_let found (ok (error_exp (pack_code index), t)) (λ def. do
      struct_handler ← struct_handle s.unit def.struct_handle
      handle ← module_handle s.unit struct_handler.module_idx
      name ← identifier s.unit struct_handler.name
      (fields, t1) ← pack_fields s def t
      types ← extract_signature s type_params
      import ← module_import s handle
      ok (pack_exp import name types fields, t1))

  abbrev pub field_names : StructDefinition → Outcome (List (List ℕ))
  field_names def =
      if_let def.field_information (ok [])
        (λ fields. identifiers_at s (map (λ field. field.name) fields))

  -- Unpack::exp; `translate_block` gives the expressions of a block, the last one first.
  unfoldable pub unpack :
      (ℕ → Translator → Outcome (List ExpLoc × Translator)) → ℕ → Option ℕ → Builds
  unfolding pop_exp zip_fields extract_signature module_import minus identifiers_at followed nops
  unpack translate_block index type_params t = do
    found ← struct_def s.unit index
    if_let found (ok (err t, t)) (λ def. do
      struct_handler ← struct_handle s.unit def.struct_handle
      handle ← module_handle s.unit struct_handler.module_idx
      name ← identifier s.unit struct_handler.name
      types ← extract_signature s type_params
      names ← field_names def
      (expressions, t1) ← translate_block (length names) t
      missing ← minus (length names) (length expressions)
      import ← module_import s handle
      (source, t2) ← ok (pop_exp t1)
      values ← ok (followed expressions (nops missing (loc t1 nop_exp)))
      ok (unpack_exp import name types (zip_fields names values) source, t2))

  unfoldable pub field_ref_of : Bool → FieldHandle → StructDefinition → Builds
  unfolding pop_exp
  field_ref_of is_mut field def t = if_let def.field_information (ok (nop_exp, t)) (λ fields.
      if_let (get_elem? fields field.field) (ok (nop_exp, t)) (λ definition. do
        field_name ← identifier s.unit definition.name
        let (instance_exp, t1) = pop_exp t in
            ok (field_ref_exp is_mut field_name instance_exp, t1)))

  -- FieldRef::exp
  unfoldable pub field_ref : ℕ → Bool → Builds
  unfolding field_ref_of
  field_ref index is_mut t = do
    found ← field_handle s.unit index
    if_let found (ok (err t, t)) (λ field. do
      owner ← struct_def s.unit field.owner
      if_let owner (ok (err t, t)) (λ def. field_ref_of is_mut field def t))
