-- ===== src/Disassembler/Translator/Run.antt =====
-- The translation of code: `translate` and `next_exp` of lang/disassembler/src/code/translator.rs,
-- and `Body::new` of body.rs.
use move_language_server.Base.{
  ℕ, zero, suc, ◌+◌, Bool, true, false, List, [], ◌∷◌, ◌++◌, Option, none, some, ltb, length,
}
use move_language_server.Disassembler.Outcome.{Outcome, ok, if_let, out_of_fuel, ◌>>=◌}
use move_language_server.Disassembler.Unit.{
  SignatureToken, CompiledUnit, function_instantiation, struct_def_instantiation,
  field_instantiation,
}
use move_language_server.Disassembler.Imports.{Imports}
use move_language_server.Disassembler.Types.{Generic, FType, signature_types}
use move_language_server.Disassembler.Exp.{
  abort_code, add_code, and_code, bit_and_code, bit_or_code, br_false_code, br_true_code,
  branch_code, call_code, call_generic_code, cast_u128_code, cast_u64_code, cast_u8_code,
  copy_loc_code, div_code, eq_code, exists_code, exists_generic_code, freeze_ref_code, ge_code,
  gt_code, imm_borrow_field_code, imm_borrow_field_generic_code, imm_borrow_global_code,
  imm_borrow_global_generic_code, imm_borrow_loc_code, ld_const_code, ld_false_code, ld_true_code,
  ld_u128_code, ld_u64_code, ld_u8_code, le_code, lt_code, mod_code, move_from_code,
  move_from_generic_code, move_loc_code, move_to_code, move_to_generic_code, mul_code,
  mut_borrow_field_code, mut_borrow_field_generic_code, mut_borrow_global_code,
  mut_borrow_global_generic_code, mut_borrow_loc_code, neq_code, nop_code, not_code, or_code,
  pack_code, pack_generic_code, pop_code, read_ref_code, ret_code, shl_code, shr_code, st_loc_code,
  sub_code, unpack_code, unpack_generic_code, write_ref_code, xor_code, Bytecode, Exp, ExpLoc,
  ExpLocs, no_exps, Local, var, param, Param, mod_op, or_op, and_op, add, sub, mul, div, bit_or,
  bit_and, xor, eq, neq, lt, gt, le, ge, shl, shr, u8, u64, u128, bool_ld, u8_type, u64_type,
  u128_type, cast_exp, nop_exp, not_exp, abort_exp, deref_exp, ld_exp, error_exp, exists_fn,
  move_from, move_to, borrow_global, borrow_global_mut, copy_access, move_access,
}
use move_language_server.Disassembler.Translator.{
  Setting, Translator, new_translator, new_iterator, opcode_offset, head, loc, in_order,
}
use move_language_server.Disassembler.Translator.Build.{
  Builds, gives, unary, binary_op, write_ref, value_of, ld_const, loc_exp, reference_exp, let_of,
  ret, plain, build_in, pack, unpack, field_ref,
}
use move_language_server.Disassembler.Translator.Branching.{br_true, br_false, br, next_opcode}

module _ (s : Setting) where
  -- What a generic instruction is of the instance's definition; a script has none.
  unfoldable pub with_struct : Bytecode → ℕ → (ℕ → Option ℕ → Builds) → Builds
  with_struct opcode index f t = do
    found ← struct_def_instantiation s.unit index
    if_let found (ok (error_exp opcode, t)) (λ inst. f inst.def (some inst.type_parameters) t)

  unfoldable pub with_field : Bytecode → ℕ → Bool → Builds
  with_field opcode index is_mut t = do
    found ← field_instantiation s.unit index
    if_let found (ok (error_exp opcode, t)) (λ handle. field_ref s handle is_mut t)

  unfoldable pub call_generic : ℕ → Builds
  call_generic index t = do
    inst ← function_instantiation s.unit index
    plain s inst.handle (some inst.type_parameters) t

unfoldable pub next_exp :
    Setting → (ℕ → Translator → Outcome (List ExpLoc × Translator)) → Bytecode → Builds
unfolding unary binary_op write_ref ld_const loc_exp reference_exp let_of ret plain build_in pack
    unpack field_ref br_true br_false br with_struct with_field call_generic
next_exp s run pop_code t = gives nop_exp t
next_exp s run not_code t = unary not_exp t
next_exp s run abort_code t = unary abort_exp t
next_exp s run add_code t = binary_op add t
next_exp s run sub_code t = binary_op sub t
next_exp s run mul_code t = binary_op mul t
next_exp s run mod_code t = binary_op mod_op t
next_exp s run div_code t = binary_op div t
next_exp s run bit_or_code t = binary_op bit_or t
next_exp s run bit_and_code t = binary_op bit_and t
next_exp s run xor_code t = binary_op xor t
next_exp s run or_code t = binary_op or_op t
next_exp s run and_code t = binary_op and_op t
next_exp s run eq_code t = binary_op eq t
next_exp s run neq_code t = binary_op neq t
next_exp s run lt_code t = binary_op lt t
next_exp s run gt_code t = binary_op gt t
next_exp s run le_code t = binary_op le t
next_exp s run ge_code t = binary_op ge t
next_exp s run shl_code t = binary_op shl t
next_exp s run shr_code t = binary_op shr t
next_exp s run nop_code t = gives nop_exp t
next_exp s run ret_code t = ret s t
next_exp s run cast_u8_code t = unary (λ exp. cast_exp exp u8_type) t
next_exp s run cast_u64_code t = unary (λ exp. cast_exp exp u64_type) t
next_exp s run cast_u128_code t = unary (λ exp. cast_exp exp u128_type) t
next_exp s run (ld_u8_code val) t = gives (ld_exp (u8 val)) t
next_exp s run (ld_u64_code val) t = gives (ld_exp (u64 val)) t
next_exp s run (ld_u128_code val) t = gives (ld_exp (u128 val)) t
next_exp s run (ld_const_code index) t = ld_const s index t
next_exp s run ld_true_code t = gives (ld_exp (bool_ld true)) t
next_exp s run ld_false_code t = gives (ld_exp (bool_ld false)) t
next_exp s run (call_code index) t = plain s index none t
next_exp s run (call_generic_code index) t = call_generic s index t
next_exp s run (exists_code index) t = build_in s exists_fn index none t
next_exp s run (exists_generic_code index) t =
    with_struct s (exists_generic_code index) index (build_in s exists_fn) t
next_exp s run (move_from_code index) t = build_in s move_from index none t
next_exp s run (move_from_generic_code index) t =
    with_struct s (move_from_generic_code index) index (build_in s move_from) t
next_exp s run (move_to_code index) t = build_in s move_to index none t
next_exp s run (move_to_generic_code index) t =
    with_struct s (move_to_generic_code index) index (build_in s move_to) t
next_exp s run (imm_borrow_global_code index) t = build_in s borrow_global index none t
next_exp s run (imm_borrow_global_generic_code index) t =
    with_struct s (imm_borrow_global_generic_code index) index (build_in s borrow_global) t
next_exp s run (mut_borrow_global_code index) t = build_in s borrow_global_mut index none t
next_exp s run (mut_borrow_global_generic_code index) t =
    with_struct s (mut_borrow_global_generic_code index) index (build_in s borrow_global_mut) t
next_exp s run (copy_loc_code index) t = loc_exp s false copy_access index t
next_exp s run (move_loc_code index) t = loc_exp s false move_access index t
next_exp s run (st_loc_code index) t = let_of s index t
next_exp s run (pack_code index) t = pack s index none t
next_exp s run (pack_generic_code index) t =
    with_struct s (pack_generic_code index) index (pack s) t
next_exp s run (unpack_code def) t = unpack s run def none t
next_exp s run (unpack_generic_code index) t =
    with_struct s (unpack_generic_code index) index (unpack s run) t
next_exp s run (mut_borrow_field_code index) t = field_ref s index true t
next_exp s run (mut_borrow_field_generic_code index) t =
    with_field s (mut_borrow_field_generic_code index) index true t
next_exp s run (imm_borrow_field_code index) t = field_ref s index false t
next_exp s run (imm_borrow_field_generic_code index) t =
    with_field s (imm_borrow_field_generic_code index) index false t
next_exp s run freeze_ref_code t = unary value_of t
next_exp s run (mut_borrow_loc_code index) t = reference_exp s index true t
next_exp s run (imm_borrow_loc_code index) t = reference_exp s index false t
next_exp s run read_ref_code t = unary deref_exp t
next_exp s run write_ref_code t = write_ref t
next_exp s run (br_true_code true_offset) t = br_true s run true_offset t
next_exp s run (br_false_code offset) t = br_false offset t
next_exp s run (branch_code offset) t = br offset t

-- `self.expressions.push(ExpLoc::new(self.opcode_iter.index(), exp))`
abbrev pub push : Exp → Translator → Translator
push exp t = record t { expressions = loc t exp ∷ t.expressions }

-- Context::translate_block, given `translate`: the iterator and the marks are shared.
unfoldable pub block_with :
    (Translator → Outcome Translator) → ℕ → Translator → Outcome (List ExpLoc × Translator)
block_with translate block_size t = do
  done ← translate (new_translator t.opcode_iter t.used block_size)
  ok (done.expressions, record t { opcode_iter = done.opcode_iter; used = done.used })

-- Translator::translate: each turn of the loop, also of a block's, takes one unit of fuel.
unfoldable pub translate : Setting → ℕ → Translator → Outcome Translator
unfolding next_exp block_with
translate s zero t = out_of_fuel
translate s (suc fuel) t = elim (ltb (opcode_offset t) t.end_offset) [
  | false ↦ ok t
  | true ↦ elim (head t.opcode_iter.iter) [
    | none ↦ ok (next_opcode t)
    | some opcode ↦ do
      (exp, t1) ← next_exp s (block_with (translate s fuel)) opcode (next_opcode t)
      translate s fuel (push exp t1)
  ]
]

-- The locals that are declared in the body, from a number and a flag on.
unfoldable pub vars : ℕ → ℕ → List FType → List Local
vars flags index [] = []
vars flags index (t ∷ ts) =
    var (record { used = flags; index = index; f_type = t }) ∷ vars (flags + 1) (index + 1) ts

abbrev pub params_as_locals : List Param → List Local
params_as_locals [] = []
params_as_locals (p ∷ params) = param p ∷ params_as_locals params

-- Locals::new
unfoldable pub new_locals :
    CompiledUnit → Imports → List Generic → List Param → List SignatureToken → Outcome (List Local)
unfolding vars
new_locals unit imports type_params params sign = do
  types ← signature_types unit imports type_params sign
  ok (params_as_locals params ++ vars (length params) 0 types)

pub record Body : Type 0 where
  pub block_exps : ExpLocs
  pub locals : List Local
  pub used : List ℕ

-- Body::new, given the locals; fuel for one more turn than there are instructions.
unfoldable pub new_body : Setting → List Bytecode → Outcome Body
unfolding translate in_order
new_body s code = do
  done ← translate s (length code + 1) (new_translator (new_iterator code) [] (length code))
  ok (record {
    block_exps = in_order done.expressions no_exps;
    locals = s.locals;
    used = done.used;
  })
