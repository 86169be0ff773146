-- ===== src/Disassembler/Translator/Trees.antt =====
-- The code that the compiler of Move makes of an expression without branches, operands first, and
-- the expression that the translator should find in it.
pub mod Steps
pub mod Laws
pub mod Bodies
pub mod Assembly
use move_language_server.Base.{ℕ, suc, Bool, true, false, List, [], ◌∷◌, Option, ◌≡◌, length}
use move_language_server.Base.Text.{Bytes}
use move_language_server.Disassembler.Outcome.{ok}
use move_language_server.Disassembler.Unit.{
  ModuleHandle, FunctionHandle, SignatureToken, function_handle, identifier, signature,
  module_handle,
}
use move_language_server.Disassembler.Imports.{ImportName}
use move_language_server.Disassembler.Exp
use move_language_server.Disassembler.Exp.{
  Bytecode, Exp, ExpLoc, at, ExpLocs, no_exps, more_exps, Op, Local, LocAccess, Ld,
}
use move_language_server.Disassembler.Translator.{Setting, local_var, module_import}
use move_language_server.Disassembler.Translator.Build.{basket, flag}

pub data Leaf : Type 0 where
  u8_leaf u64_leaf u128_leaf : ℕ → Leaf
  bool_leaf : Bool → Leaf
  copy_leaf move_leaf : ℕ → Local → Leaf
  borrow_leaf : Bool → ℕ → Local → Leaf

pub data Unary : Type 0 where
  not_of read_of to_u8 to_u64 to_u128 : Unary

-- A local is given by its index and what stands there; a call by the index of its function, and
-- the module and the name that are found for it.
mutual
  pub data Tree : Type 0 where
    leaf : Leaf → Tree
    unary_tree : Unary → Tree → Tree
    binary_tree : Op → Tree → Tree → Tree
    call_tree : ℕ → Option ImportName → Bytes → Trees → Tree

  pub data Trees : Type 0 where
    no_trees : Trees
    more_trees : Tree → Trees → Trees

abbrev pub leaf_code : Leaf → Bytecode
leaf_code (u8_leaf n) = Exp.ld_u8_code n
leaf_code (u64_leaf n) = Exp.ld_u64_code n
leaf_code (u128_leaf n) = Exp.ld_u128_code n
leaf_code (bool_leaf true) = Exp.ld_true_code
leaf_code (bool_leaf false) = Exp.ld_false_code
leaf_code (copy_leaf i l) = Exp.copy_loc_code i
leaf_code (move_leaf i l) = Exp.move_loc_code i
leaf_code (borrow_leaf true i l) = Exp.mut_borrow_loc_code i
leaf_code (borrow_leaf false i l) = Exp.imm_borrow_loc_code i

abbrev pub unary_code : Unary → Bytecode
unary_code not_of = Exp.not_code
unary_code read_of = Exp.read_ref_code
unary_code to_u8 = Exp.cast_u8_code
unary_code to_u64 = Exp.cast_u64_code
unary_code to_u128 = Exp.cast_u128_code

abbrev pub op_code : Op → Bytecode
op_code Exp.add = Exp.add_code
op_code Exp.sub = Exp.sub_code
op_code Exp.mul = Exp.mul_code
op_code Exp.mod_op = Exp.mod_code
op_code Exp.div = Exp.div_code
op_code Exp.bit_or = Exp.bit_or_code
op_code Exp.bit_and = Exp.bit_and_code
op_code Exp.xor = Exp.xor_code
op_code Exp.or_op = Exp.or_code
op_code Exp.and_op = Exp.and_code
op_code Exp.eq = Exp.eq_code
op_code Exp.neq = Exp.neq_code
op_code Exp.lt = Exp.lt_code
op_code Exp.gt = Exp.gt_code
op_code Exp.le = Exp.le_code
op_code Exp.ge = Exp.ge_code
op_code Exp.shl = Exp.shl_code
op_code Exp.shr = Exp.shr_code

-- The code of a tree, before more code.
unfoldable mutual
  pub compile : Tree → List Bytecode → List Bytecode
  compile (leaf l) more = leaf_code l ∷ more
  compile (unary_tree u e) more = compile e (unary_code u ∷ more)
  compile (binary_tree op l r) more = compile l (compile r (op_code op ∷ more))
  compile (call_tree index import name args) more = compile_all args (Exp.call_code index ∷ more)

  pub compile_all : Trees → List Bytecode → List Bytecode
  compile_all no_trees more = more
  compile_all (more_trees e es) more = compile e (compile_all es more)

-- A number, and one more for each instruction.
unfoldable mutual
  pub after : ℕ → Tree → ℕ
  after p (leaf l) = suc p
  after p (unary_tree u e) = suc (after p e)
  after p (binary_tree op l r) = suc (after (after p l) r)
  after p (call_tree index import name args) = suc (after_all p args)

  pub after_all : ℕ → Trees → ℕ
  after_all p no_trees = p
  after_all p (more_trees e es) = after_all (after p e) es

abbrev pub leaf_exp : Leaf → Exp
leaf_exp (u8_leaf n) = Exp.ld_exp (Exp.u8 n)
leaf_exp (u64_leaf n) = Exp.ld_exp (Exp.u64 n)
leaf_exp (u128_leaf n) = Exp.ld_exp (Exp.u128 n)
leaf_exp (bool_leaf b) = Exp.ld_exp (Exp.bool_ld b)
leaf_exp (copy_leaf i l) = Exp.local_exp false Exp.copy_access l
leaf_exp (move_leaf i l) = Exp.local_exp false Exp.move_access l
leaf_exp (borrow_leaf is_mut i l) = Exp.ref_exp is_mut l

abbrev pub unary_exp : Unary → ExpLoc → Exp
unary_exp not_of e = Exp.not_exp e
unary_exp read_of e = Exp.deref_exp e
unary_exp to_u8 e = Exp.cast_exp e Exp.u8_type
unary_exp to_u64 e = Exp.cast_exp e Exp.u64_type
unary_exp to_u128 e = Exp.cast_exp e Exp.u128_type

-- The expression of a tree whose code starts at a position: each part with the index of its own
-- instruction, an operation that is an operand of an operation in parentheses.
unfoldable mutual
  unfolding after basket

  pub shown : ℕ → Tree → ExpLoc
  shown p (leaf l) = at p (leaf_exp l)
  shown p (unary_tree u e) = at (after p e) (unary_exp u (shown p e))
  shown p (binary_tree op l r) =
      at (after (after p l) r)
        (Exp.binary_exp (basket (shown p l)) op (basket (shown (after p l) r)))
  shown p (call_tree index import name args) =
      at (after_all p args) (Exp.plain_exp import name [] (shown_all p args))

  pub shown_all : ℕ → Trees → ExpLocs
  shown_all p no_trees = no_exps
  shown_all p (more_trees e es) = more_exps (shown p e) (shown_all (after p e) es)

abbrev pub leaf_marks : Leaf → List ℕ → List ℕ
leaf_marks (copy_leaf i l) used = flag l ∷ used
leaf_marks (move_leaf i l) used = flag l ∷ used
leaf_marks (borrow_leaf is_mut i l) used = flag l ∷ used
leaf_marks _ used = used

-- The flags of the locals that a tree names, before others.
unfoldable mutual
  pub marks : Tree → List ℕ → List ℕ
  marks (leaf l) used = leaf_marks l used
  marks (unary_tree u e) used = marks e used
  marks (binary_tree op l r) used = marks r (marks l used)
  marks (call_tree index import name args) used = marks_all args used

  pub marks_all : Trees → List ℕ → List ℕ
  marks_all no_trees used = used
  marks_all (more_trees e es) used = marks_all es (marks e used)

abbrev pub count : Trees → ℕ
count no_trees = 0
count (more_trees e es) = suc (count es)

-- The tables have the function of this index, with this import, name and number of parameters.
pub record Callee (s : Setting) (index : ℕ) (import : Option ImportName) (name : Bytes)
    (parameters_len : ℕ) : Type 0 where
  pub handler : FunctionHandle
  pub parameters : List SignatureToken
  pub handle : ModuleHandle
  pub handler_eq : function_handle s.unit index ≡ ok handler
  pub name_eq : identifier s.unit handler.name ≡ ok name
  pub parameters_eq : signature s.unit handler.parameters ≡ ok parameters
  pub handle_eq : module_handle s.unit handler.module_idx ≡ ok handle
  pub import_eq : module_import s handle ≡ ok import
  pub length_eq : length parameters ≡ parameters_len

abbrev pub LeafFits : Setting → Leaf → Type 0
LeafFits s (copy_leaf i l) = local_var s i ≡ ok l
LeafFits s (move_leaf i l) = local_var s i ≡ ok l
LeafFits s (borrow_leaf is_mut i l) = local_var s i ≡ ok l
LeafFits s _ = Unit

-- What a tree says of the locals and the functions is so.
unfoldable mutual
  pub Fits : Setting → Tree → Type 0
  Fits s (leaf l) = LeafFits s l
  Fits s (unary_tree u e) = Fits s e
  Fits s (binary_tree op l r) = Fits s l × Fits s r
  Fits s (call_tree index import name args) =
      Callee s index import name (count args) × AllFit s args

  pub AllFit : Setting → Trees → Type 0
  AllFit s no_trees = Unit
  AllFit s (more_trees e es) = Fits s e × AllFit s es
