-- ===== src/Disassembler/Translator/Trees/Steps.antt =====
-- One turn of the translation on an instruction of a tree.
use move_language_server.Base.{
  ℕ, zero, suc, ◌≤◌, ◌<◌, ◌≡◌, refl, ap, ◌∙◌, arith, true, false, List, [], ◌∷◌, Option, none, some,
  lt→ltb,
}
use move_language_server.Disassembler.Outcome.{Outcome, ok, ◌>>=◌}
use move_language_server.Disassembler.Exp
use move_language_server.Disassembler.Exp.{
  Bytecode, Exp, ExpLoc, at, ExpLocs, no_exps, more_exps, Op,
}
use move_language_server.Disassembler.Translator.{
  Setting, Translator, pop_exp, pop2_exp, pop_exp_vec, next_index, or_zero, extract_signature,
}
use move_language_server.Disassembler.Translator.Build.{
  unary, binary_op, loc_exp, reference_exp, plain, basket,
}
use move_language_server.Disassembler.Translator.Run.{next_exp, block_with, translate, push}
use move_language_server.Disassembler.Translator.Trees.{
  Leaf, u8_leaf, u64_leaf, u128_leaf, bool_leaf, copy_leaf, move_leaf, borrow_leaf, Unary, not_of,
  read_of, to_u8, to_u64, to_u128, leaf_code, unary_code, op_code, leaf_exp, unary_exp, leaf_marks,
  Callee, LeafFits,
}
use move_language_server.Base.Text.{Bytes}
use move_language_server.Disassembler.Imports.{ImportName}

-- The index of the instruction before a position.
abbrev pub before : ℕ → Option ℕ
before zero = none
before (suc p) = some p

next_index-before : (p : ℕ) → next_index (before p) ≡ before (suc p)
next_index-before zero = refl
next_index-before (suc p) = ap some (omega arith)

-- The code to come is at a position.
abbrev pub at_position : List Bytecode → ℕ → List Bytecode → ℕ → List ExpLoc → List ℕ → Translator
at_position code end more p exps used = record {
  expressions = exps;
  opcode_iter = record { iter = more; index = before p; code = code };
  used = used;
  end_offset = end;
}

module _ (s : Setting) (code : List Bytecode) (end : ℕ) where
  abbrev pub then_go : ℕ → Exp × Translator → Outcome Translator
  then_go fuel (exp, t1) = translate s fuel (push exp t1)

  index_lt : (p : ℕ) → p ≤ end → 0 < end → or_zero (before p) < end
  index_lt zero h g = g
  index_lt (suc p) h g = h

  -- One turn of the loop.
  pub step :
      (opcode : Bytecode) (more : List Bytecode) (p fuel : ℕ) (exps : List ExpLoc) (used : List ℕ)
      → p ≤ end
      → 0 < end
      → translate s (suc fuel) (at_position code end (opcode ∷ more) p exps used) ≡ (
          next_exp s
            (block_with (translate s fuel))
            opcode
            (at_position code end more (suc p) exps used)
          >>= then_go fuel)
  unfolding translate
  step opcode more p fuel exps used h g =
      let y = lt→ltb _ _ (index_lt p h g) in rw (y, translate) (rw (next_index-before p) refl)

  -- An instruction that gives an expression.
  pub gives_step :
      (opcode : Bytecode) (more : List Bytecode) (p fuel : ℕ) (exps exps' : List ExpLoc)
      (used used' : List ℕ) (exp : Exp)
      → p ≤ end
      → 0 < end
      → next_exp s
          (block_with (translate s fuel))
          opcode
          (at_position code end more (suc p) exps used)
        ≡ ok (exp, at_position code end more (suc p) exps' used')
      → translate s (suc fuel) (at_position code end (opcode ∷ more) p exps used)
        ≡ translate s fuel (at_position code end more (suc p) (at p exp ∷ exps') used')
  unfolding ◌>>=◌
  gives_step opcode more p fuel exps exps' used used' exp h g e =
      step opcode more p fuel exps used h g ∙ ap (λ m. m >>= then_go fuel) e

  module _ (run : ℕ → Translator → Outcome (List ExpLoc × Translator)) (more : List Bytecode)
      (p : ℕ) where
    pub leaf_next :
        (l : Leaf) (exps : List ExpLoc) (used : List ℕ)
        → LeafFits s l
        → next_exp s run (leaf_code l) (at_position code end more p exps used)
          ≡ ok (leaf_exp l, at_position code end more p exps (leaf_marks l used))
    unfolding next_exp loc_exp reference_exp ◌>>=◌
    leaf_next (u8_leaf n) exps used h = refl
    leaf_next (u64_leaf n) exps used h = refl
    leaf_next (u128_leaf n) exps used h = refl
    leaf_next (bool_leaf true) exps used h = refl
    leaf_next (bool_leaf false) exps used h = refl
    leaf_next (copy_leaf i l) exps used h = rw h refl
    leaf_next (move_leaf i l) exps used h = rw h refl
    leaf_next (borrow_leaf true i l) exps used h = rw h refl
    leaf_next (borrow_leaf false i l) exps used h = rw h refl

    pub unary_next :
        (u : Unary) (e : ExpLoc) (exps : List ExpLoc) (used : List ℕ)
        → next_exp s run (unary_code u) (at_position code end more p (e ∷ exps) used)
          ≡ ok (unary_exp u e, at_position code end more p exps used)
    unfolding next_exp unary pop_exp
    unary_next not_of e exps used = refl
    unary_next read_of e exps used = refl
    unary_next to_u8 e exps used = refl
    unary_next to_u64 e exps used = refl
    unary_next to_u128 e exps used = refl

    pub binary_next :
        (op : Op) (l r : ExpLoc) (exps : List ExpLoc) (used : List ℕ)
        → next_exp s run (op_code op) (at_position code end more p (r ∷ l ∷ exps) used)
          ≡ ok (Exp.binary_exp (basket l) op (basket r), at_position code end more p exps used)
    unfolding next_exp binary_op pop2_exp pop_exp
    binary_next Exp.add l r exps used = refl
    binary_next Exp.sub l r exps used = refl
    binary_next Exp.mul l r exps used = refl
    binary_next Exp.mod_op l r exps used = refl
    binary_next Exp.div l r exps used = refl
    binary_next Exp.bit_or l r exps used = refl
    binary_next Exp.bit_and l r exps used = refl
    binary_next Exp.xor l r exps used = refl
    binary_next Exp.or_op l r exps used = refl
    binary_next Exp.and_op l r exps used = refl
    binary_next Exp.eq l r exps used = refl
    binary_next Exp.neq l r exps used = refl
    binary_next Exp.lt l r exps used = refl
    binary_next Exp.gt l r exps used = refl
    binary_next Exp.le l r exps used = refl
    binary_next Exp.ge l r exps used = refl
    binary_next Exp.shl l r exps used = refl
    binary_next Exp.shr l r exps used = refl

    pub call_next :
        (index n : ℕ) (import : Option ImportName) (name : Bytes) (args : ExpLocs)
        (exps exps' : List ExpLoc) (used : List ℕ)
        → Callee s index import name n
        → pop_exp_vec n (at_position code end more p exps used)
          ≡ (args, at_position code end more p exps' used)
        → next_exp s run (Exp.call_code index) (at_position code end more p exps used)
          ≡ ok (Exp.plain_exp import name [] args, at_position code end more p exps' used)
    unfolding next_exp plain extract_signature ◌>>=◌
    call_next index n import name args exps exps' used c e = rw c.handler_eq (
        rw c.name_eq
          (rw c.parameters_eq (rw c.length_eq (rw e (rw c.handle_eq (rw c.import_eq refl))))))
