-- ===== src/Disassembler/Translator/Branching.antt =====
-- lang/disassembler/src/code/exp/branching/mod.rs: conditionals and loops from conditional jumps.
use move_language_server.Base.{
  ℕ, ◌+◌, ◌==◌, Bool, true, false, List, [], ◌∷◌, Option, none, some, if◌then◌else◌, ltb, length,
}
use move_language_server.Disassembler.Outcome.{Outcome, ok, ◌>>=◌}
use move_language_server.Disassembler.Exp.{
  Bytecode, branch_code, br_false_code, Exp, ExpLoc, at, Block, block, no_exps, if_exp, if_else_exp,
  while_exp, ret_exp, continue_exp, nop_exp, error_exp, range,
}
use move_language_server.Disassembler.Translator.{
  Setting, Translator, pop_exp, by_relative, absolute, opcode_offset, next, loc, minus, in_order,
}
use move_language_server.Disassembler.Translator.Build.{Builds}

abbrev pub as_branch : Bytecode → Option ℕ
as_branch (branch_code offset) = some offset
as_branch _ = none

-- `Block::new(exps, true)`, from the last expression to the first.
abbrev pub block_of : List ExpLoc → Block
block_of stack = block (in_order stack no_exps) true

abbrev pub non_empty : List ExpLoc → Option (List ExpLoc)
non_empty [] = none
non_empty (exp ∷ stack) = some (exp ∷ stack)

abbrev pub if_of : ExpLoc → List ExpLoc → Option (List ExpLoc) → Exp
if_of condition true_branch none = if_exp condition (block_of true_branch)
if_of condition true_branch (some false_branch) =
    if_else_exp condition (block_of true_branch) (block_of false_branch)

-- `ctx.next_opcode()`
abbrev pub next_opcode : Translator → Translator
next_opcode t = record t { opcode_iter = next t.opcode_iter }

-- What becomes of the block up to the false branch: the body of a `while`, or a true branch and
-- the end of the false branch, if there is one.
pub data TrueBranch : Type 0 where
  while_body : List ExpLoc → TrueBranch
  branch : List ExpLoc → Option ℕ → TrueBranch

-- Whether the jump here leads back to the start of the condition.
unfoldable pub loops_back : Option ℕ → List ExpLoc → Bool
unfolding range
loops_back none exps = false
loops_back (some offset) [] = false
loops_back (some offset) (last ∷ exps) = (range last).0 == offset

-- The end of the false branch: where a jump here leads, if forwards.
unfoldable pub forward_end : Option ℕ → ℕ → Option ℕ
forward_end none here = none
forward_end (some offset) here = if ltb here offset then some offset else none

abbrev pub here : Translator → Bytecode
here t = absolute t.opcode_iter (opcode_offset t)

unfoldable pub after_true : Setting → List ExpLoc → Translator → TrueBranch
unfolding loops_back forward_end
after_true s (at i (ret_exp ret_list explicit) ∷ exps) t =
    branch (at i (ret_exp ret_list true) ∷ exps) none
after_true s (at i continue_exp ∷ exps) t =
    if loops_back (s.branch_offset (here t)) t.expressions
    then while_body exps
    else branch (at i continue_exp ∷ exps) none
after_true s (at i nop_exp ∷ exps) t =
    branch (at i nop_exp ∷ exps) (forward_end (as_branch (here t)) (opcode_offset t))
after_true s exps t = branch exps none

module _ (s : Setting) (translate_block : ℕ → Translator → Outcome (List ExpLoc × Translator)) where
  -- A conditional jump that no jump follows.
  unfoldable pub lone_branch : ℕ → Builds
  unfolding pop_exp minus
  lone_branch true_offset t = elim (opcode_offset t == t.end_offset) [
    | true ↦ let (condition, t1) = pop_exp t in ok (if_of condition [] none, t1)
    | false ↦ do
      false_branch_len ← minus true_offset (opcode_offset t + 1)
      (false_block, t1) ← translate_block false_branch_len t
      (true_block, t2) ← translate_block (length t1.opcode_iter.iter) t1
      (condition, t3) ← ok (pop_exp t2)
      ok (if_of condition true_block (non_empty false_block), t3)
  ]

  unfoldable pub true_branch : ℕ → ℕ → Translator → Outcome (TrueBranch × Translator)
  unfolding minus after_true
  true_branch true_offset false_offset t = elim (ltb true_offset (opcode_offset t)) [
    | true ↦ ok (branch (loc t continue_exp ∷ []) none, t)
    | false ↦ do
      branch_len ← minus false_offset true_offset
      (exps, t1) ← translate_block branch_len t
      ok (after_true s exps t1, t1)
  ]

  unfoldable pub false_branch :
      ℕ → Option ℕ → Translator → Outcome (Option (List ExpLoc) × Translator)
  unfolding minus
  false_branch false_offset none t = ok (none, t)
  false_branch false_offset (some false_end) t = elim (ltb false_offset (opcode_offset t)) [
    | true ↦ ok (some (loc t continue_exp ∷ []), t)
    | false ↦ do
      branch_len ← minus false_end false_offset
      elim (branch_len == 0) [
        | true ↦ ok (none, t)
        | false ↦ do (exps, t1) ← translate_block branch_len t; ok (non_empty exps, t1)
      ]
  ]

  -- What a true branch is completed to.
  unfoldable pub complete : ℕ → TrueBranch → Builds
  unfolding pop_exp false_branch
  complete false_offset (while_body body) t =
      let (condition, t1) = pop_exp t in ok (while_exp condition (block_of body), t1)
  complete false_offset (branch exps false_end) t = do
    (false_exps, t1) ← false_branch false_offset false_end t
    (condition, t2) ← ok (pop_exp t1)
    ok (if_of condition exps false_exps, t2)

  -- A conditional jump over a jump to the false branch.
  unfoldable pub paired_branch : ℕ → ℕ → Builds
  unfolding true_branch complete
  paired_branch true_offset false_offset t = do
    (exps, t1) ← true_branch true_offset false_offset t
    complete false_offset exps t1

  unfoldable pub br_true : ℕ → Builds
  unfolding lone_branch paired_branch
  br_true true_offset t = elim (as_branch (by_relative t.opcode_iter 1)) [
    | none ↦ lone_branch true_offset t
    | some false_offset ↦ paired_branch true_offset false_offset (next_opcode t)
  ]

unfoldable pub br_false : ℕ → Builds
br_false index t = ok (error_exp (br_false_code index), t)

unfoldable pub br : ℕ → Builds
br offset t = ok (if ltb (opcode_offset t) offset then nop_exp else continue_exp, t)
