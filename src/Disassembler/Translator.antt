-- ===== src/Disassembler/Translator.antt =====
-- lang/disassembler/src/code/translator.rs and iter.rs: the state of a translation, and what an
-- expression asks of it (the trait `Context`).
pub mod Build
pub mod Branching
pub mod Run
pub mod Ends
pub mod Trees
use move_language_server.Base.{
  ℕ, suc, ◌+◌, ◌-◌, zero, Bool, List, [], ◌∷◌, ◌++◌, Option, none, some, if◌then◌else◌, leb, ltb,
  map, length, get_elem?, take, drop, replicate,
}
use move_language_server.Disassembler.Outcome.{Outcome, ok, panic, ◌>>=◌, at_index, if_let}
use move_language_server.Disassembler.Unit.{
  CompiledUnit, ModuleHandle, StructDefinition, signature, identifier, address,
}
use move_language_server.Disassembler.Imports.{ImportName, Imports, get_import}
use move_language_server.Disassembler.Types.{Generic, FType, signature_types}
use move_language_server.Disassembler.Exp.{
  Bytecode, nop_code, Exp, nop_exp, error_exp, ExpLoc, at, ExpLocs, no_exps, more_exps, Local,
  PackFields, no_fields, more_fields,
}

-- The code still to come, the index of the instruction given last, and the whole code.
pub record BytecodeIterator : Type 0 where
  pub iter : List Bytecode
  pub index : Option ℕ
  pub code : List Bytecode

abbrev pub new_iterator : List Bytecode → BytecodeIterator
new_iterator code = record { iter = code; index = none; code = code }

abbrev pub or_zero : Option ℕ → ℕ
or_zero none = 0
or_zero (some i) = i

abbrev pub index_of : BytecodeIterator → ℕ
index_of it = or_zero it.index

abbrev pub or_nop : Option Bytecode → Bytecode
or_nop none = nop_code
or_nop (some opcode) = opcode

-- BytecodeIterator::absolute
abbrev pub absolute : BytecodeIterator → ℕ → Bytecode
absolute it i = or_nop (get_elem? it.code i)

-- BytecodeIterator::by_relative, for an offset that is not negative.
abbrev pub by_relative : BytecodeIterator → ℕ → Bytecode
by_relative it offset = absolute it (index_of it + offset)

abbrev pub next_index : Option ℕ → Option ℕ
next_index none = some 0
next_index (some i) = some (i + 1)

abbrev pub head : List Bytecode → Option Bytecode
head [] = none
head (opcode ∷ iter) = some opcode

abbrev pub tail : List Bytecode → List Bytecode
tail [] = []
tail (opcode ∷ iter) = iter

-- BytecodeIterator::next: the index moves on at the end, too.
abbrev pub next : BytecodeIterator → BytecodeIterator
next it = record it { iter = tail it.iter; index = next_index it.index }

-- What a translator and the translators of its blocks share. The offset of a branch instruction
-- is the binary format's.
pub record Setting : Type 0 where
  pub unit : CompiledUnit
  pub imports : Imports
  pub locals : List Local
  pub type_params : List Generic
  pub ret_len : ℕ
  pub branch_offset : Bytecode → Option ℕ

-- The expressions, the last one first; the places of the locals that are marked as used.
pub record Translator : Type 0 where
  pub expressions : List ExpLoc
  pub opcode_iter : BytecodeIterator
  pub used : List ℕ
  pub end_offset : ℕ

-- Translator::new
abbrev pub new_translator : BytecodeIterator → List ℕ → ℕ → Translator
new_translator it used opcodes_count = record {
  expressions = [];
  opcode_iter = it;
  used = used;
  end_offset = index_of it + opcodes_count;
}

abbrev pub opcode_offset : Translator → ℕ
opcode_offset t = index_of t.opcode_iter

abbrev pub loc : Translator → Exp → ExpLoc
loc t exp = at (opcode_offset t) exp

abbrev pub top : List ExpLoc → ExpLoc
top [] = at 0 nop_exp
top (exp ∷ exps) = exp

abbrev pub rest_of : List ExpLoc → List ExpLoc
rest_of [] = []
rest_of (exp ∷ exps) = exps

unfoldable pub pop_exp : Translator → ExpLoc × Translator
pop_exp t = (top t.expressions, record t { expressions = rest_of t.expressions })

unfoldable pub pop2_exp : Translator → (ExpLoc × ExpLoc) × Translator
unfolding pop_exp
pop2_exp t = let (second, t1) = pop_exp t in let (first, t2) = pop_exp t1 in ((first, second), t2)

-- A list of expressions from its reverse, before others.
unfoldable pub in_order : List ExpLoc → ExpLocs → ExpLocs
in_order [] exps = exps
in_order (exp ∷ stack) exps = in_order stack (more_exps exp exps)

-- A list of expressions before others.
unfoldable pub followed : List ExpLoc → ExpLocs → ExpLocs
followed [] exps = exps
followed (exp ∷ stack) exps = more_exps exp (followed stack exps)

unfoldable pub nops : ℕ → ExpLoc → ExpLocs
nops zero nop = no_exps
nops (suc n) nop = more_exps nop (nops n nop)

unfoldable pub pop_exp_vec : ℕ → Translator → ExpLocs × Translator
unfolding in_order nops
pop_exp_vec exp_count t =
    let len = length t.expressions in
    if ltb len exp_count
    then (
      in_order t.expressions (nops (exp_count - len) (loc t nop_exp)),
      record t { expressions = [] },
    )
    else (
      in_order (take exp_count t.expressions) no_exps,
      record t { expressions = drop exp_count t.expressions },
    )

module _ (s : Setting) where
  unfoldable pub module_import : ModuleHandle → Outcome (Option ImportName)
  module_import handle = do
    module_name ← identifier s.unit handle.name
    module_address ← address s.unit handle.address
    ok (get_import s.imports module_address module_name)

  unfoldable pub extract_signature : Option ℕ → Outcome (List FType)
  extract_signature none = ok []
  extract_signature (some index) =
      signature s.unit index >>= signature_types s.unit s.imports s.type_params

  unfoldable pub local_var : ℕ → Outcome Local
  local_var index = at_index s.locals index

  unfoldable pub identifiers_at : List ℕ → Outcome (List (List ℕ))
  identifiers_at [] = ok []
  identifiers_at (name ∷ names) = do
    i ← identifier s.unit name
    is ← identifiers_at names
    ok (i ∷ is)

-- `zip` of the names with the values.
unfoldable pub zip_fields : List (List ℕ) → ExpLocs → PackFields
zip_fields [] exps = no_fields
zip_fields (name ∷ names) no_exps = no_fields
zip_fields (name ∷ names) (more_exps value exps) = more_fields name value (zip_fields names exps)

module _ (s : Setting) where
  unfoldable pub pack_fields : StructDefinition → Translator → Outcome (PackFields × Translator)
  unfolding pop_exp_vec zip_fields identifiers_at
  pack_fields def t = if_let def.field_information (ok (no_fields, t)) (λ fields. do
    names ← identifiers_at s (map (λ def. def.name) fields)
    (exps, t1) ← ok (pop_exp_vec (length fields) t)
    ok (zip_fields names exps, t1))

abbrev pub err : Translator → Exp
err t = error_exp (by_relative t.opcode_iter 0)

-- A subtraction of `usize`.
unfoldable pub minus : ℕ → ℕ → Outcome ℕ
minus a b = if leb b a then ok (a - b) else panic
