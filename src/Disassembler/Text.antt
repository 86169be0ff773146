-- ===== src/Disassembler/Text.antt =====
-- The trait `Encode` of lang/disassembler/src: how names, types and expressions are written. A
-- text is what the calls of the writer add up to; the writer does not fail.
pub mod Laws
pub mod Negation
use move_language_server.Base.{
  ℕ, zero, suc, ◌+◌, ◌/◌, ◌%◌, ◌==◌, ◌||◌, Bool, true, false, not, List, [], ◌∷◌, ◌++◌, Option,
  none, some, if◌then◌else◌, ltb, replicate, map,
}
use move_language_server.Base.Text.{Bytes, codes}
use move_language_server.Disassembler.Imports.{ImportName, plain_name, alias, Imports}
use move_language_server.Disassembler.Types.{
  GenericPrefix, simple_prefix, generated, Generic, FullStructName, FType, generic_type, primitive,
  ref_type, ref_mut_type, vec_type, struct_type, struct_inst, FTypes, no_ftypes, more_ftypes,
}
use move_language_server.Disassembler.Unit.{Kind, all_kind, resource_kind, copyable_kind}
use move_language_server.Disassembler.Exp.{
  Bytecode, Exp, ExpLoc, ExpLocs, Block, PackFields, at, no_exps, more_exps, no_fields, more_fields,
  block, is_nop, Op, CastType, u8_type, u64_type, u128_type, BuildIn, exists_fn, move_from, move_to,
  borrow_global, borrow_global_mut, LocAccess, move_access, copy_access, Local, param, var, Ld, u8,
  u64, u128, bool_ld, address_ld, vector_ld, add, sub, mul, mod_op, div, bit_or, bit_and, xor,
  or_op, and_op, eq, neq, lt, gt, le, ge, shl, shr, abort_exp, basket_exp, binary_exp, break_exp,
  build_in_exp, cast_exp, continue_exp, deref_exp, error_exp, field_ref_exp, if_else_exp, if_exp,
  ld_exp, let_exp, local_exp, loop_exp, nop_exp, not_exp, pack_exp, plain_exp, ref_exp, ret_exp,
  unpack_exp, while_exp, write_ref_exp,
}
use move_language_server.Disassembler.Words.{
  access_text, build_in_name_text, build_in_text, cast_text, decimal, is_used, op_text, qualifier,
  spaces, type_text, types_text, underscore, unless_zero, write_array,
}

-- What the crates write: the debug text of an instruction, an address, bytes in hexadecimal.
pub record Printer : Type 0 where
  pub debug : Bytecode → Bytes
  pub address_text : ℕ → Bytes
  pub hex_text : List ℕ → Bytes

abbrev pub is_ref : ExpLoc → Bool
is_ref (at index (ref_exp is_mut l)) = true
is_ref _ = false

abbrev pub no_exp : ExpLoc → Bool
no_exp (at index exp) = is_nop exp

abbrev pub mut_text : Bool → Bytes
mut_text is_mut = if is_mut then codes "mut " else []

abbrev pub is_empty : ExpLocs → Bool
is_empty no_exps = true
is_empty _ = false

-- The texts of compound expressions, given those of their parts: calls, structures, fields.
abbrev pub plain_text : Option ImportName → Bytes → List FType → List Bytes → Bytes
plain_text import name type_params params =
    qualifier import
    ++ (name ++ (types_text type_params ++ write_array (codes "(") (codes ", ") params (codes ")")))

abbrev pub build_in_call_text : BuildIn → FullStructName → List FType → List Bytes → Bytes
build_in_call_text kind name type_params params =
    build_in_text kind
    ++ (codes "<"
        ++ (build_in_name_text name
            ++ (types_text type_params
                ++ (codes ">" ++ write_array (codes "(") (codes ", ") params (codes ")")))))

abbrev pub pack_text : Option ImportName → Bytes → List FType → List Bytes → Bytes
pack_text import name type_params fields =
    qualifier import
    ++ (name
        ++ (types_text type_params ++ write_array (codes " { ") (codes ", ") fields (codes " }")))

abbrev pub unpack_text : Option ImportName → Bytes → List FType → List Bytes → Bytes → Bytes
unpack_text import name type_params fields source =
    pack_text import name type_params fields ++ (codes " = " ++ source)

abbrev pub field_ref_text : Bool → Bool → Bytes → Bytes → Bytes
field_ref_text instance_is_ref is_mut field_name instance_text =
    (if instance_is_ref then [] else codes "&" ++ mut_text is_mut)
    ++ (instance_text ++ (codes "." ++ field_name))

abbrev pub loc_text : Bool → LocAccess → Bytes → Bytes
loc_text explicit access name =
    if explicit
    then codes "(" ++ (access_text access ++ (codes " " ++ (name ++ codes ")")))
    else name

abbrev pub let_text : Bytes → Bool → Bytes → Bytes
let_text name is_declared value = name ++ (if is_declared then [] else codes " = " ++ value)

abbrev pub cast_exp_text : Bytes → CastType → Bytes
cast_exp_text exp ty = codes "(" ++ (exp ++ (codes " as " ++ (cast_text ty ++ codes ")")))

-- The line break before an expression of a block.
unfoldable pub line_start : Exp → Bytes
line_start (ret_exp exps explicit) = if not (is_empty exps) || explicit then codes "\n" else []
line_start exp = codes "\n"

abbrev pub semicolon_before : ExpLocs → Bytes
semicolon_before no_exps = []
semicolon_before (more_exps (at index (ret_exp exps explicit)) rest) =
    if is_empty exps then [] else codes ";"
semicolon_before (more_exps exp rest) = codes ";"

-- What ends an expression of a block, before the rest of the block.
unfoldable pub line_end : Exp → ExpLocs → Bytes
line_end (ret_exp exps explicit) rest = []
line_end (abort_exp exp) rest = []
line_end break_exp rest = []
line_end (loop_exp b) rest = semicolon_before rest
line_end (if_exp e t) rest = semicolon_before rest
line_end (if_else_exp e t f) rest = semicolon_before rest
line_end exp rest = codes ";"

-- INDENT
abbrev pub indent_step : ℕ
indent_step = 4

module _ (printer : Printer) (used : List ℕ) where
  -- Local::write_name
  unfoldable pub local_text : Local → Bytes
  unfolding is_used decimal
  local_text (param p) = underscore (is_used p.used used) ++ (codes "arg" ++ unless_zero p.index)
  local_text (var v) = underscore (is_used v.used used) ++ (codes "var" ++ unless_zero v.index)

  unfoldable pub ld_text : Ld → Bytes
  unfolding decimal
  ld_text (u8 val) = decimal val ++ codes "u8"
  ld_text (u64 val) = decimal val
  ld_text (u128 val) = decimal val ++ codes "u128"
  ld_text (bool_ld val) = if val then codes "true" else codes "false"
  ld_text (address_ld val) = codes "0x" ++ printer.address_text val
  ld_text (vector_ld val) = codes "x\"" ++ (printer.hex_text val ++ codes "\"")

  unfoldable mutual
    unfolding local_text ld_text type_text write_array line_start line_end

    pub text : ℕ → ExpLoc → Bytes
    text indent (at index exp) = spaces indent ++ exp_text indent exp

    -- What a list of expressions is written as, each one without indent.
    pub texts : ExpLocs → List Bytes
    texts no_exps = []
    texts (more_exps exp exps) = text 0 exp ∷ texts exps

    pub field_texts : PackFields → List Bytes
    field_texts no_fields = []
    field_texts (more_fields name value fields) =
        (name ++ (codes ": " ++ (if no_exp value then codes "_" else text 0 value)))
        ∷ field_texts fields

    pub block_text : ℕ → Block → Bytes
    block_text indent (block exps true) =
        codes "{" ++ (lines_text indent exps ++ (codes "\n" ++ (spaces indent ++ codes "}")))
    block_text indent (block exps false) = lines_text indent exps

    pub lines_text : ℕ → ExpLocs → Bytes
    lines_text indent no_exps = []
    lines_text indent (more_exps (at index exp) exps) =
        (if is_nop exp
          then []
          else line_start exp
            ++ (spaces (indent + indent_step)
                ++ (exp_text (indent + indent_step) exp ++ line_end exp exps)))
        ++ lines_text indent exps

    -- After the indent
    pub exp_text : ℕ → Exp → Bytes
    exp_text indent (abort_exp exp) = codes "abort " ++ text 0 exp
    exp_text indent (local_exp explicit access l) = loc_text explicit access (local_text l)
    exp_text indent (cast_exp exp ty) = cast_exp_text (text indent exp) ty
    exp_text indent (build_in_exp kind name type_params params) =
        build_in_call_text kind name type_params (texts params)
    exp_text indent (plain_exp import name type_params params) =
        plain_text import name type_params (texts params)
    exp_text indent (ret_exp ret_list explicit) =
        (if explicit then codes "return " else []) ++ ret_text ret_list
    exp_text indent nop_exp = []
    exp_text indent (error_exp b) = codes "Err [opcode: " ++ (printer.debug b ++ codes "]")
    exp_text indent (binary_exp left sign right) = text 0 left ++ (op_text sign ++ text 0 right)
    exp_text indent (basket_exp inner) = codes "(" ++ (text indent inner ++ codes ")")
    exp_text indent (not_exp exp) = codes "!" ++ text 0 exp
    exp_text indent (let_exp l exp) = let_text (local_text l) (no_exp exp) (text 0 exp)
    exp_text indent (pack_exp import name type_params fields) =
        pack_text import name type_params (field_texts fields)
    exp_text indent (unpack_exp import name type_params fields source) =
        unpack_text import name type_params (field_texts fields) (text 0 source)
    exp_text indent (field_ref_exp is_mut field_name instance_exp) =
        field_ref_text (is_ref instance_exp) is_mut field_name (text 0 instance_exp)
    exp_text indent (loop_exp b) = codes "loop " ++ block_text indent b
    exp_text indent (if_exp condition true_branch) =
        codes "if (" ++ (text 0 condition ++ (codes ") " ++ block_text indent true_branch))
    exp_text indent (if_else_exp condition true_branch false_branch) =
        codes "if ("
        ++ (text 0 condition
            ++ (codes ") "
                ++ (block_text indent true_branch
                    ++ (codes " else " ++ block_text indent false_branch))))
    exp_text indent break_exp = codes "break"
    exp_text indent (while_exp condition body) =
        codes "while (" ++ (text 0 condition ++ (codes ") " ++ block_text indent body))
    exp_text indent (ref_exp is_mut l) = codes "&" ++ (mut_text is_mut ++ local_text l)
    exp_text indent (deref_exp exp) = codes "*" ++ text 0 exp
    exp_text indent (write_ref_exp val val_ref) =
        codes "*" ++ (text 0 val_ref ++ (codes " = " ++ text 0 val))
    exp_text indent continue_exp = codes "continue"
    exp_text indent (ld_exp ld) = ld_text ld

    pub ret_text : ExpLocs → Bytes
    ret_text no_exps = []
    ret_text (more_exps exp no_exps) = text 0 exp
    ret_text (more_exps exp (more_exps next exps)) =
        write_array (codes "(") (codes ", ") (text 0 exp ∷ (text 0 next ∷ texts exps)) (codes ")")

-- The declarations of the variables of a body.
unfoldable pub lets_text : List ℕ → ℕ → List Local → Bytes
unfolding type_text is_used decimal
lets_text used indent [] = []
lets_text used indent (param p ∷ locals) = lets_text used indent locals
lets_text used indent (var v ∷ locals) =
    (codes "\n"
      ++ (spaces (indent + indent_step)
          ++ (codes "let "
              ++ (underscore (is_used v.used used)
                  ++ (codes "var"
                      ++ (unless_zero v.index
                          ++ (codes ": " ++ (type_text v.f_type ++ codes ";"))))))))
    ++ lets_text used indent locals

abbrev pub has_var : List Local → Bool
has_var [] = false
has_var (param p ∷ locals) = has_var locals
has_var (var v ∷ locals) = true

-- Body::encode
unfoldable pub body_text : Printer → List ℕ → ℕ → List Local → ExpLocs → Bytes
unfolding lets_text text
body_text printer used indent locals exps =
    lets_text used indent locals
    ++ ((if has_var locals then codes "\n" else [])
        ++ block_text printer used indent (block exps false))
