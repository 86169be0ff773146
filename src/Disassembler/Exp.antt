-- ===== src/Disassembler/Exp.antt =====
-- lang/disassembler/src/code/exp: the expressions that bytecode is translated to, and the range of
-- the bytecode that one comes from.
pub mod Ranges
pub mod Parts
pub use move_language_server.Disassembler.Bytecode.{
  Bytecode, abort_code, add_code, and_code, bit_and_code, bit_or_code, br_false_code, br_true_code,
  branch_code, call_code, call_generic_code, cast_u128_code, cast_u64_code, cast_u8_code,
  copy_loc_code, div_code, eq_code, exists_code, exists_generic_code, freeze_ref_code, ge_code,
  gt_code, imm_borrow_field_code, imm_borrow_field_generic_code, imm_borrow_global_code,
  imm_borrow_global_generic_code, imm_borrow_loc_code, ld_const_code, ld_false_code, ld_true_code,
  ld_u128_code, ld_u64_code, ld_u8_code, le_code, lt_code, mod_code, move_from_code,
  move_from_generic_code, move_loc_code, move_to_code, move_to_generic_code, mul_code,
  mut_borrow_field_code, mut_borrow_field_generic_code, mut_borrow_global_code,
  mut_borrow_global_generic_code, mut_borrow_loc_code, neq_code, nop_code, not_code, or_code,
  pack_code, pack_generic_code, pop_code, read_ref_code, ret_code, shl_code, shr_code, st_loc_code,
  sub_code, unpack_code, unpack_generic_code, write_ref_code, xor_code,
}
use move_language_server.Base.{
  ℕ, Bool, true, false, List, [], ◌∷◌, ◌++◌, Option, none, some, if◌then◌else◌, ltb,
}
use move_language_server.Base.Text.{Bytes}
use move_language_server.Disassembler.Imports.{ImportName}
use move_language_server.Disassembler.Types.{FType, FullStructName}

pub data Op : Type 0 where
  add sub mul mod_op div bit_or bit_and xor or_op and_op eq neq lt gt le ge shl shr : Op

pub data CastType : Type 0 where
  u8_type u64_type u128_type : CastType

pub data Ld : Type 0 where
  u8 u64 u128 address_ld : ℕ → Ld
  bool_ld : Bool → Ld
  vector_ld : List ℕ → Ld

pub data LocAccess : Type 0 where
  move_access copy_access : LocAccess

pub data BuildIn : Type 0 where
  exists_fn move_from move_to borrow_global borrow_global_mut : BuildIn

unfoldable pub parameters_count : BuildIn → ℕ
parameters_count exists_fn = 1
parameters_count move_from = 1
parameters_count move_to = 2
parameters_count borrow_global = 1
parameters_count borrow_global_mut = 1

-- `used` is the place of the flag that the clones of a parameter or a variable share.
pub record Param : Type 0 where
  pub used : ℕ
  pub index : ℕ
  pub f_type : FType

pub record Var : Type 0 where
  pub used : ℕ
  pub index : ℕ
  pub f_type : FType

pub data Local : Type 0 where
  param : Param → Local
  var : Var → Local

mutual
  -- ExpLoc: an expression and the index of its instruction.
  pub data ExpLoc : Type 0 where
    at : ℕ → Exp → ExpLoc

  pub data ExpLocs : Type 0 where
    no_exps : ExpLocs
    more_exps : ExpLoc → ExpLocs → ExpLocs

  -- A list of PackField.
  pub data PackFields : Type 0 where
    no_fields : PackFields
    more_fields : Bytes → ExpLoc → PackFields → PackFields

  pub data Block : Type 0 where
    block : ExpLocs → Bool → Block

  pub data Exp : Type 0 where
    abort_exp not_exp basket_exp deref_exp : ExpLoc → Exp
    ld_exp : Ld → Exp
    error_exp : Bytecode → Exp
    local_exp : Bool → LocAccess → Local → Exp
    cast_exp : ExpLoc → CastType → Exp
    binary_exp : ExpLoc → Op → ExpLoc → Exp
    build_in_exp : BuildIn → FullStructName → List FType → ExpLocs → Exp
    plain_exp : Option ImportName → Bytes → List FType → ExpLocs → Exp
    let_exp : Local → ExpLoc → Exp
    pack_exp : Option ImportName → Bytes → List FType → PackFields → Exp
    unpack_exp : Option ImportName → Bytes → List FType → PackFields → ExpLoc → Exp
    ret_exp : ExpLocs → Bool → Exp
    field_ref_exp : Bool → Bytes → ExpLoc → Exp
    ref_exp : Bool → Local → Exp
    write_ref_exp : ExpLoc → ExpLoc → Exp
    loop_exp : Block → Exp
    while_exp : ExpLoc → Block → Exp
    if_exp : ExpLoc → Block → Exp
    if_else_exp : ExpLoc → Block → Block → Exp
    break_exp continue_exp nop_exp : Exp

abbrev pub Range : Type 0
Range = ℕ × ℕ

-- The ends of the ranges, from the least to the greatest.
unfoldable pub insert_end : ℕ → List ℕ → List ℕ
insert_end x [] = x ∷ []
insert_end x (y ∷ ys) = let rest = insert_end x ys in if ltb y x then y ∷ rest else x ∷ (y ∷ ys)

unfoldable pub sorted : List ℕ → List ℕ
unfolding insert_end
sorted [] = []
sorted (x ∷ xs) = insert_end x (sorted xs)

abbrev pub ends : List (Option Range) → List ℕ
ends [] = []
ends (none ∷ ranges) = ends ranges
ends (some (l, r) ∷ ranges) = l ∷ (r ∷ ends ranges)

abbrev pub last : ℕ → List ℕ → ℕ
last x [] = x
last x (y ∷ ys) = last y ys

abbrev pub first_and_last : List ℕ → Option Range
first_and_last [] = none
first_and_last (f ∷ rest) = some (f, last f rest)

unfoldable pub find_range : List (Option Range) → Option Range
unfolding sorted
find_range range_list = first_and_last (sorted (ends range_list))

-- ExpLoc::range, for the range of the expression itself.
abbrev pub widen : ℕ → Option Range → Range
widen index none = (index, index)
widen index (some (l, r)) = (if ltb index l then index else l, if ltb r index then index else r)

unfoldable mutual
  unfolding find_range

  pub range : ExpLoc → Range
  range (at index exp) = widen index (source_range exp)

  pub ranges : ExpLocs → List (Option Range)
  ranges no_exps = []
  ranges (more_exps exp exps) = some (range exp) ∷ ranges exps

  pub field_ranges : PackFields → List (Option Range)
  field_ranges no_fields = []
  field_ranges (more_fields name value fields) = some (range value) ∷ field_ranges fields

  pub block_range : Block → Option Range
  block_range (block exps basket) = find_range (ranges exps)

  pub source_range : Exp → Option Range
  source_range (abort_exp exp) = some (range exp)
  source_range (error_exp opcode) = none
  source_range (ld_exp ld) = none
  source_range (local_exp explicit access l) = none
  source_range (cast_exp exp ty) = some (range exp)
  source_range (build_in_exp kind name type_params params) = find_range (ranges params)
  source_range (plain_exp import name type_params params) = find_range (ranges params)
  source_range (binary_exp left sign right) =
      find_range (some (range left) ∷ some (range right) ∷ [])
  source_range (basket_exp exp) = some (range exp)
  source_range (not_exp exp) = some (range exp)
  source_range (let_exp l exp) = some (range exp)
  source_range (pack_exp import name type_params fields) = find_range (field_ranges fields)
  source_range (unpack_exp import name type_params fields source) = find_range (field_ranges fields)
  source_range (ret_exp ret_list explicit) = find_range (ranges ret_list)
  source_range (field_ref_exp is_mut name instance_exp) = some (range instance_exp)
  source_range (ref_exp is_mut l) = none
  source_range (deref_exp exp) = some (range exp)
  source_range (write_ref_exp val val_ref) =
      find_range (some (range val) ∷ some (range val_ref) ∷ [])
  source_range (loop_exp b) = block_range b
  source_range (while_exp e b) = find_range (some (range e) ∷ block_range b ∷ [])
  source_range (if_exp e t) = find_range (some (range e) ∷ block_range t ∷ none ∷ [])
  source_range (if_else_exp e t f) =
      find_range (some (range e) ∷ block_range t ∷ block_range f ∷ [])
  source_range break_exp = none
  source_range continue_exp = none
  source_range nop_exp = none

abbrev pub is_nop : Exp → Bool
is_nop nop_exp = true
is_nop _ = false
