-- ===== src/Disassembler/Bytecode.antt =====
-- The bytecode of the binary format, as lang/disassembler/src reads it.
use move_language_server.Base.{ℕ}

-- The instructions of the Move virtual machine.
pub data Bytecode : Type 0 where
  pop_code ret_code cast_u8_code cast_u64_code cast_u128_code ld_true_code ld_false_code : Bytecode
  read_ref_code write_ref_code freeze_ref_code not_code abort_code nop_code : Bytecode
  add_code sub_code mul_code mod_code div_code bit_or_code bit_and_code xor_code : Bytecode
  or_code and_code eq_code neq_code lt_code gt_code le_code ge_code shl_code shr_code : Bytecode
  br_true_code br_false_code branch_code : ℕ → Bytecode
  ld_u8_code ld_u64_code ld_u128_code ld_const_code : ℕ → Bytecode
  copy_loc_code move_loc_code st_loc_code mut_borrow_loc_code imm_borrow_loc_code : ℕ → Bytecode
  mut_borrow_field_code mut_borrow_field_generic_code : ℕ → Bytecode
  imm_borrow_field_code imm_borrow_field_generic_code : ℕ → Bytecode
  call_code call_generic_code pack_code pack_generic_code unpack_code unpack_generic_code :
      ℕ → Bytecode
  exists_code exists_generic_code move_from_code move_from_generic_code : ℕ → Bytecode
  move_to_code move_to_generic_code : ℕ → Bytecode
  mut_borrow_global_code mut_borrow_global_generic_code : ℕ → Bytecode
  imm_borrow_global_code imm_borrow_global_generic_code : ℕ → Bytecode
