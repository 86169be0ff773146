-- ===== src/Transaction/Arguments.antt =====
-- `prepare_arguments` of dove/src/cmd/ct.rs: the arguments of a script from their texts.
pub mod Laws
use move_language_server.Base.{
  ℕ, zero, suc, ◌+◌, ◌*◌, ◌-◌, ◌^◌, ◌==◌, ◌&&◌, Bool, true, false, List, [], ◌∷◌, ◌++◌, Option,
  none, some, ltb, leb, map, get_elem?, if◌then◌else◌,
}
use mathlib.Core.Option
use move_language_server.Base.Classes.{eqb}
use move_language_server.Base.Text.{Bytes, codes, find}
use move_language_server.Executor.Tags.{bytes_eq}
use move_language_server.Compiler.Addresses.{Codecs, ss58_to_libra}
use move_language_server.Transaction.Outcome.{
  Outcome, ok, failed, ◌>>=◌, of_option, missing_argument, bad_argument, unexpected_parameter,
}
use move_language_server.Transaction.Lexer.{Lexing}
use move_language_server.Transaction.Call.{parse_vec}

-- A vector of booleans is a value of the type that no branch makes. An address is a number.
pub data ScriptArg : Type 0 where
  u8_arg u64_arg u128_arg : ℕ → ScriptArg
  bool_arg : Bool → ScriptArg
  address_arg : ℕ → ScriptArg
  vector_u8 : Bytes → ScriptArg
  vector_u64 vector_u128 : List ℕ → ScriptArg
  vector_bool : List Bool → ScriptArg
  vector_address : List ℕ → ScriptArg

-- `str::parse` to an unsigned integer below `limit`, from the digits behind a sign.
unfoldable pub digits : ℕ → ℕ → Bytes → Option ℕ
digits limit value [] = some value
digits limit value (c ∷ text) =
    let more = digits limit (value * 10 + (c - b'0')) text in
    if leb b'0' c && (leb c b'9' && ltb (value * 10 + (c - b'0')) limit) then more else none

unfoldable pub unsigned : ℕ → Bytes → Option ℕ
unfolding digits
unsigned limit [] = none
unsigned limit (c ∷ []) = digits limit 0 (c ∷ [])
unsigned limit (c ∷ d ∷ text) =
    if c == b'+' then digits limit 0 (d ∷ text) else digits limit 0 (c ∷ d ∷ text)

-- `str::parse` to an integer of `bits` bits
unfoldable pub parse_uint : ℕ → Bytes → Option ℕ
unfolding unsigned
parse_uint bits text = unsigned (2 ^ bits) text

unfoldable pub parse_bool : Bytes → Option Bool
parse_bool text =
    if eqb text (codes "true")
    then some true
    else if eqb text (codes "false")
    then some false
    else none

unfoldable pub contains : Bytes → Bytes → Bool
unfolding find
contains text pattern' = elim (find pattern' text) [ none ↦ false | some _ ↦ true ]

unfoldable pub argument : List Bytes → ℕ → Outcome Bytes
argument args index = of_option (get_elem? args index) missing_argument

module _ (lexing : Lexing) (codecs : Codecs) (fuel : ℕ) where
  open codecs use {from_hex_literal, hex_decode}

  -- Address::from_str
  unfoldable pub address_from_str : Bytes → Option ℕ
  unfolding ss58_to_libra
  address_from_str addr = elim (ss58_to_libra codecs addr) [
    | some libra ↦ from_hex_literal libra
    | none ↦ from_hex_literal addr
  ]

  unfoldable pub bytes_argument : Bytes → Outcome ScriptArg
  unfolding contains parse_uint
  bytes_argument arg =
      let parsed = (do buffer ← parse_vec lexing (parse_uint 8) fuel arg; ok (vector_u8 buffer)) in
      let decoded = (do buffer ← of_option (hex_decode arg) bad_argument; ok (vector_u8 buffer)) in
      if contains arg (codes "[") then parsed else decoded

  -- The arms of the match on a type but that of `&signer`, as what each makes of its argument.
  unfoldable pub parser_of : Bytes → Option (Bytes → Outcome ScriptArg)
  unfolding parse_bool parse_uint address_from_str bytes_argument
  parser_of tp =
      if eqb tp (codes "bool")
      then some (λ arg. do b ← of_option (parse_bool arg) bad_argument; ok (bool_arg b))
      else if eqb tp (codes "u8")
      then some (λ arg. do n ← of_option (parse_uint 8 arg) bad_argument; ok (u8_arg n))
      else if eqb tp (codes "u64")
      then some (λ arg. do n ← of_option (parse_uint 64 arg) bad_argument; ok (u64_arg n))
      else if eqb tp (codes "u128")
      then some (λ arg. do n ← of_option (parse_uint 128 arg) bad_argument; ok (u128_arg n))
      else if eqb tp (codes "address")
      then some (λ arg. do n ← of_option (address_from_str arg) bad_argument; ok (address_arg n))
      else if eqb tp (codes "vector<u8>")
      then some bytes_argument
      else if eqb tp (codes "vector<u64>")
      then some (λ arg. do ns ← parse_vec lexing (parse_uint 64) fuel arg; ok (vector_u64 ns))
      else if eqb tp (codes "vector<u128>")
      then some (λ arg. do ns ← parse_vec lexing (parse_uint 128) fuel arg; ok (vector_u128 ns))
      else if eqb tp (codes "vector<address>")
      then some (λ arg. do ns ← parse_vec lexing address_from_str fuel arg; ok (vector_address ns))
      else none

  module _ (args : List Bytes) where
    -- `args_type.iter().try_fold(..)`
    unfoldable pub fold_arguments :
        List (Bytes × Bytes) → ℕ → ℕ → List ScriptArg → Outcome (ℕ × ℕ × List ScriptArg)
    unfolding argument parser_of
    fold_arguments [] signers args_index values = ok (signers, args_index, values)
    fold_arguments ((name, tp) ∷ args_type) signers args_index values =
        let after_signer = fold_arguments args_type (signers + 1) args_index values in
        let after_argument = (do
          parse ← of_option (parser_of tp) unexpected_parameter
          arg ← argument args args_index
          value ← parse arg
          fold_arguments args_type signers (args_index + 1) (values ++ value ∷ [])) in
        if eqb tp (codes "&signer") then after_signer else after_argument

    unfoldable pub prepare_arguments : List (Bytes × Bytes) → Outcome (ℕ × ℕ × List ScriptArg)
    unfolding fold_arguments
    prepare_arguments args_type = fold_arguments args_type 0 0 []
