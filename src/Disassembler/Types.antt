-- ===== src/Disassembler/Types.antt =====
-- lang/disassembler/src/types.rs and generics.rs: types and their parameters as the disassembler
-- writes them.
use move_language_server.Base.{
  ℕ, ◌+◌, ◌||◌, Bool, false, List, [], ◌∷◌, Option, none, some, if◌then◌else◌,
}
use move_language_server.Base.Text.{Bytes, codes}
use move_language_server.Executor.Tags.{bytes_eq}
use move_language_server.Disassembler.Outcome.{Outcome, ok, ◌>>=◌, at_index}
use move_language_server.Disassembler.Unit.{
  Kind, CompiledUnit, SignatureToken, bool_token, u8_token, u64_token, u128_token, address_token,
  signer_token, vector_token, reference, mutable_reference, struct_token, struct_instantiation,
  type_parameter, SignatureTokens, no_tokens, more_tokens, module_handle, struct_handle, identifier,
  identifiers, address,
}
use move_language_server.Disassembler.Imports.{ImportName, Imports, get_import}

pub data GenericPrefix : Type 0 where
  simple_prefix : Bytes → GenericPrefix
  generated : ℕ → GenericPrefix

pub record Generic : Type 0 where
  pub prefix : GenericPrefix
  pub index : ℕ
  pub kind : Kind

-- GENERICS_PREFIX
abbrev pub generics_prefix : List Bytes
generics_prefix =
    codes "T"
    ∷ codes "G"
    ∷ codes "V"
    ∷ codes "A"
    ∷ codes "B"
    ∷ codes "C"
    ∷ codes "D"
    ∷ codes "F"
    ∷ codes "H"
    ∷ codes "J"
    ∷ codes "K"
    ∷ codes "L"
    ∷ codes "M"
    ∷ codes "N"
    ∷ codes "P"
    ∷ codes "Q"
    ∷ codes "R"
    ∷ codes "S"
    ∷ codes "W"
    ∷ codes "X"
    ∷ codes "Y"
    ∷ codes "Z"
    ∷ []

unfoldable pub has_identifier : Bytes → List Bytes → Bool
has_identifier n [] = false
has_identifier n (i ∷ is) = bytes_eq.beq i n || has_identifier n is

unfoldable pub find_prefix : List Bytes → List Bytes → Option Bytes
unfolding has_identifier
find_prefix used [] = none
find_prefix used (p ∷ prefixes) =
    let rest = find_prefix used prefixes in if has_identifier p used then rest else some p

-- Generics::new; the random number is an argument.
unfoldable pub new_generics : CompiledUnit → ℕ → GenericPrefix
unfolding find_prefix
new_generics unit random = elim (find_prefix (identifiers unit) generics_prefix) [
  | some prefix ↦ simple_prefix prefix
  | none ↦ generated random
]

unfoldable pub type_params_from : ℕ → GenericPrefix → List Kind → List Generic
type_params_from i generics [] = []
type_params_from i generics (k ∷ kinds) =
    record { prefix = generics; index = i; kind = k } ∷ type_params_from (i + 1) generics kinds

-- extract_type_params
unfoldable pub extract_type_params : List Kind → GenericPrefix → List Generic
unfolding type_params_from
extract_type_params params generics = type_params_from 0 generics params

pub record FullStructName : Type 0 where
  pub name : Bytes
  pub import : Option ImportName

mutual
  pub data FType : Type 0 where
    generic_type : Generic → FType
    primitive : Bytes → FType
    ref_type ref_mut_type vec_type : FType → FType
    struct_type : FullStructName → FType
    struct_inst : FullStructName → FTypes → FType

  pub data FTypes : Type 0 where
    no_ftypes : FTypes
    more_ftypes : FType → FTypes → FTypes

module _ (unit : CompiledUnit) (imports : Imports) where
  unfoldable pub extract_struct_name : ℕ → Outcome FullStructName
  extract_struct_name struct_index = do
    handler ← struct_handle unit struct_index
    module_handler ← module_handle unit handler.module_idx
    module_name ← identifier unit module_handler.name
    addr ← address unit module_handler.address
    type_name ← identifier unit handler.name
    ok (record { name = type_name; import = get_import imports addr module_name })

  unfoldable mutual
    unfolding extract_struct_name

    pub extract_type_signature : List Generic → SignatureToken → Outcome FType
    extract_type_signature type_params u8_token = ok (primitive (codes "u8"))
    extract_type_signature type_params bool_token = ok (primitive (codes "bool"))
    extract_type_signature type_params u64_token = ok (primitive (codes "u64"))
    extract_type_signature type_params u128_token = ok (primitive (codes "u128"))
    extract_type_signature type_params address_token = ok (primitive (codes "address"))
    extract_type_signature type_params signer_token = ok (primitive (codes "signer"))
    extract_type_signature type_params (vector_token sign) = do
      t ← extract_type_signature type_params sign
      ok (vec_type t)
    extract_type_signature type_params (struct_token struct_index) = do
      name ← extract_struct_name struct_index
      ok (struct_type name)
    extract_type_signature type_params (struct_instantiation struct_index typed) = do
      name ← extract_struct_name struct_index
      ts ← extract_type_signatures type_params typed
      ok (struct_inst name ts)
    extract_type_signature type_params (reference sign) = do
      t ← extract_type_signature type_params sign
      ok (ref_type t)
    extract_type_signature type_params (mutable_reference sign) = do
      t ← extract_type_signature type_params sign
      ok (ref_mut_type t)
    extract_type_signature type_params (type_parameter index) = do
      g ← at_index type_params index
      ok (generic_type g)

    pub extract_type_signatures : List Generic → SignatureTokens → Outcome FTypes
    extract_type_signatures type_params no_tokens = ok no_ftypes
    extract_type_signatures type_params (more_tokens sign signs) = do
      t ← extract_type_signature type_params sign
      ts ← extract_type_signatures type_params signs
      ok (more_ftypes t ts)

  -- The types of a signature.
  unfoldable pub signature_types : List Generic → List SignatureToken → Outcome (List FType)
  unfolding extract_type_signature
  signature_types type_params [] = ok []
  signature_types type_params (sign ∷ signs) = do
    t ← extract_type_signature type_params sign
    ts ← signature_types type_params signs
    ok (t ∷ ts)
