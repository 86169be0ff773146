-- ===== src/Transaction/Tests.antt =====
-- Runs of the transaction builder on a small lexer and project.
use move_language_server.Base.{
  ℕ, zero, suc, ◌≡◌, refl, ap, arith, if◌then◌else◌, Bool, true, false, List, [], ◌∷◌, Option, none,
  some,
}
use move_language_server.Base.Text.{Bytes, codes}
use move_language_server.Executor.Tags.{
  TypeTag, u8, bool, vector, struct, struct_tag, nil, cons, bytes_eq,
}
use move_language_server.Dove.Ast.{MoveType, apply, ref, no_types, name_access}
use move_language_server.Compiler.Addresses.{Codecs}
use move_language_server.Transaction.Outcome.{ok, failed, out_of_fuel, lexer_error}
use move_language_server.Transaction.TypeTags.{unwrap_spanned_ty}
use move_language_server.Transaction.TypeTags.Written.{written, Named, unwrap_spanned_ty-written}
use move_language_server.Transaction.Lexer.{
  Tok, Lexing, is, eof, identifier_value, comma, l_paren, other_tok,
}
use move_language_server.Transaction.Call.{parse_call}
use move_language_server.Transaction.Call.Tokens.{Reads, Token, Argument, word, brackets}
use move_language_server.Transaction.Call.RoundTrip.{
  Typed, typed, IsTyped, call_tokens, parse_call-call_tokens,
}
use move_language_server.Transaction.Call.Endless.{unclosed, AtEnd, ReadsToEnd, parse_call-unclosed}
use move_language_server.Transaction.ScriptMeta.{ScriptFunction, Meta}
use move_language_server.Transaction.Arguments.{u8_arg, bool_arg, contains, prepare_arguments}
use move_language_server.Transaction.Lookup.{
  MoveFile, Scripts, lookup_script_by_name, lookup_script, extract, named_in, candidate,
}
use move_language_server.Transaction.Lookup.Laws.{Only, lookup_script_by_name-Only}
use move_language_server.Transaction.Builder.{
  CreateTransactionCmd, TransactionBuilder, CompiledUnit, Transaction, Compilation, of_call,
  new_builder, build,
}
use move_language_server.Transaction.Builder.Laws.{Fits, build-Fits, new_builder-refuses_types}

abbrev any_identifier : Bytes → Bool
any_identifier name = true

-- A lexer that has not been advanced, and one that stands at the first of some tokens.
data Cursor : Type 0 where
  fresh : List Token → Cursor
  at : List Token → Cursor

abbrev peek_at : Cursor → Tok
peek_at (fresh _) = eof
peek_at (at []) = eof
peek_at (at ((tok, text) ∷ tokens)) = tok

abbrev content_at : Cursor → Bytes
content_at (fresh _) = []
content_at (at []) = []
content_at (at ((tok, text) ∷ tokens)) = text

abbrev advanced : Cursor → Option Cursor
advanced (fresh tokens) = some (at tokens)
advanced (at []) = some (at [])
advanced (at (t ∷ tokens)) = some (at tokens)

-- It reads names without parameters.
abbrev type_at : Cursor → Option (MoveType × Cursor)
type_at (fresh _) = none
type_at (at []) = none
type_at (at ((tok, text) ∷ tokens)) =
    if is tok identifier_value then some (apply (name_access text) no_types, at tokens) else none

-- The lexer of a text that has these tokens.
abbrev sample_lexing : List Token → Lexing
sample_lexing tokens = record {
  Lexer = Cursor;
  new = λ _. fresh tokens;
  peek = peek_at;
  content = content_at;
  advance = advanced;
  parse_type = type_at;
  parse_num = λ cursor. (none, cursor);
}

abbrev sample_types : Option (List Typed)
sample_types = some (
    typed (identifier_value, codes "u8") [] u8
    ∷ typed (identifier_value, codes "bool") [] bool
    ∷ [])

abbrev sample_arguments : List Argument
sample_arguments =
    brackets (codes "[") ((other_tok, codes "1") ∷ (comma, codes ",") ∷ (other_tok, codes "2") ∷ [])
      (codes "]")
    ∷ word (other_tok, codes "10") []
    ∷ []

abbrev sample_tokens : List Token
sample_tokens = call_tokens (codes "main") sample_types sample_arguments []

-- The lexer reads a name as a type, for a name of a tag.
name_read :
    (name : Bytes) (tag : TypeTag)
    → unwrap_spanned_ty any_identifier (apply (name_access name) no_types) ≡ ok tag
    → (lexer : Cursor) (tokens : List Token)
    → Reads (sample_lexing sample_tokens) lexer ((identifier_value, name) ∷ tokens)
    → (ty : MoveType) × (lexer' : Cursor) × (type_at lexer ≡ some (ty, lexer'))
      × (unwrap_spanned_ty any_identifier ty ≡ ok tag)
      × Reads (sample_lexing sample_tokens) lexer' tokens
unfolding is
name_read name tag h (fresh _) tokens (p, q, (lexer', a, r)) = absurd (cc p)
name_read name tag h (at []) tokens (p, q, (lexer', a, r)) = absurd (cc p)
name_read name tag h (at ((tok, text) ∷ left)) tokens (p, q, (lexer', a, r)) =
    let a' : at left ≡ lexer' = cc in
    (
      apply (name_access name) no_types,
      lexer',
      rw (p, q) (ap (λ c. some (apply (name_access name) no_types, c)) a'),
      h,
      r,
    )

sample_typed :
    (name : Bytes) (tag : TypeTag)
    → unwrap_spanned_ty any_identifier (apply (name_access name) no_types) ≡ ok tag
    → IsTyped (sample_lexing sample_tokens) any_identifier (typed (identifier_value, name) [] tag)
unfolding is
sample_typed name tag h = (
  refl,
  refl,
  refl,
  λ lexer separator text rest s r. name_read name tag h lexer ((separator, text) ∷ rest) r,
)

Reads-tokens : (all tokens : List Token) → Reads (sample_lexing all) (at tokens) tokens
Reads-tokens all [] = refl
Reads-tokens all ((tok, text) ∷ tokens) = (refl, refl, (at tokens, refl, Reads-tokens all tokens))

AtEnd-nil : (all : List Token) (n : ℕ) → AtEnd (sample_lexing all) n (at [])
AtEnd-nil all zero = refl
AtEnd-nil all (suc n) = (refl, (at [], refl, AtEnd-nil all n))

ReadsToEnd-tokens : (all tokens : List Token) → ReadsToEnd (sample_lexing all) (at tokens) tokens
ReadsToEnd-tokens all [] = AtEnd-nil all
ReadsToEnd-tokens all ((tok, text) ∷ tokens) =
    (refl, refl, (at tokens, refl, ReadsToEnd-tokens all tokens))

unwrap_spanned_ty-written_example :
    unwrap_spanned_ty any_identifier
      (written (struct (struct_tag 1 (codes "Dfinance") (codes "USD") (cons (vector u8) nil))))
    ≡ ok (struct (struct_tag 1 (codes "Dfinance") (codes "USD") (cons (vector u8) nil)))
unfolding Named
unwrap_spanned_ty-written_example =
    unwrap_spanned_ty-written any_identifier
      (struct (struct_tag 1 (codes "Dfinance") (codes "USD") (cons (vector u8) nil)))
      (refl, refl, (tt, tt))

parse_call-call_tokens_example :
    parse_call (sample_lexing sample_tokens) any_identifier 30 (codes "main<u8,bool>([1,2],10)")
    ≡ ok (codes "main", u8 ∷ bool ∷ [], codes "[1,2]" ∷ codes "10" ∷ [])
unfolding is unwrap_spanned_ty
parse_call-call_tokens_example =
    parse_call-call_tokens (sample_lexing sample_tokens) any_identifier 30
      (codes "main<u8,bool>([1,2],10)") (codes "main") sample_types sample_arguments []
      (omega arith) (sample_typed (codes "u8") u8 refl, (sample_typed (codes "bool") bool refl, tt))
      ((refl, (refl, (refl, tt))), (((refl, refl), refl, refl, tt), tt))
      (at sample_tokens, refl, Reads-tokens sample_tokens sample_tokens)

abbrev open_word : Argument
open_word = word (other_tok, codes "10") []

abbrev open_tokens : List Token
open_tokens = (identifier_value, codes "main") ∷ (l_paren, codes "(") ∷ unclosed open_word

parse_call-unclosed_example :
    parse_call (sample_lexing open_tokens) any_identifier 1000 (codes "main(10") ≡ out_of_fuel
unfolding is
parse_call-unclosed_example =
    parse_call-unclosed (sample_lexing open_tokens) any_identifier 1000 (codes "main(10")
      (codes "main") open_word ((refl, refl), refl, refl, tt)
      (at open_tokens, refl, ReadsToEnd-tokens open_tokens open_tokens)

abbrev sample_codecs : Codecs
sample_codecs = record {
  from_base58 = λ _. none;
  blake2b = λ text. text;
  encode_upper = λ text. text;
  hex_decode = λ text. some text;
  from_hex_literal = λ _. some 1;
  bech32_decode = λ _. none;
  convert_bits = λ text _ _. some text;
  bech32_encode = λ _ _. none;
  ss58_matches = λ _. [];
  bech32_matches = λ _. [];
}

-- A folder with one file, of a script with a signer, a number and a truth value.
abbrev sample_file : MoveFile
sample_file = record { file_name = codes "main.move"; content = codes "script main" }

abbrev sample_function : ScriptFunction
sample_function = record {
  function_name = codes "main";
  type_params = codes "T" ∷ [];
  params =
      (codes "a", ref false (apply (name_access (codes "signer")) no_types))
      ∷ (codes "b", apply (name_access (codes "u8")) no_types)
      ∷ (codes "c", apply (name_access (codes "bool")) no_types)
      ∷ [];
}

abbrev sample_scripts : Scripts
sample_scripts = record {
  find_move_files = some (codes "main.move" ∷ []);
  load = λ _. some sample_file;
  exists = λ _. true;
  join = λ path. path;
  set_extension = λ path. path;
  parse_scripts = λ _. some (sample_function ∷ []);
  show_address = λ _. codes "0x1";
}

abbrev sample_meta : Meta
sample_meta = record {
  name = codes "main";
  type_parameters = codes "T" ∷ [];
  parameters =
      (codes "a", codes "&signer") ∷ (codes "b", codes "u8") ∷ (codes "c", codes "bool") ∷ [];
}

abbrev sample_unit : CompiledUnit
sample_unit = record { is_script = true; unit_name = codes "main"; serialized = codes "code" }

abbrev sample_compilation : Compilation
sample_compilation = record {
  Sender = ℕ;
  module_dir = some (codes "modules");
  dependency_set = λ _. some [];
  load_file = λ _. none;
  load_move_files = λ _. some [];
  account_address = some 1;
  compile = λ _ _ _. some (sample_unit ∷ []);
  verify_units = λ units. (units, true);
}

abbrev sample_builder : TransactionBuilder
sample_builder = record {
  script_file_name = none;
  script_name = some (codes "main");
  type_parameters = u8 ∷ [];
  args = codes "10" ∷ codes "true" ∷ [];
}

abbrev sample_transaction : Transaction
sample_transaction = record {
  signers_count = 1;
  code = codes "code";
  tx_args = u8_arg 10 ∷ bool_arg true ∷ [];
  type_args = u8 ∷ [];
}

lookup_script_by_name-Only_example :
    (codes "main" ≡ sample_meta.name)
    × ((paths : List Bytes) × (sample_scripts.find_move_files ≡ some paths)
        × Only sample_scripts (codes "main") paths sample_file (sample_meta ∷ []))
unfolding lookup_script_by_name candidate contains named_in extract
lookup_script_by_name-Only_example =
    lookup_script_by_name-Only sample_scripts (codes "main") sample_file sample_meta refl

build-Fits_example :
    Fits
      (sample_lexing [])
      sample_codecs
      any_identifier
      10
      sample_compilation
      sample_scripts
      sample_builder
      (codes "main")
      sample_transaction
unfolding build lookup_script prepare_arguments candidate contains named_in extract
build-Fits_example =
    build-Fits (sample_lexing []) sample_codecs any_identifier 10 sample_compilation sample_scripts
      sample_builder (codes "main") sample_transaction refl

abbrev sample_command : CreateTransactionCmd
sample_command = record {
  call = none;
  cmd_script_name = some (codes "main");
  cmd_file_name = none;
  cmd_type_parameters = some (codes "u8" ∷ []);
  cmd_args = none;
}

no_type_at_eof : (cursor : Cursor) → peek_at cursor ≡ eof → type_at cursor ≡ none
unfolding is
no_type_at_eof (fresh _) h = refl
no_type_at_eof (at []) h = refl
no_type_at_eof (at ((tok, text) ∷ tokens)) h = rw h refl

new_builder-refuses_types_example :
    new_builder
      (sample_lexing ((identifier_value, codes "u8") ∷ []))
      sample_codecs
      any_identifier
      10
      sample_command
    ≡ failed lexer_error
unfolding of_call
new_builder-refuses_types_example =
    new_builder-refuses_types (sample_lexing ((identifier_value, codes "u8") ∷ [])) sample_codecs
      any_identifier 10 (λ _. refl) no_type_at_eof sample_command (codes "u8") [] (none, [], [])
      refl refl
