-- ===== src/Transaction/Call.antt =====
-- `parse_call` and `parse_vec` of dove/src/cmd/ct.rs, and `parse` of resource-viewer/src/tte.rs.
-- Each loop runs on fuel, one unit for a turn; more fuel than there are tokens is enough.
pub mod Tokens
pub mod Arguments
pub mod RoundTrip
pub mod Endless
use move_language_server.Base.{
  ℕ, zero, suc, Bool, true, false, ◌||◌, List, [], ◌∷◌, ◌++◌, Option, none, some, if◌then◌else◌,
}
use move_language_server.Base.Text.{Bytes}
use move_language_server.Executor.Tags.{TypeTag}
use move_language_server.Transaction.Outcome.{
  Outcome, ok, failed, out_of_fuel, ◌>>=◌, ◌>>◌, ensure, of_option, lexer_error,
  no_function_identifier, unclosed_type_parameters, no_left_paren, unclosed_arguments,
  no_left_bracket, unclosed_vector, bad_element,
}
use move_language_server.Transaction.TypeTags.{unwrap_spanned_ty}
use move_language_server.Transaction.Lexer.{
  Lexing, is, eof, identifier_value, less, greater, comma, l_paren, r_paren, l_bracket, r_bracket,
}

module _ (lexing : Lexing) where
  open lexing use {Lexer, new, peek, content, advance, parse_type, parse_num}

  -- `lexer.advance().map_err(map_err)?`
  unfoldable pub next : Lexer → Outcome Lexer
  next lexer = of_option (advance lexer) lexer_error

  module _ (is_identifier : Bytes → Bool) where
    unfoldable pub parse_type_params : Lexer → Outcome (TypeTag × Lexer)
    parse_type_params lexer = do
      parsed ← of_option (parse_type lexer) lexer_error
      tag ← unwrap_spanned_ty is_identifier parsed.0
      ok (tag, parsed.1)

    -- `while lexer.peek() != Tok::Greater`
    unfoldable pub type_loop : ℕ → Lexer → List TypeTag → Outcome (List TypeTag × Lexer)
    unfolding next parse_type_params
    type_loop zero lexer type_parameter = out_of_fuel
    type_loop (suc fuel) lexer type_parameter =
        let after_comma = (do lexer' ← next lexer; type_loop fuel lexer' type_parameter) in
        let after_type = (do
          parsed ← parse_type_params lexer
          type_loop fuel parsed.1 (type_parameter ++ parsed.0 ∷ [])) in
        if is (peek lexer) greater
        then ok (type_parameter, lexer)
        else if is (peek lexer) eof
        then failed unclosed_type_parameters
        else if is (peek lexer) comma
        then after_comma
        else after_type

    unfoldable pub type_parameters : ℕ → Lexer → Outcome (List TypeTag × Lexer)
    unfolding next type_loop
    type_parameters fuel lexer =
        if is (peek lexer) less
        then (do
          lexer' ← next lexer
          parsed ← type_loop fuel lexer' []
          lexer'' ← next parsed.1
          ok (parsed.0, lexer''))
        else ok ([], lexer)

  -- `while lexer.peek() != Tok::RBracket` of an argument in brackets
  unfoldable pub bracket_loop : ℕ → Lexer → Bytes → Outcome (Bytes × Lexer)
  unfolding next
  bracket_loop zero lexer token = out_of_fuel
  bracket_loop (suc fuel) lexer token =
      let more = (do lexer' ← next lexer; bracket_loop fuel lexer' (token ++ content lexer)) in
      if is (peek lexer) r_bracket then ok (token, lexer) else more

  -- `while lexer.peek() != Tok::Comma && lexer.peek() != Tok::RParen`
  unfoldable pub word_loop : ℕ → Lexer → Bytes → Outcome (Bytes × Lexer)
  unfolding next
  word_loop zero lexer token = out_of_fuel
  word_loop (suc fuel) lexer token =
      let more = (do lexer' ← next lexer; word_loop fuel lexer' (token ++ content lexer)) in
      if is (peek lexer) comma || is (peek lexer) r_paren then ok (token, lexer) else more

  -- `while lexer.peek() != Tok::RParen`
  unfoldable pub argument_loop : ℕ → Lexer → List Bytes → Outcome (List Bytes)
  unfolding next bracket_loop word_loop
  argument_loop zero lexer arguments = out_of_fuel
  argument_loop (suc fuel) lexer arguments =
      let after_comma = (do lexer' ← next lexer; argument_loop fuel lexer' arguments) in
      let after_vector = (do
        inside ← next lexer
        read ← bracket_loop fuel inside (content lexer)
        lexer' ← next read.1
        argument_loop fuel lexer' (arguments ++ (read.0 ++ content read.1) ∷ [])) in
      let after_word = (do
        inside ← next lexer
        read ← word_loop fuel inside (content lexer)
        let after_separator = (do
          lexer' ← next read.1
          argument_loop fuel lexer' (arguments ++ read.0 ∷ []))
        if is (peek read.1) r_paren then ok (arguments ++ read.0 ∷ []) else after_separator) in
      if is (peek lexer) r_paren
      then ok arguments
      else if is (peek lexer) eof
      then failed unclosed_arguments
      else if is (peek lexer) comma
      then after_comma
      else if is (peek lexer) l_bracket
      then after_vector
      else after_word

  -- `call` has its addresses replaced.
  unfoldable pub parse_call :
      (Bytes → Bool) → ℕ → Bytes → Outcome (Bytes × List TypeTag × List Bytes)
  unfolding next type_parameters argument_loop
  parse_call is_identifier fuel call = do
    lexer ← next (new call)
    ensure (is (peek lexer) identifier_value) no_function_identifier
    after_name ← next lexer
    parsed ← type_parameters is_identifier fuel after_name
    ensure (is (peek parsed.1) l_paren) no_left_paren
    inside ← next parsed.1
    arguments ← argument_loop fuel inside []
    ok (content lexer, parsed.0, arguments)

  module _ {E : Type 0} (from_str : Bytes → Option E) where
    -- `while lexer.peek() != Tok::RBracket` of a vector
    unfoldable pub vector_loop : ℕ → Lexer → List E → Outcome (List E)
    unfolding next
    vector_loop zero lexer elements = out_of_fuel
    vector_loop (suc fuel) lexer elements =
        let after_comma = (do lexer' ← next lexer; vector_loop fuel lexer' elements) in
        let after_element = (do
          element ← of_option (from_str (content lexer)) bad_element
          lexer' ← next lexer
          vector_loop fuel lexer' (elements ++ element ∷ [])) in
        if is (peek lexer) r_bracket
        then ok elements
        else if is (peek lexer) comma
        then after_comma
        else if is (peek lexer) eof
        then failed unclosed_vector
        else after_element

    unfoldable pub parse_vec : ℕ → Bytes → Outcome (List E)
    unfolding next vector_loop
    parse_vec fuel tkn = do
      lexer ← next (new tkn)
      ensure (is (peek lexer) l_bracket) no_left_bracket
      inside ← next lexer
      vector_loop fuel inside []

  -- The index behind a type, `while lexer.peek() != Tok::EOF`.
  unfoldable pub index_loop : ℕ → Lexer → Option ℕ → Outcome (Option ℕ)
  unfolding next
  index_loop zero lexer i = out_of_fuel
  index_loop (suc fuel) lexer i =
      let after_index = (do
        inside ← next lexer
        index_loop fuel (parse_num inside).1 (parse_num inside).0) in
      let after_other = (do inside ← next lexer; ok i) in
      if is (peek lexer) eof
      then ok i
      else if is (peek lexer) l_bracket
      then after_index
      else after_other

  -- `TypeTagQuery`: the tag and the index. The text has its addresses replaced.
  unfoldable pub parse : (Bytes → Bool) → ℕ → Bytes → Outcome (TypeTag × Option ℕ)
  unfolding next parse_type_params index_loop
  parse is_identifier fuel s = do
    lexer ← next (new s)
    parsed ← parse_type_params is_identifier lexer
    i ← index_loop fuel parsed.1 none
    ok (parsed.0, i)
