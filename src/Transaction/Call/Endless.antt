-- ===== src/Transaction/Call/Endless.antt =====
-- `parse_call` on a call whose argument is not closed: the loops over the tokens of one argument do
-- not test for the end of the text.
use move_language_server.Base.{ℕ, zero, suc, ◌≡◌, refl, Bool, false, List, [], ◌∷◌, ◌++◌, some, All}
use move_language_server.Base.Text.{Bytes, codes}
use move_language_server.Transaction.Outcome.{out_of_fuel}
use move_language_server.Transaction.Lexer.{
  Tok, Lexing, is, eof, identifier_value, l_paren, r_paren, comma, l_bracket, r_bracket,
}
use move_language_server.Transaction.Call.{
  bracket_loop, word_loop, argument_loop, type_parameters, parse_call,
}
use move_language_server.Transaction.Call.Tokens.{
  Token, Argument, word, brackets, NoSeparator, IsArgument,
}

-- The tokens of an argument without the bracket that closes it.
abbrev pub unclosed : Argument → List Token
unclosed (word first more) = first ∷ more
unclosed (brackets left inside right) = (l_bracket, left) ∷ inside

module _ (lexing : Lexing) where
  open lexing use {Lexer, new, peek, content, advance}

  -- The lexer is at the end of its text, and AtEnd-nil there for as many calls of `advance`.
  abbrev pub AtEnd : ℕ → Lexer → Type 0
  AtEnd zero lexer = peek lexer ≡ eof
  AtEnd (suc n) lexer =
      (peek lexer ≡ eof) × ((lexer' : Lexer) × (advance lexer ≡ some lexer') × AtEnd n lexer')

  -- `Reads` for tokens with nothing behind them.
  abbrev pub ReadsToEnd : Lexer → List Token → Type 0
  ReadsToEnd lexer [] = (n : ℕ) → AtEnd n lexer
  ReadsToEnd lexer ((tok, text) ∷ tokens) =
      (peek lexer ≡ tok)
      × (content lexer ≡ text)
      × ((lexer' : Lexer) × (advance lexer ≡ some lexer') × ReadsToEnd lexer' tokens)

  abbrev pub OpensToEnd : Bytes → List Token → Type 0
  OpensToEnd text tokens =
      (lexer : Lexer) × (advance (new text) ≡ some lexer) × ReadsToEnd lexer tokens

  word_step :
      (fuel : ℕ) (lexer lexer' : Lexer) (tok : Tok) (token : Bytes)
      → peek lexer ≡ tok
      → (is tok comma ≡ false) × (is tok r_paren ≡ false)
      → advance lexer ≡ some lexer'
      → word_loop lexing fuel lexer' (token ++ content lexer) ≡ out_of_fuel
      → word_loop lexing (suc fuel) lexer token ≡ out_of_fuel
  unfolding word_loop
  word_step fuel lexer lexer' tok token p (h, k) a rest = rw (p, h, k, a) rest

  bracket_step :
      (fuel : ℕ) (lexer lexer' : Lexer) (tok : Tok) (token : Bytes)
      → peek lexer ≡ tok
      → is tok r_bracket ≡ false
      → advance lexer ≡ some lexer'
      → bracket_loop lexing fuel lexer' (token ++ content lexer) ≡ out_of_fuel
      → bracket_loop lexing (suc fuel) lexer token ≡ out_of_fuel
  unfolding bracket_loop
  bracket_step fuel lexer lexer' tok token p h a rest = rw (p, h, a) rest

  word-AtEnd :
      (fuel : ℕ) (lexer : Lexer) (token : Bytes)
      → AtEnd fuel lexer
      → word_loop lexing fuel lexer token ≡ out_of_fuel
  word-AtEnd zero lexer token h = unfold word_loop in refl
  word-AtEnd (suc fuel) lexer token (p, (lexer', a, h)) =
      word_step fuel lexer lexer' eof token p (unfold is in (refl, refl)) a
        (word-AtEnd fuel lexer' _ h)

  word_endless :
      (fuel : ℕ) (lexer : Lexer) (token : Bytes) (more : List Token)
      → All NoSeparator more
      → ReadsToEnd lexer more
      → word_loop lexing fuel lexer token ≡ out_of_fuel
  word_endless zero lexer token more h r = unfold word_loop in refl
  word_endless (suc fuel) lexer token [] h r = word-AtEnd (suc fuel) lexer token (r (suc fuel))
  word_endless (suc fuel) lexer token ((tok, text) ∷ more) (h, hs) (p, q, (lexer', a, r)) =
      word_step fuel lexer lexer' tok token p h a (word_endless fuel lexer' _ more hs r)

  bracket-AtEnd :
      (fuel : ℕ) (lexer : Lexer) (token : Bytes)
      → AtEnd fuel lexer
      → bracket_loop lexing fuel lexer token ≡ out_of_fuel
  bracket-AtEnd zero lexer token h = unfold bracket_loop in refl
  bracket-AtEnd (suc fuel) lexer token (p, (lexer', a, h)) =
      bracket_step fuel lexer lexer' eof token p (unfold is in refl) a
        (bracket-AtEnd fuel lexer' _ h)

  bracket_endless :
      (fuel : ℕ) (lexer : Lexer) (token : Bytes) (inside : List Token)
      → All (λ (t : Token). is t.0 r_bracket ≡ false) inside
      → ReadsToEnd lexer inside
      → bracket_loop lexing fuel lexer token ≡ out_of_fuel
  bracket_endless zero lexer token inside h r = unfold bracket_loop in refl
  bracket_endless (suc fuel) lexer token [] h r =
      bracket-AtEnd (suc fuel) lexer token (r (suc fuel))
  bracket_endless (suc fuel) lexer token ((tok, text) ∷ inside) (h, hs) (p, q, (lexer', a, r)) =
      bracket_step fuel lexer lexer' tok token p h a (bracket_endless fuel lexer' _ inside hs r)

  argument_endless :
      (fuel : ℕ) (lexer : Lexer) (arg : Argument) (found : List Bytes)
      → IsArgument arg
      → ReadsToEnd lexer (unclosed arg)
      → argument_loop lexing fuel lexer found ≡ out_of_fuel
  unfolding argument_loop is
  argument_endless zero lexer arg found h r = refl
  argument_endless (suc fuel) lexer (word (tok, text) more) found h (p, q, (first, a, r)) =
      rw (p, a, (h.0).1, h.1, (h.0).0, h.2, word_endless fuel first (content lexer) more h.3 r) refl
  argument_endless (suc fuel) lexer (brackets left inside right) found h (p, q, (first, a, r)) =
      rw (p, a, bracket_endless fuel first (content lexer) inside h r) refl

  -- A call that ends inside of its first argument is never read: `parse_call` runs out of any fuel.
  pub parse_call-unclosed :
      (is_identifier : Bytes → Bool) (fuel : ℕ) (call name : Bytes) (arg : Argument)
      → IsArgument arg
      → OpensToEnd call ((identifier_value, name) ∷ (l_paren, codes "(") ∷ unclosed arg)
      → parse_call lexing is_identifier fuel call ≡ out_of_fuel
  unfolding parse_call type_parameters is
  parse_call-unclosed is_identifier fuel call name arg h
        (first, o, (p, c, (second, a, (q, d, (inside, b, r))))) =
      rw (o, p, a, q, q, b, argument_endless fuel inside arg [] h r) refl
