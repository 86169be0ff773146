-- ===== src/Transaction/Call/Tokens.antt =====
-- The calls that `parse_call` is meant to read, as tokens, and that a lexer reads given tokens.
use move_language_server.Base.{◌≡◌, false, List, [], ◌∷◌, ◌++◌, some, All}
use move_language_server.Base.Text.{Bytes, codes}
use move_language_server.Transaction.Lexer.{
  Tok, Lexing, is, eof, comma, r_paren, l_bracket, r_bracket,
}

abbrev pub Token : Type 0
Token = Tok × Bytes

abbrev pub texts : List Token → Bytes
texts [] = []
texts ((tok, text) ∷ tokens) = text ++ texts tokens

-- An argument: a word of one or more tokens, or a list in brackets.
pub data Argument : Type 0 where
  word : Token → List Token → Argument
  brackets : Bytes → List Token → Bytes → Argument

abbrev pub argument_tokens : Argument → List Token
argument_tokens (word first more) = first ∷ more
argument_tokens (brackets left inside right) = (l_bracket, left) ∷ inside ++ (r_bracket, right) ∷ []

abbrev pub argument_text : Argument → Bytes
argument_text (word first more) = texts (first ∷ more)
argument_text (brackets left inside right) = (left ++ texts inside) ++ right

abbrev pub NoSeparator : Token → Type 0
NoSeparator (tok, _) = (is tok comma ≡ false) × (is tok r_paren ≡ false)

-- Where a word or a list in brackets ends is left to the commas and brackets around it.
abbrev pub IsArgument : Argument → Type 0
IsArgument (word (tok, text) more) =
    NoSeparator (tok, text)
    × (is tok eof ≡ false)
    × (is tok l_bracket ≡ false)
    × All NoSeparator more
IsArgument (brackets left inside right) = All (λ (t : Token). is t.0 r_bracket ≡ false) inside

-- Items with commas between them, before `close`: behind an item, and from the first one.
abbrev pub behind : List (List Token) → List Token → List Token
behind [] close = close
behind (item ∷ items) close = (comma, codes ",") ∷ item ++ behind items close

abbrev pub listed : List (List Token) → List Token → List Token
listed [] close = close
listed (item ∷ items) close = item ++ behind items close

module _ (lexing : Lexing) where
  open lexing use {Lexer, new, peek, content, advance}

  -- The lexer stands at the first of the tokens, and `advance` leads through them.
  abbrev pub Reads : Lexer → List Token → Type 0
  Reads lexer [] = peek lexer ≡ eof
  Reads lexer ((tok, text) ∷ tokens) =
      (peek lexer ≡ tok)
      × (content lexer ≡ text)
      × ((lexer' : Lexer) × (advance lexer ≡ some lexer') × Reads lexer' tokens)

  abbrev pub Opens : Bytes → List Token → Type 0
  Opens text tokens = (lexer : Lexer) × (advance (new text) ≡ some lexer) × Reads lexer tokens
