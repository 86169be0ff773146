-- ===== src/Transaction/Lexer.antt =====
-- The lexer and the parser of types of the Move compiler, as ct.rs and tte.rs use them: a state that
-- `advance` moves to the next token. It is not in this repository, so it is a parameter.
use move_language_server.Base.{ℕ, Bool, true, false, Option}
use move_language_server.Base.Text.{Bytes}
use move_language_server.Dove.Ast.{MoveType}

-- The tokens that the code tests for, and all others.
pub data Tok : Type 0 where
  eof identifier_value less greater comma l_paren r_paren l_bracket r_bracket other_tok : Tok

unfoldable pub is : Tok → Tok → Bool
is eof eof = true
is identifier_value identifier_value = true
is less less = true
is greater greater = true
is comma comma = true
is l_paren l_paren = true
is r_paren r_paren = true
is l_bracket l_bracket = true
is r_bracket r_bracket = true
is other_tok other_tok = true
is _ _ = false

-- `none` is an error. `parse_num` leaves its state changed also when it fails.
pub record Lexing : Type 1 where
  pub Lexer : Type 0
  pub new : Bytes → Lexer
  pub peek : Lexer → Tok
  pub content : Lexer → Bytes
  pub advance : Lexer → Option Lexer
  pub parse_type : Lexer → Option (MoveType × Lexer)
  pub parse_num : Lexer → Option ℕ × Lexer
