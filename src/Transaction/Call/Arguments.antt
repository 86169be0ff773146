-- ===== src/Transaction/Call/Arguments.antt =====
-- The loops of `parse_call` over the arguments of a call.
use move_language_server.Base.{
  ℕ, zero, suc, ◌+◌, ◌<◌, ◌≡◌, refl, ap, ◌∙◌, true, false, ◌||◌, List, [], ◌∷◌, ◌++◌, some, All,
  map, length, length-append, append_assoc, append-nil, arith,
}
use move_language_server.Base.Text.{Bytes, codes}
use move_language_server.Transaction.Outcome.{ok}
use move_language_server.Transaction.Lexer.{Tok, Lexing, is, comma, r_paren, l_bracket, r_bracket}
use move_language_server.Transaction.Call.{bracket_loop, word_loop, argument_loop}
use move_language_server.Transaction.Call.Tokens.{
  Token, texts, Argument, word, brackets, argument_tokens, argument_text, NoSeparator, IsArgument,
  behind, listed, Reads,
}

length-brackets :
    (inside : List Token) (right : Bytes) (tokens : List Token)
    → length ((inside ++ (r_bracket, right) ∷ []) ++ tokens) ≡ length inside + 1 + length tokens
length-brackets inside right tokens = omega (
  arith,
  length-append (inside ++ (r_bracket, right) ∷ []) tokens,
  length-append inside ((r_bracket, right) ∷ []),
)

module _ (lexing : Lexing) where
  open lexing use {Lexer, peek, content, advance}

  -- One turn in a word, and its end.
  word-more :
      (fuel : ℕ) (lexer lexer' : Lexer) (tok : Tok) (text token : Bytes)
      → peek lexer ≡ tok
      → content lexer ≡ text
      → advance lexer ≡ some lexer'
      → is tok comma ≡ false
      → is tok r_paren ≡ false
      → word_loop lexing (suc fuel) lexer token ≡ word_loop lexing fuel lexer' (token ++ text)
  unfolding word_loop
  word-more fuel lexer lexer' tok text token p c a h k = rw (p, c, a, h, k) refl

  word-end :
      (fuel : ℕ) (lexer : Lexer) (tok : Tok) (token : Bytes)
      → peek lexer ≡ tok
      → (is tok comma || is tok r_paren) ≡ true
      → word_loop lexing (suc fuel) lexer token ≡ ok (token, lexer)
  unfolding word_loop
  word-end fuel lexer tok token p h = rw (p, h) refl

  word_lem :
      (fuel : ℕ) (lexer : Lexer) (token : Bytes) (more : List Token) (tok : Tok) (text : Bytes)
      (rest : List Token)
      → length more < fuel
      → All NoSeparator more
      → (is tok comma || is tok r_paren) ≡ true
      → Reads lexing lexer (more ++ (tok, text) ∷ rest)
      → (lexer' : Lexer) × (word_loop lexing fuel lexer token ≡ ok (token ++ texts more, lexer'))
        × Reads lexing lexer' ((tok, text) ∷ rest)
  word_lem zero lexer token more tok text rest f n e r = absurd (omega arith)
  word_lem (suc fuel) lexer token [] tok text rest f n e r =
      (lexer, rw (append-nil token) (word-end fuel lexer tok token r.0 e), r)
  word_lem (suc fuel) lexer token ((t, c) ∷ more) tok text rest f (n, ns) e (p, q, (lexer', a, r)) =
      let (last, read, stands) =
        word_lem fuel lexer' (token ++ c) more tok text rest (omega arith) ns e r in
      (
        last,
        word-more fuel lexer lexer' t c token p q a n.0 n.1
            ∙ read
            ∙ ap (λ x. ok (x, last)) (append_assoc token c (texts more)),
        stands,
      )

  bracket-more :
      (fuel : ℕ) (lexer lexer' : Lexer) (tok : Tok) (text token : Bytes)
      → peek lexer ≡ tok
      → content lexer ≡ text
      → advance lexer ≡ some lexer'
      → is tok r_bracket ≡ false
      → bracket_loop lexing (suc fuel) lexer token ≡ bracket_loop lexing fuel lexer' (token ++ text)
  unfolding bracket_loop
  bracket-more fuel lexer lexer' tok text token p c a h = rw (p, c, a, h) refl

  bracket-end :
      (fuel : ℕ) (lexer : Lexer) (token : Bytes)
      → peek lexer ≡ r_bracket
      → bracket_loop lexing (suc fuel) lexer token ≡ ok (token, lexer)
  unfolding bracket_loop is
  bracket-end fuel lexer token p = rw p refl

  bracket_lem :
      (fuel : ℕ) (lexer : Lexer) (token : Bytes) (inside : List Token) (right : Bytes)
      (rest : List Token)
      → length inside < fuel
      → All (λ (t : Token). is t.0 r_bracket ≡ false) inside
      → Reads lexing lexer (inside ++ (r_bracket, right) ∷ rest)
      → (lexer' : Lexer) × (bracket_loop lexing fuel lexer token
          ≡ ok (token ++ texts inside, lexer'))
        × Reads lexing lexer' ((r_bracket, right) ∷ rest)
  bracket_lem zero lexer token inside right rest f n r = absurd (omega arith)
  bracket_lem (suc fuel) lexer token [] right rest f n r =
      (lexer, rw (append-nil token) (bracket-end fuel lexer token r.0), r)
  bracket_lem (suc fuel) lexer token ((t, c) ∷ inside) right rest f (n, ns) (p, q, (lexer', a, r)) =
      let (last, read, stands) =
        bracket_lem fuel lexer' (token ++ c) inside right rest (omega arith) ns r in
      (
        last,
        bracket-more fuel lexer lexer' t c token p q a n
            ∙ read
            ∙ ap (λ x. ok (x, last)) (append_assoc token c (texts inside)),
        stands,
      )

  -- The turns of the loop over the arguments.
  arguments-end :
      (fuel : ℕ) (lexer : Lexer) (found : List Bytes)
      → peek lexer ≡ r_paren
      → argument_loop lexing (suc fuel) lexer found ≡ ok found
  unfolding argument_loop is
  arguments-end fuel lexer found p = rw p refl

  arguments-comma :
      (fuel : ℕ) (lexer lexer' : Lexer) (found : List Bytes)
      → peek lexer ≡ comma
      → advance lexer ≡ some lexer'
      → argument_loop lexing (suc fuel) lexer found ≡ argument_loop lexing fuel lexer' found
  unfolding argument_loop is
  arguments-comma fuel lexer lexer' found p a = rw (p, a) refl

  arguments-brackets :
      (fuel : ℕ) (lexer inside last behind' : Lexer) (left token right : Bytes) (found : List Bytes)
      → peek lexer ≡ l_bracket
      → content lexer ≡ left
      → advance lexer ≡ some inside
      → bracket_loop lexing fuel inside left ≡ ok (token, last)
      → content last ≡ right
      → advance last ≡ some behind'
      → argument_loop lexing (suc fuel) lexer found
        ≡ argument_loop lexing fuel behind' (found ++ (token ++ right) ∷ [])
  unfolding argument_loop is
  arguments-brackets fuel lexer inside last behind' left token right found p c a b d e =
      rw (p, c, a, b, d, e) refl

  module _ (fuel : ℕ) (lexer inside last : Lexer) (tok : Tok) (text token : Bytes)
      (found : List Bytes) (p : peek lexer ≡ tok) (c : content lexer ≡ text)
      (a : advance lexer ≡ some inside) (starts : IsArgument (word (tok, text) []))
      (w : word_loop lexing fuel inside text ≡ ok (token, last)) where
    arguments-last_word :
        peek last ≡ r_paren → argument_loop lexing (suc fuel) lexer found ≡ ok (found ++ token ∷ [])
    unfolding argument_loop is
    arguments-last_word e = rw (p, c, a, (starts.0).1, starts.1, (starts.0).0, starts.2, w, e) refl

    arguments-word :
        (behind' : Lexer)
        → peek last ≡ comma
        → advance last ≡ some behind'
        → argument_loop lexing (suc fuel) lexer found
          ≡ argument_loop lexing fuel behind' (found ++ token ∷ [])
    unfolding argument_loop is
    arguments-word behind' e f =
        rw (p, c, a, (starts.0).1, starts.1, (starts.0).0, starts.2, w, e, f) refl

  -- A list in brackets and what stands behind it.
  brackets_lem :
      (fuel : ℕ) (lexer : Lexer) (left : Bytes) (inside : List Token) (right : Bytes) (tok : Tok)
      (text : Bytes) (rest : List Token) (found : List Bytes)
      → length inside < fuel
      → IsArgument (brackets left inside right)
      → Reads lexing lexer (argument_tokens (brackets left inside right) ++ (tok, text) ∷ rest)
      → (lexer' : Lexer) × (argument_loop lexing (suc fuel) lexer found
          ≡ argument_loop lexing fuel lexer'
              (found ++ argument_text (brackets left inside right) ∷ []))
        × Reads lexing lexer' ((tok, text) ∷ rest)
  brackets_lem fuel lexer left inside right tok text rest found f h (p, c, (first, a, r)) =
      let (last, read, (q, d, (lexer', b, stands))) =
        bracket_lem fuel first left inside right ((tok, text) ∷ rest) f h
          (rw (append_assoc inside ((r_bracket, right) ∷ []) ((tok, text) ∷ rest)) at r) in
      (
        lexer',
        arguments-brackets fuel lexer first last lexer' left (left ++ texts inside) right found p c
            a read d b,
        stands,
      )

  module _ (close : Bytes) (rest : List Token) where
    abbrev written_arguments : List Argument → List Token
    written_arguments args = listed (map argument_tokens args) ((r_paren, close) ∷ rest)

    abbrev written_behind : List Argument → List Token
    written_behind args = behind (map argument_tokens args) ((r_paren, close) ∷ rest)

    pub arguments_lem :
        (fuel : ℕ) (lexer : Lexer) (args : List Argument) (found : List Bytes)
        → length (written_arguments args) < fuel
        → All IsArgument args
        → Reads lexing lexer (written_arguments args)
        → argument_loop lexing fuel lexer found ≡ ok (found ++ map argument_text args)
    arguments_lem zero lexer args found f h r = absurd (omega arith)
    arguments_lem (suc fuel) lexer [] found f h r =
        rw (append-nil found) (arguments-end fuel lexer found r.0)
    arguments_lem (suc fuel) lexer (word (tok, text) more ∷ []) found f (h, hs)
          (p, c, (first, a, r)) =
        let (last, read, stands) =
          word_lem fuel first text more r_paren close rest
            (omega (arith, length-append more ((r_paren, close) ∷ rest))) h.3 (unfold is in refl)
            r in
        arguments-last_word fuel lexer first last tok text (text ++ texts more) found p c a
          (h.0, h.1, h.2, tt) read stands.0
    arguments_lem (suc fuel) lexer (word (tok, text) more ∷ arg ∷ args) found f (h, hs)
          (p, c, (first, a, r)) =
        let (last, read, (q, d, (lexer', b, stands))) =
          word_lem fuel first text more comma (codes ",") (written_arguments (arg ∷ args))
            (omega (arith, length-append more (written_behind (arg ∷ args)))) h.3
            (unfold is in refl) r in
        arguments-word fuel lexer first last tok text (text ++ texts more) found p c a
          (h.0, h.1, h.2, tt) read lexer' q b
        ∙ arguments_lem fuel lexer' (arg ∷ args) (found ++ (text ++ texts more) ∷ [])
            (omega (arith, length-append more (written_behind (arg ∷ args)))) hs stands
        ∙ ap ok (append_assoc found _ _)
    arguments_lem (suc zero) lexer (brackets left inside right ∷ args) found f (h, hs) r =
        absurd (omega (arith, length-brackets inside right (written_behind args)))
    arguments_lem (suc (suc fuel)) lexer (brackets left inside right ∷ []) found f (h, hs) r =
        let (lexer', read, stands) =
          brackets_lem (suc fuel) lexer left inside right r_paren close rest found
            (omega (arith, length-brackets inside right (written_behind []))) h r in
        read ∙ arguments-end fuel lexer' _ stands.0
    arguments_lem (suc (suc fuel)) lexer (brackets left inside right ∷ arg ∷ args) found f (h, hs)
          r =
        let (lexer', read, (q, d, (lexer'', b, stands))) =
          brackets_lem (suc fuel) lexer left inside right comma (codes ",")
            (written_arguments (arg ∷ args)) found
            (omega (arith, length-brackets inside right (written_behind (arg ∷ args)))) h r in
        read
        ∙ arguments-comma fuel lexer' lexer'' _ q b
        ∙ arguments_lem fuel lexer'' (arg ∷ args) _
            (omega (arith, length-brackets inside right (written_behind (arg ∷ args)))) hs stands
        ∙ ap ok (append_assoc found _ _)
