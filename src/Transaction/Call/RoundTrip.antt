-- ===== src/Transaction/Call/RoundTrip.antt =====
-- A call that is written by the pattern of the error messages is read back.
use move_language_server.Base.{
  ℕ, zero, suc, ◌<◌, ◌≤◌, ◌≡◌, refl, ap, ◌∙◌, Bool, true, false, ◌||◌, List, [], ◌∷◌, ◌++◌, Option,
  none, some, All, map, length, length-append, append_assoc, append-nil, arith,
}
use move_language_server.Base.Text.{Bytes, codes}
use move_language_server.Executor.Tags.{TypeTag}
use move_language_server.Dove.Ast.{MoveType}
use move_language_server.Transaction.Outcome.{ok}
use move_language_server.Transaction.TypeTags.{unwrap_spanned_ty}
use move_language_server.Transaction.Lexer.{
  Tok, Lexing, is, eof, identifier_value, less, greater, comma, l_paren, r_paren,
}
use move_language_server.Transaction.Call.{type_loop, type_parameters, argument_loop, parse_call}
use move_language_server.Transaction.Call.Tokens.{
  Token, Argument, argument_tokens, argument_text, IsArgument, behind, listed, Reads, Opens,
}
use move_language_server.Transaction.Call.Arguments.{arguments_lem}

-- The tokens of a type, one or more, and the type tag that it stands for.
pub data Typed : Type 0 where
  typed : Token → List Token → TypeTag → Typed

abbrev pub type_tokens : Typed → List Token
type_tokens (typed first more tag) = first ∷ more

abbrev pub type_tag : Typed → TypeTag
type_tag (typed first more tag) = tag

-- The pattern of a call, with or without angle brackets, and anything behind it.
abbrev pub generic_tokens : Option (List Typed) → List Token → List Token
generic_tokens none rest = rest
generic_tokens (some types) rest =
    (less, codes "<") ∷ listed (map type_tokens types) ((greater, codes ">") ∷ rest)

abbrev pub tags_of : Option (List Typed) → List TypeTag
tags_of none = []
tags_of (some types) = map type_tag types

abbrev pub call_tokens : Bytes → Option (List Typed) → List Argument → List Token → List Token
call_tokens name generics args rest =
    (identifier_value, name)
    ∷ generic_tokens generics
        ((l_paren, codes "(") ∷ listed (map argument_tokens args) ((r_paren, codes ")") ∷ rest))

length-behind :
    (items : List (List Token)) (close : List Token) → length close ≤ length (behind items close)
length-behind [] close = omega arith
length-behind (item ∷ items) close =
    omega (arith, length-append item (behind items close), length-behind items close)

length-generic_tokens :
    (generics : Option (List Typed)) (rest : List Token)
    → length rest ≤ length (generic_tokens generics rest)
length-generic_tokens none rest = omega arith
length-generic_tokens (some []) rest = omega arith
length-generic_tokens (some (next ∷ types)) rest =
    let close : List Token = (greater, codes ">") ∷ rest in
    omega (
      arith,
      length-append (type_tokens next) (behind (map type_tokens types) close),
      length-behind (map type_tokens types) close,
    )

module _ (lexing : Lexing) (is_identifier : Bytes → Bool) where
  open lexing use {Lexer, new, peek, content, advance, parse_type}

  -- The compiler's parser reads the type where it stands before a comma or `>`, and it stands for
  -- the tag.
  abbrev pub IsTyped : Typed → Type 0
  IsTyped (typed (tok, text) more tag) =
      (is tok greater ≡ false)
      × (is tok eof ≡ false)
      × (is tok comma ≡ false)
      × ((lexer : Lexer) (separator : Tok) (separator_text : Bytes) (rest : List Token)
          → (is separator comma || is separator greater) ≡ true
          → Reads lexing lexer ((tok, text) ∷ more ++ (separator, separator_text) ∷ rest)
          → (ty : MoveType) × (lexer' : Lexer) × (parse_type lexer ≡ some (ty, lexer'))
            × (unwrap_spanned_ty is_identifier ty ≡ ok tag)
            × Reads lexing lexer' ((separator, separator_text) ∷ rest))

  abbrev pub AllTyped : Option (List Typed) → Type 0
  AllTyped none = Unit
  AllTyped (some types) = All IsTyped types

  types-end :
      (fuel : ℕ) (lexer : Lexer) (found : List TypeTag)
      → peek lexer ≡ greater
      → type_loop lexing is_identifier (suc fuel) lexer found ≡ ok (found, lexer)
  unfolding type_loop is
  types-end fuel lexer found p = rw p refl

  types-comma :
      (fuel : ℕ) (lexer lexer' : Lexer) (found : List TypeTag)
      → peek lexer ≡ comma
      → advance lexer ≡ some lexer'
      → type_loop lexing is_identifier (suc fuel) lexer found
        ≡ type_loop lexing is_identifier fuel lexer' found
  unfolding type_loop is
  types-comma fuel lexer lexer' found p a = rw (p, a) refl

  types-type :
      (fuel : ℕ) (lexer lexer' : Lexer) (tok : Tok) (ty : MoveType) (tag : TypeTag)
      (found : List TypeTag)
      → peek lexer ≡ tok
      → is tok greater ≡ false
      → is tok eof ≡ false
      → is tok comma ≡ false
      → parse_type lexer ≡ some (ty, lexer')
      → unwrap_spanned_ty is_identifier ty ≡ ok tag
      → type_loop lexing is_identifier (suc fuel) lexer found
        ≡ type_loop lexing is_identifier fuel lexer' (found ++ tag ∷ [])
  unfolding type_loop
  types-type fuel lexer lexer' tok ty tag found p g e c t u = rw (p, g, e, c, t, u) refl

  module _ (rest : List Token) where
    abbrev written_types : List Typed → List Token
    written_types types = listed (map type_tokens types) ((greater, codes ">") ∷ rest)

    types_short :
        (more : List Token) (types : List Typed)
        → suc (length (more ++ behind (map type_tokens types) ((greater, codes ">") ∷ rest))) < 1
        → ⊥
    types_short more types f = omega arith

    types_left :
        {fuel : ℕ} (more : List Token) (next : Typed) (types : List Typed)
        → suc
            (length (more ++ behind (map type_tokens (next ∷ types)) ((greater, codes ">") ∷ rest)))
          < suc (suc fuel)
        → length (written_types (next ∷ types)) < fuel
    types_left more next types f = omega (
      arith,
      length-append more (behind (map type_tokens (next ∷ types)) ((greater, codes ">") ∷ rest)),
    )

    types_lem :
        (fuel : ℕ) (lexer : Lexer) (types : List Typed) (found : List TypeTag)
        → length (written_types types) < fuel
        → All IsTyped types
        → Reads lexing lexer (written_types types)
        → (last : Lexer) × (type_loop lexing is_identifier fuel lexer found
            ≡ ok (found ++ map type_tag types, last))
          × Reads lexing last ((greater, codes ">") ∷ rest)
    types_lem zero lexer types found f h r = absurd (omega arith)
    types_lem (suc fuel) lexer [] found f h r =
        (lexer, rw (append-nil found) (types-end fuel lexer found r.0), r)
    types_lem (suc zero) lexer (typed (tok, text) more tag ∷ types) found f h r =
        absurd (types_short more types f)
    types_lem (suc (suc fuel)) lexer (typed (tok, text) more tag ∷ []) found f (h, hs) r =
        let (ty, lexer', parsed, tagged, stands) =
          h.3 lexer greater (codes ">") rest (unfold is in refl) r in
        (
          lexer',
          types-type (suc fuel) lexer lexer' tok ty tag found r.0 h.0 h.1 h.2 parsed tagged
              ∙ types-end fuel lexer' _ stands.0,
          stands,
        )
    types_lem (suc (suc fuel)) lexer (typed (tok, text) more tag ∷ next ∷ types) found f (h, hs) r =
        let (ty, lexer', parsed, tagged, (p, q, (lexer'', a, stands))) =
          h.3 lexer comma (codes ",") (written_types (next ∷ types)) (unfold is in refl) r in
        let (last, read, end) =
          types_lem fuel lexer'' (next ∷ types) (found ++ tag ∷ []) (types_left more next types f)
            hs stands in
        (
          last,
          types-type (suc fuel) lexer lexer' tok ty tag found r.0 h.0 h.1 h.2 parsed tagged
              ∙ types-comma fuel lexer' lexer'' _ p a
              ∙ read
              ∙ ap (λ x. ok (x, last))
                  (append_assoc found (tag ∷ []) (map type_tag (next ∷ types))),
          end,
        )

  generics-none :
      (fuel : ℕ) (lexer : Lexer) (tok : Tok)
      → peek lexer ≡ tok
      → is tok less ≡ false
      → type_parameters lexing is_identifier fuel lexer ≡ ok ([], lexer)
  unfolding type_parameters
  generics-none fuel lexer tok p h = rw (p, h) refl

  generics-some :
      (fuel : ℕ) (lexer first last lexer' : Lexer) (tags : List TypeTag)
      → peek lexer ≡ less
      → advance lexer ≡ some first
      → type_loop lexing is_identifier fuel first [] ≡ ok (tags, last)
      → advance last ≡ some lexer'
      → type_parameters lexing is_identifier fuel lexer ≡ ok (tags, lexer')
  unfolding type_parameters is
  generics-some fuel lexer first last lexer' tags p a t b = rw (p, a, t, b) refl

  -- What `parse_call` puts together.
  parts :
      (fuel : ℕ) (call name : Bytes) (first after_name last inside : Lexer) (tags : List TypeTag)
      (arguments : List Bytes)
      → advance (new call) ≡ some first
      → peek first ≡ identifier_value
      → content first ≡ name
      → advance first ≡ some after_name
      → type_parameters lexing is_identifier fuel after_name ≡ ok (tags, last)
      → peek last ≡ l_paren
      → advance last ≡ some inside
      → argument_loop lexing fuel inside [] ≡ ok arguments
      → parse_call lexing is_identifier fuel call ≡ ok (name, tags, arguments)
  unfolding parse_call is
  parts fuel call name first after_name last inside tags arguments o p c a t q b r =
      rw (o, p, c, a, t, q, b, r) refl

  generics_lem :
      (fuel : ℕ) (lexer : Lexer) (generics : Option (List Typed)) (tok : Tok) (text : Bytes)
      (rest : List Token)
      → is tok less ≡ false
      → length (generic_tokens generics ((tok, text) ∷ rest)) < fuel
      → AllTyped generics
      → Reads lexing lexer (generic_tokens generics ((tok, text) ∷ rest))
      → (last : Lexer) × (type_parameters lexing is_identifier fuel lexer
          ≡ ok (tags_of generics, last))
        × Reads lexing last ((tok, text) ∷ rest)
  generics_lem fuel lexer none tok text rest fresh f h r =
      (lexer, generics-none fuel lexer tok r.0 fresh, r)
  generics_lem fuel lexer (some types) tok text rest fresh f h (p, c, (first, a, r)) =
      let (last, read, (q, d, (lexer', b, stands))) =
        types_lem ((tok, text) ∷ rest) fuel first types [] (omega arith) h r in
      (lexer', generics-some fuel lexer first last lexer' (map type_tag types) p a read b, stands)

  -- A call that is written by the pattern, with types that the compiler's parser reads, is read as
  -- its name, its type tags and the texts of its arguments, whatever stands behind it, with more fuel
  -- than there are tokens.
  pub parse_call-call_tokens :
      (fuel : ℕ) (call name : Bytes) (generics : Option (List Typed)) (args : List Argument)
      (rest : List Token)
      → length (call_tokens name generics args rest) < fuel
      → AllTyped generics
      → All IsArgument args
      → Opens lexing call (call_tokens name generics args rest)
      → parse_call lexing is_identifier fuel call
        ≡ ok (name, tags_of generics, map argument_text args)
  parse_call-call_tokens fuel call name generics args rest f typed_all h
        (first, opened, (p, c, (after_name, a, r))) =
      let (last, read, (q, d, (inside, b, stands))) =
        generics_lem fuel after_name generics l_paren (codes "(")
          (listed (map argument_tokens args) ((r_paren, codes ")") ∷ rest)) (unfold is in refl)
          (omega arith) typed_all r in
      parts fuel call name first after_name last inside (tags_of generics) (map argument_text args)
        opened p c a read q b
        (arguments_lem lexing (codes ")") rest fuel inside args []
          (omega (
            arith,
            length-generic_tokens generics (
                (l_paren, codes "(")
                ∷ listed (map argument_tokens args) ((r_paren, codes ")") ∷ rest)),
          ))
          h stands)
