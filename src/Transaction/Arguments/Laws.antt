-- ===== src/Transaction/Arguments/Laws.antt =====
-- The values that `prepare_arguments` makes fit the parameters of the script, one by one.
use move_language_server.Base.{
  ℕ, zero, suc, ◌+◌, ◌≡◌, refl, ◌∙◌, Bool, true, false, List, [], ◌∷◌, ◌++◌, Option, some, map,
  length, get_elem?, drop, sym, append_assoc, append-nil, arith, if◌then◌else◌, Bool-cases, inl,
  inr,
}
use move_language_server.Base.Classes.{eqb}
use move_language_server.Base.Text.{Bytes, codes}
use move_language_server.Executor.Tags.{bytes_eq}
use move_language_server.Compiler.Addresses.{Codecs}
use move_language_server.Transaction.Outcome.{
  Outcome, ok, ◌>>=◌, >>=-eq-ok, of_option, bad_argument, of_option-eq-ok,
}
use move_language_server.Transaction.Lexer.{Lexing}
use move_language_server.Transaction.Call.{parse_vec}
use move_language_server.Transaction.Arguments.{
  contains, parse_uint, ScriptArg, u8_arg, u64_arg, u128_arg, bool_arg, address_arg, vector_u8,
  vector_u64, vector_u128, vector_bool, vector_address, argument, parser_of, bytes_argument,
  fold_arguments, prepare_arguments,
}

-- The types of the parameters that are no signers, and the number of signers.
abbrev pub is_signer : Bytes × Bytes → Bool
is_signer (name, tp) = eqb tp (codes "&signer")

unfoldable pub value_types : List (Bytes × Bytes) → List Bytes
value_types [] = []
value_types (p ∷ params) = let rest = value_types params in if is_signer p then rest else p.1 ∷ rest

unfoldable pub signer_count : List (Bytes × Bytes) → ℕ
signer_count [] = 0
signer_count (p ∷ params) = let rest = signer_count params in if is_signer p then suc rest else rest

-- The type of Move that a value is of.
abbrev pub type_of : ScriptArg → Bytes
type_of (u8_arg _) = codes "u8"
type_of (u64_arg _) = codes "u64"
type_of (u128_arg _) = codes "u128"
type_of (bool_arg _) = codes "bool"
type_of (address_arg _) = codes "address"
type_of (vector_u8 _) = codes "vector<u8>"
type_of (vector_u64 _) = codes "vector<u64>"
type_of (vector_u128 _) = codes "vector<u128>"
type_of (vector_bool _) = codes "vector<bool>"
type_of (vector_address _) = codes "vector<address>"

-- All that `parse` makes is of the type.
abbrev Makes : Bytes → (Bytes → Outcome ScriptArg) → Type 0
Makes tp parse = (arg : Bytes) (value : ScriptArg) → parse arg ≡ ok value → type_of value ≡ tp

abbrev MakesAny : Bytes → Option (Bytes → Outcome ScriptArg) → Type 0
MakesAny tp o = (parse : Bytes → Outcome ScriptArg) → o ≡ some parse → Makes tp parse

Makes-arm :
    (tp name : Bytes) (parse : Bytes → Outcome ScriptArg)
    (others : Option (Bytes → Outcome ScriptArg))
    → Makes name parse
    → MakesAny tp others
    → MakesAny tp (if eqb tp name then some parse else others)
Makes-arm tp name parse others m ms found h arg value k = elim (Bool-cases (eqb tp name)) [
  | inl same ↦
      let e : Option.some parse ≡ some found = rw same at h in
      let e' : parse ≡ found = cc in m arg value (rw e' k) ∙ sym ((bytes_eq.beq_iff tp name).0 same)
  | inr differ ↦ ms found (rw differ at h) arg value k
]

-- A parsed value under a constructor.
Makes-constructor {ℓ} :
    {A : Type ℓ} (m : Bytes → Outcome A) (con : A → ScriptArg) (tp : Bytes)
    → ((a : A) → type_of (con a) ≡ tp)
    → Makes tp (λ arg. do a ← m arg; ok (con a))
Makes-constructor m con tp h arg value k =
    let (a, _, e) = >>=-eq-ok (m arg) (λ a. ok (con a)) k in
    let e' : con a ≡ value = cc in rw (← e') (h a)

drop-get_elem? :
    (args : List Bytes) (i : ℕ) {arg : Bytes}
    → get_elem? args i ≡ some arg
    → drop i args ≡ arg ∷ drop (suc i) args
drop-get_elem? [] i h = cc
drop-get_elem? (a ∷ args) zero h = let e : a ≡ _ = cc in rw e refl
drop-get_elem? (a ∷ args) (suc i) h = drop-get_elem? args i h

add_one : (n : ℕ) → n + 1 ≡ suc n
add_one n = omega arith

module _ (lexing : Lexing) (codecs : Codecs) (fuel : ℕ) where
  open codecs use {hex_decode}

  bytes_argument-Makes : Makes (codes "vector<u8>") (bytes_argument lexing codecs fuel)
  unfolding bytes_argument
  bytes_argument-Makes arg value h = elim (Bool-cases (contains arg (codes "["))) [
    | inl yes' ↦
        Makes-constructor (λ t. parse_vec lexing (parse_uint 8) fuel t) vector_u8 _ (λ a. refl) arg
          value (rw yes' at h)
    | inr no' ↦
        Makes-constructor (λ t. of_option (hex_decode t) bad_argument) vector_u8 _ (λ a. refl) arg
          value (rw no' at h)
  ]

  parser_of-Makes : (tp : Bytes) → MakesAny tp (parser_of lexing codecs fuel tp)
  unfolding parser_of
  parser_of-Makes tp = Makes-arm tp _ _ _ (Makes-constructor _ bool_arg _ (λ a. refl)) (
      Makes-arm tp _ _ _ (Makes-constructor _ u8_arg _ (λ a. refl)) (
        Makes-arm tp _ _ _ (Makes-constructor _ u64_arg _ (λ a. refl)) (
          Makes-arm tp _ _ _ (Makes-constructor _ u128_arg _ (λ a. refl)) (
            Makes-arm tp _ _ _ (Makes-constructor _ address_arg _ (λ a. refl)) (
              Makes-arm tp _ _ _ bytes_argument-Makes (
                Makes-arm tp _ _ _ (Makes-constructor _ vector_u64 _ (λ a. refl)) (
                  Makes-arm tp _ _ _ (Makes-constructor _ vector_u128 _ (λ a. refl)) (
                    Makes-arm tp _ _ _ (Makes-constructor _ vector_address _ (λ a. refl))
                      (λ parse h. absurd (cc h))))))))))

  -- Each value is what the parser of its type makes of the argument in its place.
  unfoldable pub Parsed : List Bytes → List Bytes → List ScriptArg → Type 0
  Parsed [] args [] = Unit
  Parsed [] args (v ∷ vs) = ⊥
  Parsed (tp ∷ tps) [] vs = ⊥
  Parsed (tp ∷ tps) (arg ∷ args) [] = ⊥
  Parsed (tp ∷ tps) (arg ∷ args) (v ∷ vs) =
      ((parse : Bytes → Outcome ScriptArg) × (parser_of lexing codecs fuel tp ≡ some parse)
        × (parse arg ≡ ok v))
      × Parsed tps args vs

  -- The values that are parsed are of the types of the parameters.
  pub Parsed-types :
      (tps args : List Bytes) (vs : List ScriptArg) → Parsed tps args vs → map type_of vs ≡ tps
  unfolding Parsed
  Parsed-types [] args [] h = refl
  Parsed-types [] args (v ∷ vs) h = absurd h
  Parsed-types (tp ∷ tps) [] vs h = absurd h
  Parsed-types (tp ∷ tps) (arg ∷ args) [] h = absurd h
  Parsed-types (tp ∷ tps) (arg ∷ args) (v ∷ vs) ((parse, p, q), h) =
      rw (parser_of-Makes tp parse p arg v q, Parsed-types tps args vs h) refl

  module _ (args : List Bytes) where
    fold_signer :
        (p : Bytes × Bytes) (params : List (Bytes × Bytes)) (signers args_index : ℕ)
        (values : List ScriptArg)
        → is_signer p ≡ true
        → fold_arguments lexing codecs fuel args (p ∷ params) signers args_index values
          ≡ fold_arguments lexing codecs fuel args params (signers + 1) args_index values
    unfolding fold_arguments
    fold_signer (name, tp) params signers args_index values h = rw h refl

    -- What a fold that went through an argument has done.
    fold_value :
        (p : Bytes × Bytes) (params : List (Bytes × Bytes)) (signers args_index : ℕ)
        (values : List ScriptArg) {r : ℕ × ℕ × List ScriptArg}
        → is_signer p ≡ false
        → fold_arguments lexing codecs fuel args (p ∷ params) signers args_index values ≡ ok r
        → (parse : Bytes → Outcome ScriptArg) × (arg : Bytes) × (value : ScriptArg) × (parser_of
              lexing codecs fuel p.1
            ≡ some parse)
          × (get_elem? args args_index ≡ some arg)
          × (parse arg ≡ ok value)
          × (fold_arguments lexing codecs fuel args params signers
                (args_index + 1)
                (values ++ value ∷ [])
              ≡ ok r)
    unfolding fold_arguments argument
    fold_value (name, tp) params signers args_index values h k =
        let (parse, a, k1) =
          >>=-eq-ok (of_option (parser_of lexing codecs fuel tp) _) _ (rw h at k) in
        let (arg, b, k2) = >>=-eq-ok (of_option (get_elem? args args_index) _) _ k1 in
        let (value, c, k3) = >>=-eq-ok (parse arg) _ k2 in
        (parse, arg, value, of_option-eq-ok _ _ a, of_option-eq-ok _ _ b, c, k3)

    fold_end :
        (signers args_index : ℕ) (values : List ScriptArg) {s n : ℕ} {vs : List ScriptArg}
        → fold_arguments lexing codecs fuel args [] signers args_index values ≡ ok (s, n, vs)
        → (vs ≡ values) × (s ≡ signers) × (n ≡ args_index)
    unfolding fold_arguments
    fold_end signers args_index values h = (cc, cc, cc)

    Parsed-nil : (i : ℕ) → Parsed [] (drop i args) []
    unfolding Parsed
    Parsed-nil i = tt

    Parsed-cons :
        (tp arg : Bytes) (parse : Bytes → Outcome ScriptArg) (tps : List Bytes) (i : ℕ)
        (v : ScriptArg) (vs : List ScriptArg)
        → parser_of lexing codecs fuel tp ≡ some parse
        → get_elem? args i ≡ some arg
        → parse arg ≡ ok v
        → Parsed tps (drop (i + 1) args) vs
        → Parsed (tp ∷ tps) (drop i args) (v ∷ vs)
    unfolding Parsed
    Parsed-cons tp arg parse tps i v vs a b c h =
        rw (drop-get_elem? args i b) ((parse, a, c), rw (add_one i) at h)

    fold_arguments-Parsed :
        (params : List (Bytes × Bytes)) (signers args_index : ℕ) (values : List ScriptArg) (s n : ℕ)
        (vs : List ScriptArg)
        → fold_arguments lexing codecs fuel args params signers args_index values ≡ ok (s, n, vs)
        → (made : List ScriptArg) × (vs ≡ values ++ made)
          × (s ≡ signers + signer_count params)
          × (n ≡ args_index + length made)
          × Parsed (value_types params) (drop args_index args) made
    unfolding value_types signer_count
    fold_arguments-Parsed [] signers args_index values s n vs h =
        let (e1, e2, e3) = fold_end signers args_index values h in
        ([], e1 ∙ sym (append-nil values), omega arith, omega arith, Parsed-nil args_index)
    fold_arguments-Parsed (p ∷ params) signers args_index values s n vs h =
        elim (Bool-cases (is_signer p)) [
          | inl signs ↦
              let (made, e1, e2, e3, e4) =
                fold_arguments-Parsed params (signers + 1) args_index values s n vs
                  (rw (fold_signer p params signers args_index values signs) at h) in
              (made, e1, rw signs (omega arith), e3, rw signs e4)
          | inr plain ↦
              let (parse, arg, value, a, b, c, k) =
                fold_value p params signers args_index values plain h in
              let (made, e1, e2, e3, e4) =
                fold_arguments-Parsed params signers (args_index + 1) (values ++ value ∷ []) s n vs
                  k in
              (
                value ∷ made,
                e1 ∙ append_assoc values (value ∷ []) made,
                rw plain e2,
                omega arith,
                rw plain
                    (Parsed-cons p.1 arg parse (value_types params) args_index value made a b c e4),
              )
        ]

    -- Prepared arguments: as many signers as the script has, and for each other parameter, in their
    -- order, what the parser of its type makes of the argument in its place.
    pub prepare_arguments-Parsed :
        (params : List (Bytes × Bytes)) (s n : ℕ) (vs : List ScriptArg)
        → prepare_arguments lexing codecs fuel args params ≡ ok (s, n, vs)
        → (s ≡ signer_count params) × (n ≡ length vs) × Parsed (value_types params) args vs
    unfolding prepare_arguments
    prepare_arguments-Parsed params s n vs h =
        let (made, e1, e2, e3, e4) = fold_arguments-Parsed params 0 0 [] s n vs h in
        (omega arith, rw e1 (omega arith), rw e1 e4)
