-- ===== src/Transaction/Builder/Laws.antt =====
-- What a transaction that is built has, and the option for type parameters.
use move_language_server.Base.{
  ℕ, ◌%◌, ◌≡◌, refl, sym, ap, ◌∙◌, Bool, true, ◌&&◌, List, [], ◌∷◌, Option, none, some, map, length,
  ◌==◌, ==_iff, Bool-cases, inl, inr,
}
use move_language_server.Base.Classes.{eqb, and_split}
use move_language_server.Base.Text.{Bytes}
use move_language_server.Executor.Tags.{TypeTag, bytes_eq}
use move_language_server.Compiler.Addresses.{Codecs}
use move_language_server.Transaction.Outcome.{
  Outcome, ok, failed, >>=-eq-ok, ensure, ensure-eq-ok, of_option, of_option-eq-ok, lexer_error,
  script_not_found, wrong_type_parameters, wrong_arguments,
}
use move_language_server.Transaction.ScriptMeta.{Meta}
use move_language_server.Transaction.Lexer.{Lexing, eof}
use move_language_server.Transaction.Call.{parse_type_params}
use move_language_server.Transaction.Arguments.{ScriptArg, prepare_arguments}
use move_language_server.Transaction.Arguments.Laws.{
  Parsed, Parsed-types, type_of, value_types, signer_count, prepare_arguments-Parsed,
}
use move_language_server.Transaction.Lookup.{MoveFile, Scripts, lookup_script}
use move_language_server.Transaction.Builder.{
  CreateTransactionCmd, TransactionBuilder, CompiledUnit, Transaction, Compilation, replaced,
  of_call, types_option, new_builder, build_script, find_unit, build,
}

module _ (lexing : Lexing) (codecs : Codecs) (is_identifier : Bytes → Bool) (fuel : ℕ) where
  open lexing use {new, peek, parse_type}

  types_option-failed :
      (tp : Bytes) (tps : List Bytes) (old : List TypeTag)
      → parse_type (new (replaced lexing codecs is_identifier fuel tp)) ≡ none
      → types_option lexing codecs is_identifier fuel (some (tp ∷ tps)) old ≡ failed lexer_error
  unfolding types_option parse_type_params
  types_option-failed tp tps old h = rw h refl

  new_builder-of_types :
      (cmd : CreateTransactionCmd) (call : Option Bytes × List TypeTag × List Bytes)
      → of_call lexing codecs is_identifier fuel cmd.call ≡ ok call
      → types_option lexing codecs is_identifier fuel cmd.cmd_type_parameters call.1
        ≡ failed lexer_error
      → new_builder lexing codecs is_identifier fuel cmd ≡ failed lexer_error
  unfolding new_builder
  new_builder-of_types cmd call h k = rw (h, k) refl

  -- If a lexer is at its end until it is advanced, and no type is read at the end of a text, then the
  -- command refuses every type parameter that is given as an option, where its call is read.
  pub new_builder-refuses_types :
      ((text : Bytes) → peek (new text) ≡ eof)
      → ((lexer : lexing.Lexer) → peek lexer ≡ eof → parse_type lexer ≡ none)
      → (cmd : CreateTransactionCmd) (tp : Bytes) (tps : List Bytes)
        (call : Option Bytes × List TypeTag × List Bytes)
      → cmd.cmd_type_parameters ≡ some (tp ∷ tps)
      → of_call lexing codecs is_identifier fuel cmd.call ≡ ok call
      → new_builder lexing codecs is_identifier fuel cmd ≡ failed lexer_error
  new_builder-refuses_types fresh no_type cmd tp tps call e h =
      new_builder-of_types cmd call h
        (rw e (types_option-failed tp tps call.1 (no_type _ (fresh _))))

  module _ (compilation : Compilation) (scripts : Scripts) where
    -- A transaction that fits the script it calls.
    pub record Fits (builder : TransactionBuilder) (name : Bytes) (tx : Transaction) : Type 0 where
      pub script : MoveFile
      pub meta : Meta
      pub units : List CompiledUnit
      pub unit : CompiledUnit
      pub found :
          lookup_script scripts builder.script_file_name builder.script_name ≡ ok (script, meta)
      pub called : name ≡ meta.name
      pub built :
          build_script lexing codecs is_identifier fuel compilation scripts script ≡ ok units
      pub unit_found :
          find_unit lexing codecs is_identifier fuel compilation scripts meta.name units ≡ some unit
      pub unit_is_script : unit.is_script ≡ true
      pub unit_named : unit.unit_name ≡ meta.name
      pub coded : tx.code ≡ unit.serialized
      pub types_given : tx.type_args ≡ builder.type_parameters
      pub types_taken : length tx.type_args ≡ length meta.type_parameters
      pub args_taken : length tx.tx_args ≡ length builder.args
      pub args_parsed :
          Parsed lexing codecs fuel (value_types meta.parameters) builder.args tx.tx_args
      pub args_typed : map type_of tx.tx_args ≡ value_types meta.parameters
      pub signed : tx.signers_count ≡ signer_count meta.parameters % 256

    find_unit-some :
        (name : Bytes) (units : List CompiledUnit) (unit : CompiledUnit)
        → find_unit lexing codecs is_identifier fuel compilation scripts name units ≡ some unit
        → (unit.is_script ≡ true) × (unit.unit_name ≡ name)
    unfolding find_unit
    find_unit-some name [] unit h = absurd (cc h)
    find_unit-some name (u ∷ units) unit h =
        elim (Bool-cases (u.is_script && eqb u.unit_name name)) [
          | inl y ↦
              let h' : some u ≡ some unit = rw y at h in
              let same : u ≡ unit = cc in
              let (a, b) = and_split _ _ y in
              rw (← same) (a, (bytes_eq.beq_iff u.unit_name name).0 b)
          | inr n ↦ find_unit-some name units unit (rw n at h)
        ]

    -- The transaction of a builder, of a script's metadata and unit, and of what is prepared.
    abbrev built_of : TransactionBuilder → CompiledUnit → ℕ → List ScriptArg → Transaction
    built_of builder unit s vs = record {
      signers_count = s % 256;
      code = unit.serialized;
      tx_args = vs;
      type_args = builder.type_parameters;
    }

    Fits-parts :
        (builder : TransactionBuilder) (name : Bytes) (tx : Transaction) (script : MoveFile)
        (meta : Meta) (units : List CompiledUnit) (unit : CompiledUnit) (s n : ℕ)
        (vs : List ScriptArg)
        → lookup_script scripts builder.script_file_name builder.script_name ≡ ok (script, meta)
        → build_script lexing codecs is_identifier fuel compilation scripts script ≡ ok units
        → find_unit lexing codecs is_identifier fuel compilation scripts meta.name units ≡ some unit
        → (length meta.type_parameters == length builder.type_parameters) ≡ true
        → prepare_arguments lexing codecs fuel builder.args meta.parameters ≡ ok (s, n, vs)
        → (length builder.args == n) ≡ true
        → ◌≡◌ {A = Outcome (Bytes × Transaction)}
            (ok (meta.name, built_of builder unit s vs))
            (ok (name, tx))
        → Fits builder name tx
    Fits-parts builder name tx script meta units unit s n vs a b c d e f h =
        let (signs, counted, parsed) =
          prepare_arguments-Parsed lexing codecs fuel builder.args meta.parameters s n vs e in
        let (is_one, named) = find_unit-some meta.name units unit c in
        let tx_is : built_of builder unit s vs ≡ tx = cc in
        record {
          script = script;
          meta = meta;
          units = units;
          unit = unit;
          found = a;
          called = cc;
          built = b;
          unit_found = c;
          unit_is_script = is_one;
          unit_named = named;
          coded = sym (ap (λ (t : Transaction). t.code) tx_is);
          types_given = sym (ap (λ (t : Transaction). t.type_args) tx_is);
          types_taken = rw (← tx_is) (sym ((==_iff _ _).0 d));
          args_taken = rw (← tx_is) (sym ((==_iff _ _).0 f ∙ counted));
          args_parsed = rw (← tx_is) parsed;
          args_typed = rw (← tx_is) (Parsed-types lexing codecs fuel _ _ vs parsed);
          signed = rw (← tx_is) (ap (λ k. k % 256) signs);
        }

    -- What `build` returns fits the script: its name is that of the script that was looked up, its code
    -- the serialized unit of that script, it has as many type arguments as the script has type
    -- parameters, and for each parameter that is no signer, in their order, the value that the
    -- parser of its type makes of the argument in its place, a value of that type; the number of
    -- signers is that of the script's, modulo 256.
    pub build-Fits :
        (builder : TransactionBuilder) (name : Bytes) (tx : Transaction)
        → build lexing codecs is_identifier fuel compilation scripts builder ≡ ok (name, tx)
        → Fits builder name tx
    unfolding build
    build-Fits builder name tx h =
        let ((script, meta), a, h1) =
          >>=-eq-ok (lookup_script scripts builder.script_file_name builder.script_name) _ h in
        let (units, b, h2) =
          >>=-eq-ok (build_script lexing codecs is_identifier fuel compilation scripts script) _
            h1 in
        let (unit, c, h3) =
          >>=-eq-ok
            (of_option
              (find_unit lexing codecs is_identifier fuel compilation scripts meta.name units)
              script_not_found)
            _ h2 in
        let (_, d, h4) = >>=-eq-ok (ensure _ wrong_type_parameters) _ h3 in
        let ((s, n, vs), e, h5) =
          >>=-eq-ok (prepare_arguments lexing codecs fuel builder.args meta.parameters) _ h4 in
        let (_, f, h6) = >>=-eq-ok (ensure _ wrong_arguments) _ h5 in
        Fits-parts builder name tx script meta units unit s n vs a b (of_option-eq-ok _ _ c)
          (ensure-eq-ok _ _ d) e (ensure-eq-ok _ _ f) h6
