-- ===== src/Transaction/Builder.antt =====
-- `TransactionBuilder` of dove/src/cmd/ct.rs: from the options of the command to the transaction.
-- The compiler and the folders of a project are the record `Compilation`.
pub mod Laws
use move_language_server.Base.{
  ℕ, ◌%◌, not, ◌==◌, ◌&&◌, Bool, true, false, List, [], ◌∷◌, ◌++◌, Option, none, some, map, length,
  if◌then◌else◌,
}
use move_language_server.Base.Classes.{eqb}
use move_language_server.Base.Text.{Bytes}
use move_language_server.Executor.Tags.{TypeTag, bytes_eq}
use move_language_server.Compiler.SourceMap.{empty_map}
use move_language_server.Compiler.Addresses.{Codecs, replace_ss58_addresses}
use move_language_server.Transaction.Outcome.{
  Outcome, ok, failed, ◌>>=◌, ◌>>◌, ensure, of_option, not_built, script_not_found,
  wrong_type_parameters, wrong_arguments,
}
use move_language_server.Transaction.ScriptMeta.{Meta}
use move_language_server.Transaction.Lexer.{Lexing}
use move_language_server.Transaction.Call.{parse_type_params, parse_call}
use move_language_server.Transaction.Arguments.{ScriptArg, prepare_arguments}
use move_language_server.Transaction.Lookup.{MoveFile, Scripts, lookup_script}

pub record CreateTransactionCmd : Type 0 where
  pub call : Option Bytes
  pub cmd_script_name : Option Bytes
  pub cmd_file_name : Option Bytes
  pub cmd_type_parameters : Option (List Bytes)
  pub cmd_args : Option (List Bytes)

pub record TransactionBuilder : Type 0 where
  pub script_file_name : Option Bytes
  pub script_name : Option Bytes
  pub type_parameters : List TypeTag
  pub args : List Bytes

pub record CompiledUnit : Type 0 where
  pub is_script : Bool
  pub unit_name : Bytes
  pub serialized : Bytes

pub record Transaction : Type 0 where
  pub signers_count : ℕ
  pub code : Bytes
  pub tx_args : List ScriptArg
  pub type_args : List TypeTag

-- The index of the project, the sender of its manifest and the compiler, with errors as `none`;
-- `verify_units` answers whether there are no errors.
pub record Compilation : Type 1 where
  pub Sender : Type 0
  pub module_dir : Option Bytes
  pub dependency_set : List Bytes → Option (List Bytes)
  pub load_file : Bytes → Option MoveFile
  pub load_move_files : List Bytes → Option (List MoveFile)
  pub account_address : Option Sender
  pub compile : Sender → List MoveFile → List MoveFile → Option (List CompiledUnit)
  pub verify_units : List CompiledUnit → List CompiledUnit × Bool

module _ (lexing : Lexing) (codecs : Codecs) (is_identifier : Bytes → Bool) (fuel : ℕ) where
  open lexing use {new}

  -- The addresses of a text, replaced, without the map.
  unfoldable pub replaced : Bytes → Bytes
  replaced text = (replace_ss58_addresses codecs text empty_map).0

  -- The lexer of each type parameter is new: it is not advanced to its first token.
  unfoldable pub parse_types : List Bytes → Outcome (List TypeTag)
  unfolding replaced
  parse_types [] = ok []
  parse_types (tp ∷ tps) = do
    parsed ← parse_type_params lexing is_identifier (new (replaced tp))
    tags ← parse_types tps
    ok (parsed.0 ∷ tags)

  unfoldable pub of_call : Option Bytes → Outcome (Option Bytes × List TypeTag × List Bytes)
  unfolding replaced
  of_call none = ok (none, [], [])
  of_call (some call) = do
    parsed ← parse_call lexing is_identifier fuel (replaced call)
    ok (some parsed.0, parsed.1, parsed.2)

  -- What an option of the command replaces.
  abbrev pub override_name : Option Bytes → Option Bytes → Option Bytes
  override_name none old = old
  override_name (some name) old = some name

  unfoldable pub types_option : Option (List Bytes) → List TypeTag → Outcome (List TypeTag)
  unfolding parse_types
  types_option none old = ok old
  types_option (some tps) old = parse_types tps

  -- TransactionBuilder::new
  unfoldable pub new_builder : CreateTransactionCmd → Outcome TransactionBuilder
  unfolding of_call types_option replaced
  new_builder cmd = do
    called ← of_call cmd.call
    tags ← types_option cmd.cmd_type_parameters called.1
    ok (record {
      script_file_name = cmd.cmd_file_name;
      script_name = override_name cmd.cmd_script_name called.0;
      type_parameters = tags;
      args = elim cmd.cmd_args [ none ↦ called.2 | some texts ↦ map replaced texts ];
    })

  -- `.collect::<Result<Vec<_>, _>>()` of the loaded files
  unfoldable pub load_dependencies :
      (Bytes → Option MoveFile) → List Bytes → Outcome (List MoveFile)
  load_dependencies load [] = ok []
  load_dependencies load (path ∷ paths) = do
    file ← of_option (load path) not_built
    files ← load_dependencies load paths
    ok (file ∷ files)

  module _ (compilation : Compilation) (scripts : Scripts) where
    open compilation use {
      module_dir, dependency_set, load_file, load_move_files, account_address, compile,
      verify_units,
    }

    unfoldable pub build_script : MoveFile → Outcome (List CompiledUnit)
    unfolding load_dependencies
    build_script script = do
      dir ← of_option module_dir not_built
      dep_set ← of_option (dependency_set (dir ∷ script.file_name ∷ [])) not_built
      dep_list ← load_dependencies load_file dep_set
      modules ← of_option (load_move_files (dir ∷ [])) not_built
      sender ← of_option account_address not_built
      units ← of_option (compile sender (script ∷ []) (dep_list ++ modules)) not_built
      ensure (verify_units units).1 not_built
      ok (verify_units units).0

    -- `units.into_iter().find(..)`
    unfoldable pub find_unit : Bytes → List CompiledUnit → Option CompiledUnit
    find_unit name [] = none
    find_unit name (unit ∷ units) =
        let rest = find_unit name units in
        if unit.is_script && eqb unit.unit_name name then some unit else rest

    -- TransactionBuilder::build; `signers as u8` keeps eight bits.
    unfoldable pub build : TransactionBuilder → Outcome (Bytes × Transaction)
    unfolding build_script find_unit
    build builder = do
      found ← lookup_script scripts builder.script_file_name builder.script_name
      units ← build_script found.0
      unit ← of_option (find_unit (found.1).name units) script_not_found
      ensure (length (found.1).type_parameters == length builder.type_parameters)
          wrong_type_parameters
      prepared ← prepare_arguments lexing codecs fuel builder.args (found.1).parameters
      ensure (length builder.args == prepared.1) wrong_arguments
      ok (
        (found.1).name,
        record {
          signers_count = prepared.0 % 256;
          code = unit.serialized;
          tx_args = prepared.2;
          type_args = builder.type_parameters;
        },
      )
