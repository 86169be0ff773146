-- ===== src/Lib.antt =====
-- The Move language server and its tools: a compiler front end over the Move compiler of libra, an
-- executor of scripts, a language server, an adapter of bytecode, a disassembler.
--
-- Base holds what all parts share: numbers with their Boolean tests, lists, integers of `isize`,
-- keys with decidable equality, maps as association lists, texts as lists of bytes, with the bytes
-- of characters in Base/Utf8.
--
-- Compiler models lang/src/compiler. Compiler/SourceMap is source_map.rs: `FileOffsetMap`, a list
-- of layers, records each edit that the front end makes to a source, and `translate_pos` takes a
-- position of the edited text back. SourceMap/Edits and SourceMap/Tracking say what that means by
-- marking each byte with its origin. SourceMap/Project is the rest of the file: messages and the
-- errors of a project. Compiler/LineEndings is dialects/line_endings.rs: the iterator
-- `NewNormalized` with its four fields, and `normalize`. Compiler/Sender is
-- `replace_sender_placeholder` of parser.rs. Its `while let` loop runs on fuel: more fuel than the
-- text has opening braces is enough, since each turn removes two of them. The iterator's fuel is
-- one more than the text's length, since each call of `next` takes at least one character.
--
-- Compiler/Parser is the rest of parser.rs, from `normalize_source_text` to `parse_program`, and
-- Compiler/Flow is `compile` and the trait `CompileFlow` of compiler/mod.rs, `MoveChecker` of
-- lang/src/checker.rs and `MoveBuilder` of lang/src/builder.rs. The Move compiler is the record
-- `MoveLang`, a dialect the function that replaces the addresses of a text; the fuel is that of
-- the sender's placeholders. Compiler/Addresses is ss58.rs, bech32.rs and
-- dialects/libra/addresses.rs, where the codecs and the matches of the regular expressions are
-- parameters. `replace_libra_address` is given the number of turns of its loop, since what ends
-- the loop is the regular expression: what is stated of it holds after any number of turns.
-- Addresses/Positions and Parser/Positions say where positions lead, Addresses/Shorter where they
-- do not.
--
-- Compiler/Location is `File` of location.rs; the line starts of codespan and the UTF-8 decoding
-- of a text are its inputs.
--
-- Compat/Mutator is lang/compat/src/mutator.rs: the replacements of byte ranges that adapt
-- bytecode, made in place. A slice or vector operation that would panic answers `none`; `isize`
-- and `usize` keep their wrap-around in `as_usize`. Compat/Adapt is lib.rs and context.rs beside
-- it: what is to be replaced in a file whose addresses have 16 bytes. The readers of the binary
-- format are the record `Reader`, and sums of type `u32` keep their wrap-around. The loop over a
-- pool of constants takes one unit of fuel for each constant; fuel beyond the bytes of the pool is
-- enough, since a token takes a byte or more.
--
-- Executor models executor/src. Executor/Tags is oracles.rs, Executor/Cache is `FakeRemoteCache`
-- of execution.rs, Executor/Script is `execute_script` of execution.rs with `ExecutionMeta` of
-- meta.rs, Executor/Session is `ExecutionSession::execute` of session.rs with
-- `PipelineExecutionResult` of explain.rs, Executor/DocComments is `extract_script_doc_comments`
-- of session.rs. The virtual machine and the texts of the explanations are the record `Machine`: a
-- run is a function of the store, the bytes of the script, the arguments, the signers and the gas.
--
-- Server models language_server/src. Server/Config is inner/config.rs over the record `Settings`
-- (serde, the dialects, the disk). Server/Database is `RootDatabase` of inner/db.rs with
-- inner/change.rs and `GlobalState` of global_state.rs. Server/Loop is main_loop.rs with
-- subscriptions.rs: `loop_turn` and what it calls, where the channels are lists in the order of
-- the sends; Server/Diagnostics is `make_diagnostic`, inner/analysis.rs and
-- `compute_file_diagnostics`, with the compiler's check as a parameter. A request id of type `i32`
-- is kept by its 32 bits.
--
-- Dove/Meta is `DefinitionMeta` of dove/src/index/meta.rs, the walk that collects the imports of a
-- definition, over the syntax of Dove/Ast; Dove/Meta/Mentions lists the modules that the walk
-- comes to, without its state, Dove/Meta/Names all that a definition names, and Dove/Meta/Skipped
-- those that the walk passes over. The test of `Identifier::new` and the random number of a
-- script's name are arguments.
--
-- Disassembler models lang/disassembler/src. Disassembler/Unit is `CompiledUnit` of unit.rs over
-- the tables of the binary format, Disassembler/Imports is imports.rs, Disassembler/Types is
-- types.rs and generics.rs, Disassembler/Exp is code/exp with the ranges of expressions.
-- Disassembler/Translator is code/translator.rs and code/iter.rs: the state, with the last
-- expression first and the flags of used locals as a list; its child Build makes the expressions
-- of single instructions, Branching those of conditional jumps, and Run is `translate`, `next_exp`
-- and `Body::new`. The loop and the loops of its blocks share their fuel, one more than the number
-- of instructions: each turn takes an instruction. A panic is a result of its own. What
-- `Bytecode::offset` answers is a parameter. Translator/Trees is the code that a compiler makes of
-- expressions without branches, against which the translator is checked. The trait `Encode` is
-- Disassembler/Words for names and types, Disassembler/Text for expressions and whole bodies and
-- Disassembler/SourceText for declarations and units. Disassembler/Source makes these from
-- functions.rs, structs.rs, module.rs, script.rs and lib.rs. What the binary format's reader gives
-- are records of tables.
--
-- Dove/Index is index/mod.rs and index/store.rs of dove/src: the modules by id and source, their
-- stored form, and the resolution of imports, where the downloads of the chain are a parameter.
-- Each level of dependencies takes one unit of fuel; fuel beyond the longest chain of dependencies
-- is enough, and a circle of dependencies has none.
--
-- Transaction models dove/src/cmd/ct.rs with what it calls. Transaction/Lexer is the lexer of the
-- Move compiler as a parameter, Transaction/Call `parse_call` and `parse_vec` with `parse` of
-- resource-viewer/src/tte.rs, Transaction/TypeTags `unwrap_spanned_ty` of the same file,
-- Transaction/ScriptMeta lang/src/meta_extractor.rs, Transaction/Lookup the search of the script,
-- Transaction/Arguments its arguments, Transaction/Builder `TransactionBuilder`. A loop over
-- tokens takes one unit of fuel a turn, and more fuel than the text has tokens is enough for a
-- call that is closed. A panic is an outcome of its own.
--
-- Maps and sets are lists of entries, one for each key; no result stated here depends on their
-- order. Texts are bytes, but the source that is normalised is its characters, which the iterator
-- counts; a path is its text. Not modelled: reading and writing of files, network access, logging
-- and command lines; the Move compiler, its bytecode format and the virtual machine, which are not
-- in this repository; the choice of a dialect and its table of gas costs; the search of folders
-- and the other commands of dove, what the resource viewer asks of a node.
pub mod Base
pub mod Compiler
pub mod Compat
pub mod Disassembler
pub mod Dove
pub mod Executor
pub mod Server
pub mod Transaction
