-- ===== src/Compiler/Parser.antt =====
-- parser.rs of lang/src/compiler, from the source text to the parsed program. The Move compiler of libra is
-- the record `MoveLang`. `none` is a panic, or fuel that ran out.
pub mod Positions
use move_language_server.Base.{
  ℕ, Bool, true, false, String, List, [], ◌∷◌, ◌++◌, Option, none, some, ◌>>=◌,
}
use move_language_server.Base.Assoc.{Assoc, insert}
use move_language_server.Base.Classes.{string_eq}
use move_language_server.Base.Text.{Bytes}
use move_language_server.Base.Utf8.{encode}
use move_language_server.Compiler.SourceMap.{FileOffsetMap}
use move_language_server.Compiler.SourceMap.Project.{ProjectOffsetMap, Error, transform}
use move_language_server.Compiler.LineEndings.{normalize}
use move_language_server.Compiler.Sender.{replace_sender_placeholder}

-- Rust's `Result` with the compiler's errors.
pub data Checked (A : Type 0) : Type 0 where
  ok : A → Checked A
  errors : List Error → Checked A

-- `content` is the characters of the text.
pub record MoveFile : Type 0 where
  pub name : String
  pub content : List ℕ

pub record ProvidedAccountAddress : Type 0 where
  pub original : Bytes
  pub normalized_original : Bytes
  pub lowered : Bytes

-- `from_hex_literal` reads an address from its text.
pub record MoveLang : Type 1 where
  pub from_hex_literal : Bytes → Option ℕ
  pub Definition : Type 0
  pub FileCommentMap : Type 0
  pub Program : Type 0
  pub CompiledUnit : Type 0
  pub no_comments : FileCommentMap
  pub strip_comments_and_verify : String → Bytes → Checked (Bytes × FileCommentMap)
  pub parse_file_string : String → Bytes → Checked (List Definition)
  pub check_program : Checked (List Definition × List Definition) → Option ℕ → Checked Program
  pub translate_program : Program → Checked (List CompiledUnit)

-- How a dialect replaces the addresses of a text.
abbrev pub ReplaceAddresses : Type 0
ReplaceAddresses = Bytes → FileOffsetMap → Bytes × FileOffsetMap

module _ (replace_addresses : ReplaceAddresses) (fuel : ℕ) where
  unfoldable pub replace_sender :
      Option ProvidedAccountAddress → Bytes × FileOffsetMap → Option (Bytes × FileOffsetMap)
  replace_sender none state = some state
  replace_sender (some sender) (source_text, file_source_map) =
      replace_sender_placeholder fuel source_text sender.normalized_original file_source_map

  -- From the characters of a source to the bytes of the normalised text.
  unfoldable pub normalize_source_text :
      List ℕ → Option ProvidedAccountAddress → Option (Bytes × FileOffsetMap)
  unfolding replace_sender
  normalize_source_text source_text sender = do
    let normalized = normalize source_text
    replaced ← replace_sender sender (encode normalized.0, normalized.1)
    some (replace_addresses replaced.0 replaced.1)

  module _ (move_lang : MoveLang) where
    open move_lang use {
      Definition, FileCommentMap, Program, CompiledUnit, no_comments, strip_comments_and_verify,
      parse_file_string, check_program, translate_program, from_hex_literal,
    }

    pub record ParsedFile : Type 0 where
      pub defs : List Definition
      pub comments : FileCommentMap
      pub parse_errors : List Error
      pub offsets : FileOffsetMap
      pub text : Bytes

    unfoldable pub parse_stripped :
        String → FileOffsetMap → Bytes → Checked (Bytes × FileCommentMap) → ParsedFile
    parse_stripped fname file_source_map source_buffer (errors es) = record {
      defs = [];
      comments = no_comments;
      parse_errors = es;
      offsets = file_source_map;
      text = source_buffer;
    }
    parse_stripped fname file_source_map source_buffer (ok (buffer, comment_map)) =
        elim (parse_file_string fname buffer) [
          | ok parsed ↦ record {
            defs = parsed;
            comments = comment_map;
            parse_errors = [];
            offsets = file_source_map;
            text = source_buffer;
          }
          | errors es ↦ record {
            defs = [];
            comments = comment_map;
            parse_errors = es;
            offsets = file_source_map;
            text = source_buffer;
          }
        ]

    -- `files.insert(fname, source_buffer)` is left to the caller, for the text of the file.
    unfoldable pub parse_file : MoveFile → Option ProvidedAccountAddress → Option ParsedFile
    unfolding normalize_source_text parse_stripped
    parse_file file sender = do
      normalized ← normalize_source_text file.content sender
      some (
          parse_stripped file.name normalized.1 normalized.0
            (strip_comments_and_verify file.name normalized.0))

    pub record ParsingMeta : Type 0 where
      pub source_map : Assoc String Bytes
      pub offsets_map : ProjectOffsetMap
      pub comment_map : Assoc String FileCommentMap

    -- What the two loops of `parse_program` change.
    pub record Parsing : Type 0 where
      pub parsing_meta : ParsingMeta
      pub source_definitions : List Definition
      pub lib_definitions : List Definition
      pub found_errors : List Error

    abbrev pub start : Parsing
    start = record {
      parsing_meta = record { source_map = []; offsets_map = []; comment_map = [] };
      source_definitions = [];
      lib_definitions = [];
      found_errors = [];
    }

    unfoldable pub add_target : String → ParsedFile → Parsing → Parsing
    add_target name file parsing = record {
      parsing_meta = record {
        source_map = insert name file.text (parsing.parsing_meta).source_map;
        offsets_map = insert name file.offsets (parsing.parsing_meta).offsets_map;
        comment_map = insert name file.comments (parsing.parsing_meta).comment_map;
      };
      source_definitions = parsing.source_definitions ++ file.defs;
      lib_definitions = parsing.lib_definitions;
      found_errors = parsing.found_errors ++ file.parse_errors;
    }

    unfoldable pub add_dep : String → ParsedFile → Parsing → Parsing
    add_dep name file parsing = record {
      parsing_meta = record {
        source_map = insert name file.text (parsing.parsing_meta).source_map;
        offsets_map = insert name file.offsets (parsing.parsing_meta).offsets_map;
        comment_map = (parsing.parsing_meta).comment_map;
      };
      source_definitions = parsing.source_definitions;
      lib_definitions = parsing.lib_definitions ++ file.defs;
      found_errors = parsing.found_errors ++ file.parse_errors;
    }

    unfoldable pub parse_each :
        (String → ParsedFile → Parsing → Parsing)
        → Option ProvidedAccountAddress
        → List MoveFile
        → Parsing
        → Option Parsing
    unfolding parse_file
    parse_each add sender [] parsing = some parsing
    parse_each add sender (file ∷ files) parsing = do
      parsed ← parse_file file sender
      parse_each add sender files (add file.name parsed parsing)

    pub record ParserArtifact : Type 0 where
      pub meta : ParsingMeta
      pub result : Checked (List Definition × List Definition)

    unfoldable pub result_of : Parsing → List Error → Checked (List Definition × List Definition)
    result_of parsing [] = ok (parsing.source_definitions, parsing.lib_definitions)
    result_of parsing (e ∷ es) = errors (e ∷ es)

    unfoldable pub parse_program :
        List MoveFile → List MoveFile → Option ProvidedAccountAddress → Option ParserArtifact
    unfolding parse_each add_target add_dep result_of
    parse_program targets deps sender = do
      of_targets ← parse_each add_target sender targets start
      all ← parse_each add_dep sender deps of_targets
      some (record { meta = all.parsing_meta; result = result_of all all.found_errors })
