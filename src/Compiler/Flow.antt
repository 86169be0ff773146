-- ===== src/Compiler/Flow.antt =====
-- `compile` and `CompileFlow` of lang/src/compiler/mod.rs, `MoveChecker` of lang/src/checker.rs and
-- `MoveBuilder` of lang/src/builder.rs, over the parser. `none` is a panic, or fuel that ran out.
pub mod Laws
use move_language_server.Base.{
  ℕ, Bool, true, false, String, List, [], ◌∷◌, ◌++◌, Option, none, some, ◌>>=◌,
}
use move_language_server.Base.Assoc.{Assoc, insert}
use move_language_server.Base.Classes.{string_eq}
use move_language_server.Base.Text.{Bytes}
use move_language_server.Compiler.SourceMap.{FileOffsetMap}
use move_language_server.Compiler.SourceMap.Project.{ProjectOffsetMap, Error, transform}
use move_language_server.Compiler.LineEndings.{normalize}
use move_language_server.Compiler.Sender.{replace_sender_placeholder}
use move_language_server.Compiler.Parser.{
  Checked, ok, errors, MoveFile, ProvidedAccountAddress, MoveLang, ReplaceAddresses, ParserArtifact,
  ParsingMeta, parse_program,
}

abbrev pub and_then : {A B : Type 0} → Checked A → (A → Checked B) → Checked B
and_then (ok a) f = f a
and_then (errors es) f = errors es

-- `.map_err(|errors| offsets_map.transform(errors))`
unfoldable pub transformed : {A : Type 0} → ProjectOffsetMap → Checked A → Option (Checked A)
transformed offsets_map (ok a) = some (ok a)
transformed offsets_map (errors es) = do es' ← transform offsets_map es; some (errors es')

-- `.map(|_| ())`
abbrev pub forget : {A : Type 0} → Checked A → Checked (Unit {0})
forget (ok a) = ok tt
forget (errors es) = errors es

module _ (replace_addresses : ReplaceAddresses) (fuel : ℕ) (move_lang : MoveLang) where
  open move_lang use {
    Program, CompiledUnit, Definition, check_program, translate_program, from_hex_literal,
  }

  -- `sender.map(|addr| addr.as_address())`
  unfoldable pub as_address : Option ProvidedAccountAddress → Option (Option ℕ)
  as_address none = some none
  as_address (some sender) = do addr ← from_hex_literal sender.lowered; some (some addr)

  pub data Step (A N : Type 0) : Type 0 where
    stop : A → Step A N
    next : N → Step A N

  -- The trait `CompileFlow`; what it answers may be a panic.
  pub record CompileFlow (A : Type 0) : Type 0 where
    pub after_parsing :
        (ParserArtifact replace_addresses fuel move_lang)
        → Option (Step A (ParserArtifact replace_addresses fuel move_lang))
    pub after_check :
        (ParsingMeta replace_addresses fuel move_lang)
        → Checked Program
        → Option (Step A ((ParsingMeta replace_addresses fuel move_lang) × Checked Program))
    pub after_translate :
        (ParsingMeta replace_addresses fuel move_lang) → Checked (List CompiledUnit) → Option A

  module _ {A : Type 0} (flow : CompileFlow A) where
    unfoldable pub from_check :
        Step A ((ParsingMeta replace_addresses fuel move_lang) × Checked Program) → Option A
    from_check (stop artifact) = some artifact
    from_check (next (meta, check_result)) =
        flow.after_translate meta (and_then check_result translate_program)

    unfoldable pub from_parsing :
        Option ProvidedAccountAddress
        → Step A (ParserArtifact replace_addresses fuel move_lang)
        → Option A
    from_parsing sender (stop artifact) = some artifact
    from_parsing sender (next artifact) = do
      addr ← as_address sender
      step ← flow.after_check artifact.meta (check_program artifact.result addr)
      from_check step

    unfoldable pub compile :
        List MoveFile → List MoveFile → Option ProvidedAccountAddress → Option A
    compile targets deps sender = do
      artifact ← parse_program replace_addresses fuel move_lang targets deps sender
      step ← flow.after_parsing artifact
      from_parsing sender step

  unfoldable pub stop_on_errors :
      (ParserArtifact replace_addresses fuel move_lang)
      → Checked (List Definition × List Definition)
      → Option (Step (Checked (Unit {0})) (ParserArtifact replace_addresses fuel move_lang))
  unfolding transformed
  stop_on_errors artifact (ok prog) = some (next artifact)
  stop_on_errors artifact (errors es) = do
    result ← transformed (artifact.meta).offsets_map (errors es)
    some (stop result)

  abbrev pub checker : CompileFlow (Checked (Unit {0}))
  checker = record {
    after_parsing = λ artifact. stop_on_errors artifact artifact.result;
    after_check = λ meta check_result. do
      result ← transformed meta.offsets_map (forget check_result)
      some (stop result);
    after_translate = λ meta result. some (ok tt);
  }

  -- MoveChecker::check
  unfoldable pub check :
      List MoveFile → List MoveFile → Option ProvidedAccountAddress → Option (Checked (Unit {0}))
  unfolding compile
  check targets deps sender = compile checker targets deps sender

  pub record Artifacts : Type 0 where
    pub files : Assoc String Bytes
    pub prog : Checked (List CompiledUnit)

  abbrev pub builder : CompileFlow Artifacts
  builder = record {
    after_parsing = λ artifact. some (next artifact);
    after_check = λ meta check_result. some (next (meta, check_result));
    after_translate = λ meta result. do
      prog ← transformed meta.offsets_map result
      some (record { files = meta.source_map; prog = prog });
  }

  -- MoveBuilder::build
  unfoldable pub build :
      List MoveFile → List MoveFile → Option ProvidedAccountAddress → Option Artifacts
  unfolding compile
  build targets deps sender = compile builder targets deps sender
