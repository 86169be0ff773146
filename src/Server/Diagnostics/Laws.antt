-- ===== src/Server/Diagnostics/Laws.antt =====
-- What a diagnostic takes from a compiler error.
use move_language_server.Base.{ℕ, ◌≡◌, List, [], ◌∷◌, Option, none, some}
use move_language_server.Base.Assoc.{lookup}
use move_language_server.Compiler.Location.{new_file, position}
use move_language_server.Base.Text.{Bytes}
use move_language_server.Executor.Tags.{bytes_eq}
use move_language_server.Server.Database.{RootDatabase}
use move_language_server.Server.Loop.{FileDiagnostic}
use move_language_server.Server.Diagnostics.{ErrorPart, Range, Related, Diagnostic}

module _ {Config : Type 0} (line_starts : Bytes → List ℕ) where
  -- The range of a part: the lines and columns of both ends of its span, in the text of its file.
  pub record Spans (db : RootDatabase Config) (part : ErrorPart) (range : Range) : Type 0 where
    pub text : Bytes
    pub available : lookup part.file db.available_files ≡ some text
    pub starts : position (new_file line_starts text) part.start ≡ some range.0
    pub ends : position (new_file line_starts text) part.end ≡ some range.1

  -- Related information, one for each part, with the part's file, range and message.
  pub Relates : RootDatabase Config → List ErrorPart → List Related → Type 0
  Relates db [] [] = Unit
  Relates db [] (r ∷ rs) = ⊥
  Relates db (p ∷ ps) [] = ⊥
  Relates db (p ∷ ps) (r ∷ rs) =
      (r.0 ≡ p.file) × Spans db p r.1 × (r.2 ≡ p.message) × Relates db ps rs

  -- Related information is only there for an error of several parts.
  pub Informs : RootDatabase Config → List ErrorPart → Option (List Related) → Type 0
  Informs db [] info = info ≡ none
  Informs db (p ∷ ps) none = ⊥
  Informs db (p ∷ ps) (some rs) = Relates db (p ∷ ps) rs

  -- What the diagnostic of an error says.
  pub record Describes (db : RootDatabase Config) (p : ErrorPart) (ps : List ErrorPart)
      (d : FileDiagnostic Diagnostic) : Type 0 where
    pub of_file : d.fpath ≡ p.file
    pub diagnostic : Diagnostic
    pub given : d.diagnostic ≡ some diagnostic
    pub spans : Spans db p diagnostic.range
    pub told : diagnostic.message ≡ p.message
    pub informs : Informs db ps diagnostic.related_information
