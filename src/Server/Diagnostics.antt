-- ===== src/Server/Diagnostics.antt =====
-- Diagnostics of language_server/src: `make_diagnostic` of inner/db.rs, `check_file` of
-- inner/analysis.rs and `compute_file_diagnostics` of main_loop.rs.
pub mod Laws
use move_language_server.Base.{
  ℕ, not, Bool, true, false, List, [], ◌∷◌, ◌++◌, map, Option, none, some, ◌>>=◌, if◌then◌else◌,
}
use move_language_server.Base.Assoc.{Assoc, lookup}
use move_language_server.Base.Text.{Bytes}
use move_language_server.Executor.Tags.{bytes_eq}
use move_language_server.Compiler.Location.{new_file, position}
use move_language_server.Server.Database.{MoveFile, RootDatabase, module_files}
use move_language_server.Server.Loop.{FileDiagnostic}

-- A part of a compiler error: file, start and end of the span, message.
pub record ErrorPart : Type 0 where
  pub file : Bytes
  pub start : ℕ
  pub end : ℕ
  pub message : Bytes

-- Line and column of the start and of the end
abbrev pub Range : Type 0
Range = (ℕ × ℕ) × (ℕ × ℕ)

-- The file, range and message of related information
abbrev pub Related : Type 0
Related = Bytes × Range × Bytes

pub record Diagnostic : Type 0 where
  pub range : Range
  pub message : Bytes
  pub related_information : Option (List Related)

unfoldable pub without : Bytes → List MoveFile → List MoveFile
without n [] = []
without n (file ∷ files) =
    let rest = without n files in if bytes_eq.beq file.name n then rest else file ∷ rest

module _ {Config : Type 0} (line_starts : Bytes → List ℕ) where
  -- `none` is the error of a file that is not available, or of a position.
  unfoldable pub loc_to_range : RootDatabase Config → ErrorPart → Option Range
  loc_to_range db part = do
    text ← lookup part.file db.available_files
    let file = new_file line_starts text
    start_pos ← position file part.start
    end_pos ← position file part.end
    some (start_pos, end_pos)

  -- The loop over the other parts. The conversion of a path to a URL is left out.
  unfoldable pub related_info : RootDatabase Config → List ErrorPart → Option (List Related)
  unfolding loc_to_range
  related_info db [] = some []
  related_info db (part ∷ parts) = do
    range ← loc_to_range db part
    rest ← related_info db parts
    some ((part.file, range, part.message) ∷ rest)

  -- `if error.len() > 1`
  unfoldable pub more_parts : RootDatabase Config → List ErrorPart → Option (Option (List Related))
  unfolding related_info
  more_parts db [] = some none
  more_parts db (part ∷ parts) = do related ← related_info db (part ∷ parts); some (some related)

  -- `none` is an error or the failed assertion. The first part is the error itself.
  unfoldable pub make_diagnostic :
      RootDatabase Config → List ErrorPart → Option (FileDiagnostic Diagnostic)
  unfolding loc_to_range more_parts
  make_diagnostic db [] = none
  make_diagnostic db (part ∷ parts) = do
    range ← loc_to_range db part
    related ← more_parts db parts
    some (record {
      fpath = part.file;
      diagnostic =
          some (record { range = range; message = part.message; related_information = related });
    })

  unfoldable pub make_diagnostics :
      RootDatabase Config → List (List ErrorPart) → Option (List (FileDiagnostic Diagnostic))
  unfolding make_diagnostic
  make_diagnostics db [] = some []
  make_diagnostics db (err ∷ errors) = do
    d ← make_diagnostic db err
    ds ← make_diagnostics db errors
    some (d ∷ ds)

  -- The checker is the Move compiler's: the errors of a file with its dependencies, or none at all
  -- where it succeeds.
  module _ (modules_folders : Config → List (Option Bytes))
      (read_stdlib_files : Config → List MoveFile)
      (check : Config → MoveFile → List MoveFile → Option (List (List ErrorPart))) where
    -- Analysis::check_file_inner: `some none` is its success, and `none` a panic.
    unfoldable pub check_file_inner :
        RootDatabase Config → MoveFile → Option (Option (List (FileDiagnostic Diagnostic)))
    unfolding make_diagnostics without module_files
    check_file_inner db current_file =
        let modules =
          map (λ (f : Bytes × Bytes). record { name = f.0; content = f.1 })
            (module_files modules_folders db) in
        let deps = without current_file.name (read_stdlib_files db.config ++ modules) in
        elim (check db.config current_file deps) [
          | none ↦ some none
          | some errors ↦ do ds ← make_diagnostics db errors; some (some ds)
        ]

    -- Analysis::check_file: the first diagnostic; `none` is a panic.
    unfoldable pub check_file :
        RootDatabase Config → MoveFile → Option (Option (FileDiagnostic Diagnostic))
    unfolding check_file_inner
    check_file db file = do
      answer ← check_file_inner db file
      elim answer [ none ↦ some none | some [] ↦ none | some (d ∷ _) ↦ some (some d) ]

    abbrev pub of_option : Option (FileDiagnostic Diagnostic) → List (FileDiagnostic Diagnostic)
    of_option none = []
    of_option (some d) = d ∷ []

    -- The empty diagnostic that clears a file, and what its check finds.
    unfoldable pub file_diagnostics :
        RootDatabase Config → Bytes → Option (List (FileDiagnostic Diagnostic))
    unfolding check_file
    file_diagnostics db fpath =
        let cleared : FileDiagnostic Diagnostic = record { fpath = fpath; diagnostic = none } in
        elim (lookup fpath db.available_files) [
          | none ↦ some (cleared ∷ [])
          | some text ↦ do
            d ← check_file db (record { name = fpath; content = text })
            some (cleared ∷ of_option d)
        ]

    unfoldable pub compute_file_diagnostics :
        RootDatabase Config → List Bytes → Option (List (FileDiagnostic Diagnostic))
    unfolding file_diagnostics
    compute_file_diagnostics db [] = some []
    compute_file_diagnostics db (fpath ∷ files) = do
      here ← file_diagnostics db fpath
      rest ← compute_file_diagnostics db files
      some (here ++ rest)
