-- ===== src/Transaction/Lookup.antt =====
-- `lookup_script` of dove/src/cmd/ct.rs: the script that a transaction calls, by the name of its
-- file, by its own name, or as the only one. The disk and the compiler's parser are parameters.
pub mod Laws
use move_language_server.Base.{
  ℕ, ◌-◌, not, ◌&&◌, Bool, true, false, ◌||◌, List, [], ◌∷◌, ◌++◌, Option, none, some, map, length,
  drop, leb, if◌then◌else◌,
}
use mathlib.Core.Option
use move_language_server.Base.Classes.{eqb}
use move_language_server.Base.Text.{Bytes, codes}
use move_language_server.Executor.Tags.{bytes_eq}
use move_language_server.Transaction.Outcome.{
  Outcome, ok, failed, panic, ◌>>=◌, of_option, file_not_found, script_not_found, several_scripts,
  ambiguous_scripts, not_loaded,
}
use move_language_server.Transaction.ScriptMeta.{ScriptFunction, Meta, make_script_meta}
use move_language_server.Transaction.Arguments.{contains}

pub record MoveFile : Type 0 where
  pub file_name : Bytes
  pub content : Bytes

-- The files of the folder of scripts, and how paths are made in it.
pub record Scripts : Type 0 where
  pub find_move_files : Option (List Bytes)
  pub load : Bytes → Option MoveFile
  pub exists : Bytes → Bool
  pub join : Bytes → Bytes
  pub set_extension : Bytes → Bytes
  pub parse_scripts : MoveFile → Option (List ScriptFunction)
  pub show_address : ℕ → Bytes

-- s.ends_with(p)
unfoldable pub ends_with : Bytes → Bytes → Bool
ends_with s p = leb (length p) (length s) && eqb (drop (length s - length p) s) p

module _ (scripts : Scripts) where
  open scripts use {find_move_files, load, exists, join, set_extension, parse_scripts, show_address}

  -- ScriptMetadata::extract
  unfoldable pub extract : MoveFile → Option (List Meta)
  unfolding make_script_meta
  extract script = Option.map (map (make_script_meta show_address)) (parse_scripts script)

  -- `.filter(|sc| ..)` with the name of the script, if one is given
  unfoldable pub with_name : Option Bytes → List Meta → List Meta
  with_name none metas = []
  with_name (some name) [] = []
  with_name (some name) (meta ∷ metas) =
      let rest = with_name (some name) metas in if eqb meta.name name then meta ∷ rest else rest

  -- The scripts of one file: `scripts.remove(0)` of an empty vector is a panic.
  unfoldable pub one_of_named : List Meta → Outcome Meta
  one_of_named [] = panic
  one_of_named (meta ∷ []) = ok meta
  one_of_named (meta ∷ _ ∷ _) = failed several_scripts

  unfoldable pub one_of_file : Option Bytes → List Meta → Outcome Meta
  unfolding with_name one_of_named
  one_of_file script_name [] = failed script_not_found
  one_of_file script_name (meta ∷ []) = ok meta
  one_of_file script_name (meta ∷ next ∷ metas) =
      one_of_named (with_name script_name (meta ∷ next ∷ metas))

  unfoldable pub path_of : Bytes → Bytes
  unfolding ends_with
  path_of fname = if ends_with fname (codes "move") then join fname else set_extension (join fname)

  unfoldable pub lookup_script_by_file_name : Option Bytes → Bytes → Outcome (MoveFile × Meta)
  unfolding path_of extract one_of_file
  lookup_script_by_file_name script_name fname =
      let found = (do
        script ← of_option (load (path_of fname)) not_loaded
        metas ← of_option (extract script) not_loaded
        meta ← one_of_file script_name metas
        ok (script, meta)) in
      if exists (path_of fname) then found else failed file_not_found

  unfoldable pub any_named : Bytes → List Meta → Bool
  any_named name [] = false
  any_named name (meta ∷ metas) = let rest = any_named name metas in eqb name meta.name || rest

  -- The chain of filters on the files: one that cannot be loaded or parsed is left out.
  unfoldable pub named_in : Bytes → MoveFile → Option (List Meta) → Option (MoveFile × List Meta)
  unfolding any_named
  named_in name script none = none
  named_in name script (some metas) = if any_named name metas then some (script, metas) else none

  unfoldable pub candidate : Bytes → Bytes → Option (MoveFile × List Meta)
  candidate name path = elim (load path) [
    | none ↦ none
    | some script ↦
        if contains script.content name then named_in name script (extract script) else none
  ]

  unfoldable pub candidates : Bytes → List Bytes → List (MoveFile × List Meta)
  candidates name [] = []
  candidates name (path ∷ paths) =
      let rest = candidates name paths in
      elim (candidate name path) [ none ↦ rest | some found ↦ found ∷ rest ]

  -- The tests of how many scripts a file has.
  unfoldable pub only_script : MoveFile → List Meta → Outcome (MoveFile × Meta)
  only_script file [] = failed script_not_found
  only_script file (meta ∷ []) = ok (file, meta)
  only_script file (meta ∷ _ ∷ _) = failed several_scripts

  unfoldable pub only_file : List (MoveFile × List Meta) → Outcome (MoveFile × Meta)
  unfolding only_script
  only_file [] = failed script_not_found
  only_file ((file, metas) ∷ []) = only_script file metas
  only_file (_ ∷ _ ∷ _) = failed several_scripts

  unfoldable pub lookup_script_by_name : Bytes → Outcome (MoveFile × Meta)
  unfolding candidates only_file
  lookup_script_by_name name = do
    files ← of_option find_move_files not_loaded
    only_file (candidates name files)

  unfoldable pub lookup_only : List Bytes → Outcome (MoveFile × Meta)
  unfolding extract only_script
  lookup_only (path ∷ []) = do
    script ← of_option (load path) not_loaded
    metas ← of_option (extract script) not_loaded
    only_script script metas
  lookup_only _ = failed ambiguous_scripts

  -- With the file's name and the script's name, where they are given.
  unfoldable pub lookup_script : Option Bytes → Option Bytes → Outcome (MoveFile × Meta)
  unfolding lookup_script_by_file_name lookup_script_by_name lookup_only
  lookup_script (some file_name) script_name = lookup_script_by_file_name script_name file_name
  lookup_script none (some name) = lookup_script_by_name name
  lookup_script none none = do files ← of_option find_move_files not_loaded; lookup_only files
