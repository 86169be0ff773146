-- ===== src/Server/Database.antt =====
-- `RootDatabase` of language_server/src/inner/db.rs with the changes of inner/change.rs, and
-- `GlobalState` of language_server/src/global_state.rs: the texts of the tracked files.
pub mod Laws
use move_language_server.Base.{
  ℕ, ◌||◌, Bool, true, false, List, [], ◌∷◌, Option, none, some, if◌then◌else◌,
}
use move_language_server.Base.Assoc.{Assoc, lookup, insert, remove}
use move_language_server.Base.Text.{Bytes, starts_with}
use move_language_server.Executor.Tags.{bytes_eq}

-- MoveFile of lang/src/compiler/file.rs
pub record MoveFile : Type 0 where
  pub name : Bytes
  pub content : Bytes

pub data RootChange : Type 0 where
  add_file : Bytes → Bytes → RootChange
  change_file : Bytes → Bytes → RootChange
  remove_file : Bytes → RootChange

pub data FileSystemEvent : Type 0 where
  add_event : MoveFile → FileSystemEvent
  remove_event : Bytes → FileSystemEvent
  change_event : MoveFile → FileSystemEvent

module _ (Config : Type 0) where
  pub record AnalysisChange : Type 0 where
    pub tracked_files_changed : List RootChange
    pub config_changed : Option Config

  pub record RootDatabase : Type 0 where
    pub config : Config
    pub available_files : Assoc Bytes Bytes

unfoldable pub apply_root_change : Assoc Bytes Bytes → RootChange → Assoc Bytes Bytes
apply_root_change files (add_file path text) = insert path text files
apply_root_change files (change_file path text) = insert path text files
apply_root_change files (remove_file path) = remove path files

unfoldable pub apply_root_changes : Assoc Bytes Bytes → List RootChange → Assoc Bytes Bytes
unfolding apply_root_change
apply_root_changes files [] = files
apply_root_changes files (change ∷ changes) =
    apply_root_changes (apply_root_change files change) changes

-- The loop body of GlobalState::update_from_events
unfoldable pub to_change : FileSystemEvent → RootChange
to_change (add_event file) = add_file file.name file.content
to_change (change_event file) = change_file file.name file.content
to_change (remove_event fpath) = remove_file fpath

unfoldable pub to_changes : List FileSystemEvent → List RootChange
unfolding to_change
to_changes [] = []
to_changes (event ∷ events) = to_change event ∷ to_changes events

module _ {Config : Type 0} where
  -- RootDatabase::apply_change
  unfoldable pub apply_change : RootDatabase Config → AnalysisChange Config → RootDatabase Config
  unfolding apply_root_changes
  apply_change db change = record {
    config = elim change.config_changed [ none ↦ db.config | some config ↦ config ];
    available_files = apply_root_changes db.available_files change.tracked_files_changed;
  }

  -- GlobalState::update_from_events
  unfoldable pub update_from_events :
      RootDatabase Config → List FileSystemEvent → RootDatabase Config
  unfolding apply_change to_changes
  update_from_events db fs_events =
      apply_change db
        (record { tracked_files_changed = to_changes fs_events; config_changed = none })

  -- GlobalState::new
  unfoldable pub new_global_state : Config → List FileSystemEvent → RootDatabase Config
  unfolding update_from_events
  new_global_state config initial_fs_events =
      update_from_events (record { config = config; available_files = [] }) initial_fs_events

  -- `to_str` answers `none` for a folder whose name is not a text.
  module _ (modules_folders : Config → List (Option Bytes)) where
    unfoldable pub in_folder : Bytes → List (Option Bytes) → Bool
    in_folder fpath [] = false
    in_folder fpath (none ∷ folders) = in_folder fpath folders
    in_folder fpath (some m_folder ∷ folders) =
        starts_with fpath m_folder || in_folder fpath folders

    unfoldable pub is_fpath_for_a_module : RootDatabase Config → Bytes → Bool
    unfolding in_folder
    is_fpath_for_a_module db fpath = in_folder fpath (modules_folders db.config)

    unfoldable pub select_files : RootDatabase Config → Assoc Bytes Bytes → Assoc Bytes Bytes
    unfolding is_fpath_for_a_module
    select_files db [] = []
    select_files db ((f, text) ∷ files) =
        let rest = select_files db files in
        if is_fpath_for_a_module db f then (f, text) ∷ rest else rest

    -- RootDatabase::module_files
    unfoldable pub module_files : RootDatabase Config → Assoc Bytes Bytes
    unfolding select_files
    module_files db = select_files db db.available_files
