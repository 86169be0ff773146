-- ===== src/Server/Database/Laws.antt =====
-- Which text a file has after changes, and which files are modules.
use move_language_server.Base.{
  ◌≡◌, refl, ap, ◌∙◌, arith, true, List, [], ◌∷◌, Option, none, some, if◌then◌else◌, inl, inr,
  Bool-cases,
}
use move_language_server.Base.Assoc.{Assoc, lookup, insert, remove, lookup-insert, lookup-remove}
use move_language_server.Base.Text.{Bytes}
use move_language_server.Executor.Tags.{bytes_eq}
use move_language_server.Server.Database.{
  FileSystemEvent, add_event, remove_event, change_event, RootDatabase, apply_root_change,
  apply_root_changes, to_change, to_changes, update_from_events, apply_change,
  is_fpath_for_a_module, select_files, module_files,
}

-- The text that the last of the events on a file gives it, over the text before.
abbrev pub last_text : Bytes → List FileSystemEvent → Option Bytes → Option Bytes
last_text p [] before = before
last_text p (add_event f ∷ es) before =
    last_text p es (if bytes_eq.beq f.name p then some f.content else before)
last_text p (change_event f ∷ es) before =
    last_text p es (if bytes_eq.beq f.name p then some f.content else before)
last_text p (remove_event f ∷ es) before =
    last_text p es (if bytes_eq.beq f p then none else before)

apply_root_changes-last_text :
    (p : Bytes) (es : List FileSystemEvent) (files : Assoc Bytes Bytes)
    → lookup p (apply_root_changes files (to_changes es)) ≡ last_text p es (lookup p files)
unfolding apply_root_changes to_changes apply_root_change to_change
apply_root_changes-last_text p [] files = refl
apply_root_changes-last_text p (add_event f ∷ es) files =
    apply_root_changes-last_text p es (insert f.name f.content files)
    ∙ ap (last_text p es) (lookup-insert f.name p f.content files)
apply_root_changes-last_text p (change_event f ∷ es) files =
    apply_root_changes-last_text p es (insert f.name f.content files)
    ∙ ap (last_text p es) (lookup-insert f.name p f.content files)
apply_root_changes-last_text p (remove_event f ∷ es) files =
    apply_root_changes-last_text p es (remove f files)
    ∙ ap (last_text p es) (lookup-remove f p files)

module _ {Config : Type 0} where
  -- After file system events a file has the text that the last event on it gave, or the one it
  -- had, and the configuration is as before.
  pub update_from_events-last_text :
      (db : RootDatabase Config) (es : List FileSystemEvent) (p : Bytes)
      → (lookup p (update_from_events db es).available_files
          ≡ last_text p es (lookup p db.available_files))
        × ((update_from_events db es).config ≡ db.config)
  unfolding update_from_events apply_change
  update_from_events-last_text db es p =
      (apply_root_changes-last_text p es db.available_files, refl)

  module _ (modules_folders : Config → List (Option Bytes)) where
    module_same :
        (db : RootDatabase Config) (f p : Bytes)
        → bytes_eq.beq f p ≡ true
        → is_fpath_for_a_module modules_folders db f ≡ is_fpath_for_a_module modules_folders db p
    module_same db f p h =
        ap (is_fpath_for_a_module modules_folders db) ((bytes_eq.beq_iff f p).0 h)

    lookup-select_files :
        (db : RootDatabase Config) (p : Bytes) (files : Assoc Bytes Bytes)
        → lookup p (select_files modules_folders db files)
          ≡ (if is_fpath_for_a_module modules_folders db p then lookup p files else none)
    unfolding select_files lookup
    lookup-select_files db p [] = elim (Bool-cases (is_fpath_for_a_module modules_folders db p)) [
      | inl y ↦ rw y refl
      | inr n ↦ rw n refl
    ]
    lookup-select_files db p ((f, text) ∷ files) =
        let rest = lookup-select_files db p files in
        let same = module_same db f p in
        elim (Bool-cases (is_fpath_for_a_module modules_folders db f)) [
          | inl y ↦ rw y (ground (arith, rest, same))
          | inr n ↦ rw n (ground (arith, rest, same))
        ]

    -- The module files are the tracked files in the folders of modules, with their texts.
    lookup-module_files :
        (db : RootDatabase Config) (p : Bytes)
        → lookup p (module_files modules_folders db) ≡ (
            if is_fpath_for_a_module modules_folders db p
            then lookup p db.available_files
            else none)
    unfolding module_files
    lookup-module_files db p = lookup-select_files db p db.available_files
