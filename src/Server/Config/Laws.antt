-- ===== src/Server/Config/Laws.antt =====
-- What a configuration never holds.
use move_language_server.Base.{
  ◌≡◌, inl, inr, true, List, [], ◌∷◌, Option, none, some, Bool-cases, All,
}
use move_language_server.Server.Config.{
  Settings, Config, existing, modules_setting, stdlib_setting, update,
}

module _ (settings : Settings) where
  open settings use {Json, PathBuf}

  abbrev pub Exists : PathBuf → Type 0
  Exists folder = settings.exists folder ≡ true

  existing-Exists : (folders : List PathBuf) → All Exists (existing settings folders)
  unfolding existing
  existing-Exists [] = tt
  existing-Exists (folder ∷ folders) = elim (Bool-cases (settings.exists folder)) [
    | inl y ↦ rw y (y, existing-Exists folders)
    | inr n ↦ rw n (existing-Exists folders)
  ]

  modules_setting-Exists :
      (found : Option (List PathBuf)) → All Exists (modules_setting settings found)
  unfolding modules_setting
  modules_setting-Exists none = tt
  modules_setting-Exists (some folders) = existing-Exists folders

  stdlib_setting-Exists :
      (found : Option PathBuf) (folder : PathBuf)
      → stdlib_setting settings found ≡ some folder
      → Exists folder
  stdlib_setting-Exists none folder h = cc
  stdlib_setting-Exists (some f) folder h = elim (Bool-cases (settings.exists f)) [
    | inl y ↦ let e : some f ≡ some folder = rw y at h in cc
    | inr n ↦ let e : none ≡ some folder = rw n at h in cc
  ]

  -- However the settings are, an updated configuration has no folder that the disk lacks.
  update-Exists :
      (config : Config settings) (value : Json)
      → All Exists (update settings config value).modules_folders
        × ((folder : PathBuf)
            → (update settings config value).stdlib_folder ≡ some folder
            → Exists folder)
  unfolding update modules_setting
  update-Exists config value = (
    modules_setting-Exists (settings.get_modules_folders value),
    stdlib_setting-Exists (settings.get_stdlib_folder value),
  )
