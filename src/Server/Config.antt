-- ===== src/Server/Config.antt =====
-- `Config` of language_server/src/inner/config.rs: how the client's settings become the
-- configuration. A setting is read by serde, and a folder is looked up on the disk.
pub mod Laws
use move_language_server.Base.{Bool, true, false, List, [], ◌∷◌, Option, none, some, if◌then◌else◌}

-- What the configuration takes from the dialects, the settings and the disk. A getter answers
-- `none` where the setting is missing or is not of its type.
pub record Settings : Type 1 where
  pub Json : Type 0
  pub DialectName : Type 0
  pub PathBuf : Type 0
  pub Address : Type 0
  pub libra : DialectName
  pub libra_one : Address
  pub default_address : Address
  pub normalize_account_address : DialectName → Json → Option Address
  pub get_dialect : Json → Option DialectName
  pub get_stdlib_folder : Json → Option PathBuf
  pub get_modules_folders : Json → Option (List PathBuf)
  pub get_sender_address : Json → Option Json
  pub exists : PathBuf → Bool

module _ (settings : Settings) where
  open settings use {Json, DialectName, PathBuf, Address}

  pub record Config : Type 0 where
    pub dialect_name : DialectName
    pub stdlib_folder : Option PathBuf
    pub modules_folders : List PathBuf
    pub sender_address : Address

  -- Config::default
  abbrev pub default_config : Config
  default_config = record {
    dialect_name = settings.libra;
    stdlib_folder = none;
    modules_folders = [];
    sender_address = settings.libra_one;
  }

  unfoldable pub existing : List PathBuf → List PathBuf
  existing [] = []
  existing (folder ∷ folders) =
      let rest = existing folders in if settings.exists folder then folder ∷ rest else rest

  abbrev pub stdlib_setting : Option PathBuf → Option PathBuf
  stdlib_setting none = none
  stdlib_setting (some folder) = if settings.exists folder then some folder else none

  unfoldable pub modules_setting : Option (List PathBuf) → List PathBuf
  unfolding existing
  modules_setting none = []
  modules_setting (some folders) = existing folders

  abbrev pub dialect_setting : DialectName → Option DialectName → DialectName
  dialect_setting old none = old
  dialect_setting old (some new_value) = new_value

  abbrev pub sender_setting : DialectName → Option Json → Address
  sender_setting dialect none = settings.default_address
  sender_setting dialect (some address) =
      elim (settings.normalize_account_address dialect address) [
        | none ↦ settings.default_address
        | some provided_address ↦ provided_address
      ]

  -- Config::update, in the order of the code: the sender is read in the new dialect.
  unfoldable pub update : Config → Json → Config
  unfolding modules_setting
  update config value =
      let dialect = dialect_setting config.dialect_name (settings.get_dialect value) in
      record {
        dialect_name = dialect;
        stdlib_folder = stdlib_setting (settings.get_stdlib_folder value);
        modules_folders = modules_setting (settings.get_modules_folders value);
        sender_address = sender_setting dialect (settings.get_sender_address value);
      }
