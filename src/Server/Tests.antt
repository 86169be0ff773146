-- ===== src/Server/Tests.antt =====
-- Runs of the server's database, configuration and loop on small inputs.
use move_language_server.Base.{ℕ, ◌≡◌, refl, Bool, true, false, List, [], ◌∷◌, Option, none, some}
use move_language_server.Base.Assoc.{lookup, insert}
use move_language_server.Base.Text.{Bytes, codes}
use move_language_server.Executor.Tags.{bytes_eq}
use move_language_server.Compiler.Location.{position, new_file}
use move_language_server.Server.Config.{Settings, default_config}
use move_language_server.Server.Database.{
  FileSystemEvent, add_event, change_event, remove_event, RootDatabase,
}
use move_language_server.Server.Loop.{
  FileDiagnostic, Host, Server, Notification, did_open, loop_turn,
}
use move_language_server.Server.Diagnostics.{ErrorPart, Diagnostic, make_diagnostic}
use move_language_server.Server.Loop.Laws.{
  received, drained, Turns, start, turn, text_told, texts_in_step,
}

abbrev sample_settings : Settings
sample_settings = record {
  Json = Bool;
  DialectName = ℕ;
  PathBuf = Bytes;
  Address = ℕ;
  libra = 0;
  libra_one = 1;
  default_address = 0;
  normalize_account_address = λ dialect value. some 2;
  get_dialect = λ value. some 1;
  get_stdlib_folder = λ value. some (codes "stdlib");
  get_modules_folders = λ value. some (codes "modules" ∷ codes "missing" ∷ []);
  get_sender_address = λ value. none;
  exists = λ folder. elim (bytes_eq.beq folder (codes "missing")) [ true ↦ false | false ↦ true ];
}

abbrev sample_host : Host sample_settings
sample_host = record {
  Url = Bytes;
  Diagnostic = ℕ;
  uri_to_str = some;
  to_str = some;
  load_move_files = λ folder. [];
}

abbrev file_a : Bytes
file_a = codes "modules/a"

abbrev sample_db : RootDatabase (List (Option Bytes))
sample_db = record {
  config = some (codes "modules") ∷ none ∷ [];
  available_files = (file_a, codes "one") ∷ (codes "b", codes "two") ∷ [];
}

abbrev sample_events : List FileSystemEvent
sample_events =
    change_event (record { name = file_a; content = codes "new" }) ∷ remove_event (codes "b") ∷ []

abbrev server_start : Server sample_settings sample_host
server_start = record {
  global_state = record { config = default_config sample_settings; available_files = [] };
  loop_state = record { next_request_id = 0; opened_files = []; configuration_request_id = none };
  fs_events = [];
  config_requests = [];
  published = [];
  jobs = [];
}

abbrev opened : Notification Bytes
opened = did_open file_a (codes "one")

abbrev server_opened : Server sample_settings sample_host
server_opened = record server_start {
  loop_state = record server_start.loop_state { opened_files = file_a ∷ [] };
  fs_events = add_event (record { name = file_a; content = codes "one" }) ∷ [];
}

abbrev server_drained : Server sample_settings sample_host
server_drained = record server_opened {
  global_state = record {
    config = default_config sample_settings;
    available_files = (file_a, codes "one") ∷ [];
  };
  fs_events = [];
  jobs =
      (
        record {
          config = default_config sample_settings;
          available_files = (file_a, codes "one") ∷ [];
        },
        file_a ∷ [],
      )
      ∷ [];
}

sample-Turns : Turns sample_settings sample_host server_start (opened ∷ []) server_drained
unfolding loop_turn insert
sample-Turns =
    turn server_start (opened ∷ []) server_opened [] server_drained
      (received server_start opened server_opened refl)
      (turn server_opened [] server_drained [] server_drained
        (drained server_opened (add_event (record { name = file_a; content = codes "one" })) []
          server_drained refl refl)
        (start server_drained))

texts_in_step_example :
    lookup file_a server_drained.global_state.available_files
    ≡ text_told sample_host.uri_to_str file_a
        (opened ∷ [])
        (lookup file_a server_start.global_state.available_files)
texts_in_step_example =
    texts_in_step sample_settings sample_host file_a server_start (opened ∷ []) server_drained refl
      sample-Turns refl

abbrev first_part : ErrorPart
first_part = record { file = codes "b"; start = 0; end = 2; message = codes "wrong" }

abbrev second_part : ErrorPart
second_part = record { file = file_a; start = 1; end = 1; message = codes "here" }

-- One line in each text.
abbrev one_line : Bytes → List ℕ
one_line s = 0 ∷ []

abbrev sample_diagnostic : FileDiagnostic Diagnostic
sample_diagnostic = record {
  fpath = codes "b";
  diagnostic = some (record {
    range = ((0, 0), (0, 2));
    message = codes "wrong";
    related_information = some ((file_a, ((0, 1), (0, 1)), codes "here") ∷ []);
  });
}

-- The diagnostic of the sample.
make_diagnostic_run :
    make_diagnostic one_line sample_db (first_part ∷ second_part ∷ []) ≡ some sample_diagnostic
unfolding make_diagnostic lookup position new_file
make_diagnostic_run = refl
