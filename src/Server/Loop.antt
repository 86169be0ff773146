-- ===== src/Server/Loop.antt =====
-- The turns of language_server/src/main_loop.rs, with the opened files of subscriptions.rs. The
-- channel of file system events is a queue, and what goes to the client and to the thread pool
-- is listed in the order in which it is sent.
pub mod Laws
use move_language_server.Base.{
  ℕ, ◌+◌, ◌%◌, ◌^◌, ◌==◌, Bool, true, false, List, [], ◌∷◌, ◌++◌, map, Option, none, some,
  if◌then◌else◌,
}
use move_language_server.Base.Assoc.{Assoc}
use move_language_server.Base.Text.{Bytes}
use move_language_server.Executor.Tags.{bytes_eq}
use move_language_server.Server.Config.{Settings, Config, default_config, update}
use move_language_server.Server.Database.{
  MoveFile, FileSystemEvent, add_event, remove_event, change_event, RootDatabase,
  update_from_events, new_global_state, module_files,
}

unfoldable pub contains : Bytes → List Bytes → Bool
contains p [] = false
contains p (f ∷ files) = if bytes_eq.beq f p then true else contains p files

-- OpenedFiles::add
unfoldable pub add : Bytes → List Bytes → List Bytes
unfolding contains
add p files = if contains p files then files else p ∷ files

-- OpenedFiles::remove
unfoldable pub remove_opened : Bytes → List Bytes → List Bytes
remove_opened p [] = []
remove_opened p (f ∷ files) =
    let rest = remove_opened p files in if bytes_eq.beq f p then rest else f ∷ rest

-- The request id is an `i32`, here by its bits; a release build wraps it.
pub record LoopState : Type 0 where
  pub next_request_id : ℕ
  pub opened_files : List Bytes
  pub configuration_request_id : Option ℕ

-- The notifications that the server casts, with the fields it reads. The kind of a change of a
-- watched file is created, changed or deleted, numbered as in the protocol.
pub data Notification (Url : Type 0) : Type 0 where
  did_open : Url → Bytes → Notification Url
  did_change : Url → List Bytes → Notification Url
  did_close : Url → Notification Url
  did_change_configuration : Notification Url
  did_change_watched_files : List (Url × ℕ) → Notification Url
  other : Bytes → Notification Url

-- What a notification sends and leaves. A turn that is not `ok` ends the main loop.
pub record Notified : Type 0 where
  pub ok : Bool
  pub fs_events : List FileSystemEvent
  pub config_requests : List ℕ
  pub loop_state : LoopState

-- The last element, as `Vec::pop` takes it.
unfoldable pub pop : List Bytes → Option Bytes
pop [] = none
pop (x ∷ []) = some x
pop (x ∷ y ∷ ys) = pop (y ∷ ys)

module _ {Url : Type 0} (uri_to_str : Url → Option Bytes) where
  abbrev refused : LoopState → Notified
  refused state = record { ok = false; fs_events = []; config_requests = []; loop_state = state }

  -- The loop over the changes of the watched files.
  unfoldable pub on_watched : LoopState → List (Url × ℕ) → Notified
  unfolding remove_opened
  on_watched state [] = record {
    ok = true;
    fs_events = [];
    config_requests = [];
    loop_state = state;
  }
  on_watched state ((uri, kind) ∷ changes) = elim (uri_to_str uri) [
    | none ↦ refused state
    | some fpath ↦
        let rest =
          on_watched (record state { opened_files = remove_opened fpath state.opened_files })
            changes in
        record rest { fs_events = remove_event fpath ∷ rest.fs_events }
  ]

  unfoldable pub on_notification : LoopState → Notification Url → Notified
  unfolding on_watched add pop remove_opened
  on_notification state (did_open uri text) = elim (uri_to_str uri) [
    | none ↦ refused state
    | some fpath ↦ record {
      ok = true;
      fs_events = add_event (record { name = fpath; content = text }) ∷ [];
      config_requests = [];
      loop_state = record state { opened_files = add fpath state.opened_files };
    }
  ]
  on_notification state (did_change uri content_changes) = elim (uri_to_str uri) [
    | none ↦ refused state
    | some fpath ↦ elim (pop content_changes) [
      | none ↦ refused state
      | some new_text ↦ record {
        ok = true;
        fs_events = change_event (record { name = fpath; content = new_text }) ∷ [];
        config_requests = [];
        loop_state = record state { opened_files = add fpath state.opened_files };
      }
    ]
  ]
  on_notification state (did_close uri) = elim (uri_to_str uri) [
    | none ↦ refused state
    | some fpath ↦ record {
      ok = true;
      fs_events = [];
      config_requests = [];
      loop_state = record state { opened_files = remove_opened fpath state.opened_files };
    }
  ]
  on_notification state did_change_configuration =
      let request_id = (state.next_request_id + 1) % 2 ^ 32 in
      record {
        ok = true;
        fs_events = [];
        config_requests = request_id ∷ [];
        loop_state = record state {
          next_request_id = request_id;
          configuration_request_id = some request_id;
        };
      }
  on_notification state (did_change_watched_files changes) = on_watched state changes
  on_notification state (other method) = record {
    ok = true;
    fs_events = [];
    config_requests = [];
    loop_state = state;
  }

-- A response of the client: its id, its error if any, and its result: the list of settings.
pub record Response (Json : Type 0) : Type 0 where
  pub id : ℕ
  pub error : Bool
  pub configs : Option (List Json)

pub record FileDiagnostic (Diagnostic : Type 0) : Type 0 where
  pub fpath : Bytes
  pub diagnostic : Option Diagnostic

pub data Message (Url Json : Type 0) : Type 0 where
  request : Message Url Json
  notification : Notification Url → Message Url Json
  response : Response Json → Message Url Json

-- `Respond` events are nowhere made.
pub data Event (Url Json Diagnostic : Type 0) : Type 0 where
  diagnostics : List (FileDiagnostic Diagnostic) → Event Url Json Diagnostic
  file_system : FileSystemEvent → Event Url Json Diagnostic
  lsp : Message Url Json → Event Url Json Diagnostic

-- What the loop takes from the protocol's and the disk's libraries.
pub record Host (settings : Settings) : Type 1 where
  pub Url : Type 0
  pub Diagnostic : Type 0
  pub uri_to_str : Url → Option Bytes
  pub to_str : settings.PathBuf → Option Bytes
  pub load_move_files : settings.PathBuf → List MoveFile

module _ (settings : Settings) (host : Host settings) where
  open settings use {Json, PathBuf}
  open host use {Url, Diagnostic}

  abbrev pub Database : Type 0
  Database = RootDatabase (Config settings)

  abbrev pub modules_folders : Config settings → List (Option Bytes)
  modules_folders config = map host.to_str config.modules_folders

  unfoldable pub load_all : List PathBuf → List FileSystemEvent
  load_all [] = []
  load_all (folder ∷ folders) = map add_event (host.load_move_files folder) ++ load_all folders

  -- initialize_new_global_state
  unfoldable pub initialize_new_global_state : Config settings → Database
  unfolding load_all new_global_state
  initialize_new_global_state config =
      let stdlib : List FileSystemEvent = elim config.stdlib_folder [
        | none ↦ []
        | some folder ↦ load_all (folder ∷ [])
      ] in
      new_global_state config (stdlib ++ load_all config.modules_folders)

  -- The state that a turn reads and writes: the global state, the loop's, the queue of file
  -- system events, the configuration requests and diagnostics sent to the client, and the jobs
  -- given to the pool, each a snapshot with the files to check.
  pub record Server : Type 0 where
    pub global_state : Database
    pub loop_state : LoopState
    pub fs_events : List FileSystemEvent
    pub config_requests : List ℕ
    pub published : List (Bytes × List Diagnostic)
    pub jobs : List (Database × List Bytes)

  -- The notifications that `on_task` sends.
  unfoldable pub on_task : List (FileDiagnostic Diagnostic) → List (Bytes × List Diagnostic)
  on_task [] = []
  on_task (file_diag ∷ file_diags) =
      let here : List Diagnostic = elim file_diag.diagnostic [ none ↦ [] | some d ↦ d ∷ [] ] in
      (file_diag.fpath, here) ∷ on_task file_diags

  unfoldable pub set_of : List Bytes → List Bytes
  unfolding add
  set_of [] = []
  set_of (f ∷ files) = add f (set_of files)

  -- The opened files and the module files, as a set.
  unfoldable pub files_to_check : Database → LoopState → List Bytes
  unfolding set_of module_files
  files_to_check db state =
      set_of (state.opened_files ++ map (λ file. file.0) (module_files modules_folders db))

  unfoldable pub on_response : Server → Response Json → Server
  unfolding initialize_new_global_state update
  on_response server resp = elim server.loop_state.configuration_request_id [
    | none ↦ server
    | some wanted ↦
        if resp.id == wanted
        then (let answered : Server = record server {
          loop_state = record server.loop_state { configuration_request_id = none };
        } in
            elim resp.error [
              | true ↦ answered
              | false ↦ elim resp.configs [
                | none ↦ answered
                | some [] ↦ answered
                | some (new_config ∷ _) ↦ record answered {
                  global_state =
                      initialize_new_global_state
                        (update settings (default_config settings) new_config);
                }
              ]
            ])
        else server
  ]

  unfoldable pub on_message : Server → Message Url Json → Bool × Server
  unfolding on_response on_notification
  on_message server request = (true, server)
  on_message server (notification not) =
      let done = on_notification host.uri_to_str server.loop_state not in
      (
        done.ok,
        record server {
          loop_state = done.loop_state;
          fs_events = server.fs_events ++ done.fs_events;
          config_requests = server.config_requests ++ done.config_requests;
        },
      )
  on_message server (response resp) = (true, on_response server resp)

  -- loop_turn: whether the loop goes on, and the state after it.
  unfoldable pub loop_turn : Server → Event Url Json Diagnostic → Bool × Server
  unfolding on_task files_to_check on_message update_from_events
  loop_turn server (diagnostics file_diags) =
      (true, record server { published = server.published ++ on_task file_diags })
  loop_turn server (file_system fs_event) =
      let db = update_from_events server.global_state (fs_event ∷ []) in
      (
        true,
        record server {
          global_state = db;
          jobs = server.jobs ++ ((db, files_to_check db server.loop_state) ∷ []);
        },
      )
  loop_turn server (lsp message) = on_message server message
