-- ===== src/Server/Loop/Laws.antt =====
-- The texts of the files through the turns of the loop, in whichever order the loop takes them.
use move_language_server.Base.{
  ℕ, ◌≡◌, refl, sym, ap, ◌∙◌, true, false, List, [], ◌∷◌, ◌++◌, Option, none, some, if◌then◌else◌,
  inl, inr, Option-cases,
}
use move_language_server.Base.Assoc.{lookup}
use move_language_server.Base.Text.{Bytes}
use move_language_server.Executor.Tags.{bytes_eq}
use move_language_server.Server.Config.{Settings}
use move_language_server.Server.Database.{FileSystemEvent, add_event, remove_event, change_event}
use move_language_server.Server.Database.Laws.{last_text, update_from_events-last_text}
use move_language_server.Server.Loop.{
  Host, Server, diagnostics, file_system, lsp, notification, loop_turn, on_message, Notification,
  did_open, did_change, did_close, did_change_configuration, did_change_watched_files, other,
  LoopState, on_notification, on_watched, remove_opened, pop, FileDiagnostic,
}

module _ {Url : Type 0} (uri_to_str : Url → Option Bytes) where
  -- What the client has said of a file's text, over what was known before: the last change of an
  -- edit counts, and a change of the watched file, of whichever kind, forgets it.
  abbrev pub text_watched : Bytes → List (Url × ℕ) → Option Bytes → Option Bytes
  text_watched p [] before = before
  text_watched p ((uri, kind) ∷ changes) before =
      text_watched p changes (elim (uri_to_str uri) [
        | none ↦ before
        | some f ↦ if bytes_eq.beq f p then none else before
      ])

  abbrev pub text_given : Bytes → Url → Option Bytes → Option Bytes → Option Bytes
  text_given p uri none before = before
  text_given p uri (some text) before = elim (uri_to_str uri) [
    | none ↦ before
    | some f ↦ if bytes_eq.beq f p then some text else before
  ]

  unfoldable pub text_after : Bytes → Notification Url → Option Bytes → Option Bytes
  text_after p (did_open uri text) before = text_given p uri (some text) before
  text_after p (did_change uri changes) before = text_given p uri (pop changes) before
  text_after p (did_close uri) before = before
  text_after p did_change_configuration before = before
  text_after p (did_change_watched_files changes) before = text_watched p changes before
  text_after p (other method) before = before

  unfoldable pub text_told : Bytes → List (Notification Url) → Option Bytes → Option Bytes
  unfolding text_after
  text_told p [] before = before
  text_told p (n ∷ ns) before = text_told p ns (text_after p n before)

  on_watched-text :
      (p : Bytes) (state : LoopState) (changes : List (Url × ℕ)) (before : Option Bytes)
      → (on_watched uri_to_str state changes).ok ≡ true
      → last_text p (on_watched uri_to_str state changes).fs_events before
        ≡ text_watched p changes before
  unfolding on_watched
  on_watched-text p state [] before h = refl
  on_watched-text p state ((uri, kind) ∷ changes) before h = elim (Option-cases (uri_to_str uri)) [
    | inl n ↦ let e : false ≡ true = rw (n, on_watched) at h in cc
    | inr (f, y) ↦
        let next : LoopState = record state { opened_files = remove_opened f state.opened_files } in
        let e : (on_watched uri_to_str next changes).ok ≡ true = rw (y, on_watched) at h in
        rw (y, on_watched)
          (on_watched-text p next changes (if bytes_eq.beq f p then none else before) e)
  ]

  -- The events of a notification that is not refused are what it says of each file.
  on_notification-text_after :
      (p : Bytes) (state : LoopState) (n : Notification Url) (before : Option Bytes)
      → (on_notification uri_to_str state n).ok ≡ true
      → last_text p (on_notification uri_to_str state n).fs_events before ≡ text_after p n before
  unfolding on_notification text_after
  on_notification-text_after p state (did_open uri text) before h =
      elim (Option-cases (uri_to_str uri)) [
        | inl n ↦ let e : false ≡ true = rw (n, on_notification) at h in cc
        | inr (f, y) ↦ rw (y, on_notification, text_given) refl
      ]
  on_notification-text_after p state (did_change uri changes) before h =
      elim (Option-cases (uri_to_str uri)) [
        | inl n ↦ let e : false ≡ true = rw (n, on_notification) at h in cc
        | inr (f, y) ↦ elim (Option-cases (pop changes)) [
          | inl n ↦ let e : false ≡ true = rw (y, n, on_notification) at h in cc
          | inr (text, t) ↦ rw (y, t, on_notification, text_given) (rw y refl)
        ]
      ]
  on_notification-text_after p state (did_close uri) before h =
      elim (Option-cases (uri_to_str uri)) [
        | inl n ↦ let e : false ≡ true = rw (n, on_notification) at h in cc
        | inr (f, y) ↦ rw (y, on_notification) refl
      ]
  on_notification-text_after p state did_change_configuration before h = refl
  on_notification-text_after p state (did_change_watched_files changes) before h =
      on_watched-text p state changes before h
  on_notification-text_after p state (other method) before h = refl

last_text-append :
    (p : Bytes) (es fs : List FileSystemEvent) (before : Option Bytes)
    → last_text p (es ++ fs) before ≡ last_text p fs (last_text p es before)
last_text-append p [] fs before = refl
last_text-append p (add_event f ∷ es) fs before = last_text-append p es fs _
last_text-append p (change_event f ∷ es) fs before = last_text-append p es fs _
last_text-append p (remove_event f ∷ es) fs before = last_text-append p es fs _

module _ (settings : Settings) (host : Host settings) where
  open host use {Url, Diagnostic}

  -- The loop takes a notification of the client, an event of its own queue, or diagnostics.
  pub data Turn
      : Server settings host → List (Notification Url) → Server settings host → Type 0 where
    received :
        (s : Server settings host) (n : Notification Url) (t : Server settings host)
        → loop_turn settings host s (lsp (notification n)) ≡ (true, t)
        → Turn s (n ∷ []) t
    drained :
        (s : Server settings host) (e : FileSystemEvent) (es : List FileSystemEvent)
        (t : Server settings host)
        → s.fs_events ≡ e ∷ es
        → loop_turn settings host (record s { fs_events = es }) (file_system e) ≡ (true, t)
        → Turn s [] t
    reported :
        (s : Server settings host) (ds : List (FileDiagnostic Diagnostic))
        (t : Server settings host)
        → loop_turn settings host s (diagnostics ds) ≡ (true, t)
        → Turn s [] t

  -- Turns in a row, with the notifications that they took, in order.
  pub data Turns
      : Server settings host → List (Notification Url) → Server settings host → Type 0 where
    start : (s : Server settings host) → Turns s [] s
    turn :
        (s : Server settings host) (ns : List (Notification Url)) (t : Server settings host)
        (ms : List (Notification Url)) (u : Server settings host)
        → Turn s ns t
        → Turns t ms u
        → Turns s (ns ++ ms) u

  -- The text that a file has once the queue is empty.
  abbrev pub due : Bytes → Server settings host → Option Bytes
  due p s = last_text p s.fs_events (lookup p s.global_state.available_files)

  due-Turn :
      (p : Bytes) (s : Server settings host) (ns : List (Notification Url))
      (t : Server settings host)
      → Turn s ns t
      → due p t ≡ text_told host.uri_to_str p ns (due p s)
  unfolding loop_turn on_message text_told
  due-Turn p _ _ _ (received s n t h) =
      let done = on_notification host.uri_to_str s.loop_state n in
      let text = lookup p s.global_state.available_files in
      sym (ap (λ r. due p r.1) h)
      ∙ last_text-append p s.fs_events done.fs_events text
      ∙ on_notification-text_after host.uri_to_str p s.loop_state n (due p s) (ap (λ r. r.0) h)
  due-Turn p _ _ _ (drained s e es t q h) =
      sym (ap (λ r. due p r.1) h)
      ∙ ap (last_text p es) (update_from_events-last_text s.global_state (e ∷ []) p).0
      ∙ (sym (last_text-append p (e ∷ []) es (lookup p s.global_state.available_files))
          ∙ ap (λ q. last_text p q (lookup p s.global_state.available_files)) (sym q))
  due-Turn p _ _ _ (reported s ds t h) = sym (ap (λ r. due p r.1) h)

  text_told-append :
      (p : Bytes) (ns ms : List (Notification Url)) (before : Option Bytes)
      → text_told host.uri_to_str p (ns ++ ms) before
        ≡ text_told host.uri_to_str p ms (text_told host.uri_to_str p ns before)
  unfolding text_told
  text_told-append p [] ms before = refl
  text_told-append p (n ∷ ns) ms before = text_told-append p ns ms _

  due-Turns :
      (p : Bytes) (s : Server settings host) (ns : List (Notification Url))
      (t : Server settings host)
      → Turns s ns t
      → due p t ≡ text_told host.uri_to_str p ns (due p s)
  unfolding text_told
  due-Turns p _ _ _ (start s) = refl
  due-Turns p _ _ _ (turn s ns t ms u one more) =
      due-Turns p t ms u more
      ∙ ap (text_told host.uri_to_str p ms) (due-Turn p s ns t one)
      ∙ sym (text_told-append p ns ms (due p s))

  -- The loop takes, in whatever order, the client's notifications, the events of its own queue and
  -- diagnostics, and no turn ends it; no new configuration arrives in between. If the queue is
  -- empty at the start and at the end, each file has at the end the text that the notifications,
  -- in the order in which they came, say it has, over the text at the start: an opened or changed
  -- file the text that was sent last, a file of a watched-file event, of whichever kind, no text.
  pub texts_in_step :
      (p : Bytes) (s : Server settings host) (ns : List (Notification Url))
      (t : Server settings host)
      → s.fs_events ≡ []
      → Turns s ns t
      → t.fs_events ≡ []
      → lookup p t.global_state.available_files
        ≡ text_told host.uri_to_str p ns (lookup p s.global_state.available_files)
  texts_in_step p s ns t empty turns end =
      let told = due-Turns p s ns t turns in
      ap (λ q. last_text p q (lookup p t.global_state.available_files)) (sym end)
      ∙ told
      ∙ ap
          (λ q.
            text_told host.uri_to_str p ns
              (last_text p q (lookup p s.global_state.available_files)))
          empty
