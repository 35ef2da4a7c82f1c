-- ===== src/App/Login.antt =====
-- src/app.rs: from the start of the program to a session, and out of it.
use construct_tui.Prelude.{
  Bool, true, false, not, ◌&&◌, Option, none, some, [], ◌∷◌, ◌++◌, if◌then◌else◌,
}
use construct_tui.Prelude.Bytes.{Bytes, bytes, ◌=b◌}
use construct_tui.Prelude.Try.{Result, ok, err}
use construct_tui.Config.{
  Session, SessionKey, SessionState, encrypted, plaintext, absent, ConfigError,
}
use construct_tui.Config.Fs.{Disk}
use construct_tui.Config.Keys.{detect_session, open_session_key, create_session_key}
use construct_tui.Config.Plain.{save_session, clear_session}
use construct_tui.Config.Vault.{save_session_encrypted, load_session_encrypted}
use construct_tui.Grpc.Client.{set_token, set_device_id}
use construct_tui.Screens.ChatList.{new_pane}
use construct_tui.Screens.ChatView.{new_view}
use construct_tui.Screens.Search.{new_search}
use construct_tui.Screens.Fields.{
  set_new, new_onboarding, new_registration, reset_for_mode, take_passphrase, set_unlock_error,
}
use construct_tui.Screens.Settings.{new_settings}
use construct_tui.Storage.Secure.{clear_stream_cursor}
use construct_tui.Storage.{Storage}
use construct_tui.Streaming.{shutdown}
use construct_tui.App.{
  App, Env, Screen, unlock_screen, set_passphrase_screen, onboarding_screen, registering_screen,
  connecting_screen, auth_error_screen, main_screen, is_disconnected, is_connected, start_ticker,
  stop_ticker, restore_from_disk, register, link, authenticate_saved, to_stream, invalidate_h2,
  close_storage, emit, say, go_to, transport_label,
}
use construct_tui.App.Session.{start_token_refresh}
use construct_tui.App.Start.{start_orchestrator}

-- An ellipsis, U+2026.
abbrev dots : Bytes → Bytes
dots text = text ++ (226 ∷ 128 ∷ 166 ∷ [])

abbrev start_at : SessionState → App → App
start_at encrypted a = go_to unlock_screen a
start_at plaintext a =
    go_to (connecting_screen (dots (bytes "Restoring session"))) (emit restore_from_disk a)
start_at absent a = go_to onboarding_screen a

unfoldable pub startup_check : Env → App → App
unfolding detect_session
startup_check env a = start_at (detect_session env.libs a.disk) a

abbrev pub stop_ticking : App → App
stop_ticking a = if a.ticking then emit stop_ticker (record a { ticking = false }) else a

abbrev non_empty : Bytes → Option Bytes
non_empty [] = none
non_empty (b ∷ s) = some (b ∷ s)

unfoldable pub start_auth_register : Bytes → App → App
start_auth_register username a =
    let spawned = record (emit (register (non_empty username)) a) {
      registration = new_registration;
    } in
    go_to registering_screen (emit start_ticker (record (stop_ticking spawned) { ticking = true }))

unfoldable pub start_auth_link : Bytes → App → App
start_auth_link token a =
    go_to (connecting_screen (dots (bytes "Confirming device link"))) (emit (link token) a)

-- `start_auth_restore_preloaded`
unfoldable pub start_auth_preloaded : Session → App → App
start_auth_preloaded session a =
    go_to (connecting_screen (dots (bytes "Authenticating"))) (emit (authenticate_saved session) a)

pub record AuthSuccess : Type 0 where
  pub user_id : Bytes
  pub device_id : Bytes
  pub access_token : Bytes
  pub full_session : Session
  pub pending_save : Option Session

pub data AuthMsg : Type 0 where
  success : AuthSuccess → AuthMsg
  failure : Bytes → AuthMsg

-- What every success sets, before a save.
abbrev signed_in : AuthSuccess → App → App
signed_in s a = record a {
  status = bytes "Connected as " ++ s.user_id;
  user_id = s.user_id;
  device_id = s.device_id;
  access_token = s.access_token;
  grpc = set_device_id (some s.device_id) (set_token (some s.access_token) a.grpc);
  connection = is_connected (transport_label a.transport) none;
  settings =
      new_settings a.server_url (transport_label a.transport) s.device_id s.user_id a.pq_active
        (s.full_session.signing_key_hex);
  current_session = some s.full_session;
}

abbrev start_main : Env → AuthSuccess → App → App
start_main env s a =
    go_to main_screen (start_orchestrator env s.full_session s.user_id s.device_id a)

abbrev after_save : Env → AuthSuccess → Result ConfigError (Unit {0}) × Disk → App → App
after_save env s (ok u, d) a = start_main env s (record a { disk = d })
after_save env s (err e, d) a =
    go_to (auth_error_screen (bytes "Save failed: " ++ env.config_text e)) (record a { disk = d })

abbrev save_with : Env → AuthSuccess → Session → Option SessionKey → App → App
save_with env s pending (some sk) a =
    after_save env s (save_session_encrypted env.libs env.nonce pending sk a.disk) a
save_with env s pending none a =
    if a.no_encrypt
    then after_save env s (save_session env.libs pending a.disk) a
    else go_to set_passphrase_screen
        (record a { pending_session = some pending; unlock = reset_for_mode set_new a.unlock })

abbrev save_if : Env → AuthSuccess → Option Session → App → App
save_if env s none a = start_main env s a
save_if env s (some pending) a =
    save_with env s pending a.session_key (start_token_refresh pending a)

abbrev is_connecting : Screen → Bool
is_connecting (connecting_screen text) = true
is_connecting _ = false

abbrev has_key : Option SessionKey → Bool
has_key none = false
has_key (some sk) = true

abbrev failed : Bytes → App → App
failed msg a =
    if msg =b bytes "no_session"
    then go_to onboarding_screen a
    else if is_connecting a.screen && (not (has_key a.session_key) && a.onboarding.username =b [])
    then go_to onboarding_screen a
    else go_to (auth_error_screen msg) a

unfoldable pub handle_auth_msg : Env → AuthMsg → App → App
unfolding new_settings transport_label start_token_refresh start_orchestrator reset_for_mode
handle_auth_msg env (success s) a = save_if env s s.pending_save (signed_in s a)
handle_auth_msg env (failure msg) a = failed msg (stop_ticking a)

abbrev unlock_error : Bytes → App → App
unlock_error text a = record a { unlock = set_unlock_error text a.unlock }

abbrev pub unlocked : Env → SessionKey → Result ConfigError (Option Session) → App → App
unlocked env sk (ok none) a = unlock_error (bytes "No session found") a
unlocked env sk (ok (some session)) a =
    start_auth_preloaded session (record a { session_key = some sk })
unlocked env sk (err e) a = unlock_error (bytes "Session corrupted: " ++ env.config_text e) a

abbrev unlock_with : Env → Result ConfigError (Option SessionKey) × Disk → App → App
unlock_with env (ok none, d) a = unlock_error (bytes "No session found") (record a { disk = d })
unlock_with env (ok (some sk), d) a =
    let (result, d2) = load_session_encrypted env.libs sk d in
    unlocked env sk result (record a { disk = d2 })
unlock_with env (err e, d) a =
    unlock_error (bytes "Wrong passphrase or corrupted session") (record a { disk = d })

-- Enter in the unlock form.
unfoldable pub try_unlock : Env → App → App
unfolding take_passphrase set_unlock_error open_session_key load_session_encrypted
    start_auth_preloaded
try_unlock env a =
    let (passphrase, form) = take_passphrase a.unlock in
    let taken = record a { unlock = form } in
    if passphrase =b []
    then unlock_error (bytes "Enter your passphrase") taken
    else unlock_with env (open_session_key env.libs passphrase a.disk) taken

abbrev start_if : Env → Option Session → App → App
start_if env none a = a
start_if env (some full) a = start_orchestrator env full a.user_id a.device_id a

abbrev protected : Env → Session → SessionKey → Result ConfigError (Unit {0}) × Disk → App → App
protected env session sk (ok u, d) a =
    go_to main_screen
      (start_if env a.current_session (record a { session_key = some sk; disk = d }))
protected env session sk (err e, d) a =
    unlock_error (bytes "Save failed: " ++ env.config_text e)
      (record a { pending_session = some session; disk = d })

abbrev protect_with : Env → Session → Result ConfigError SessionKey → App → App
protect_with env session (ok sk) a =
    protected env session sk (save_session_encrypted env.libs env.nonce session sk a.disk) a
protect_with env session (err e) a =
    unlock_error (bytes "Key derivation failed: " ++ env.config_text e)
      (record a { pending_session = some session })

abbrev protect_if : Env → Bytes → Option Session → App → App
protect_if env passphrase none a = a
protect_if env passphrase (some session) a =
    protect_with env session (create_session_key env.libs passphrase env.salt)
      (record a { pending_session = none })

-- Enter in the form for a new passphrase.
unfoldable pub choose_passphrase : Env → App → App
unfolding take_passphrase set_unlock_error create_session_key save_session_encrypted
    start_orchestrator
choose_passphrase env a =
    let (passphrase, form) = take_passphrase a.unlock in
    let taken = record a { unlock = form } in
    if passphrase =b []
    then unlock_error (bytes "Choose a passphrase to protect your session") taken
    else protect_if env passphrase a.pending_session taken

abbrev shut_down : Bool → App → App
shut_down true a = emit (to_stream shutdown) (record a { has_stream = false })
shut_down false a = a

-- The dash that stands for no id, U+2014.
abbrev dash : Bytes
dash = 226 ∷ 128 ∷ 148 ∷ []

-- The connection is closed after the stream cursor is cleared.
abbrev close_reading : Option Storage → App → App
close_reading none a = a
close_reading (some s) a = emit (close_storage (clear_stream_cursor s).1) a

abbrev logged_out : Result ConfigError (Unit {0}) × Disk → Env → App → App
logged_out (err e, d) env a =
    say (bytes "Logout error: " ++ env.config_text e) (record a { disk = d })
logged_out (ok u, d) env a =
    let stopped = shut_down a.has_stream (record a { disk = d; has_orchestrator = false }) in
    record (emit invalidate_h2 (close_reading a.read_storage stopped)) {
      grpc = set_device_id none (set_token none a.grpc);
      read_storage = none;
      session_key = none;
      current_session = none;
      pending_session = none;
      our_identity_key = none;
      user_id = [];
      device_id = [];
      access_token = [];
      connection = is_disconnected;
      contact_search = new_search;
      chat_list = new_pane;
      chat_view = new_view [];
      settings = new_settings a.server_url (transport_label a.transport) dash dash a.pq_active [];
      onboarding = new_onboarding;
      screen = onboarding_screen;
    }

unfoldable pub do_logout : Env → App → App
unfolding clear_session clear_stream_cursor new_settings transport_label
do_logout env a = logged_out (clear_session env.garbage a.disk) env a
