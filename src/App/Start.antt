-- ===== src/App/Start.antt =====
-- src/app.rs, `start_orchestrator`: the contacts and the sessions from the database, the stream and
-- the task of the core. The core is what it is given: `CoreStart`.
use construct_tui.Prelude.{Bool, true, false, Option, none, some, List, [], ◌∷◌, ◌++◌, map}
use construct_tui.Prelude.Bytes.{Bytes, bytes}
use construct_tui.Prelude.Try.{Result, ok, err, ◌>>=◌, ◌>>◌}
use construct_tui.Config.{Session, SessionKey}
use construct_tui.Orchestrator.{Event, session_loaded, app_launched}
use construct_tui.Orchestrator.Inbound.{archive_key, session_key}
use construct_tui.Orchestrator.Loop.{state_key}
use construct_tui.Screens.ChatList.{Contact, set_contacts}
use construct_tui.Storage.{StoredContact, Storage, DbError}
use construct_tui.Storage.Contacts.{get_contacts}
use construct_tui.Storage.Secure.{secure_load}
use construct_tui.Streaming.Tracker.{load}
use construct_tui.App.{
  App, Env, CoreStart, spawn_stream, spawn_core, to_core, upload_otpks, emit, say,
}

abbrev listed : StoredContact → Contact
listed c = record { id = c.user_id; display_name = c.display_name; unread = 0; last_message = none }

abbrev id_of : StoredContact → Bytes
id_of c = c.user_id

-- The contacts of the list and their ids; `none` where the rows cannot be read.
abbrev read_contacts : Result DbError (List StoredContact) → Option (List StoredContact)
read_contacts (ok stored) = some stored
read_contacts (err e) = none

abbrev pub contact_ids : Option (List StoredContact) → List Bytes
contact_ids none = []
contact_ids (some stored) = map id_of stored

abbrev fill_list : Option (List StoredContact) → App → App
fill_list none a = a
fill_list (some stored) a = record a { chat_list = set_contacts (map listed stored) a.chat_list }

abbrev pub flat : Result DbError (Option Bytes) → Option Bytes
flat (ok o) = o
flat (err e) = none

abbrev non_empty : Option Bytes → Option Bytes
non_empty none = none
non_empty (some []) = none
non_empty (some (b ∷ s)) = some (b ∷ s)

-- One read of the secure store, as an event of the core.
abbrev pub loaded_key : Bytes → Storage → Event × Storage
loaded_key key s = (session_loaded key (flat (secure_load key s).0), (secure_load key s).1)

-- For each contact the archive, then the session.
unfoldable pub restore_sessions : List Bytes → Storage → List Event × Storage
unfolding secure_load
restore_sessions [] s = ([], s)
restore_sessions (id ∷ ids) s =
    let (archive, s1) = loaded_key (archive_key id) s in
    let (session, s2) = loaded_key (session_key id) s1 in
    let (later, s3) = restore_sessions ids s2 in (archive ∷ session ∷ later, s3)

-- What is known when the databases are open.
pub record Restored : Type 0 where
  pub contacts : Option (List StoredContact)
  pub imported : Option Bytes
  pub events : List Event
  pub storage : Storage

unfoldable pub restore : Storage → Restored
unfolding get_contacts secure_load restore_sessions
restore s =
    let (rows, s1) = get_contacts s in
    let contacts = read_contacts rows in
    let (state, s2) = secure_load state_key s1 in
    let (events, s3) = restore_sessions (contact_ids contacts) s2 in
    record { contacts = contacts; imported = non_empty (flat state); events = events; storage = s3 }

abbrev upload_if : Bool → Bytes → App → App
upload_if true device_id a = emit (upload_otpks device_id) a
upload_if false device_id a = a

abbrev core_of : Bytes → Restored → CoreStart
core_of user_id r = record { user_id = user_id; imported = r.imported; events = r.events }

-- The stream and the task run, and the task is told that the application has started.
abbrev pub launch : Env → Bytes → Bytes → Restored → App → App
launch env user_id device_id r a =
    let filled = fill_list r.contacts a in
    let open' = record filled {
      read_storage = some ((load r.storage).storage);
      our_identity_key = env.identity_public_key;
      has_stream = true;
      has_orchestrator = true;
    } in
    upload_if env.has_otpks device_id (
      emit (to_core app_launched) (
        emit (spawn_core (core_of user_id r)) (emit (spawn_stream (contact_ids r.contacts)) open')))

abbrev database_key : Option SessionKey → Option Bytes
database_key none = none
database_key (some sk) = some (sk.keys.database)

abbrev in_context : {A : Type 0} → Bytes → Result Bytes A → Result Bytes A
in_context text (ok x) = ok x
in_context text (err e) = err (text ++ e)

-- The keys of the session, and the database twice: for the task of the core, and to read.
unfoldable pub opened_storage : Env → Session → Option SessionKey → Result Bytes Storage
opened_storage env s key = do
  identity ←
      in_context (bytes "Orchestrator key decode error: ") (env.decode_hex s.identity_key_hex)
  signing ← in_context (bytes "Orchestrator key decode error: ") (env.decode_hex s.signing_key_hex)
  spk ← in_context (bytes "Orchestrator key decode error: ") (env.decode_hex s.spk_key_hex)
  spk_sig ← in_context (bytes "Orchestrator key decode error: ") (env.decode_hex s.spk_sig_hex)
  in_context (bytes "Orchestrator init error: ") (env.from_keys identity signing spk spk_sig)
  written ← in_context (bytes "Storage open error: ") (env.open_storage (database_key key))
  in_context (bytes "Storage open error: ") (env.open_storage (database_key key))

abbrev start_with : Env → Bytes → Bytes → Result Bytes Storage → App → App
start_with env user_id device_id (err e) a = say e a
start_with env user_id device_id (ok s) a = launch env user_id device_id (restore s) a

unfoldable pub start_orchestrator : Env → Session → Bytes → Bytes → App → App
unfolding opened_storage restore set_contacts load
start_orchestrator env s user_id device_id a =
    start_with env user_id device_id (opened_storage env s a.session_key) a
