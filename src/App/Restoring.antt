-- ===== src/App/Restoring.antt =====
-- src/app.rs, `start_orchestrator`: the sessions that the core is given before the stream starts.
use construct_tui.Prelude.{◌≡◌, refl, List, [], ◌∷◌, ◌++◌, arith}
use construct_tui.Prelude.Bytes.{Bytes}
use construct_tui.Prelude.Dict.{lookup}
use construct_tui.Prelude.Try.{ok}
use construct_tui.Orchestrator.{Event, session_loaded}
use construct_tui.Orchestrator.Inbound.{archive_key, session_key}
use construct_tui.Storage.{Storage, statement}
use construct_tui.Storage.Secure.{secure_load}
use construct_tui.App.Start.{restore_sessions}

-- The archive and the session of one contact, as they are stored.
abbrev pub stored_pair : Storage → Bytes → List Event
stored_pair s id =
    session_loaded (archive_key id) (lookup (archive_key id) s.secure_store)
    ∷ session_loaded (session_key id) (lookup (session_key id) s.secure_store)
    ∷ []

abbrev pub stored_pairs : Storage → List Bytes → List Event
stored_pairs s [] = []
stored_pairs s (id ∷ ids) = stored_pair s id ++ stored_pairs s ids

secure_load_calm :
    (key : Bytes) (s : Storage)
    → s.faults ≡ []
    → secure_load key s ≡ (ok (lookup key s.secure_store), s)
unfolding secure_load statement
secure_load_calm key s calm = ground arith

-- Where SQLite refuses nothing, the core is given for every contact, in the order of the contacts,
-- first the stored archive and then the stored session, none where there is none, and the database
-- is left as it was.
pub restore_sessions_all :
    (ids : List Bytes) (s : Storage)
    → s.faults ≡ []
    → restore_sessions ids s ≡ (stored_pairs s ids, s)
unfolding restore_sessions
restore_sessions_all [] s calm = refl
restore_sessions_all (id ∷ ids) s calm =
    rw
      (
        secure_load_calm (archive_key id) s calm,
        secure_load_calm (session_key id) s calm,
        restore_sessions_all ids s calm,
      )
      refl
