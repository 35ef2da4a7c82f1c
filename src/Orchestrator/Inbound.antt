-- ===== src/Orchestrator/Inbound.antt =====
-- src/orchestrator_task.rs: how a received message becomes durable, and what is done with sessions
-- in the database.
use construct_tui.Prelude.{Bool, false, ◌&&◌, not, [], ◌∷◌, ◌++◌}
use construct_tui.Prelude.Bytes.{Bytes, bytes, contains, starts_with}
use construct_tui.Prelude.Int.{ℤ}
use construct_tui.Prelude.Try.{Result, ok, err}
use construct_tui.Storage.{StoredMessage, Storage, DbError, Db, ◌>>◌}
use construct_tui.Storage.Messages.{store_inbound_message}
use construct_tui.Storage.Secure.{secure_save, secure_save_or_delete, secure_delete}
use construct_tui.Streaming.Tracker.{Tracked, commit}

abbrev pub with_storage : Tracked → Storage → Tracked
with_storage t s = record t { storage = s }

-- The write of the message and, when it has succeeded, of its cursor.
abbrev pub then_commit : Bytes → Tracked → Result DbError (Unit {0}) × Storage → Tracked
then_commit message_id t (ok _, s) = commit message_id (with_storage t s)
then_commit message_id t (err e, s) = with_storage t s

unfoldable pub persist_inbound : Bytes → StoredMessage → Tracked → Tracked
unfolding store_inbound_message commit
persist_inbound message_id msg t = then_commit message_id t (store_inbound_message msg t.storage)

-- What is shown of a first message: no control text.
unfoldable pub is_user_text : Bytes → Bool
is_user_text [] = false
is_user_text (c ∷ text) =
    not (starts_with (c ∷ text) (0 ∷ []))
    && (not (contains (c ∷ text) (bytes "__session_ping_"))
        && not (contains (c ∷ text) (bytes "__heartbeat__")))

abbrev pub received : Bytes → Bytes → Bytes → ℤ → StoredMessage
received message_id contact_id text at_ms = record {
  id = message_id;
  peer_id = contact_id;
  text = text;
  direction = bytes "received";
  timestamp_ms = at_ms;
  delivery_status = [];
}

unfoldable pub apply_secure_store_save : Bytes → Bytes → Db (Unit {0})
unfolding secure_save_or_delete
apply_secure_store_save key value = secure_save_or_delete key value

abbrev pub archive_key : Bytes → Bytes
archive_key contact_id = bytes "archive_" ++ contact_id

abbrev pub session_key : Bytes → Bytes
session_key contact_id = bytes "session_" ++ contact_id

unfoldable pub apply_session_terminated : Bytes → Bytes → Db (Unit {0})
unfolding secure_save secure_delete
apply_session_terminated contact_id archive_bytes = do
  secure_save (archive_key contact_id) archive_bytes
  secure_delete (session_key contact_id)
