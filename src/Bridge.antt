-- ===== src/Bridge.antt =====
-- src/bridge.rs: the bridge of the core to the storage, the stream and the application, and the
-- refresh of the access token.
pub mod Refresh
use construct_tui.Prelude.{ℕ, Option, none, some, List, [], ◌∷◌, ◌++◌}
use construct_tui.Prelude.Bytes.{Bytes, bytes}
use construct_tui.Prelude.Int.{ℤ}
use construct_tui.Prelude.Try.{Result, ok, err}
use construct_tui.Storage.{StoredMessage, Storage, DbError}
use construct_tui.Storage.Messages.{store_message, mark_delivered, get_messages}
use construct_tui.Storage.Secure.{secure_save_or_delete, secure_load}
use construct_tui.Storage.Records.{persist_record, query_last_record}
use construct_tui.Streaming.{StreamCmd, subscribe}
use construct_tui.Orchestrator.{Envelope, BridgeEvent, new_message, message_delivered}

-- The storage, and what was tried on the two channels.
pub record TuiBridge : Type 0 where
  pub storage : Storage
  pub stream_sent : List (StreamCmd Envelope)
  pub ui_sent : List BridgeEvent

abbrev Op : Type 0 → Type 0
Op A = TuiBridge → Result DbError A × TuiBridge

abbrev in_storage : {A : Type 0} → Result DbError A × Storage → Op A
in_storage (r, s) b = (r, record b { storage = s })

abbrev then_tell :
    BridgeEvent → Result DbError (Unit {0}) × TuiBridge → Result DbError (Unit {0}) × TuiBridge
then_tell e (ok u, b) = (ok u, record b { ui_sent = b.ui_sent ++ (e ∷ []) })
then_tell e (err x, b) = (err x, b)

unfoldable pub on_message_decrypted : Bytes → Bytes → Bytes → ℤ → Op (Unit {0})
unfolding store_message
on_message_decrypted peer_id message_id text timestamp_ms b =
    let msg : StoredMessage = record {
      id = message_id;
      peer_id = peer_id;
      text = text;
      direction = bytes "received";
      timestamp_ms = timestamp_ms;
      delivery_status = bytes "delivered";
    } in
    then_tell (new_message peer_id message_id text timestamp_ms)
      (in_storage (store_message msg b.storage) b)

unfoldable pub on_message_sent : Bytes → Bytes → Bytes → ℤ → Op (Unit {0})
unfolding store_message
on_message_sent peer_id message_id text timestamp_ms b =
    let msg : StoredMessage = record {
      id = message_id;
      peer_id = peer_id;
      text = text;
      direction = bytes "sent";
      timestamp_ms = timestamp_ms;
      delivery_status = [];
    } in
    in_storage (store_message msg b.storage) b

unfoldable pub on_ack : Bytes → Op (Unit {0})
unfolding mark_delivered
on_ack message_id b =
    then_tell (message_delivered message_id) (in_storage (mark_delivered message_id b.storage) b)

unfoldable pub subscribe_to : Bytes → TuiBridge → TuiBridge
subscribe_to user_id b = record b {
  stream_sent = b.stream_sent ++ (subscribe (user_id ∷ []) none ∷ []);
}

-- `.ok().flatten()`
abbrev flat : {A : Type 0} → Result DbError (Option A) × TuiBridge → Option A × TuiBridge
flat (ok o, b) = (o, b)
flat (err e, b) = (none, b)

unfoldable pub save_to_secure_store : Bytes → Bytes → TuiBridge → TuiBridge
unfolding secure_save_or_delete
save_to_secure_store key data' b = (in_storage (secure_save_or_delete key data' b.storage) b).1

unfoldable pub load_from_secure_store : Bytes → TuiBridge → Option Bytes × TuiBridge
unfolding secure_load
load_from_secure_store key b = flat (in_storage (secure_load key b.storage) b)

unfoldable pub persist : Bytes → Bytes → TuiBridge → TuiBridge
unfolding persist_record
persist table json b = (in_storage (persist_record table json b.storage) b).1

unfoldable pub query_record : Bytes → TuiBridge → Option Bytes × TuiBridge
unfolding query_last_record
query_record table b = flat (in_storage (query_last_record table b.storage) b)
