-- ===== src/Orchestrator/Ordered.antt =====
-- src/orchestrator_task.rs, `persist_inbound`: the write of a message and that of its cursor.
use construct_tui.Prelude.{◌≡◌, refl, ◌∙◌, ◌⊎◌, inl, inr, true, false, some, [], ◌∷◌, Bool-cases}
use construct_tui.Prelude.Bytes.{Bytes, =b-refl}
use construct_tui.Storage.{StoredMessage, Storage, statement, is_refused}
use construct_tui.Storage.Messages.{store_inbound_message, is_direction, exists_id}
use construct_tui.Storage.Messages.Inbound.{
  row_of, row_of-append, exists_id-row_of, row_of-exists_id,
}
use construct_tui.Streaming.Tracker.{Tracked}
use construct_tui.Orchestrator.Inbound.{persist_inbound}
use construct_tui.Orchestrator.Keeps.{stored_rows}

-- A message that SQLite accepts has a row afterwards.
accepted_row :
    (msg : StoredMessage) (s : Storage)
    → is_direction msg.direction ≡ true
    → is_refused s.faults ≡ false
    → (row : StoredMessage) × (row_of msg.id (store_inbound_message msg s).1.messages ≡ some row)
unfolding store_inbound_message statement
accepted_row msg s d r = elim (Bool-cases (exists_id msg.id s.messages)) [
  | inl e ↦ (let (row, h) = exists_id-row_of msg.id s.messages e in (row, rw (r, d, e) h))
  | inr e ↦ (
    msg,
    rw (r, d, e)
        (row_of-append msg.id s.messages (msg ∷ [])
          ∙ rw (row_of-exists_id msg.id s.messages e, =b-refl msg.id) refl),
  )
]

-- After `persist_inbound` of a message with a direction that the table allows, the message's id
-- has a row in the database, or neither the tracker, its pending cursors included, nor the
-- watermark in the database has moved.
pub persist_inbound_durable :
    (message_id : Bytes) (msg : StoredMessage) (t : Tracked)
    → is_direction msg.direction ≡ true
    → ((row : StoredMessage) × (row_of msg.id (persist_inbound message_id msg t).storage.messages
          ≡ some row))
      ⊎ (((persist_inbound message_id msg t).cursor ≡ t.cursor)
          × ((persist_inbound message_id msg t).storage.secure_store ≡ t.storage.secure_store))
unfolding persist_inbound store_inbound_message statement
persist_inbound_durable message_id msg t d = elim (Bool-cases (is_refused t.storage.faults)) [
  | inl r ↦ inr (rw r refl, rw r refl)
  | inr r ↦
      (let (row, h) = accepted_row msg t.storage d r in
        inl (row, rw (stored_rows message_id msg t) h))
]
