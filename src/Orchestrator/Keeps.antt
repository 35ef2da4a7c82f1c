-- ===== src/Orchestrator/Keeps.antt =====
-- src/orchestrator_task.rs: what the task does to the messages in the database.
use construct_tui.Prelude.{
  ◌≡◌, refl, ◌∙◌, ap, inl, inr, true, Option, none, some, List, [], ◌∷◌, map, arith, Bool-cases,
}
use construct_tui.Prelude.Bytes.{Bytes, ◌=b◌}
use construct_tui.Prelude.Dict.{lookup, remove}
use construct_tui.Prelude.Try.{Result, ok, err}
use construct_tui.Storage.{StoredMessage, Storage, DbError, statement, is_refused}
use construct_tui.Storage.Messages.{store_inbound_message, mark_delivered, deliver, has_id}
use construct_tui.Storage.Messages.Inbound.{row_of, store_inbound_all, store_inbound_all_keeps}
use construct_tui.Storage.Secure.{secure_save, secure_load, save_stream_cursor, load_stream_cursor}
use construct_tui.Streaming.Tracker.{Tracked, commit, commit_direct, non_empty, persist}
use construct_tui.Orchestrator.Inbound.{persist_inbound, with_storage, then_commit}

-- A message and what may become of it: all but its delivery status stays.
pub record IsSame (m n : StoredMessage) : Type 0 where
  pub same_id : n.id ≡ m.id
  pub same_peer : n.peer_id ≡ m.peer_id
  pub same_text : n.text ≡ m.text
  pub same_direction : n.direction ≡ m.direction
  pub same_time : n.timestamp_ms ≡ m.timestamp_ms

pub IsSame-refl : (m : StoredMessage) → IsSame m m
IsSame-refl m = record {
  same_id = refl;
  same_peer = refl;
  same_text = refl;
  same_direction = refl;
  same_time = refl;
}

IsSame-trans : (l m n : StoredMessage) → IsSame l m → IsSame m n → IsSame l n
IsSame-trans l m n h k = record {
  same_id = k.same_id ∙ h.same_id;
  same_peer = k.same_peer ∙ h.same_peer;
  same_text = k.same_text ∙ h.same_text;
  same_direction = k.same_direction ∙ h.same_direction;
  same_time = k.same_time ∙ h.same_time;
}

-- Every stored message is still stored.
abbrev pub Keeps : Storage → Storage → Type 0
Keeps s s' =
    (id : Bytes) (m : StoredMessage)
    → row_of id s.messages ≡ some m
    → (n : StoredMessage) × (row_of id s'.messages ≡ some n) × IsSame m n

pub Keeps-trans : (s t u : Storage) → Keeps s t → Keeps t u → Keeps s u
Keeps-trans s t u h k id m e =
    let (n, e', i) = h id m e in let (o, e'', j) = k id n e' in (o, e'', IsSame-trans m n o i j)

-- What leaves the table alone keeps the messages.
pub Keeps-messages : (s s' : Storage) → s'.messages ≡ s.messages → Keeps s s'
Keeps-messages s s' h id m e = (m, rw h e, IsSame-refl m)

deliver-IsSame : (done : Bytes) (k : StoredMessage) → IsSame k (deliver done k)
deliver-IsSame done k = elim (Bool-cases (has_id done k)) [
  | inl d ↦ record {
    same_id = rw d refl;
    same_peer = rw d refl;
    same_text = rw d refl;
    same_direction = rw d refl;
    same_time = rw d refl;
  }
  | inr d ↦ rw d (IsSame-refl k)
]

has_id-deliver : (id done : Bytes) (k : StoredMessage) → has_id id (deliver done k) ≡ has_id id k
has_id-deliver id done k = ap (λ x. x =b id) (IsSame.same_id (deliver-IsSame done k))

row_of-head :
    (id : Bytes) (k : StoredMessage) (ms : List StoredMessage) (m : StoredMessage)
    → row_of id (k ∷ ms) ≡ some m
    → has_id id k ≡ true
    → k ≡ m
row_of-head id k ms m e h = ground arith

row_of-deliver :
    (id done : Bytes) (ms : List StoredMessage) (m : StoredMessage)
    → row_of id ms ≡ some m
    → (n : StoredMessage) × (row_of id (map (deliver done) ms) ≡ some n) × IsSame m n
row_of-deliver id done [] m e = cc
row_of-deliver id done (k ∷ ms) m e = elim (Bool-cases (has_id id k)) [
  | inl h ↦ (
    deliver done k,
    rw (has_id-deliver id done k, h) refl,
    rw (← row_of-head id k ms m e h) (deliver-IsSame done k),
  )
  | inr h ↦
      (let (n, e', i) = row_of-deliver id done ms m (ground arith) in
        (n, rw (has_id-deliver id done k, h) e', i))
]

save_stream_cursor-messages :
    (c : Bytes) (s : Storage) → (save_stream_cursor c s).1.messages ≡ s.messages
unfolding save_stream_cursor load_stream_cursor secure_load secure_save statement
save_stream_cursor-messages [] s = refl
save_stream_cursor-messages (c ∷ cs) s = ground arith

persist-messages :
    (c : Option Bytes) (t : Tracked) → (persist c t).storage.messages ≡ t.storage.messages
unfolding persist
persist-messages none t = refl
persist-messages (some c) t = save_stream_cursor-messages c t.storage

commit-messages : (id : Bytes) (t : Tracked) → (commit id t).storage.messages ≡ t.storage.messages
unfolding commit
commit-messages id t =
    persist-messages (lookup id t.cursor.pending)
      (record t { cursor = record (t.cursor) { pending = remove id t.cursor.pending } })

-- The tracker does not touch the rows.
then_commit-messages :
    (id : Bytes) (t : Tracked) (r : Result DbError (Unit {0}) × Storage)
    → (then_commit id t r).storage.messages ≡ r.1.messages
then_commit-messages id t (ok u, s) = commit-messages id (with_storage t s)
then_commit-messages id t (err e, s) = refl

pub stored_rows :
    (id : Bytes) (msg : StoredMessage) (t : Tracked)
    → (persist_inbound id msg t).storage.messages ≡ (store_inbound_message msg t.storage).1.messages
unfolding persist_inbound
stored_rows id msg t = then_commit-messages id t (store_inbound_message msg t.storage)

pub persist_inbound-Keeps :
    (id : Bytes) (msg : StoredMessage) (t : Tracked)
    → Keeps t.storage (persist_inbound id msg t).storage
unfolding persist_inbound store_inbound_all
persist_inbound-Keeps id msg t key m e = (
  m,
  rw (stored_rows id msg t) (store_inbound_all_keeps (msg ∷ []) t.storage key m e),
  IsSame-refl m,
)

pub mark_delivered-Keeps : (id : Bytes) (s : Storage) → Keeps s (mark_delivered id s).1
unfolding mark_delivered statement
mark_delivered-Keeps id s key m e = elim (Bool-cases (is_refused s.faults)) [
  | inl r ↦ (m, rw r e, IsSame-refl m)
  | inr r ↦ (let (n, e', i) = row_of-deliver key id s.messages m e in (n, rw r e', i))
]

pub commit_direct-messages :
    (c : Option Bytes) (t : Tracked) → (commit_direct c t).storage.messages ≡ t.storage.messages
unfolding commit_direct
commit_direct-messages c t = persist-messages (non_empty c) t
