-- ===== src/Tests/Storage.antt =====
-- Runs of the database, and its theorems at concrete inputs.
use mathlib.Core.List.{Mem, Perm, Pairwise}
use construct_tui.Prelude.{
  ℕ, ◌≡◌, refl, true, false, none, some, List, [], ◌∷◌, ◌++◌, arith, All, length, min, not,
}
use construct_tui.Prelude.Bytes.{Bytes, bytes, ◌=b◌, lt_bytes, split_once}
use construct_tui.Prelude.Decimal.{parse_uint}
use construct_tui.Prelude.Dict.{lookup, insert}
use construct_tui.Prelude.Int.{pos, ◌≤ℤ◌}
use construct_tui.Prelude.Utf8.{is_utf8}
use construct_tui.Prelude.Try.{ok}
use construct_tui.Tests.Sort.{newest_first, newest_first-IsOrderByDesc}
use construct_tui.Storage.{StoredMessage, Storage, empty_storage, statement, keep}
use construct_tui.Storage.Cursor.{cursor_after, parse_stream_cursor}
use construct_tui.Storage.Cursor.Order.{IsCursor}
use construct_tui.Storage.Secure.{
  save_stream_cursor, secure_save, secure_delete, secure_save_or_delete, secure_load,
}
use construct_tui.Storage.Secure.Map.{
  save, delete, save_or_delete, SecureOp, perform_op, perform_all, change_all, secure_store_refines,
}
use construct_tui.Storage.Watermark.{
  stored_cursor, save_all, watermark_never_back, watermark_newest,
}
use construct_tui.Storage.Messages.{get_messages, is_direction}
use construct_tui.Storage.Messages.Inbound.{
  row_of, store_inbound_all, store_inbound_all_keeps, store_inbound_all_first, or_else,
}
use construct_tui.Storage.Messages.Query.{rows_of, get_messages_window}
use construct_tui.Storage.Deletion.{delete_contact, like, containing}
use construct_tui.Storage.Deletion.Forget.{delete_contact_forgets}

abbrev old_cursor : Bytes
old_cursor = bytes "100-0"

abbrev new_cursor : Bytes
new_cursor = bytes "100-1"

old_IsCursor : IsCursor old_cursor
unfolding parse_stream_cursor split_once parse_uint is_utf8
old_IsCursor = record { millis = 100; seq = 0; parses = refl; valid = refl }

new_IsCursor : IsCursor new_cursor
unfolding parse_stream_cursor split_once parse_uint is_utf8
new_IsCursor = record { millis = 100; seq = 1; parses = refl; valid = refl }

abbrev pub marked : Storage
marked = record empty_storage { secure_store = (bytes "stream_cursor", old_cursor) ∷ [] }

marked_stored : stored_cursor marked ≡ some old_cursor
unfolding lookup is_utf8 ◌=b◌
marked_stored = refl

watermark_never_back_example :
    (w' : Bytes) × (stored_cursor (save_all (new_cursor ∷ old_cursor ∷ []) marked) ≡ some w')
    × Mem w' (old_cursor ∷ new_cursor ∷ old_cursor ∷ [])
    × (cursor_after old_cursor w' ≡ false)
watermark_never_back_example =
    watermark_never_back (new_cursor ∷ old_cursor ∷ []) marked old_cursor
      (new_IsCursor, (old_IsCursor, tt)) old_IsCursor marked_stored

watermark_newest_example :
    (w' : Bytes) × (stored_cursor (save_all (new_cursor ∷ old_cursor ∷ []) marked) ≡ some w')
    × Mem w' (old_cursor ∷ new_cursor ∷ old_cursor ∷ [])
    × All (λ c. cursor_after c w' ≡ false) (old_cursor ∷ new_cursor ∷ old_cursor ∷ [])
watermark_newest_example =
    watermark_newest (new_cursor ∷ old_cursor ∷ []) marked old_cursor
      (new_IsCursor, (old_IsCursor, tt)) old_IsCursor marked_stored refl

-- With a cursor that is no pair of numbers the comparison goes round in a circle.
cursor_after_circle :
    (cursor_after (bytes "10-0") (bytes "9-0") ≡ true)
    × (cursor_after (bytes "9-0") (bytes "5") ≡ true)
    × (cursor_after (bytes "5") (bytes "10-0") ≡ true)
unfolding cursor_after parse_stream_cursor split_once parse_uint lt_bytes
cursor_after_circle = (refl, refl, refl)

-- So the watermark can go back by two saves.
watermark_circle :
    stored_cursor (
      save_all
        (bytes "5" ∷ bytes "9-0" ∷ [])
        (record empty_storage { secure_store = (bytes "stream_cursor", bytes "10-0") ∷ [] }))
    ≡ some (bytes "9-0")
unfolding save_all save_stream_cursor statement cursor_after parse_stream_cursor split_once
    parse_uint lt_bytes lookup insert is_utf8 ◌=b◌
watermark_circle = refl

abbrev message : Bytes → Bytes → ℕ → StoredMessage
message id text at_ms = record {
  id = id;
  peer_id = bytes "alice";
  text = text;
  direction = bytes "received";
  timestamp_ms = pos at_ms;
  delivery_status = [];
}

abbrev pub hello : StoredMessage
hello = message (bytes "m1") (bytes "hello") 1

abbrev clobber : StoredMessage
clobber = message (bytes "m1") (bytes "clobber") 2

abbrev pub with_hello : Storage
with_hello = record empty_storage { messages = hello ∷ []; faults = true ∷ false ∷ [] }

pub hello_stored : row_of (bytes "m1") with_hello.messages ≡ some hello
unfolding ◌=b◌
hello_stored = refl

store_inbound_all_keeps_example :
    row_of (bytes "m1") (store_inbound_all (clobber ∷ clobber ∷ []) with_hello).messages
    ≡ some hello
store_inbound_all_keeps_example =
    store_inbound_all_keeps (clobber ∷ clobber ∷ []) with_hello (bytes "m1") hello hello_stored

pub received_allowed : is_direction (bytes "received") ≡ true
unfolding is_direction ◌=b◌
received_allowed = refl

store_inbound_all_first_example :
    row_of (bytes "m1") (store_inbound_all (hello ∷ clobber ∷ []) empty_storage).messages
    ≡ or_else
        (row_of (bytes "m1") empty_storage.messages)
        (row_of (bytes "m1") (hello ∷ clobber ∷ []))
store_inbound_all_first_example =
    store_inbound_all_first (hello ∷ clobber ∷ []) empty_storage (bytes "m1") refl
      (received_allowed, (received_allowed, tt))

abbrev busy : Storage
busy = record empty_storage {
  messages =
      hello ∷ message (bytes "m3") (bytes "late") 9 ∷ message (bytes "m2") (bytes "mid") 5 ∷ [];
  contacts = record { user_id = bytes "alice"; display_name = []; identity_key_b64 = [] } ∷ [];
  secure_store = (bytes "session_alice", 1 ∷ []) ∷ (bytes "session_bob", 2 ∷ []) ∷ [];
}

last_two :
    get_messages newest_first (bytes "alice") 2 busy
    ≡ (ok (message (bytes "m2") (bytes "mid") 5 ∷ message (bytes "m3") (bytes "late") 9 ∷ []), busy)
unfolding get_messages statement newest_first ◌=b◌
last_two = refl

get_messages_window_example :
    (older recent : List StoredMessage) × (get_messages newest_first (bytes "alice") 2 busy
      ≡ (ok recent, busy))
    × Perm (older ++ recent) (rows_of (bytes "alice") busy)
    × Pairwise (λ (a b : StoredMessage). a.timestamp_ms ≤ℤ b.timestamp_ms) (older ++ recent)
    × (length recent ≡ min 2 (length (rows_of (bytes "alice") busy)))
get_messages_window_example =
    get_messages_window newest_first (bytes "alice") 2 busy newest_first-IsOrderByDesc (omega arith)
      refl

abbrev forgotten : Storage
forgotten = record empty_storage { secure_store = (bytes "session_bob", 2 ∷ []) ∷ [] }

alice_deleted : delete_contact (bytes "alice") busy ≡ (ok 3, forgotten)
unfolding delete_contact statement like ◌=b◌
alice_deleted = refl

delete_contact_forgets_example :
    (3 ≡ length (keep (λ m. m.peer_id =b bytes "alice") busy.messages))
    × (keep (λ m. m.peer_id =b bytes "alice") forgotten.messages ≡ [])
    × (keep (λ c. c.user_id =b bytes "alice") forgotten.contacts ≡ [])
    × (lookup (bytes "session_" ++ (bytes "alice" ++ [])) forgotten.secure_store ≡ none)
    × (keep (λ m. not (m.peer_id =b bytes "alice")) forgotten.messages
        ≡ keep (λ m. not (m.peer_id =b bytes "alice")) busy.messages)
delete_contact_forgets_example =
    delete_contact_forgets (bytes "alice") (bytes "session_") [] busy forgotten 3 alice_deleted

-- An id with a wildcard takes other users' keys along.
wildcard_deletes_bob : like (containing (bytes "_ob")) (bytes "session_bob") ≡ true
unfolding like
wildcard_deletes_bob = refl

abbrev secure_ops : List SecureOp
secure_ops = save (bytes "k") (bytes "v") ∷ delete (bytes "k") ∷ save_or_delete (bytes "l") [] ∷ []

abbrev faulty : Storage
faulty = record empty_storage { faults = false ∷ true ∷ [] }

no_faults_left : (perform_all secure_ops faulty).0.faults ≡ []
unfolding perform_all perform_op secure_save secure_delete secure_save_or_delete statement
no_faults_left = refl

secure_store_refines_example :
    (secure_load (bytes "k") (perform_all secure_ops faulty).0).0
    ≡ ok (
        change_all
          (perform_all secure_ops faulty).1
          (λ (j : Bytes). lookup j faulty.secure_store)
          (bytes "k"))
secure_store_refines_example = secure_store_refines secure_ops faulty (bytes "k") no_faults_left
