-- ===== src/Storage/Messages.antt =====
-- src/storage.rs: the `messages` table.
pub mod Inbound
pub mod Query
use construct_tui.Prelude.{
  ℕ, ◌^◌, Bool, true, false, ◌||◌, not, List, [], ◌∷◌, ◌++◌, map, ltb, if◌then◌else◌, take,
}
use mathlib.Core.List.{reverse}
use construct_tui.Prelude.Bytes.{Bytes, bytes, ◌=b◌}
use construct_tui.Prelude.Try.{ok, err}
use construct_tui.Storage.{StoredMessage, Storage, Db, check_failed, statement, keep, ◌>>=◌, pure}

-- CHECK(direction IN ('sent','received','pending'))
unfoldable pub is_direction : Bytes → Bool
is_direction d = d =b bytes "sent" || d =b bytes "received" || d =b bytes "pending"

abbrev pub has_id : Bytes → StoredMessage → Bool
has_id id m = m.id =b id

abbrev pub exists_id : Bytes → List StoredMessage → Bool
exists_id id [] = false
exists_id id (m ∷ ms) = has_id id m || exists_id id ms

-- INSERT OR REPLACE: a row of the same id is deleted first. The CHECK constraint is an error.
unfoldable pub store_message : StoredMessage → Db (Unit {0})
store_message msg = statement λ s.
    if is_direction msg.direction
    then (ok tt, record s { messages = keep (λ m. not (has_id msg.id m)) s.messages ++ (msg ∷ []) })
    else (err check_failed, s)

-- INSERT OR IGNORE: a row that breaks the key or the CHECK constraint is passed over.
unfoldable pub store_inbound_message : StoredMessage → Db (Unit {0})
store_inbound_message msg = statement λ s.
    if is_direction msg.direction
    then if exists_id msg.id s.messages
      then (ok tt, s)
      else (ok tt, record s { messages = s.messages ++ (msg ∷ []) })
    else (ok tt, s)

-- LIMIT ?2 with `limit as i64`; SQLite reads a negative limit as no limit.
abbrev pub limit_rows : ℕ → List StoredMessage → List StoredMessage
limit_rows limit rows = if ltb limit (2 ^ 63) then take limit rows else rows

-- SELECT ... WHERE peer_id = ?1 ORDER BY timestamp_ms DESC LIMIT ?2, then `reverse`. The order of
-- rows with one timestamp is SQLite's: `order_by_desc` is its sort.
unfoldable pub get_messages :
    (List StoredMessage → List StoredMessage) → Bytes → ℕ → Db (List StoredMessage)
get_messages order_by_desc peer limit = statement λ s.
    (ok (reverse (limit_rows limit (order_by_desc (keep (λ m. m.peer_id =b peer) s.messages)))), s)

abbrev pub deliver : Bytes → StoredMessage → StoredMessage
deliver id m = if has_id id m then record m { delivery_status = bytes "delivered" } else m

unfoldable pub mark_delivered : Bytes → Db (Unit {0})
mark_delivered id = statement λ s. (ok tt, record s { messages = map (deliver id) s.messages })
