-- ===== src/Streaming/Tracker.antt =====
-- src/streaming.rs, `CursorTracker`: the watermark in memory beside the one in the database. The
-- two mutexes are never poisoned, since nothing panics while it holds one.
pub mod Synced
use construct_tui.Prelude.{Bool, true, false, Option, none, some, List, [], ◌∷◌, if◌then◌else◌}
use construct_tui.Prelude.Bytes.{Bytes}
use construct_tui.Prelude.Dict.{Dict, lookup, insert, remove}
use construct_tui.Prelude.Try.{Result, ok, err}
use construct_tui.Storage.{Storage, DbError}
use construct_tui.Storage.Secure.{load_stream_cursor, save_stream_cursor}

pub record CursorTracker : Type 0 where
  pub committed : Option Bytes
  pub pending : Dict Bytes

-- The tracker and the database that its methods are given.
pub record Tracked : Type 0 where
  pub cursor : CursorTracker
  pub storage : Storage

-- `.ok().flatten()`
abbrev loaded : Result DbError (Option Bytes) → Option Bytes
loaded (ok c) = c
loaded (err e) = none

unfoldable pub load : Storage → Tracked
load s = record {
  cursor = record { committed = loaded (load_stream_cursor s).0; pending = [] };
  storage = (load_stream_cursor s).1;
}

-- `.filter(|c| !c.is_empty())`
abbrev pub non_empty : Option Bytes → Option Bytes
non_empty none = none
non_empty (some []) = none
non_empty (some (b ∷ s)) = some (b ∷ s)

note_cursor : CursorTracker → Bytes → Option Bytes → CursorTracker
note_cursor t message_id none = t
note_cursor t message_id (some c) = record t { pending = insert message_id c t.pending }

unfoldable pub note : Bytes → Option Bytes → Tracked → Tracked
unfolding note_cursor
note message_id cursor t = record t { cursor = note_cursor t.cursor message_id (non_empty cursor) }

-- `save_stream_cursor(..).unwrap_or(false)`
abbrev pub moved : Result DbError Bool → Bool
moved (ok b) = b
moved (err e) = false

unfoldable pub persist : Option Bytes → Tracked → Tracked
persist none t = t
persist (some c) t =
    let (result, s) = save_stream_cursor c t.storage in
    record {
      cursor = if moved result then record (t.cursor) { committed = some c } else t.cursor;
      storage = s;
    }

unfoldable pub commit : Bytes → Tracked → Tracked
unfolding persist
commit message_id t =
    persist (lookup message_id t.cursor.pending)
      (record t { cursor = record (t.cursor) { pending = remove message_id t.cursor.pending } })

unfoldable pub commit_direct : Option Bytes → Tracked → Tracked
unfolding persist
commit_direct cursor t = persist (non_empty cursor) t
