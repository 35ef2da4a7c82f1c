-- ===== src/Storage/Secure.antt =====
-- src/storage.rs: the `secure_store` table and the stream cursor that is kept in it.
pub mod Map
use construct_tui.Prelude.{Bool, true, false, not, Option, none, some, [], ◌∷◌, if◌then◌else◌}
use construct_tui.Prelude.Bytes.{Bytes, bytes}
use construct_tui.Prelude.Dict.{lookup, insert, remove}
use construct_tui.Prelude.Utf8.{is_utf8}
use construct_tui.Prelude.Try.{ok}
use construct_tui.Storage.{Db, statement, ◌>>=◌, ◌>>◌, pure}
use construct_tui.Storage.Cursor.{cursor_after}

unfoldable pub secure_save : Bytes → Bytes → Db (Unit {0})
secure_save key value =
    statement λ s. (ok tt, record s { secure_store = insert key value s.secure_store })

unfoldable pub secure_delete : Bytes → Db (Unit {0})
secure_delete key = statement λ s. (ok tt, record s { secure_store = remove key s.secure_store })

-- The empty value is the core's sign for deletion.
unfoldable pub secure_save_or_delete : Bytes → Bytes → Db (Unit {0})
secure_save_or_delete key [] = secure_delete key
secure_save_or_delete key (b ∷ value) = secure_save key (b ∷ value)

unfoldable pub secure_load : Bytes → Db (Option Bytes)
secure_load key = statement λ s. (ok (lookup key s.secure_store), s)

abbrev pub stream_cursor_key : Bytes
stream_cursor_key = bytes "stream_cursor"

-- `.and_then(from_utf8).filter(non-empty)`
abbrev pub as_cursor : Option Bytes → Option Bytes
as_cursor none = none
as_cursor (some []) = none
as_cursor (some (b ∷ s)) = if is_utf8 (b ∷ s) then some (b ∷ s) else none

unfoldable pub load_stream_cursor : Db (Option Bytes)
unfolding secure_load
load_stream_cursor = do found ← secure_load stream_cursor_key; pure (as_cursor found)

abbrev pub goes_back : Bytes → Option Bytes → Bool
goes_back cursor none = false
goes_back cursor (some old) = not (cursor_after cursor old)

-- Returns whether the stored watermark moved.
unfoldable pub save_stream_cursor : Bytes → Db Bool
unfolding secure_save load_stream_cursor
save_stream_cursor [] = pure false
save_stream_cursor (c ∷ cursor) = do
  old ← load_stream_cursor
  if goes_back (c ∷ cursor) old
      then pure false
      else do secure_save stream_cursor_key (c ∷ cursor); pure true

unfoldable pub clear_stream_cursor : Db (Unit {0})
clear_stream_cursor = secure_delete stream_cursor_key
