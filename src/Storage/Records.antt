-- ===== src/Storage/Records.antt =====
-- src/storage.rs: the `records` table.
use construct_tui.Prelude.{Option, none, some, List, [], ◌∷◌, ◌++◌, if◌then◌else◌}
use construct_tui.Prelude.Bytes.{Bytes, ◌=b◌}
use construct_tui.Prelude.Try.{ok}
use construct_tui.Storage.{Db, statement}

-- The id is AUTOINCREMENT, so a new row comes last.
unfoldable pub persist_record : Bytes → Bytes → Db (Unit {0})
persist_record table json =
    statement λ s. (ok tt, record s { records = s.records ++ ((table, json) ∷ []) })

-- ORDER BY id DESC LIMIT 1 among the rows of a table, starting from what was found before them.
unfoldable pub last_record : Bytes → Option Bytes → List (Bytes × Bytes) → Option Bytes
last_record table found [] = found
last_record table found ((t, json) ∷ rows) =
    last_record table (if t =b table then some json else found) rows

unfoldable pub query_last_record : Bytes → Db (Option Bytes)
query_last_record table = statement λ s. (ok (last_record table none s.records), s)
