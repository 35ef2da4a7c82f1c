-- ===== src/Storage/Acks.antt =====
-- src/storage.rs: the `pending_acks` table, by which the core leaves out what it has handled.
use construct_tui.Prelude.{Bool, true, false, not, Option, none, some, [], ◌∷◌, ◌++◌, if◌then◌else◌}
use construct_tui.Prelude.Bytes.{Bytes}
use construct_tui.Prelude.Dict.{Dict, lookup}
use construct_tui.Prelude.Int.{ℤ, ltb_ℤ}
use construct_tui.Prelude.Try.{ok}
use construct_tui.Storage.{Db, statement, keep, ◌>>=◌, ◌>>◌, pure}

abbrev pub is_some {ℓ} : {A : Type ℓ} → Option A → Bool
is_some none = false
is_some (some a) = true

-- INSERT OR IGNORE
unfoldable pub store_ack : Bytes → ℤ → Db (Unit {0})
store_ack id at_ms = statement λ s.
    if is_some (lookup id s.pending_acks)
    then (ok tt, s)
    else (ok tt, record s { pending_acks = s.pending_acks ++ ((id, at_ms) ∷ []) })

-- DELETE ... WHERE timestamp_ms < cutoff
unfoldable pub prune_acks : ℤ → Db (Unit {0})
prune_acks cutoff =
    statement λ s.
      (ok tt, record s { pending_acks = keep (λ row. not (ltb_ℤ row.1 cutoff)) s.pending_acks })

-- SELECT COUNT(*) ... > 0
unfoldable pub has_ack : Bytes → Db Bool
has_ack id = statement λ s. (ok (is_some (lookup id s.pending_acks)), s)

all_acks : Db (Dict ℤ)
all_acks = statement λ s. (ok s.pending_acks, s)

clear_acks : Db (Unit {0})
clear_acks = statement λ s. (ok tt, record s { pending_acks = [] })

unless_empty : Dict ℤ → Db (Dict ℤ)
unfolding clear_acks
unless_empty [] = pure []
unless_empty (row ∷ rows) = clear_acks >> pure (row ∷ rows)

-- The order of the rows is not specified; it is the table's here.
unfoldable pub pop_all_acks : Db (Dict ℤ)
unfolding all_acks unless_empty
pop_all_acks = all_acks >>= unless_empty
