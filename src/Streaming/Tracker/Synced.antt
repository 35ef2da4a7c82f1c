-- ===== src/Streaming/Tracker/Synced.antt =====
-- src/streaming.rs, `CursorTracker`: the watermark in memory against the one in the database.
use construct_tui.Prelude.{
  ◌≡◌, ◌≢◌, refl, sym, ap, ◌∙◌, inl, inr, Bool, true, false, Option, none, some, List, [], ◌∷◌,
  arith, All,
}
use construct_tui.Prelude.Bytes.{Bytes}
use construct_tui.Prelude.Dict.{lookup, lookup-remove, lookup-insert}
use construct_tui.Prelude.Utf8.{is_utf8}
use construct_tui.Prelude.Try.{Result, ok, err}
use construct_tui.Storage.{Storage, DbError, statement}
use construct_tui.Storage.Secure.{
  as_cursor, stream_cursor_key, save_stream_cursor, load_stream_cursor,
}
use construct_tui.Storage.Watermark.{stored_cursor, Saved, save_stream_cursor-Saved}
use construct_tui.Streaming.Tracker.{
  Tracked, load, note, commit, commit_direct, persist, moved, non_empty,
}

-- What the worker will subscribe from is what a restart would load, and every cursor that waits for
-- its message is a Rust string.
pub record IsSynced (t : Tracked) : Type 0 where
  pub same : t.cursor.committed ≡ stored_cursor t.storage
  pub valid : (id c : Bytes) → lookup id t.cursor.pending ≡ some c → is_utf8 c ≡ true

-- A cursor from the wire is a Rust string.
abbrev pub IsString : Option Bytes → Type 0
IsString none = Unit
IsString (some c) = is_utf8 c ≡ true

not_moved : (r : Result DbError Bool) → r ≢ ok true → moved r ≡ false
not_moved (ok true) h = absurd (h refl)
not_moved (ok false) h = refl
not_moved (err e) h = refl

persist_pending :
    (cursor : Option Bytes) (t : Tracked) → (persist cursor t).cursor.pending ≡ t.cursor.pending
unfolding persist
persist_pending none t = refl
persist_pending (some c) t = ground arith

persist_same :
    (cursor : Option Bytes) (t : Tracked)
    → IsString cursor
    → t.cursor.committed ≡ stored_cursor t.storage
    → (persist cursor t).cursor.committed ≡ stored_cursor (persist cursor t).storage
unfolding persist
persist_same none t v same = same
persist_same (some []) t v same = unfold save_stream_cursor in same
persist_same (some (b ∷ c)) t v same = go (save_stream_cursor-Saved b c t.storage v)
  where
    go :
        Saved
          (b ∷ c)
          t.storage
          (save_stream_cursor (b ∷ c) t.storage).1
          (save_stream_cursor (b ∷ c) t.storage).0
        → (persist (some (b ∷ c)) t).cursor.committed
          ≡ stored_cursor (persist (some (b ∷ c)) t).storage
    go w = elim w.moved [
      | inl e ↦ ground (arith, e, w.written e)
      | inr (kept, failed) ↦
          rw (not_moved _ failed)
            (same ∙ ap (λ d. as_cursor (lookup stream_cursor_key d)) (sym kept))
    ]

persist-IsSynced :
    (cursor : Option Bytes) (t : Tracked)
    → IsString cursor
    → IsSynced t
    → IsSynced (persist cursor t)
persist-IsSynced cursor t v h = record {
  same = persist_same cursor t v h.same;
  valid = rw (persist_pending cursor t) h.valid;
}

IsString-lookup : (t : Tracked) (id : Bytes) → IsSynced t → IsString (lookup id t.cursor.pending)
IsString-lookup t id h = go (lookup id t.cursor.pending) (h.valid id)
  where
    go : (o : Option Bytes) → ((c : Bytes) → o ≡ some c → is_utf8 c ≡ true) → IsString o
    go none f = tt
    go (some c) f = f c refl

IsString-non_empty : (cursor : Option Bytes) → IsString cursor → IsString (non_empty cursor)
IsString-non_empty none v = tt
IsString-non_empty (some []) v = tt
IsString-non_empty (some (b ∷ s)) v = v

note-IsSynced :
    (id : Bytes) (cursor : Option Bytes) (t : Tracked)
    → IsString cursor
    → IsSynced t
    → IsSynced (note id cursor t)
unfolding note
note-IsSynced id none t v h = record { same = h.same; valid = h.valid }
note-IsSynced id (some []) t v h = record { same = h.same; valid = h.valid }
note-IsSynced id (some (b ∷ s)) t v h = record {
  same = h.same;
  valid = λ k c e. ground (arith, lookup-insert id k (b ∷ s) t.cursor.pending, h.valid k c);
}

commit-IsSynced : (id : Bytes) (t : Tracked) → IsSynced t → IsSynced (commit id t)
unfolding commit
commit-IsSynced id t h =
    persist-IsSynced (lookup id t.cursor.pending) _ (IsString-lookup t id h) (record {
      same = h.same;
      valid = λ k c e. ground (arith, lookup-remove id k t.cursor.pending, h.valid k c);
    })

-- The calls that the orchestrator makes, in any order.
pub data Call : Type 0 where
  note_call : Bytes → Option Bytes → Call
  commit_call : Bytes → Call
  direct_call : Option Bytes → Call

unfoldable pub run_calls : List Call → Tracked → Tracked
unfolding note commit commit_direct
run_calls [] t = t
run_calls (note_call id cursor ∷ calls) t = run_calls calls (note id cursor t)
run_calls (commit_call id ∷ calls) t = run_calls calls (commit id t)
run_calls (direct_call cursor ∷ calls) t = run_calls calls (commit_direct cursor t)

abbrev pub TakesStrings : Call → Type 0
TakesStrings (note_call id cursor) = IsString cursor
TakesStrings (commit_call id) = Unit
TakesStrings (direct_call cursor) = IsString cursor

run_calls-IsSynced :
    (calls : List Call) (t : Tracked)
    → All TakesStrings calls
    → IsSynced t
    → IsSynced (run_calls calls t)
unfolding run_calls
run_calls-IsSynced [] t v h = h
run_calls-IsSynced (note_call id cursor ∷ calls) t (v, vs) h =
    run_calls-IsSynced calls (note id cursor t) vs (note-IsSynced id cursor t v h)
run_calls-IsSynced (commit_call id ∷ calls) t (v, vs) h =
    run_calls-IsSynced calls (commit id t) vs (commit-IsSynced id t h)
run_calls-IsSynced (direct_call cursor ∷ calls) t (v, vs) h =
    run_calls-IsSynced calls (commit_direct cursor t) vs
      (persist-IsSynced (non_empty cursor) t (IsString-non_empty cursor v) h)

load-IsSynced : (s : Storage) → s.faults ≡ [] → IsSynced (load s)
unfolding load load_stream_cursor statement
load-IsSynced s calm = record { same = ground (arith, calm); valid = λ k c e. unfold lookup in cc }

-- The statements that SQLite will refuse from now on.
abbrev pub set_faults : List Bool → Tracked → Tracked
set_faults faults t = record t { storage = record (t.storage) { faults = faults } }

-- From a tracker that was loaded, after any calls of `note`, `commit` and `commit_direct`, and
-- whichever later statements SQLite refuses, the watermark in memory, from which the worker
-- subscribes, is the one that the database holds.
pub committed-stored :
    (calls : List Call) (s : Storage) (faults : List Bool)
    → s.faults ≡ []
    → All TakesStrings calls
    → (run_calls calls (set_faults faults (load s))).cursor.committed
      ≡ stored_cursor (run_calls calls (set_faults faults (load s))).storage
committed-stored calls s faults calm v =
    (run_calls-IsSynced calls (set_faults faults (load s)) v
      (record { same = (load-IsSynced s calm).same; valid = (load-IsSynced s calm).valid })).same
