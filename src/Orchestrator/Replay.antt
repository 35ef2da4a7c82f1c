-- ===== src/Orchestrator/Replay.antt =====
-- src/orchestrator_task.rs: the guard against stale replays.
use construct_tui.Prelude.{ℕ, ◌^◌, Bool, false, ◌||◌, Option, none, some, ltb, ◌==◌, if◌then◌else◌}
use construct_tui.Prelude.Bytes.{Bytes, split_once}
use construct_tui.Prelude.Decimal.{parse_uint}
use construct_tui.Prelude.Dict.{Dict, lookup}
use construct_tui.Knst.{ContentTypes}

pub record StreamMessageContext : Type 0 where
  pub contact_id : Bytes
  pub message_id : Bytes
  pub stream_cursor : Option Bytes
  pub content_type : ℕ
  pub msg_num : ℕ

-- The part before the first dash, as a u64.
unfoldable pub cursor_millis : Bytes → Option ℕ
cursor_millis c = elim (split_once b'-' c) [
  | none ↦ none
  | some (millis, rest) ↦ parse_uint (2 ^ 64) millis
]

unfoldable pub stream_cursor_millis : Option Bytes → Option ℕ
unfolding cursor_millis
stream_cursor_millis none = none
stream_cursor_millis (some c) = cursor_millis c

abbrev pub is_before : Option ℕ → Option ℕ → Bool
is_before (some cursor_ms) (some established_at_ms) = ltb cursor_ms established_at_ms
is_before _ _ = false

module _ (t : ContentTypes) where
  unfoldable pub is_replay_sensitive : StreamMessageContext → Bool
  is_replay_sensitive m =
      m.msg_num == 0
      || (m.content_type == t.session_reset || m.content_type == t.session_reset_init)

  unfoldable pub should_drop_stale_session_replay : StreamMessageContext → Dict ℕ → Bool
  unfolding is_replay_sensitive stream_cursor_millis
  should_drop_stale_session_replay m established =
      if is_replay_sensitive m
      then is_before (stream_cursor_millis m.stream_cursor) (lookup m.contact_id established)
      else false
