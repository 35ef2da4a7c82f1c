-- ===== src/Storage/Cursor.antt =====
-- src/storage.rs, `cursor_after`: Redis stream ids `<millis>-<seq>` and their order.
pub mod Order
use construct_tui.Prelude.{ℕ, ◌^◌, Bool, ◌&&◌, ◌||◌, Option, none, some, ltb, ◌==◌}
use construct_tui.Prelude.Bytes.{Bytes, lt_bytes, split_once}
use construct_tui.Prelude.Decimal.{parse_uint}

abbrev pair : Option ℕ → Option ℕ → Option (ℕ × ℕ)
pair (some ms) (some seq) = some (ms, seq)
pair _ _ = none

unfoldable pub parse_stream_cursor : Bytes → Option (ℕ × ℕ)
parse_stream_cursor s = elim (split_once b'-' s) [
  | none ↦ none
  | some (ms, seq) ↦ pair (parse_uint (2 ^ 64) ms) (parse_uint (2 ^ 64) seq)
]

-- Rust's `b < a` on pairs
abbrev pub lt_pair : ℕ × ℕ → ℕ × ℕ → Bool
lt_pair (a, b) (c, d) = ltb a c || (a == c && ltb b d)

compare_cursors : Option (ℕ × ℕ) → Option (ℕ × ℕ) → Bytes → Bytes → Bool
compare_cursors (some a) (some b) new old = lt_pair b a
compare_cursors _ _ new old = lt_bytes old new

unfoldable pub cursor_after : Bytes → Bytes → Bool
unfolding compare_cursors
cursor_after new old = compare_cursors (parse_stream_cursor new) (parse_stream_cursor old) new old
