-- ===== src/Storage/Cursor/Order.antt =====
-- src/storage.rs, `cursor_after`: well-formed cursors and their order.
use construct_tui.Prelude.{ℕ, ◌≡◌, true, false, some, arith}
use construct_tui.Prelude.Bytes.{Bytes}
use construct_tui.Prelude.Utf8.{is_utf8}
use construct_tui.Storage.Cursor.{parse_stream_cursor, lt_pair, cursor_after}

-- A Rust string that parses as `<millis>-<seq>`.
pub record IsCursor (c : Bytes) : Type 0 where
  pub millis : ℕ
  pub seq : ℕ
  pub parses : parse_stream_cursor c ≡ some (millis, seq)
  pub valid : is_utf8 c ≡ true

abbrev pub value : {c : Bytes} → IsCursor c → ℕ × ℕ
value k = (k.millis, k.seq)

pub cursor_after-value :
    (a b : Bytes) (h : IsCursor a) (k : IsCursor b) → cursor_after a b ≡ lt_pair (value k) (value h)
unfolding cursor_after
cursor_after-value a b h k = rw (h.parses, k.parses)

pub not_after_refl : (a : Bytes) → IsCursor a → cursor_after a a ≡ false
not_after_refl a h = ground (arith, cursor_after-value a a h h)

pub not_after_trans :
    (a b c : Bytes)
    → IsCursor a
    → IsCursor b
    → IsCursor c
    → cursor_after a b ≡ false
    → cursor_after b c ≡ false
    → cursor_after a c ≡ false
not_after_trans a b c ha hb hc p q = ground (
  arith,
  cursor_after-value a b ha hb,
  cursor_after-value b c hb hc,
  cursor_after-value a c ha hc,
)

pub after→not_after :
    (a b : Bytes) → IsCursor a → IsCursor b → cursor_after a b ≡ true → cursor_after b a ≡ false
after→not_after a b ha hb p =
    ground (arith, cursor_after-value a b ha hb, cursor_after-value b a hb ha)
