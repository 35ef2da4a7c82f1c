-- ===== src/Invite/Decode.antt =====
-- src/invite.rs: `decode_binary` and its `Reader`, which is here the bytes that it has not read yet.
use construct_tui.Prelude.{
  ℕ, ◌*◌, ◌+◌, ◌%◌, ◌^◌, Bool, true, false, ◌&&◌, Option, none, some, [], ◌∷◌, length, take, drop,
  leb, ltb, ◌==◌, if◌then◌else◌,
}
use construct_tui.Prelude.Bytes.{Bytes, ◌=b◌, from_u32_be}
use construct_tui.Prelude.Int.{ℤ, pos, ltb_ℤ, leb_ℤ, ◌+ℤ◌, wrap_i64, as_i64}
use construct_tui.Prelude.Try.{Result, ok, err}
use construct_tui.Prelude.Utf8.{is_utf8}
use construct_tui.Invite.{
  Invite, Codecs, InviteError, min_ttl_seconds, truncated, bad_magic, server_utf8, un_utf8, no_ttl,
  trailing_bytes, invalid_timestamp, ttl_below_floor,
}
use construct_tui.Invite.Encode.{magic, flag_has_username}

abbrev pub max_future_skew : ℕ
max_future_skew = 300

abbrev pub Reader : Type 0 → Type 0
Reader A = Bytes → Result InviteError (A × Bytes)

abbrev pub continue :
    {A B : Type 0}
    → Result InviteError (A × Bytes)
    → (A → Reader B)
    → Result InviteError (B × Bytes)
continue (ok (a, s)) f = f a s
continue (err e) f = err e

infixl 5 ◌>>=◌ ◌>>◌
abbrev pub ◌>>=◌ : {A B : Type 0} → Reader A → (A → Reader B) → Reader B
◌>>=◌ m f s = continue (m s) f

abbrev pub ◌>>◌ : {A B : Type 0} → Reader A → Reader B → Reader B
m >> n = m >>= λ _. n

abbrev pub pure : {A : Type 0} → A → Reader A
pure a s = ok (a, s)

abbrev pub ensure : Bool → InviteError → Reader (Unit {0})
ensure true e = pure tt
ensure false e = λ s. err e

-- `Reader::take`
unfoldable pub take_bytes : ℕ → Reader Bytes
take_bytes n s = if leb n (length s) then ok (take n s, drop n s) else err truncated

abbrev pub head : Bytes → ℕ
head [] = 0
head (b ∷ s) = b

-- `Reader::u8`
unfoldable pub take_u8 : Reader ℕ
take_u8 = do bs ← take_bytes 1; pure (head bs)

unfoldable pub at_end : Bytes → Bool
at_end s = length s == 0

-- `i64::from_be_bytes`
abbrev pub read_i64 : Bytes → ℤ
read_i64 (a ∷ b ∷ c ∷ d ∷ e ∷ f ∷ g ∷ h ∷ []) =
    as_i64 (from_u32_be a b c d * 2 ^ 32 + from_u32_be e f g h)
read_i64 _ = pos 0

abbrev pub read_u32 : Bytes → ℕ
read_u32 (a ∷ b ∷ c ∷ d ∷ []) = from_u32_be a b c d
read_u32 _ = 0

unfoldable pub is_timely : ℤ → ℤ → Bool
is_timely now ts = ltb_ℤ (pos 0) ts && leb_ℤ ts (wrap_i64 (now +ℤ pos max_future_skew))

-- `String::from_utf8`
unfoldable pub take_text : ℕ → InviteError → Reader Bytes
unfolding take_bytes
take_text n e = do text ← take_bytes n; ensure (is_utf8 text) e; pure text

unfoldable pub take_un : ℕ → Reader (Option Bytes)
unfolding take_u8 take_text
take_un flags =
    if flags % 2 == flag_has_username
    then (do n ← take_u8; un ← take_text n un_utf8; pure (some un))
    else pure none

unfoldable pub take_ttl : ℕ → Reader (Option ℕ)
unfolding take_bytes
take_ttl v = if leb 5 v then (do ttl ← take_bytes 4; pure (some (read_u32 ttl))) else pure none

unfoldable pub ensure_floor : ℕ → Option ℕ → Reader (Unit {0})
ensure_floor v none = ensure (ltb v 5) no_ttl
ensure_floor v (some t) =
    if leb 5 v then ensure (leb min_ttl_seconds t) (ttl_below_floor t) else pure tt

module _ (k : Codecs) where
  unfoldable pub take_eph : ℕ → Reader Bytes
  unfolding take_bytes
  take_eph v = if leb v 3 then (do eph ← take_bytes 32; pure (k.encode_base64 eph)) else pure []

  unfoldable pub read_invite : ℤ → Reader Invite
  unfolding take_bytes take_u8 take_text take_un take_ttl take_eph at_end is_timely ensure_floor
  read_invite now = do
    found ← take_bytes 4
    ensure (found =b magic) bad_magic
    flags ← take_u8
    v ← take_u8
    jti ← take_bytes 16
    uuid ← take_bytes 16
    device ← take_bytes 16
    eph_key ← take_eph v
    ts_bytes ← take_bytes 8
    sig ← take_bytes 64
    server_len ← take_u8
    server ← take_text server_len server_utf8
    un ← take_un flags
    ttl ← take_ttl v
    rest ← (λ s. ok (s, s))
    ensure (at_end rest) trailing_bytes
    ensure (is_timely now (read_i64 ts_bytes)) invalid_timestamp
    ensure_floor v ttl
    pure (record {
      v = v;
      jti = k.show_uuid jti;
      uuid = k.show_uuid uuid;
      device_id = k.encode_hex device;
      server = server;
      eph_key = eph_key;
      ts = read_i64 ts_bytes;
      sig = k.encode_base64 sig;
      un = un;
      ttl = ttl;
    })

  unfoldable pub decode_binary : ℤ → Bytes → Result InviteError Invite
  unfolding read_invite
  decode_binary now input = elim (read_invite now input) [ err e ↦ err e | ok (i, s) ↦ ok i ]
