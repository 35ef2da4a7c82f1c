-- ===== src/Invite/Encode.antt =====
-- src/invite.rs: `encode_binary`.
use construct_tui.Prelude.{
  ℕ, ◌%◌, Bool, true, ◌&&◌, Option, none, some, [], ◌∷◌, ◌++◌, length, leb, ltb, ◌==◌,
  if◌then◌else◌,
}
use construct_tui.Prelude.Bytes.{Bytes, bytes, u32_be, u64_be}
use construct_tui.Prelude.Int.{ℤ, pos, negsuc}
use construct_tui.Prelude.Trim.{trim}
use construct_tui.Prelude.Try.{Result, ok, err, ok_or, ensure, ◌>>=◌, ◌>>◌}
use construct_tui.Invite.{
  Invite, Codecs, InviteError, bad_uuid, device_hex, device_length, sig_base64, sig_length,
  username_too_long, invalid_server, eph_base64, eph_length, negative_ts, no_ttl,
}

abbrev pub magic : Bytes
magic = bytes "CIv1"

abbrev pub flag_has_username : ℕ
flag_has_username = 1

-- `.filter(|s| !s.is_empty())`
abbrev pub non_empty : Bytes → Option Bytes
non_empty [] = none
non_empty (c ∷ s) = some (c ∷ s)

unfoldable pub name_of : Option Bytes → Option Bytes
unfolding trim
name_of none = none
name_of (some u) = non_empty (trim u)

abbrev pub is_short : Option Bytes → Bool
is_short none = true
is_short (some u) = leb (length u) 255

-- `u64::try_from(self.ts)?.to_be_bytes()`
unfoldable pub ts_part : ℤ → Result InviteError Bytes
ts_part (pos n) = ok (u64_be n)
ts_part (negsuc n) = err negative_ts

unfoldable pub un_part : Option Bytes → Bytes
un_part none = []
un_part (some u) = (length u % 256) ∷ u

unfoldable pub flags_of : Option Bytes → ℕ
flags_of none = 0
flags_of (some u) = flag_has_username

unfoldable pub ttl_part : Invite → Result InviteError Bytes
ttl_part i = if leb 5 i.v then (do ttl ← ok_or i.ttl no_ttl; ok (u32_be ttl)) else ok []

module _ (k : Codecs) where
  unfoldable pub eph_part : Invite → Result InviteError Bytes
  eph_part i =
      if leb i.v 3
      then (do
        eph ← ok_or (k.decode_base64 i.eph_key) eph_base64
        ensure (length eph == 32) eph_length
        ok eph)
      else ok []

  unfoldable pub encode_binary : Invite → Result InviteError Bytes
  unfolding name_of ts_part un_part flags_of ttl_part eph_part
  encode_binary i = do
    jti ← ok_or (k.parse_uuid i.jti) bad_uuid
    uuid ← ok_or (k.parse_uuid i.uuid) bad_uuid
    device ← ok_or (k.decode_hex i.device_id) device_hex
    ensure (length device == 16) device_length
    sig ← ok_or (k.decode_base64 i.sig) sig_base64
    ensure (length sig == 64) sig_length
    ensure (is_short (name_of i.un)) username_too_long
    ensure (ltb 0 (length i.server) && leb (length i.server) 255) invalid_server
    eph ← eph_part i
    ts ← ts_part i.ts
    ttl ← ttl_part i
    ok (
        magic
        ++ (flags_of (name_of i.un)
            ∷ i.v
            ∷ (jti
                ++ (uuid
                    ++ (device
                        ++ (eph
                            ++ (ts
                                ++ (sig
                                    ++ ((length i.server % 256)
                                        ∷ (i.server ++ (un_part (name_of i.un) ++ ttl)))))))))))
