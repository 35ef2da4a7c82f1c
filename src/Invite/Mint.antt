-- ===== src/Invite/Mint.antt =====
-- src/invite.rs: `normalize_server`, `mint` and `generate_invite_qr`. The signatures are a parameter.
use construct_tui.Prelude.{
  ℕ, ◌-◌, Bool, true, ◌&&◌, ◌||◌, Option, none, some, [], ◌∷◌, length, drop, take, leb, ◌==◌,
  if◌then◌else◌,
}
use construct_tui.Prelude.Bytes.{Bytes, bytes, ◌=b◌}
use construct_tui.Prelude.Int.{ℤ}
use construct_tui.Prelude.Trim.{trim, trim_start_matches}
use construct_tui.Prelude.Try.{Result, ok, ok_or, ensure, ◌>>=◌, ◌>>◌}
use construct_tui.Invite.{
  Invite, Codecs, InviteError, current_version, qr_ttl_seconds, min_ttl_seconds, canonical_string,
  ttl_below_floor, user_id, device_id_hex, signing_key_hex, signing_key_length, self_verify,
}
use construct_tui.Invite.Encode.{name_of}
use construct_tui.Invite.Link.{https_link}

-- `trim_end_matches('/')`
unfoldable pub trim_slashes : Bytes → Bytes
trim_slashes [] = []
trim_slashes (c ∷ s) =
    let rest = trim_slashes s in
    elim rest [ [] ↦ if c == b'/' then [] else c ∷ [] | d ∷ ds ↦ c ∷ d ∷ ds ]

unfoldable pub strip_suffix : Bytes → Bytes → Bytes
strip_suffix p s =
    if leb (length p) (length s) && drop (length s - length p) s =b p
    then take (length s - length p) s
    else s

unfoldable pub normalize_server : Bytes → Bytes
unfolding trim trim_start_matches trim_slashes strip_suffix
normalize_server server_url = strip_suffix (bytes ":443") (
    trim_slashes (
      trim_start_matches (bytes "http://")
        (trim_start_matches (bytes "https://") (trim server_url))))

-- `is_ascii_hexdigit`
abbrev pub is_hexdigit : ℕ → Bool
is_hexdigit c = leb b'0' c && leb c b'9' || (leb b'a' c && leb c b'f' || leb b'A' c && leb c b'F')

unfoldable pub all_hexdigits : Bytes → Bool
all_hexdigits [] = true
all_hexdigits (c ∷ s) = is_hexdigit c && all_hexdigits s

-- Ed25519, over the 32 bytes of the secret key.
pub record Signing : Type 0 where
  pub sign : Bytes → Bytes → Bytes
  pub verify : Bytes → Bytes → Bytes → Bool

module _ (k : Codecs) (g : Signing) where
  abbrev pub signed : Invite → Bytes → Bytes → Result InviteError Invite
  signed unsigned canonical key = do
    ensure (length key == 32) signing_key_length
    ensure (g.verify key canonical (g.sign key canonical)) self_verify
    ok (record unsigned { sig = k.encode_base64 (g.sign key canonical) })

  abbrev pub unsigned_invite : ℤ → Bytes → Bytes → Bytes → Bytes → Option Bytes → ℕ → Invite
  unsigned_invite ts new_id uuid device server_url username ttl = record {
    v = current_version;
    jti = new_id;
    uuid = uuid;
    device_id = device;
    server = normalize_server server_url;
    eph_key = [];
    ts = ts;
    sig = [];
    un = name_of username;
    ttl = some ttl;
  }

  -- The first arguments are the clock and the new random id.
  unfoldable pub mint :
      ℤ → Bytes → Bytes → Bytes → Bytes → Bytes → Option Bytes → ℕ → Result InviteError Invite
  unfolding normalize_server name_of canonical_string all_hexdigits
  mint now new_id id device_id server_url signing_key username ttl = do
    ensure (leb min_ttl_seconds ttl) (ttl_below_floor ttl)
    parsed ← ok_or (k.parse_uuid id) user_id
    ensure (length (k.to_lowercase device_id) == 32 && all_hexdigits (k.to_lowercase device_id))
        device_id_hex
    canonical ← canonical_string k (
        unsigned_invite now new_id (k.to_lowercase (k.show_uuid parsed)) (k.to_lowercase device_id)
          server_url username ttl)
    key ← ok_or (k.decode_hex signing_key) signing_key_hex
    signed
        (unsigned_invite now new_id (k.to_lowercase (k.show_uuid parsed)) (k.to_lowercase device_id)
          server_url username ttl)
        canonical key

  unfoldable pub generate_invite_qr :
      ℤ → Bytes → Bytes → Bytes → Bytes → Bytes → Result InviteError Bytes
  unfolding mint https_link
  generate_invite_qr now new_id id device_id server_url signing_key = do
    i ← mint now new_id id device_id server_url signing_key none qr_ttl_seconds
    https_link k i
