-- ===== src/Invite.antt =====
-- src/invite.rs: the contact invite, its signed text, its expiry and its minting. Base64, hex, UUIDs,
-- JSON, lower case, the clock and the signatures belong to other crates or the system: parameters.
pub mod Encode
pub mod Decode
pub mod RoundTrip
pub mod Link
pub mod Mint
pub mod Signed
use construct_tui.Prelude.{
  ℕ, Option, none, some, List, [], ◌∷◌, ◌++◌, min, ltb, ◌==◌, if◌then◌else◌, Bool,
}
use construct_tui.Prelude.Bytes.{Bytes}
use construct_tui.Prelude.Decimal.{show_uint, show_int}
use construct_tui.Prelude.Int.{ℤ, pos, ltb_ℤ, ◌+ℤ◌, wrap_i64}
use construct_tui.Prelude.Try.{Result, ok, err, ◌>>=◌, ok_or}

pub record Invite : Type 0 where
  pub v : ℕ
  pub jti : Bytes
  pub uuid : Bytes
  pub device_id : Bytes
  pub server : Bytes
  pub eph_key : Bytes
  pub ts : ℤ
  pub sig : Bytes
  pub un : Option Bytes
  pub ttl : Option ℕ

-- The functions of the crates; a decoder returns none where the crate returns an error.
pub record Codecs : Type 0 where
  pub parse_uuid : Bytes → Option Bytes
  pub show_uuid : Bytes → Bytes
  pub decode_hex : Bytes → Option Bytes
  pub encode_hex : Bytes → Bytes
  pub decode_base64 : Bytes → Option Bytes
  pub encode_base64 : Bytes → Bytes
  pub decode_base64url : Bytes → Option Bytes
  pub encode_base64url : Bytes → Bytes
  pub to_lowercase : Bytes → Bytes
  pub from_json : Bytes → Option Invite

-- One constructor per message of the source.
pub data InviteError : Type 0 where
  no_ttl bad_uuid device_hex device_length sig_base64 sig_length username_too_long : InviteError
  invalid_server eph_base64 eph_length negative_ts truncated bad_magic server_utf8 : InviteError
  un_utf8 trailing_bytes invalid_timestamp bad_base64 unrecognized user_id : InviteError
  device_id_hex signing_key_hex signing_key_length self_verify : InviteError
  unsupported_version ttl_below_floor : ℕ → InviteError

abbrev pub current_version : ℕ
current_version = 5

abbrev pub qr_ttl_seconds : ℕ
qr_ttl_seconds = 300

abbrev pub link_ttl_seconds : ℕ
link_ttl_seconds = 43200

abbrev pub min_ttl_seconds : ℕ
min_ttl_seconds = 60

-- `self.un.as_deref().unwrap_or("")`
abbrev pub or_empty : Option Bytes → Bytes
or_empty none = []
or_empty (some u) = u

-- The arguments of `format!`, with a bar between each two.
abbrev pub bar_join : List Bytes → Bytes
bar_join [] = []
bar_join (f ∷ []) = f
bar_join (f ∷ g ∷ fs) = f ++ (b'|' ∷ bar_join (g ∷ fs))

module _ (k : Codecs) where
  unfoldable pub canonical_string : Invite → Result InviteError Bytes
  canonical_string i =
      let v = show_uint i.v in
      let jti = k.to_lowercase i.jti in
      let uuid = k.to_lowercase i.uuid in
      let ts = show_int i.ts in
      if i.v == 1
      then ok (bar_join (v ∷ jti ∷ uuid ∷ i.server ∷ i.eph_key ∷ ts ∷ []))
      else if i.v == 2
      then ok (bar_join (v ∷ jti ∷ uuid ∷ i.device_id ∷ i.server ∷ i.eph_key ∷ ts ∷ []))
      else if i.v == 3
      then ok
          (bar_join (v ∷ jti ∷ uuid ∷ i.device_id ∷ i.server ∷ i.eph_key ∷ ts ∷ or_empty i.un ∷ []))
      else if i.v == 4
      then ok (bar_join (v ∷ jti ∷ uuid ∷ i.device_id ∷ i.server ∷ ts ∷ or_empty i.un ∷ []))
      else if i.v == 5
      then (do
        ttl ← ok_or i.ttl no_ttl
        ok (
            bar_join
              (v ∷ jti ∷ uuid ∷ i.device_id ∷ i.server ∷ ts ∷ or_empty i.un ∷ show_uint ttl ∷ [])))
      else err (unsupported_version i.v)

unfoldable pub effective_ttl : Invite → ℕ
effective_ttl i = elim i.ttl [ none ↦ link_ttl_seconds | some t ↦ min t link_ttl_seconds ]

unfoldable pub is_expired : Invite → ℤ → Bool
unfolding effective_ttl
is_expired i now = ltb_ℤ (wrap_i64 (i.ts +ℤ pos (effective_ttl i))) now
