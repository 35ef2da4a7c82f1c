-- ===== src/Tests/Invite.antt =====
-- An invite with codecs that change nothing.
use construct_tui.Prelude.{◌≡◌, refl, none, some, ◌++◌, arith, ℕ, ◌≢◌, ◌≤◌, true, []}
use construct_tui.Prelude.Bytes.{Bytes, bytes, starts_with, ◌=b◌}
use construct_tui.Prelude.Int.{pos}
use construct_tui.Prelude.Trim.{trim, trim_start, trim_end}
use construct_tui.Prelude.Try.{ok}
use construct_tui.Prelude.Utf8.{is_utf8}
use construct_tui.Invite.{Invite, Codecs, canonical_string}
use construct_tui.Invite.Encode.{encode_binary, name_of}
use construct_tui.Invite.Decode.{is_timely, decode_binary}
use construct_tui.Invite.RoundTrip.{
  IsCodec, Parts, IsParts, invite_of, wire, decode_binary-encode_binary,
}
use construct_tui.Invite.Link.{https_link, parse_invite}
use construct_tui.Prelude.Trim.{trim_start_matches}
use construct_tui.Invite.Mint.{
  Signing, normalize_server, trim_slashes, strip_suffix, all_hexdigits, mint,
}
use construct_tui.Invite.Signed.{parse_invite-https_link, mint_verifies}

abbrev plain : Codecs
plain = record {
  parse_uuid = λ s. some s;
  show_uuid = λ b. b;
  decode_hex = λ s. some s;
  encode_hex = λ b. b;
  decode_base64 = λ s. some s;
  encode_base64 = λ b. b;
  decode_base64url = λ s. some s;
  encode_base64url = λ b. b;
  to_lowercase = λ s. s;
  from_json = λ s. none;
}

plain-IsCodec : IsCodec plain
plain-IsCodec = record { uuid_law = λ b h. refl; hex_law = λ b h. refl; base64_law = λ n b h. refl }

abbrev block16 : Bytes
block16 = bytes "0123456789abcdef"

abbrev block32 : Bytes
block32 = block16 ++ block16

abbrev parts : Parts
parts = record {
  v = 5;
  jti = block16;
  uuid = block16;
  device = block16;
  eph = block32;
  ts = 1000;
  sig = block32 ++ block32;
  server = bytes "konstruct.cc";
  un = some (bytes "bob");
  ttl = 300;
}

parts-IsParts : IsParts (pos 1000) parts
unfolding is_timely is_utf8 trim trim_start trim_end
parts-IsParts = record {
  jti_block = (refl, omega arith);
  uuid_block = (refl, omega arith);
  device_block = (refl, omega arith);
  eph_block = (refl, omega arith);
  sig_block = (refl, omega arith);
  ts_bound = omega arith;
  timely = refl;
  server_bound = (omega arith, omega arith);
  server_valid = refl;
  un_valid = (refl, omega arith, omega arith, refl);
  ttl_bound = (omega arith, omega arith);
}

decode_binary-encode_binary_example :
    (out : Bytes) × (encode_binary plain (invite_of plain parts) ≡ ok out)
    × (decode_binary plain (pos 1000) out ≡ ok (invite_of plain parts))
decode_binary-encode_binary_example =
    decode_binary-encode_binary plain plain-IsCodec (pos 1000) parts parts-IsParts

-- A codec of links for this one invite.
abbrev linked : Codecs
linked = record plain {
  encode_base64url = λ b. bytes "x";
  decode_base64url = λ s. some (wire plain plain-IsCodec parts);
}

linked-IsCodec : IsCodec linked
linked-IsCodec = record {
  uuid_law = λ b h. refl;
  hex_law = λ b h. refl;
  base64_law = λ n b h. refl;
}

x_ne : ◌≢◌ {A = ℕ} b'x' b'&'
x_ne e = omega arith

parse_invite-https_link_example :
    (link : Bytes) × (https_link linked (invite_of linked parts) ≡ ok link)
    × (parse_invite linked (pos 1000) link ≡ ok (invite_of linked parts))
parse_invite-https_link_example =
    parse_invite-https_link linked linked-IsCodec (pos 1000) parts parts-IsParts refl
      (((omega arith, omega arith), x_ne), tt)

abbrev signing : Signing
signing = record { sign = λ key text. key; verify = λ key text sig. true }

abbrev minted : Invite
minted = record {
  v = 5;
  jti = bytes "j";
  uuid = bytes "u";
  device_id = block32;
  server = bytes "s";
  eph_key = [];
  ts = pos 7;
  sig = block32;
  un = none;
  ttl = some 300;
}

mint_run :
    mint plain signing (pos 7) (bytes "j") (bytes "u") block32 (bytes "https://s/") block32 none 300
    ≡ ok minted
unfolding mint normalize_server trim trim_start trim_end trim_start_matches trim_slashes
    strip_suffix starts_with all_hexdigits canonical_string name_of ◌=b◌
mint_run = refl

mint_verifies_example :
    (key text : Bytes) × (plain.decode_hex block32 ≡ some key)
    × (canonical_string plain minted ≡ ok text)
    × (minted.sig ≡ plain.encode_base64 (signing.sign key text))
    × (signing.verify key text (signing.sign key text) ≡ true)
    × (minted.ttl ≡ some 300)
    × (60 ≤ 300)
    × (minted.ts ≡ pos 7)
    × (minted.jti ≡ bytes "j")
mint_verifies_example =
    mint_verifies plain signing (pos 7) (bytes "j") (bytes "u") block32 (bytes "https://s/") block32
      none 300 minted mint_run
