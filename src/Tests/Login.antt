-- ===== src/Tests/Login.antt =====
-- A registration, a device link and a restored session, with a server that answers every call.
use construct_tui.Prelude.{ℕ, ◌++◌}
use construct_tui.Prelude.{if◌then◌else◌, ◌≡◌, refl, true, none, some, [], ◌∷◌, map}
use construct_tui.Prelude.Decimal.{show_int}
use construct_tui.Prelude.Bytes.{Bytes, bytes, ◌=b◌}
use construct_tui.Prelude.Dict.{lookup}
use construct_tui.Prelude.Int.{pos}
use construct_tui.Prelude.Utf8.{is_utf8}
use construct_tui.Prelude.Try.{ok, err}
use construct_tui.App.Events.{index}
use construct_tui.Auth.{
  AuthResult, Crypto, KeyPair, DeviceKeys, register_new_device, new_session, granted, solved,
  challenged, register_with, private_keys, signing_key,
}
use construct_tui.Auth.Saved.{
  with_tokens, updated, authenticate_saved_session, at_time, signed_in, try_restore_session,
}
use construct_tui.Auth.Granted.{login_of, authenticate_saved_session-register_new_device}
use construct_tui.Auth.Restore.{login_call, session_with, load_session-try_restore_session}
use construct_tui.Config.{Session, Libs}
use construct_tui.Config.Fs.{
  Disk, session_path, config_dir, migrate, read_session_file, write_session_file,
}
use construct_tui.Config.Plain.{load_session, save_session}
use construct_tui.Grpc.Auth.{
  AuthTokens, AuthCodec, tokens_from, device_public_keys, get_pow_challenge, register_device,
  authenticate_device,
}
use construct_tui.Grpc.Client.{Network}
use construct_tui.Grpc.Client.Unary.{
  Outcome, unary, unary_once, ensure, do_unary, is_transport_error, send_h2_data, await_capacity,
  receive_body, check_http, message_of,
}
use construct_tui.Grpc.Client.Status.{check_grpc_status, grpc_code, grpc_message, to_str}
use construct_tui.Grpc.Framing.{encode_frame, decode_frame}
use construct_tui.Grpc.Service.{rpc}
use construct_tui.Tests.Client.{answer, client0}
use construct_tui.Tests.Config.{session0, libs0, disk1}

abbrev server : Network
server = record { connect = λ calls. ok 2; exchange = λ calls. answer }

abbrev tokens0 : AuthTokens
tokens0 = record {
  user_id = bytes "bob";
  access_token = bytes "at2";
  refresh_token = bytes "rt2";
  expires_at = pos 2000;
}

abbrev codec : AuthCodec
codec = record {
  pow_challenge_request = [];
  pow_challenge_reply = λ b. ok (bytes "c", 8);
  register_request = λ u d p s. [];
  authenticate_request = λ d t s. [];
  confirm_link_request = λ l d p. [];
  tokens_reply = λ b. ok (some tokens0);
  refresh_request = λ r d. [];
  refresh_reply = λ b. err [];
  accept_invite_request = λ i. [];
  accept_invite_reply = λ b. err [];
}

abbrev crypto : Crypto
crypto = record {
  encode_hex = λ b. b;
  decode_hex = λ b. some b;
  sign = λ k m. m;
  prologue = bytes "p";
  derive_device_id = λ b. b;
  encode_private_keys = λ p. ok [];
  compute_pow = λ c d. some (3, bytes "h");
}

abbrev pair : KeyPair
pair = record { public_key = bytes "key"; private_key = bytes "0123456789abcdef0123456789abcdef" }

abbrev keys0 : DeviceKeys
keys0 = record { signing_pair = pair; identity_pair = pair; spk_pair = pair }

abbrev granted0 : AuthResult
granted0 = record {
  user_id = bytes "bob";
  device_id = bytes "key";
  access_token = bytes "at2";
  session = some (new_session crypto keys0 tokens0);
}

registered : (register_new_device crypto server codec none keys0 client0 []).0 ≡ (
  ok granted0,
  (register_new_device crypto server codec none keys0 client0 []).0.1,
  (register_new_device crypto server codec none keys0 client0 []).0.2,
)
unfolding register_new_device register_with challenged solved granted private_keys
    device_public_keys get_pow_challenge register_device tokens_from rpc unary unary_once ensure
    do_unary is_transport_error send_h2_data await_capacity receive_body check_http message_of
    check_grpc_status grpc_code grpc_message to_str lookup encode_frame decode_frame ◌=b◌
registered = refl

-- The call of a later start, and what the client and its calls are after it.
abbrev call0 : Outcome AuthTokens
call0 =
    authenticate_device server codec (bytes "key") (pos 7)
      (crypto.sign pair.private_key (bytes "key" ++ show_int (pos 7)))
      (record client0 { device_id = some (bytes "key") }) []

answered0 : call0 ≡ (ok tokens0, call0.1, call0.2)
unfolding authenticate_device tokens_from rpc unary unary_once ensure do_unary is_transport_error
    send_h2_data await_capacity receive_body check_http message_of check_grpc_status grpc_code
    grpc_message to_str lookup encode_frame decode_frame ◌=b◌
answered0 = refl

authenticate_saved_session-register_new_device_example :
    (map index (register_new_device crypto server codec none keys0 client0 []).1
      ≡ 0 ∷ 1 ∷ 2 ∷ 3 ∷ 4 ∷ 5 ∷ 6 ∷ [])
    × ((s : Session) × (granted0.session ≡ some s)
        × (authenticate_saved_session crypto server codec (some 7) s client0 []
            ≡ (ok (login_of crypto (λ b. refl) server codec keys0 s tokens0), call0.1, call0.2)))
authenticate_saved_session-register_new_device_example =
    authenticate_saved_session-register_new_device crypto (λ b. refl) server codec none keys0
      granted0 client0 (register_new_device crypto server codec none keys0 client0 []).0.1 client0
      call0.1 [] (register_new_device crypto server codec none keys0 client0 []).0.2 [] call0.2 7
      tokens0 refl registered answered0

-- The session on disk, with a key of 32 bytes.
abbrev stored : Session
stored = record session0 { signing_key_hex = pair.private_key }

abbrev libs1 : Libs
libs1 = record libs0 {
  session_json_pretty = λ s. s.access_token;
  parse_session = λ t. if t =b bytes "at2" then some (with_tokens stored tokens0) else some stored;
}

abbrev disk_before : Disk
disk_before = record disk1 { session_enc = some (bytes "at") }

abbrev disk_after : Disk
disk_after = record disk1 { session_enc = some (bytes "at2") }

abbrev restored0 : AuthResult
restored0 = record {
  user_id = bytes "bob";
  device_id = bytes "dev";
  access_token = bytes "at2";
  session = some (with_tokens stored tokens0);
}

restored : try_restore_session crypto server codec (some 7) libs1 disk_before client0 [] ≡ (
  (
    ok (some restored0),
    (try_restore_session crypto server codec (some 7) libs1 disk_before client0 []).0.1,
    (try_restore_session crypto server codec (some 7) libs1 disk_before client0 []).0.2,
  ),
  disk_after,
)
unfolding try_restore_session load_session save_session session_path config_dir migrate
    read_session_file write_session_file is_utf8 authenticate_saved_session at_time signing_key
    signed_in with_tokens updated authenticate_device tokens_from rpc unary unary_once ensure
    do_unary is_transport_error send_h2_data await_capacity receive_body check_http message_of
    check_grpc_status grpc_code grpc_message to_str lookup encode_frame decode_frame ◌=b◌
restored = refl

readable :
    (s : Session)
    → restored0.session ≡ some s
    → (libs1.parse_session (libs1.session_json_pretty s) ≡ some s)
      × (is_utf8 (libs1.session_json_pretty s) ≡ true)
unfolding is_utf8 with_tokens ◌=b◌
readable s e = (cc, cc)

load_session-try_restore_session_example :
    let done = (try_restore_session crypto server codec (some 7) libs1 disk_before client0 []).0 in
    (old : Session) × ((load_session libs1 disk_before).0 ≡ ok (some old))
    × ((tokens : AuthTokens) × ((key : Bytes) × (seconds : ℕ) × (some 7 ≡ some seconds)
          × (crypto.decode_hex old.signing_key_hex ≡ some key)
          × (login_call crypto server codec old key seconds client0 []
              ≡ (ok tokens, done.1, done.2)))
        × (bytes "at2" ≡ tokens.access_token)
        × (bytes "bob" ≡ tokens.user_id)
        × (restored0.session ≡ some (session_with old tokens))
        × (load_session libs1 disk_after ≡ (ok (some (session_with old tokens)), disk_after)))
load_session-try_restore_session_example =
    load_session-try_restore_session libs1 crypto server codec (some 7) disk_before disk_after
      client0 (try_restore_session crypto server codec (some 7) libs1 disk_before client0 []).0.1 []
      (try_restore_session crypto server codec (some 7) libs1 disk_before client0 []).0.2 restored0
      readable restored refl
