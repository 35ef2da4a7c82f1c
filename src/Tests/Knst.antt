-- ===== src/Tests/Knst.antt =====
-- Frames of messages at concrete inputs.
use construct_tui.Prelude.{ℕ, ◌<◌, ◌≡◌, ◌≢◌, refl, true, false, some, [], length, arith}
use construct_tui.Prelude.Bytes.{Bytes, bytes, starts_with}
use construct_tui.Prelude.Utf8.{is_utf8}
use construct_tui.Knst.{
  ContentTypes, Codecs, nil_uuid, is_frame, encode_text, encode_session_ping, decode_text,
}
use construct_tui.Knst.Text.{decode_text-encode}

abbrev pub types : ContentTypes
types = record {
  e2ee_signal = 1;
  call_signal = 12;
  heartbeat = 13;
  delivery_receipt = 14;
  session_reset = 21;
  sender_sync = 23;
  session_reset_init = 24;
  session_ping = 25;
  session_ready = 26;
}

abbrev pub plain : Codecs
plain = record {
  parse_uuid = λ id. some nil_uuid;
  encode_text_content = λ text. text;
  encode_ping = λ id. [];
  decode_content = λ payload. some (some payload);
}

sixteen : (id u : Bytes) → plain.parse_uuid id ≡ some u → length u ≡ 16
sixteen id u e = ground arith

ping_ne : (n : ℕ) → n < 25 → types.session_ping ≢ n
ping_ne n h e = omega arith

decode_text-encode_example :
    (decode_text types plain (encode_text types plain (bytes "hi") (bytes "id")) ≡ bytes "hi")
    × (decode_text types plain (encode_session_ping types plain (bytes "id")) ≡ [])
decode_text-encode_example =
    decode_text-encode types plain sixteen (bytes "hi") (bytes "id") refl (omega arith)
      (omega arith) (ping_ne 1 (omega arith)) (ping_ne 23 (omega arith))

bare : is_frame (bytes "hi") ≡ false
unfolding is_frame starts_with
bare = refl

bare_utf8 : is_utf8 (bytes "hi") ≡ true
unfolding is_utf8
bare_utf8 = refl
