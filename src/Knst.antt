-- ===== src/Knst.antt =====
-- src/knst.rs: the plaintext frame of a message. The numbers of the content types, the protobuf
-- payloads and the UUID parser are generated or of other crates, so they are parameters.
pub mod Text
use construct_tui.Prelude.{
  ℕ, zero, suc, ◌%◌, ◌^◌, Bool, true, false, ◌&&◌, Option, none, some, List, [], ◌∷◌, ◌++◌, length,
  take, drop, min, leb, ◌==◌, not, if◌then◌else◌,
}
use construct_tui.Prelude.Bytes.{Bytes, bytes, starts_with, u16_be, u32_be, from_u32_be}
use construct_tui.Prelude.Utf8.{from_utf8_lossy}

-- The values of `ContentType`, each a u8.
pub record ContentTypes : Type 0 where
  pub e2ee_signal : ℕ
  pub call_signal : ℕ
  pub heartbeat : ℕ
  pub delivery_receipt : ℕ
  pub session_reset : ℕ
  pub sender_sync : ℕ
  pub session_reset_init : ℕ
  pub session_ping : ℕ
  pub session_ready : ℕ

-- `Uuid::parse_str` with its sixteen bytes, the encoders of `MessageContent` and `SessionControl`,
-- and the decoder of `MessageContent`, with the text when it has one.
pub record Codecs : Type 0 where
  pub parse_uuid : Bytes → Option Bytes
  pub encode_text_content : Bytes → Bytes
  pub encode_ping : Bytes → Bytes
  pub decode_content : Bytes → Option (Option Bytes)

pub data Disposition : Type 0 where
  transcript_incoming transcript_own_device silent_control not_carried : Disposition

abbrev pub magic : Bytes
magic = bytes "KNST"

abbrev pub version : ℕ
version = 1

abbrev pub header_size : ℕ
header_size = 30

abbrev pub nil_uuid : Bytes
nil_uuid = 0 ∷ 0 ∷ 0 ∷ 0 ∷ 0 ∷ 0 ∷ 0 ∷ 0 ∷ 0 ∷ 0 ∷ 0 ∷ 0 ∷ 0 ∷ 0 ∷ 0 ∷ 0 ∷ []

abbrev pub byte_at : ℕ → Bytes → ℕ
byte_at i [] = 0
byte_at zero (b ∷ bs) = b
byte_at (suc i) (b ∷ bs) = byte_at i bs

abbrev pub any_of : ℕ → List ℕ → Bool
any_of n [] = false
any_of n (m ∷ ms) = if n == m then true else any_of n ms

abbrev pub is_silent : Disposition → Bool
is_silent silent_control = true
is_silent _ = false

unfoldable pub is_frame : Bytes → Bool
is_frame d = leb header_size (length d) && (starts_with d magic && byte_at 4 d == version)

module _ (t : ContentTypes) where
  unfoldable pub disposition : ℕ → Disposition
  disposition content_type =
      if content_type == t.e2ee_signal
      then transcript_incoming
      else if content_type == t.sender_sync
      then transcript_own_device
      else if any_of content_type (
          t.call_signal ∷ t.heartbeat ∷ t.delivery_receipt ∷ t.session_reset ∷ t.session_reset_init
          ∷ t.session_ping ∷ t.session_ready ∷ [])
      then silent_control
      else not_carried

  unfoldable pub is_silent_type : ℕ → Bool
  is_silent_type content_type = is_silent (disposition content_type)

  module _ (k : Codecs) where
    abbrev pub uuid_or_nil : Bytes → Bytes
    uuid_or_nil message_id = elim (k.parse_uuid message_id) [ none ↦ nil_uuid | some u ↦ u ]

    unfoldable pub frame_whole : Bytes → ℕ → Bytes → Bytes
    unfolding u16_be u32_be
    frame_whole payload content_type message_id =
        magic
        ++ (version
            ∷ content_type
            ∷ (uuid_or_nil message_id
                ++ (u16_be 0 ++ (u16_be 1 ++ (u32_be (length payload % 2 ^ 32) ++ payload)))))

    unfoldable pub encode_text : Bytes → Bytes → Bytes
    unfolding frame_whole
    encode_text text message_id = frame_whole (k.encode_text_content text) t.e2ee_signal message_id

    unfoldable pub encode_session_ping : Bytes → Bytes
    unfolding frame_whole
    encode_session_ping message_id =
        frame_whole (k.encode_ping message_id) t.session_ping message_id

    -- The payload's text, or the payload itself read as UTF-8.
    unfoldable pub text_of : Bytes → Bytes
    text_of payload = elim (k.decode_content payload) [
      | none ↦ from_utf8_lossy payload
      | some none ↦ from_utf8_lossy payload
      | some (some text) ↦ text
    ]

    unfoldable pub decode_text : Bytes → Bytes
    unfolding is_frame is_silent_type text_of
    decode_text plaintext =
        let payload_len =
          from_u32_be (byte_at 26 plaintext) (byte_at 27 plaintext) (byte_at 28 plaintext)
            (byte_at 29 plaintext) in
        let raw = drop header_size plaintext in
        if not (is_frame plaintext)
        then from_utf8_lossy plaintext
        else if is_silent_type (byte_at 5 plaintext)
        then []
        else text_of (take (min payload_len (length raw)) raw)
