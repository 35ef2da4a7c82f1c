-- ===== src/App/Relay.antt =====
-- src/app.rs: from the events of the stream to the task of the core and to the screen. The protobuf
-- decoders, the unsealing of a sender and the unpacking of a payload are the record `Opener`.
use construct_tui.Prelude.{
  ℕ, ◌≡◌, refl, Bool, true, false, ◌||◌, Option, none, some, List, [], ◌∷◌, ◌++◌, ltb, ◌==◌, not,
  All, if◌then◌else◌, arith,
}
use construct_tui.Prelude.Bytes.{Bytes, bytes, ◌=b◌}
use construct_tui.Prelude.Decimal.{show_int}
use construct_tui.Prelude.Int.{ℤ, pos, negsuc}
use construct_tui.Prelude.Try.{Result, ok, err, ◌>>=◌, ◌>>◌, ensure}
use construct_tui.Knst.{ContentTypes}
use construct_tui.Streaming.{
  StreamEvent, message, ack, heartbeat, stream_error, connected, disconnected, reconnecting,
  auth_required,
}
use construct_tui.Orchestrator.{
  Event, message_received, ack_received, network_reconnected, BridgeEvent, stream_status,
  stream_reconnecting, error,
}
use construct_tui.Orchestrator.Replay.{StreamMessageContext}
pub mod Context

pub data MessageIdType : Type 0 where
  message_id group_message_id : Bytes → MessageIdType

-- The fields of the generated `Envelope` that are read, `sealed_sender` with its inner bytes.
pub record StreamEnvelope : Type 0 where
  pub message_id_type : Option MessageIdType
  pub sender : Option Bytes
  pub sealed_sender : Option Bytes
  pub encrypted_payload : Bytes
  pub content_type : ℤ

pub record SealedInner : Type 0 where
  pub sender_cert_ciphertext : Bytes
  pub encrypted_payload : Bytes
  pub content_type : ℤ

pub record WirePayload : Type 0 where
  pub message_number : ℕ
  pub kem_ciphertext : Option Bytes
  pub one_time_prekey_id : ℕ

pub record Opener : Type 0 where
  pub decode_sealed_inner : Bytes → Result Bytes SealedInner
  pub unseal_sender_cert : (ciphertext identity_secret : Bytes) → Result Bytes Bytes
  pub decode_sender_user_id : Bytes → Result Bytes Bytes
  pub unpack : Bytes → Result Bytes WirePayload

pub record InboundEnvelope : Type 0 where
  pub message_id : Bytes
  pub from : Bytes
  pub wire_payload : Bytes
  pub content_type : ℕ
  pub is_sealed : Bool

unfoldable pub content_type_to_u8 : ℤ → ℕ
content_type_to_u8 (pos n) = if ltb n 256 then n else 0
content_type_to_u8 (negsuc n) = 0

unfoldable pub direct_envelope_message_id : StreamEnvelope → Bytes
direct_envelope_message_id e = elim e.message_id_type [
  | none ↦ []
  | some t ↦ elim t [ message_id id ↦ id | group_message_id id ↦ [] ]
]

abbrev pub or_empty : Option Bytes → Bytes
or_empty none = []
or_empty (some s) = s

-- `map_err(|e| format!("...: {e}"))`
abbrev in_context : {A : Type 0} → Bytes → Result Bytes A → Result Bytes A
in_context text (ok a) = ok a
in_context text (err e) = err (text ++ e)

abbrev payload_of : StreamEnvelope → SealedInner → Bytes
payload_of e inner =
    if e.encrypted_payload =b [] then inner.encrypted_payload else e.encrypted_payload

module _ (k : Opener) (identity_secret : Bytes) where
  unfoldable pub open_sealed : StreamEnvelope → Bytes → Result Bytes InboundEnvelope
  unfolding direct_envelope_message_id content_type_to_u8
  open_sealed e sealed_inner = do
    inner ← in_context (bytes "sealed inner decode failed: ") (k.decode_sealed_inner sealed_inner)
    cert_bytes ←
        in_context (bytes "sealed sender cert unseal failed: ")
          (k.unseal_sender_cert inner.sender_cert_ciphertext identity_secret)
    sender_user_id ←
        in_context (bytes "sender certificate decode failed: ") (k.decode_sender_user_id cert_bytes)
    ensure (not (sender_user_id =b [])) (bytes "sender certificate has empty sender_user_id")
    ensure (not (payload_of e inner =b [])) (bytes "sealed inner encrypted_payload is empty")
    ok (record {
      message_id = direct_envelope_message_id e;
      from = sender_user_id;
      wire_payload = payload_of e inner;
      content_type = content_type_to_u8 inner.content_type;
      is_sealed = true;
    })

  abbrev pub resolved : StreamEnvelope → Option Bytes → Result Bytes InboundEnvelope
  resolved e none = ok (record {
    message_id = direct_envelope_message_id e;
    from = or_empty e.sender;
    wire_payload = e.encrypted_payload;
    content_type = content_type_to_u8 e.content_type;
    is_sealed = false;
  })
  resolved e (some sealed_inner) = open_sealed e sealed_inner

  unfoldable pub resolve_inbound_envelope : StreamEnvelope → Result Bytes InboundEnvelope
  unfolding open_sealed direct_envelope_message_id content_type_to_u8
  resolve_inbound_envelope e = resolved e e.sealed_sender

unfoldable pub is_session_reset_control_type : ContentTypes → ℕ → Bool
is_session_reset_control_type types t = t == types.session_reset || t == types.session_reset_init

-- What the relay does with an event: a command with its context, or an event, for the task of the
-- core; a note of a cursor; an event for the screen; the request for a new token.
pub data Relayed : Type 0 where
  stream_message : Event → StreamMessageContext → Relayed
  to_core : Event → Relayed
  note : Bytes → Option Bytes → Relayed
  to_screen : BridgeEvent → Relayed
  stream_auth_required : Relayed

abbrev context_of : InboundEnvelope → Option Bytes → ℕ → StreamMessageContext
context_of m stream_cursor msg_num = record {
  contact_id = m.from;
  message_id = m.message_id;
  stream_cursor = stream_cursor;
  content_type = m.content_type;
  msg_num = msg_num;
}

module _ (types : ContentTypes) where
  unfoldable pub relay_unpacked :
      InboundEnvelope → Option Bytes → Result Bytes WirePayload → List Relayed
  unfolding is_session_reset_control_type
  relay_unpacked m stream_cursor (ok decoded) =
      stream_message
        (message_received m.message_id m.from m.wire_payload decoded.message_number
          (or_empty decoded.kem_ciphertext) decoded.one_time_prekey_id
          (is_session_reset_control_type types m.content_type) m.content_type)
        (context_of m stream_cursor decoded.message_number)
      ∷ []
  relay_unpacked m stream_cursor (err e) =
      if is_session_reset_control_type types m.content_type
      then stream_message
          (message_received m.message_id m.from m.wire_payload 0 [] 0 true m.content_type)
          (context_of m stream_cursor 0)
        ∷ []
      else []

  abbrev pub relay_resolved : Opener → Option Bytes → Result Bytes InboundEnvelope → List Relayed
  relay_resolved k stream_cursor (ok m) = relay_unpacked m stream_cursor (k.unpack m.wire_payload)
  relay_resolved k stream_cursor (err e) = []

  unfoldable pub relay_message : Opener → Bytes → StreamEnvelope → Option Bytes → List Relayed
  unfolding resolve_inbound_envelope relay_unpacked
  relay_message k identity_secret envelope stream_cursor =
      relay_resolved k stream_cursor (resolve_inbound_envelope k identity_secret envelope)

unfoldable pub error_label : Bytes → ℤ → Bytes → Bytes
unfolding show_int
error_label id code text =
    if id =b []
    then bytes "Stream error " ++ (show_int code ++ (bytes ": " ++ text))
    else bytes "Stream error for " ++ (id ++ (bytes ": " ++ text))

module _ (types : ContentTypes) (k : Opener) (identity_secret : Bytes) where
  unfoldable pub relay : StreamEvent StreamEnvelope → List Relayed
  unfolding relay_message error_label
  relay (message envelope stream_cursor) =
      relay_message types k identity_secret envelope stream_cursor
  relay (ack id stream_cursor) = note id stream_cursor ∷ to_core (ack_received id) ∷ []
  relay (heartbeat timestamp server_timestamp stream_cursor) = []
  relay (stream_error id code text retryable after_ms stream_cursor) =
      to_screen (error (error_label id code text)) ∷ []
  relay connected = to_screen (stream_status true) ∷ to_core network_reconnected ∷ []
  relay disconnected = to_screen (stream_status false) ∷ []
  relay (reconnecting attempt delay) = to_screen (stream_reconnecting attempt delay) ∷ []
  relay auth_required = stream_auth_required ∷ []
