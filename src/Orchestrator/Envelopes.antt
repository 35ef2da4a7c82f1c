-- ===== src/Orchestrator/Envelopes.antt =====
-- src/orchestrator_task.rs: the envelopes that the task sends.
use construct_tui.Prelude.{ℕ, ◌≡◌, refl, ◌++◌, ◌==◌, if◌then◌else◌, inl, inr}
use construct_tui.Prelude.Bytes.{Bytes, bytes, lt_bytes, lt_bytes-total}
use construct_tui.Orchestrator.{
  Envelope, ContentType, e2ee_signal, call_signal, key_exchange, session_reset, session_reset_init,
}

unfoldable pub conversation_id : Bytes → Bytes → Bytes
conversation_id from_user to_user =
    if lt_bytes from_user to_user
    then bytes "direct:" ++ (from_user ++ (bytes ":" ++ to_user))
    else bytes "direct:" ++ (to_user ++ (bytes ":" ++ from_user))

unfoldable pub build_envelope : Bytes → Bytes → Bytes → Bytes → Bytes → ContentType → Envelope
unfolding conversation_id
build_envelope from_user from_device to_user payload message_id content_type = record {
  sender = from_user;
  sender_device = from_device;
  recipient = to_user;
  content_type = content_type;
  message_id = message_id;
  encrypted_payload = payload;
  conversation_id = conversation_id from_user to_user;
}

unfoldable pub build_control_envelope :
    Bytes → Bytes → Bytes → ContentType → Bytes → Bytes → Envelope
unfolding build_envelope
build_control_envelope from_user from_device to_user content_type payload message_id =
    build_envelope from_user from_device to_user payload message_id content_type

unfoldable pub content_type_from_u8 : ℕ → ContentType
content_type_from_u8 v =
    if v == 1
    then e2ee_signal
    else if v == 12
    then call_signal
    else if v == 20
    then key_exchange
    else if v == 21
    then session_reset
    else if v == 24
    then session_reset_init
    else e2ee_signal

-- Both users file a conversation under the same key: the envelopes of the two directions have one
-- conversation id.
pub build_envelope_symmetric :
    (a b a_device b_device a_payload b_payload a_id b_id : Bytes) (a_type b_type : ContentType)
    → (build_envelope a a_device b a_payload a_id a_type).conversation_id
      ≡ (build_envelope b b_device a b_payload b_id b_type).conversation_id
unfolding build_envelope conversation_id
build_envelope_symmetric a b _ _ _ _ _ _ _ _ = elim (lt_bytes-total a b) [
  | inl e ↦ rw e refl
  | inr (inl (x, y)) ↦ rw (x, y) refl
  | inr (inr (x, y)) ↦ rw (x, y) refl
]
