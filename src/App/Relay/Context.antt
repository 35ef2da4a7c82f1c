-- ===== src/App/Relay/Context.antt =====
-- src/app.rs: what the relay hands to the task of the core.
use construct_tui.Prelude.{
  ℕ, ◌≡◌, refl, Option, none, some, false, List, [], ◌∷◌, ◌⊎◌, if◌then◌else◌,
}
use construct_tui.Prelude.Bytes.{Bytes, ◌=b◌}
use construct_tui.Prelude.Int.{ℤ}
use construct_tui.Prelude.Try.{Result, ok, err}
use construct_tui.Knst.{ContentTypes}
use construct_tui.Orchestrator.{message_received}
use construct_tui.App.Relay.{
  StreamEnvelope, SealedInner, or_empty, content_type_to_u8, InboundEnvelope, Opener, WirePayload,
  Relayed, stream_message, open_sealed, resolve_inbound_envelope, direct_envelope_message_id,
  is_session_reset_control_type,
}

-- For a sealed message the sender and the type that the server shows on the outside have no
-- effect: whatever they are, the message resolves to the same sender, type and payload, or to the
-- same error.
pub resolve_inbound_envelope_sealed :
    (k : Opener) (identity_secret sealed_inner : Bytes) (e : StreamEnvelope) (sender : Option Bytes)
    (content_type : ℤ)
    → e.sealed_sender ≡ some sealed_inner
    → resolve_inbound_envelope k identity_secret
        (record e { sender = sender; content_type = content_type })
      ≡ resolve_inbound_envelope k identity_secret e
unfolding resolve_inbound_envelope open_sealed direct_envelope_message_id
resolve_inbound_envelope_sealed k identity_secret sealed_inner e sender content_type h = rw h refl

-- Where the sender, the payload and the type of a message come from: of a plain one from the outside
-- of the envelope; of a sealed one the sender from its certificate and the type from its inside, the
-- payload from the inside where the outside has none.
abbrev pub IsFrom : Opener → Bytes → StreamEnvelope → Option Bytes → Bytes → Bytes → ℕ → Type 0
IsFrom k identity_secret e none from payload content_type =
    (from ≡ or_empty e.sender)
    × (payload ≡ e.encrypted_payload)
    × (content_type ≡ content_type_to_u8 e.content_type)
IsFrom k identity_secret e (some sealed_inner) from payload content_type =
    (inner : SealedInner) × (cert_bytes : Bytes) × (k.decode_sealed_inner sealed_inner ≡ ok inner)
    × (k.unseal_sender_cert inner.sender_cert_ciphertext identity_secret ≡ ok cert_bytes)
    × (k.decode_sender_user_id cert_bytes ≡ ok from)
    × (payload
        ≡ (if e.encrypted_payload =b [] then inner.encrypted_payload else e.encrypted_payload))
    × (content_type ≡ content_type_to_u8 inner.content_type)

-- The number of an unpacked payload, or 0.
abbrev pub IsNumber : Result Bytes WirePayload → ℕ → Type 0
IsNumber (ok p) n = n ≡ p.message_number
IsNumber (err x) n = n ≡ 0

-- An envelope of which there is nothing to hand on: it cannot be resolved, or it is no reset and its
-- payload cannot be unpacked.
abbrev pub IsUnreadable : ContentTypes → Opener → Result Bytes InboundEnvelope → Type 0
IsUnreadable types k (err x) = Unit
IsUnreadable types k (ok m) =
    ((x : Bytes) × (k.unpack m.wire_payload ≡ err x))
    × (is_session_reset_control_type types m.content_type ≡ false)

-- A command for the core with its context, for this envelope and the cursor of its event.
abbrev pub HasContext :
    ContentTypes → Opener → Bytes → StreamEnvelope → Option Bytes → Relayed → Type 0
HasContext types k identity_secret e cursor
      (stream_message (message_received id from data' n kem otpk is_control t) c) =
    IsFrom k identity_secret e e.sealed_sender from data' t
    × (id ≡ direct_envelope_message_id e)
    × IsNumber (k.unpack data') n
    × (is_control ≡ is_session_reset_control_type types t)
    × (c.message_id ≡ id)
    × (c.contact_id ≡ from)
    × (c.msg_num ≡ n)
    × (c.content_type ≡ t)
    × (c.stream_cursor ≡ cursor)
HasContext types k identity_secret e cursor _ = ⊥

module _ (types : ContentTypes) (k : Opener) (identity_secret : Bytes) (e : StreamEnvelope)
    (cursor : Option Bytes) where
  -- What `resolve_inbound_envelope` promises of an envelope.
  abbrev IsResolved : Option Bytes → InboundEnvelope → Type 0
  IsResolved sealed m =
      IsFrom k identity_secret e sealed m.from m.wire_payload m.content_type
      × (m.message_id ≡ direct_envelope_message_id e)

  abbrev IsOneOrNone : Result Bytes InboundEnvelope → List Relayed → Type 0
  IsOneOrNone resolved_as l =
      (IsUnreadable types k resolved_as × (l ≡ []))
      ⊎ ((r : Relayed) × (l ≡ r ∷ []) × HasContext types k identity_secret e cursor r)
