-- ===== src/Streaming/Incoming.antt =====
-- src/streaming.rs, `dispatch_incoming`: from a received frame to at most one event. The protobuf
-- decoder is generated, so it is a parameter.
pub mod Route
use construct_tui.Prelude.{ℕ, Bool, Option, none, some, List, [], ◌∷◌}
use construct_tui.Prelude.Bytes.{Bytes}
use construct_tui.Prelude.Int.{ℤ}
use construct_tui.Prelude.Try.{Result, ok, err}
use construct_tui.Grpc.Error.{GrpcError}
use construct_tui.Grpc.Framing.{decode_frame}
use construct_tui.Streaming.{StreamEvent, message, ack, heartbeat, stream_error}

-- The cases of the response, with the fields that become part of an event.
pub data Response (E : Type 0) : Type 0 where
  of_message : E → Response E
  of_ack : Bytes → Response E
  of_heartbeat_ack : ℤ → ℤ → Response E
  of_error : Bytes → ℤ → Bytes → Bool → Option ℤ → Response E
  of_receipt of_typing of_presence of_p2p_handoff : Response E

pub record StreamResponse (E : Type 0) : Type 0 where
  pub response : Option (Response E)
  pub stream_cursor : Option Bytes

-- The event of a decoded response: none for receipts, typing, presence, handoffs and an empty one.
unfoldable pub event_of : {E : Type 0} → Option (Response E) → Option Bytes → List (StreamEvent E)
event_of (some (of_message envelope)) c = message envelope c ∷ []
event_of (some (of_ack id)) c = ack id c ∷ []
event_of (some (of_heartbeat_ack at_ms server_at)) c = heartbeat at_ms server_at c ∷ []
event_of (some (of_error id code text retryable after_ms)) c =
    stream_error id code text retryable after_ms c ∷ []
event_of (some of_receipt) c = []
event_of (some of_typing) c = []
event_of (some of_presence) c = []
event_of (some of_p2p_handoff) c = []
event_of none c = []

module _ {E : Type 0} (decode : Bytes → Option (StreamResponse E)) where
  decoded : Result GrpcError (Bytes × Bytes) → Option (StreamResponse E)
  decoded (ok (msg, rest)) = decode msg
  decoded (err e) = none

  events : Option (StreamResponse E) → List (StreamEvent E)
  events none = []
  events (some r) = event_of r.response r.stream_cursor

  unfoldable pub dispatch_incoming : Bytes → List (StreamEvent E)
  unfolding decoded events
  dispatch_incoming frame = events (decoded (decode_frame frame))
