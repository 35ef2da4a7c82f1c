-- ===== src/Streaming/Incoming/Route.antt =====
-- src/streaming.rs: from the bytes of a connection to the events of the application.
use construct_tui.Prelude.{
  ◌≡◌, refl, ◌∙◌, Bool, Option, none, some, List, [], ◌∷◌, ◌++◌, map, All, concat, append-nil,
}
use construct_tui.Prelude.Bytes.{Bytes}
use construct_tui.Prelude.Int.{ℤ}
use construct_tui.Grpc.Framing.{encode_frame}
use construct_tui.Grpc.Framing.RoundTrip.{decode_frame-encode_frame}
use construct_tui.Grpc.Pump.{first_frame, receive}
use construct_tui.Grpc.Pump.Frames.{IsMessage, receive-encode_frame}
use construct_tui.Streaming.{StreamEvent, message, ack, heartbeat, stream_error}
use construct_tui.Streaming.Incoming.{
  Response, of_message, of_ack, of_heartbeat_ack, of_error, of_receipt, of_typing, of_presence,
  of_p2p_handoff, StreamResponse, event_of, dispatch_incoming,
}

-- All frames of a connection, in order.
abbrev pub dispatch_all :
    {E : Type 0} → (Bytes → Option (StreamResponse E)) → List Bytes → List (StreamEvent E)
dispatch_all decode [] = []
dispatch_all decode (frame ∷ frames) = dispatch_incoming decode frame ++ dispatch_all decode frames

abbrev pub events_of : {E : Type 0} → List (StreamResponse E) → List (StreamEvent E)
events_of [] = []
events_of (r ∷ rs) = event_of r.response r.stream_cursor ++ events_of rs

abbrev pub frames_of :
    {E : Type 0} → (StreamResponse E → Bytes) → List (StreamResponse E) → List Bytes
frames_of encode rs = map encode_frame (map encode rs)

-- The responses that the application hears nothing of.
abbrev pub IsSilent : {E : Type 0} → Option (Response E) → Type 0
IsSilent none = Unit
IsSilent (some of_receipt) = Unit
IsSilent (some of_typing) = Unit
IsSilent (some of_presence) = Unit
IsSilent (some of_p2p_handoff) = Unit
IsSilent _ = ⊥

abbrev pub response_with : {E : Type 0} → Option (Response E) → Option Bytes → StreamResponse E
response_with response cursor = record { response = response; stream_cursor = cursor }

-- What the application is to hear of a sequence of responses.
pub data Heard (E : Type 0) : List (StreamResponse E) → List (StreamEvent E) → Type 0 where
  the_end : Heard E [] []
  a_message :
      {rs : List (StreamResponse E)} {es : List (StreamEvent E)} (envelope : E) (c : Option Bytes)
      → Heard E rs es
      → Heard E (response_with (some (of_message envelope)) c ∷ rs) (message envelope c ∷ es)
  an_ack :
      {rs : List (StreamResponse E)} {es : List (StreamEvent E)} (id : Bytes) (c : Option Bytes)
      → Heard E rs es
      → Heard E (response_with (some (of_ack id)) c ∷ rs) (ack id c ∷ es)
  a_heartbeat :
      {rs : List (StreamResponse E)} {es : List (StreamEvent E)} (at_ms server_at : ℤ)
      (c : Option Bytes)
      → Heard E rs es
      → Heard E
          (response_with (some (of_heartbeat_ack at_ms server_at)) c ∷ rs)
          (heartbeat at_ms server_at c ∷ es)
  an_error :
      {rs : List (StreamResponse E)} {es : List (StreamEvent E)} (id : Bytes) (code : ℤ)
      (text : Bytes) (retryable : Bool) (after_ms : Option ℤ) (c : Option Bytes)
      → Heard E rs es
      → Heard E
          (response_with (some (of_error id code text retryable after_ms)) c ∷ rs)
          (stream_error id code text retryable after_ms c ∷ es)
  silence :
      {rs : List (StreamResponse E)} {es : List (StreamEvent E)} (o : Option (Response E))
      (c : Option Bytes)
      → IsSilent o
      → Heard E rs es
      → Heard E (response_with o c ∷ rs) es

module _ {E : Type 0} where
  event_of-Heard :
      (o : Option (Response E)) (c : Option Bytes) (rs : List (StreamResponse E))
      (es : List (StreamEvent E))
      → Heard E rs es
      → Heard E (response_with o c ∷ rs) (event_of o c ++ es)
  unfolding event_of
  event_of-Heard (some (of_message envelope)) c rs es h = Heard.a_message envelope c h
  event_of-Heard (some (of_ack id)) c rs es h = Heard.an_ack id c h
  event_of-Heard (some (of_heartbeat_ack a b)) c rs es h = Heard.a_heartbeat a b c h
  event_of-Heard (some (of_error id code text again after_ms)) c rs es h =
      Heard.an_error id code text again after_ms c h
  event_of-Heard (some of_receipt) c rs es h = Heard.silence (some of_receipt) c tt h
  event_of-Heard (some of_typing) c rs es h = Heard.silence (some of_typing) c tt h
  event_of-Heard (some of_presence) c rs es h = Heard.silence (some of_presence) c tt h
  event_of-Heard (some of_p2p_handoff) c rs es h = Heard.silence (some of_p2p_handoff) c tt h
  event_of-Heard none c rs es h = Heard.silence none c tt h

  events_of-Heard : (rs : List (StreamResponse E)) → Heard E rs (events_of rs)
  events_of-Heard [] = Heard.the_end
  events_of-Heard (r ∷ rs) =
      event_of-Heard r.response r.stream_cursor rs (events_of rs) (events_of-Heard rs)

-- The decoder reads back what the encoder writes for these responses.
abbrev pub IsInverse :
    {E : Type 0}
    → (StreamResponse E → Bytes)
    → (Bytes → Option (StreamResponse E))
    → List (StreamResponse E)
    → Type 0
IsInverse encode decode rs = All (λ r. decode (encode r) ≡ some r) rs

module _ {E : Type 0} (encode : StreamResponse E → Bytes)
    (decode : Bytes → Option (StreamResponse E)) where
  dispatch_incoming-encode_frame :
      (r : StreamResponse E)
      → IsMessage (encode r)
      → decode (encode r) ≡ some r
      → dispatch_incoming decode (encode_frame (encode r)) ≡ event_of r.response r.stream_cursor
  unfolding dispatch_incoming
  dispatch_incoming-encode_frame r h back =
      rw (← append-nil (encode_frame (encode r)), decode_frame-encode_frame (encode r) [] h, back)

  dispatch_all-frames_of :
      (rs : List (StreamResponse E))
      → All IsMessage (map encode rs)
      → IsInverse encode decode rs
      → dispatch_all decode (frames_of encode rs) ≡ events_of rs
  dispatch_all-frames_of [] h back = refl
  dispatch_all-frames_of (r ∷ rs) (hr, hrs) (br, brs) =
      rw (dispatch_incoming-encode_frame r hr br, dispatch_all-frames_of rs hrs brs)

  dispatch_all-receive :
      (rs : List (StreamResponse E)) (chunks : List Bytes)
      → All IsMessage (map encode rs)
      → IsInverse encode decode rs
      → concat chunks ≡ concat (frames_of encode rs)
      → dispatch_all decode (receive [] chunks).0 ≡ events_of rs
  dispatch_all-receive rs chunks h back split =
      rw
        (receive-encode_frame (map encode rs) chunks [] h (unfold first_frame in refl)
          (split ∙ rw append-nil refl))
        (dispatch_all-frames_of rs h back)

  -- If the decoder reads back what the server encoded, and each encoding is shorter than 2^32 bytes,
  -- then the responses that the server framed reach the application, whatever the chunks in which
  -- the network delivers the bytes: in order, each message, acknowledgement, heartbeat and error as
  -- its event with its cursor, and of receipts, typing, presence, handoffs and empty responses
  -- nothing.
  pub receive-dispatch_incoming :
      (rs : List (StreamResponse E)) (chunks : List Bytes)
      → All IsMessage (map encode rs)
      → IsInverse encode decode rs
      → concat chunks ≡ concat (frames_of encode rs)
      → Heard E rs (dispatch_all decode (receive [] chunks).0)
  receive-dispatch_incoming rs chunks h back split =
      rw (dispatch_all-receive rs chunks h back split) (events_of-Heard rs)
