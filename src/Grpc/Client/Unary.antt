-- ===== src/Grpc/Client/Unary.antt =====
-- src/grpc/client.rs: a unary call. An operation takes the client and the calls made so far.
use construct_tui.Prelude.{
  ℕ, Bool, false, ◌||◌, Option, none, some, List, [], ◌∷◌, ◌++◌, length, ltb, leb, ◌==◌,
  if◌then◌else◌,
}
use construct_tui.Prelude.Bytes.{Bytes, bytes}
use construct_tui.Prelude.Try.{Result, ok, err, ◌>>=◌, ◌>>◌}
use construct_tui.Grpc.Error.{GrpcError, transport, is_retryable_transport}
use construct_tui.Grpc.Framing.{encode_frame, decode_frame}
use construct_tui.Grpc.Client.{
  GrpcClient, Headers, Call, dial, request, Response, Exchange, Network, invalidate, authority,
  apply_auth_headers,
}
use construct_tui.Grpc.Client.Status.{check_grpc_status}

-- `map_err(|e| GrpcError::transport(format!("...: {e}")))`
abbrev pub as_transport : {A : Type 0} → Bytes → Result Bytes A → Result GrpcError A
as_transport context (ok a) = ok a
as_transport context (err e) = err (transport (context ++ e))

-- The loop for the capacity of the stream.
unfoldable pub await_capacity : ℕ → List (Option (Result Bytes ℕ) × ℕ) → Result GrpcError (Unit {0})
await_capacity needed [] = err (transport (bytes "h2 send stream closed"))
await_capacity needed ((none, capacity) ∷ polls) = err (transport (bytes "h2 send stream closed"))
await_capacity needed ((some (err e), capacity) ∷ polls) =
    err (transport (bytes "h2 capacity: " ++ e))
await_capacity needed ((some (ok n), capacity) ∷ polls) =
    let rest = await_capacity needed polls in
    if leb needed n || leb needed capacity then ok tt else rest

unfoldable pub send_h2_data : Exchange → Bytes → Result GrpcError (Unit {0})
unfolding await_capacity
send_h2_data x data' =
    (if ltb x.capacity (length data') then await_capacity (length data') x.polls else ok tt)
    >> as_transport (bytes "h2 send_data: ") x.sent

unfoldable pub receive_body : List (Result Bytes Bytes) → Result GrpcError Bytes
receive_body [] = ok []
receive_body (err e ∷ chunks) = err (transport (bytes "recv_data: " ++ e))
receive_body (ok chunk ∷ chunks) = do rest ← receive_body chunks; ok (chunk ++ rest)

unfoldable pub check_http : Bytes → Response → Result GrpcError (Unit {0})
check_http path r =
    if r.status == 200
    then ok tt
    else err
        (transport (bytes "HTTP " ++ (r.status_text ++ (bytes " from '" ++ (path ++ bytes "'")))))

abbrev pub check_trailers : Option Headers → Result GrpcError (Unit {0})
check_trailers none = ok tt
check_trailers (some headers) = check_grpc_status headers

unfoldable pub message_of : Bytes → Result GrpcError Bytes
unfolding decode_frame
message_of [] = ok []
message_of (b ∷ body) = do r ← decode_frame (b ∷ body); ok r.0

unfoldable pub do_unary : Bytes → Bytes → Exchange → Result GrpcError Bytes
unfolding send_h2_data receive_body check_http check_grpc_status message_of encode_frame
do_unary path request_bytes x = do
  as_transport (bytes "build request: ") x.built
  as_transport (bytes "send_request '" ++ (path ++ bytes "': ")) x.started
  send_h2_data x (encode_frame request_bytes)
  as_transport (bytes "end stream: ") x.ended
  response ← as_transport (bytes "recv_response '" ++ (path ++ bytes "': ")) x.response
  check_http path response
  check_grpc_status response.headers
  body ← receive_body x.chunks
  check_trailers x.trailers
  message_of body

abbrev pub Outcome : Type 0 → Type 0
Outcome A = Result GrpcError A × GrpcClient × List Call

unfoldable pub is_transport_error : {A : Type 0} → Result GrpcError A → Bool
unfolding is_retryable_transport
is_transport_error (ok a) = false
is_transport_error (err e) = is_retryable_transport e

-- The call of `unary_once` on a connection, for the request's path and bytes.
abbrev pub request_on : Bytes → Bytes → ℕ → GrpcClient → Call
request_on path request_bytes n c =
    request n path (authority c)
      (apply_auth_headers ((bytes "host", authority c) ∷ []) c.token c.device_id)
      (encode_frame request_bytes)

-- A connection is dropped after an error of the transport.
abbrev pub keep_or_drop : Result GrpcError Bytes → GrpcClient → List Call → Outcome Bytes
keep_or_drop result c calls = (result, if is_transport_error result then invalidate c else c, calls)

module _ (net : Network) where
  abbrev connected : Result GrpcError ℕ → GrpcClient → List Call → Outcome ℕ
  connected (err e) c calls = (err e, c, calls)
  connected (ok n) c calls = (ok n, record c { session = some n }, calls)

  -- `ensure`, and the connection that `send_request` then gives.
  abbrev ensure_session : Option ℕ → GrpcClient → List Call → Outcome ℕ
  ensure_session none c calls = connected (net.connect calls) c (calls ++ (dial c.host c.port ∷ []))
  ensure_session (some n) c calls = (ok n, c, calls)

  unfoldable pub ensure : GrpcClient → List Call → Outcome ℕ
  ensure c calls = ensure_session c.session c calls

  abbrev exchange_on : Bytes → Bytes → Outcome ℕ → Outcome Bytes
  exchange_on path request_bytes (err e, c, calls) = (err e, c, calls)
  exchange_on path request_bytes (ok n, c, calls) =
      keep_or_drop (do_unary path request_bytes (net.exchange calls)) c
        (calls ++ (request_on path request_bytes n c ∷ []))

  unfoldable pub unary_once : Bytes → Bytes → GrpcClient → List Call → Outcome Bytes
  unfolding ensure is_transport_error do_unary authority apply_auth_headers encode_frame
  unary_once path request_bytes c calls = exchange_on path request_bytes (ensure c calls)

  abbrev retry_if : Bytes → Bytes → Outcome Bytes → Outcome Bytes
  retry_if path request_bytes (result, c, calls) =
      if is_transport_error result
      then unary_once path request_bytes (invalidate c) calls
      else (result, c, calls)

  unfoldable pub unary : Bytes → Bytes → GrpcClient → List Call → Outcome Bytes
  unfolding unary_once is_transport_error
  unary path request_bytes c calls =
      retry_if path request_bytes (unary_once path request_bytes c calls)
