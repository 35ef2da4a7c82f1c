-- ===== src/Tests/Client.antt =====
-- A client whose first exchange fails, and a reply in two chunks.
use construct_tui.Prelude.{
  ℕ, ◌≡◌, refl, true, false, none, some, List, [], ◌∷◌, ◌++◌, take, drop, arith, ◌==◌,
}
use construct_tui.Prelude.Bytes.{Bytes, bytes, u32_be, ◌=b◌}
use construct_tui.Prelude.Decimal.{parse_uint}
use construct_tui.Prelude.Dict.{lookup}
use construct_tui.Prelude.Try.{ok, err}
use construct_tui.Grpc.Error.{
  GrpcError, unauthenticated, is_retryable_transport, is_unauthenticated, is_permission_denied,
}
use construct_tui.Grpc.Framing.{encode_frame}
use construct_tui.Grpc.Client.{
  GrpcClient, Call, dial, Response, Exchange, Network, Headers, invalidate,
}
use construct_tui.Grpc.Client.Status.{
  check_grpc_status, check_grpc_status_classes, grpc_code, grpc_message, to_str, is_text,
}
use construct_tui.Grpc.Client.Unary.{
  unary, do_unary, is_transport_error, request_on, keep_or_drop, send_h2_data, await_capacity,
}
use construct_tui.Grpc.Client.Retry.{unary_live}
use construct_tui.Grpc.Client.Reply.{do_unary-encode_frame}

abbrev answered : Response
answered = record { status = 200; status_text = bytes "200 OK"; headers = [] }

-- The frame of "hi", cut in its length.
abbrev reply_frame : Bytes
reply_frame = 0 ∷ 0 ∷ 0 ∷ 0 ∷ 2 ∷ bytes "hi"

abbrev pub answer : Exchange
answer = record {
  built = ok tt;
  started = ok tt;
  capacity = 0;
  polls = (some (ok 4), 4) ∷ (some (ok 9), 9) ∷ [];
  sent = ok tt;
  ended = ok tt;
  response = ok answered;
  chunks = ok (take 3 reply_frame) ∷ ok (drop 3 reply_frame) ∷ [];
  trailers = none;
}

answer_sent : send_h2_data answer (encode_frame (bytes "q")) ≡ ok tt
unfolding send_h2_data await_capacity encode_frame u32_be
answer_sent = refl

no_status : check_grpc_status [] ≡ ok tt
unfolding check_grpc_status grpc_code grpc_message lookup to_str
no_status = refl

hi_frame : reply_frame ≡ encode_frame (bytes "hi") ++ []
unfolding encode_frame u32_be
hi_frame = refl

do_unary-encode_frame_example : do_unary (bytes "/p") (bytes "q") answer ≡ ok (bytes "hi")
do_unary-encode_frame_example =
    do_unary-encode_frame (bytes "/p") (bytes "q") (bytes "hi") [] answer answered
      (take 3 reply_frame ∷ drop 3 reply_frame ∷ []) refl refl answer_sent refl refl refl no_status
      refl hi_frame (omega arith) refl

abbrev lost : Exchange
lost = record answer { response = err (bytes "reset") }

-- The first exchange is lost, later ones are answered; a dial gives connection 2.
abbrev exchanges : List Call → Exchange
exchanges [] = lost
exchanges (c ∷ cs) = answer

abbrev net0 : Network
net0 = record { connect = λ calls. ok 2; exchange = exchanges }

abbrev pub client0 : GrpcClient
client0 = record {
  host = bytes "h";
  port = 443;
  session = some 1;
  token = some (bytes "tok");
  device_id = none;
}

unary_live_example :
    let calls1 = request_on (bytes "/p") (bytes "q") 1 client0 ∷ [] in
    let calls2 = calls1 ++ (dial (bytes "h") 443 ∷ []) in
    let first = do_unary (bytes "/p") (bytes "q") lost in
    let second = do_unary (bytes "/p") (bytes "q") answer in
    (is_transport_error first ≡ false
      → unary net0 (bytes "/p") (bytes "q") client0 [] ≡ (first, client0, calls1))
    × (is_transport_error first ≡ true
        → (e : GrpcError) → net0.connect calls1 ≡ err e
        → unary net0 (bytes "/p") (bytes "q") client0 [] ≡ (err e, invalidate client0, calls2))
    × (is_transport_error first ≡ true
        → (m : ℕ) → net0.connect calls1 ≡ ok m
        → unary net0 (bytes "/p") (bytes "q") client0 []
          ≡ keep_or_drop second
              (record client0 { session = some m })
              (calls2 ++ (request_on (bytes "/p") (bytes "q") m client0 ∷ [])))
unary_live_example = unary_live net0 (bytes "/p") (bytes "q") client0 [] 1 refl

abbrev expired : Headers
expired = (bytes "grpc-status", bytes "16") ∷ (bytes "grpc-message", bytes "expired") ∷ []

expired_err : check_grpc_status expired ≡ err (unauthenticated (bytes "expired"))
unfolding check_grpc_status grpc_code grpc_message lookup to_str is_text parse_uint ◌=b◌
expired_err = refl

check_grpc_status_classes_example :
    (code : ℕ) × (grpc_code expired ≡ some code)
    × ((code == 0) ≡ false)
    × (is_retryable_transport (unauthenticated (bytes "expired")) ≡ false)
    × (is_unauthenticated (unauthenticated (bytes "expired")) ≡ (code == 16))
    × (is_permission_denied (unauthenticated (bytes "expired")) ≡ (code == 7))
check_grpc_status_classes_example =
    check_grpc_status_classes expired (unauthenticated (bytes "expired")) expired_err
