-- ===== src/Grpc/Client/Reply.antt =====
-- src/grpc/client.rs: the reply of a server through `do_unary`.
use construct_tui.Prelude.{◌^◌, ◌<◌, ◌≡◌, refl, List, [], ◌∷◌, ◌++◌, length, concat}
use construct_tui.Prelude.Bytes.{Bytes}
use construct_tui.Prelude.Try.{Result, ok}
use construct_tui.Grpc.Framing.{encode_frame}
use construct_tui.Grpc.Framing.RoundTrip.{decode_frame-encode_frame}
use construct_tui.Grpc.Client.{Exchange, Response}
use construct_tui.Grpc.Client.Status.{check_grpc_status}
use construct_tui.Grpc.Client.Unary.{
  send_h2_data, receive_body, check_http, check_trailers, message_of, do_unary,
}

abbrev pub arrived : List Bytes → List (Result Bytes Bytes)
arrived [] = []
arrived (c ∷ cs) = ok c ∷ arrived cs

receive_body-arrived : (cs : List Bytes) → receive_body (arrived cs) ≡ ok (concat cs)
unfolding receive_body
receive_body-arrived [] = refl
receive_body-arrived (c ∷ cs) = rw (receive_body-arrived cs) refl

message_of-encode_frame :
    (message rest : Bytes)
    → length message < 2 ^ 32
    → message_of (encode_frame message ++ rest) ≡ ok message
unfolding message_of encode_frame
message_of-encode_frame message rest h = rw (decode_frame-encode_frame message rest h) refl

-- However the server's answer is cut into chunks, the call returns the message of its first frame:
-- where each step of the exchange succeeds, HTTP says 200 and no status says otherwise.
pub do_unary-encode_frame :
    (path sent message rest : Bytes) (x : Exchange) (r : Response) (cs : List Bytes)
    → x.built ≡ ok tt
    → x.started ≡ ok tt
    → send_h2_data x (encode_frame sent) ≡ ok tt
    → x.ended ≡ ok tt
    → x.response ≡ ok r
    → r.status ≡ 200
    → check_grpc_status r.headers ≡ ok tt
    → x.chunks ≡ arrived cs
    → concat cs ≡ encode_frame message ++ rest
    → length message < 2 ^ 32
    → check_trailers x.trailers ≡ ok tt
    → do_unary path sent x ≡ ok message
unfolding do_unary check_http
do_unary-encode_frame path sent message rest x r cs hb hs hd he hr h200 hg hc hm small ht =
    rw (hb, hs, hd, he, hr, h200, hg, hc, receive_body-arrived cs, hm, ht)
      (message_of-encode_frame message rest small)
