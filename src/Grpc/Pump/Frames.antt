-- ===== src/Grpc/Pump/Frames.antt =====
-- src/grpc/stream.rs, `pump_task`: the frames that a server sends.
use construct_tui.Prelude.{
  ◌+◌, ◌^◌, ◌<◌, ◌≡◌, ap, none, some, List, [], ◌∷◌, ◌++◌, map, length, arith, length-append,
  take-append, drop-append, append_assoc, concat, All, ge→ltb,
}
use construct_tui.Prelude.Bytes.{Bytes}
use construct_tui.Grpc.Framing.{encode_frame}
use construct_tui.Grpc.Framing.RoundTrip.{length_field}
use construct_tui.Grpc.Pump.{first_frame, receive}
use construct_tui.Grpc.Pump.Chunks.{cut, cut-none, cut-some, receive-cut}

abbrev pub IsMessage : Bytes → Type 0
IsMessage m = length m < 2 ^ 32

first_frame-encode_frame :
    (m rest : Bytes)
    → IsMessage m
    → first_frame (encode_frame m ++ rest) ≡ some (length (encode_frame m))
unfolding first_frame encode_frame
first_frame-encode_frame m rest h =
    simp
      (
        length_field (length m) h,
        length-append m rest,
        ge→ltb (5 + (length m + length rest)) (5 + length m) (omega arith),
      )
      (ap some (omega arith))

cut-encode_frame :
    (ms : List Bytes) (tail : Bytes)
    → All IsMessage ms
    → first_frame tail ≡ none
    → cut (concat (map encode_frame ms) ++ tail) ≡ (map encode_frame ms, tail)
cut-encode_frame [] tail h e = cut-none tail e
cut-encode_frame (m ∷ ms) tail (hm, hms) e = rw (
  append_assoc (encode_frame m) (concat (map encode_frame ms)) tail,
  cut-some _ _ (first_frame-encode_frame m (concat (map encode_frame ms) ++ tail) hm),
  take-append (encode_frame m) (concat (map encode_frame ms) ++ tail),
  drop-append (encode_frame m) (concat (map encode_frame ms) ++ tail),
  cut-encode_frame ms tail hms e,
)

-- If the received bytes are the frames of messages below 2^32 bytes, followed by a tail that holds
-- no whole frame, then exactly these frames are passed on, in order, and the tail is left, whatever
-- the chunks.
pub receive-encode_frame :
    (ms chunks : List Bytes) (tail : Bytes)
    → All IsMessage ms
    → first_frame tail ≡ none
    → concat chunks ≡ concat (map encode_frame ms) ++ tail
    → receive [] chunks ≡ (map encode_frame ms, tail)
receive-encode_frame ms chunks tail h e split =
    rw (receive-cut chunks, split) (cut-encode_frame ms tail h e)
