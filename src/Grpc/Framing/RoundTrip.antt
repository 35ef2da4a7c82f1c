-- ===== src/Grpc/Framing/RoundTrip.antt =====
-- src/grpc/framing.rs: `encode_frame` against `decode_frame`.
use construct_tui.Prelude.{
  ℕ, ◌+◌, ◌/◌, ◌%◌, ◌^◌, ◌<◌, ◌≡◌, [], ◌∷◌, ◌++◌, length, arith, length-take, ge→ltb, take-append,
  drop-append, take-append-drop, length-append, All,
}
use construct_tui.Prelude.Bytes.{Bytes, IsByte, from_u32_be, u32_be-from_u32_be}
use construct_tui.Prelude.Try.{ok}
use construct_tui.Grpc.Framing.{encode_frame, decode_frame}

-- The header reads back as the length of the message.
pub length_field :
    (n : ℕ)
    → n < 2 ^ 32
    → from_u32_be
        (n % 2 ^ 32 / 2 ^ 24 % 256)
        (n % 2 ^ 32 / 2 ^ 16 % 256)
        (n % 2 ^ 32 / 2 ^ 8 % 256)
        (n % 2 ^ 32 % 256)
      ≡ n
length_field n h = omega arith

-- A frame of a message shorter than 2^32 bytes, with any bytes behind it, decodes to the message
-- and exactly those bytes.
pub decode_frame-encode_frame :
    (message rest : Bytes)
    → length message < 2 ^ 32
    → decode_frame (encode_frame message ++ rest) ≡ ok (message, rest)
unfolding decode_frame encode_frame
decode_frame-encode_frame message rest h = simp (
  length_field (length message) h,
  length-append message rest,
  ge→ltb (length message + length rest) (length message) (omega arith),
  take-append message rest,
  drop-append message rest,
)

-- Whatever `decode_frame` accepts is the frame of the message that it returns, followed by the
-- rest that it returns: no two messages share a frame, and no byte is dropped.
encode_frame-decode_frame :
    (input message rest : Bytes)
    → All IsByte input
    → decode_frame input ≡ ok (message, rest)
    → input ≡ encode_frame message ++ rest
unfolding decode_frame encode_frame
encode_frame-decode_frame [] message rest hb h = cc
encode_frame-decode_frame (_ ∷ []) message rest hb h = cc
encode_frame-decode_frame (_ ∷ _ ∷ []) message rest hb h = cc
encode_frame-decode_frame (_ ∷ _ ∷ _ ∷ []) message rest hb h = cc
encode_frame-decode_frame (_ ∷ _ ∷ _ ∷ _ ∷ []) message rest hb h = cc
encode_frame-decode_frame (flag ∷ a ∷ b ∷ c ∷ d ∷ body) message rest (hf, (ha, (hb, (hc, (hd, _)))))
      h =
    ground (
      arith,
      length-take (from_u32_be a b c d) body,
      take-append-drop (from_u32_be a b c d) body,
      u32_be-from_u32_be a b c d ha hb hc hd,
    )
