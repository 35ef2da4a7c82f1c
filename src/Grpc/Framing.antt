-- ===== src/Grpc/Framing.antt =====
-- src/grpc/framing.rs: one flag byte, a big-endian u32 length, the message.
pub mod RoundTrip
use construct_tui.Prelude.{
  ℕ, ◌^◌, ◌%◌, List, [], ◌∷◌, ◌++◌, length, take, drop, ltb, ◌==◌, if◌then◌else◌, not,
}
use construct_tui.Prelude.Bytes.{Bytes, bytes, u32_be, from_u32_be}
use construct_tui.Prelude.Decimal.{show_uint}
use construct_tui.Prelude.Try.{Result, ok, err}
use construct_tui.Grpc.Error.{GrpcError, transport}

-- `proto_bytes.len() as u32` keeps the low 32 bits of the length.
unfoldable pub encode_frame : Bytes → Bytes
unfolding u32_be
encode_frame message = 0 ∷ (u32_be (length message % 2 ^ 32) ++ message)

too_short : ℕ → GrpcError
too_short n = transport (bytes "gRPC frame too short: " ++ (show_uint n ++ bytes " bytes"))

incomplete : ℕ → ℕ → GrpcError
incomplete need have = transport (
    bytes "gRPC frame incomplete: need "
    ++ (show_uint need ++ (bytes " bytes, have " ++ show_uint have)))

compressed : GrpcError
compressed = transport (bytes "compressed gRPC frames not supported")

unfoldable pub decode_frame : Bytes → Result GrpcError (Bytes × Bytes)
unfolding too_short incomplete compressed
decode_frame (flag ∷ a ∷ b ∷ c ∷ d ∷ rest) =
    let n = from_u32_be a b c d in
    if not (flag == 0)
    then err compressed
    else if ltb (length rest) n
    then err (incomplete n (length rest))
    else ok (take n rest, drop n rest)
decode_frame short = err (too_short (length short))
