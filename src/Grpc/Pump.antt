-- ===== src/Grpc/Pump.antt =====
-- src/grpc/stream.rs, `pump_task`: HTTP/2 data chunks are put together and cut into frames.
pub mod Chunks
pub mod Frames
use construct_tui.Prelude.{
  ℕ, zero, suc, ◌+◌, Option, none, some, List, [], ◌∷◌, ◌++◌, length, take, drop, ltb,
  if◌then◌else◌,
}
use construct_tui.Prelude.Bytes.{Bytes, from_u32_be}

-- The two tests at the head of the inner loop: the length of the first frame in the buffer, header
-- included, or `none` where the buffer does not hold it whole. The flag byte is not read.
unfoldable pub first_frame : Bytes → Option ℕ
first_frame (flag ∷ a ∷ b ∷ c ∷ d ∷ rest) =
    let msg_len = from_u32_be a b c d in
    if ltb (5 + length rest) (5 + msg_len) then none else some (5 + msg_len)
first_frame _ = none

-- The inner loop: the frames passed to `on_frame`, in order, and what stays in `recv_buf`.
unfoldable pub cut_frames : ℕ → Bytes → List Bytes × Bytes
cut_frames zero recv_buf = ([], recv_buf)
cut_frames (suc fuel) recv_buf = elim (first_frame recv_buf) [
  | none ↦ ([], recv_buf)
  | some n ↦ let later = cut_frames fuel (drop n recv_buf) in (take n recv_buf ∷ later.0, later.1)
]

-- One received chunk. A round removes five bytes at least, so the buffer's length is enough fuel.
unfoldable pub on_chunk : Bytes → Bytes → List Bytes × Bytes
on_chunk recv_buf chunk = cut_frames (length (recv_buf ++ chunk)) (recv_buf ++ chunk)

-- The chunks of a connection, in the order of their arrival.
unfoldable pub receive : Bytes → List Bytes → List Bytes × Bytes
receive recv_buf [] = ([], recv_buf)
receive recv_buf (chunk ∷ chunks) =
    let now = on_chunk recv_buf chunk in
    let later = receive now.1 chunks in (now.0 ++ later.0, later.1)
