-- ===== src/Tests/Grpc.antt =====
-- Runs of the framing and of the reassembly of a stream.
use construct_tui.Prelude.{◌≡◌, refl, none, List, [], ◌∷◌, ◌++◌, map, arith, concat}
use construct_tui.Prelude.Bytes.{Bytes}
use construct_tui.Grpc.Framing.{encode_frame}
use construct_tui.Grpc.Pump.{first_frame, on_chunk, cut_frames, receive}
use construct_tui.Grpc.Pump.Chunks.{receive-chunks}
use construct_tui.Grpc.Pump.Frames.{receive-encode_frame}

-- A frame of two bytes, cut in the middle of its header.
abbrev cut_header : List Bytes
cut_header = (0 ∷ 0 ∷ 0 ∷ []) ∷ (0 ∷ 2 ∷ 7 ∷ []) ∷ (8 ∷ 0 ∷ []) ∷ []

one_chunk :
    receive [] ((0 ∷ 0 ∷ 0 ∷ 0 ∷ 2 ∷ 7 ∷ 8 ∷ 0 ∷ []) ∷ [])
    ≡ ((0 ∷ 0 ∷ 0 ∷ 0 ∷ 2 ∷ 7 ∷ 8 ∷ []) ∷ [], 0 ∷ [])
unfolding receive on_chunk cut_frames first_frame
one_chunk = refl

receive-chunks_example : receive [] cut_header ≡ receive [] (concat cut_header ∷ [])
receive-chunks_example = receive-chunks cut_header (concat cut_header ∷ []) refl

cut_split : concat cut_header ≡ concat (map encode_frame ((7 ∷ 8 ∷ []) ∷ [])) ++ (0 ∷ [])
unfolding encode_frame
cut_split = refl

no_frame : first_frame (0 ∷ []) ≡ none
unfolding first_frame
no_frame = refl

receive-encode_frame_example :
    receive [] cut_header ≡ (map encode_frame ((7 ∷ 8 ∷ []) ∷ []), 0 ∷ [])
receive-encode_frame_example =
    receive-encode_frame ((7 ∷ 8 ∷ []) ∷ []) cut_header (0 ∷ []) (omega arith) no_frame cut_split
