-- ===== src/Knst/Text.antt =====
-- src/knst.rs: what the reader of a frame shows.
use construct_tui.Prelude.{
  ℕ, zero, suc, ◌+◌, ◌/◌, ◌%◌, ◌^◌, ◌<◌, min, ◌≡◌, ◌≢◌, append-nil, refl, ap, ◌∙◌, true, false,
  some, Option-cases, [], ◌∷◌, ◌++◌, length, inl, inr, drop, take-append, append_assoc,
  length-append, arith, if◌then◌else◌,
}
use construct_tui.Prelude.Bytes.{Bytes, starts_with}
use construct_tui.Prelude.Utf8.{is_utf8, from_utf8_lossy-is_utf8}
use construct_tui.Grpc.Framing.RoundTrip.{length_field}
use construct_tui.Knst.{
  ContentTypes, Codecs, is_frame, byte_at, uuid_or_nil, frame_whole, decode_text, text_of,
  is_silent_type, encode_text, encode_session_ping, disposition,
}

plus_suc : (n i : ℕ) → suc n + i ≡ suc (n + i)
plus_suc n i = omega arith

byte_at-append : (n i : ℕ) (u s : Bytes) → length u ≡ n → byte_at (n + i) (u ++ s) ≡ byte_at i s
byte_at-append zero i [] s h = ap (λ (j : ℕ). byte_at j s) (omega arith)
byte_at-append zero i (b ∷ u) s h = absurd (omega arith)
byte_at-append (suc n) i [] s h = absurd (omega arith)
byte_at-append (suc n) i (b ∷ u) s h =
    ap (λ (j : ℕ). byte_at j (b ∷ u ++ s)) (plus_suc n i) ∙ byte_at-append n i u s (omega arith)

drop_append : (n i : ℕ) (u s : Bytes) → length u ≡ n → drop (n + i) (u ++ s) ≡ drop i s
drop_append zero i [] s h = ap (λ (j : ℕ). drop j s) (omega arith)
drop_append zero i (b ∷ u) s h = absurd (omega arith)
drop_append (suc n) i [] s h = absurd (omega arith)
drop_append (suc n) i (b ∷ u) s h =
    ap (λ (j : ℕ). drop j (b ∷ u ++ s)) (plus_suc n i) ∙ drop_append n i u s (omega arith)

-- What stands behind the UUID.
abbrev frame_tail : Bytes → Bytes → Bytes
frame_tail payload junk =
    0
    ∷ 0
    ∷ 0
    ∷ 1
    ∷ (length payload % 2 ^ 32 / 2 ^ 24 % 256)
    ∷ (length payload % 2 ^ 32 / 2 ^ 16 % 256)
    ∷ (length payload % 2 ^ 32 / 2 ^ 8 % 256)
    ∷ (length payload % 2 ^ 32 % 256)
    ∷ (payload ++ junk)

min_append : (n m : ℕ) → min n (n + m) ≡ n
min_append n m = omega arith

module _ (t : ContentTypes) (k : Codecs)
    (sixteen : (id u : Bytes) → k.parse_uuid id ≡ some u → length u ≡ 16) where
  length-uuid_or_nil : (id : Bytes) → length (uuid_or_nil t k id) ≡ 16
  length-uuid_or_nil id = elim (Option-cases (k.parse_uuid id)) [
    | inl e ↦ rw (e, length) refl
    | inr (u, e) ↦ rw (e, length) (sixteen id u e)
  ]

  -- A frame of a payload shorter than 2^32 bytes, with any bytes behind it, shows nothing when its
  -- type is one of the silent control types, and the text of its whole payload otherwise.
  pub decode_text-frame_whole :
      (payload junk : Bytes) (content_type : ℕ) (id : Bytes)
      → length payload < 2 ^ 32
      → decode_text t k (frame_whole t k payload content_type id ++ junk)
        ≡ (if is_silent_type t content_type then [] else text_of t k payload)
  unfolding decode_text frame_whole is_frame starts_with
  decode_text-frame_whole payload junk content_type id h =
      simp
        (
          append_assoc (uuid_or_nil t k id)
              (0
                ∷ 0
                ∷ 0
                ∷ 1
                ∷ (length payload % 2 ^ 32 / 2 ^ 24 % 256)
                ∷ (length payload % 2 ^ 32 / 2 ^ 16 % 256)
                ∷ (length payload % 2 ^ 32 / 2 ^ 8 % 256)
                ∷ (length payload % 2 ^ 32 % 256)
                ∷ payload)
              junk,
          byte_at-append 16 4 (uuid_or_nil t k id) (frame_tail payload junk)
              (length-uuid_or_nil id),
          byte_at-append 16 5 (uuid_or_nil t k id) (frame_tail payload junk)
              (length-uuid_or_nil id),
          byte_at-append 16 6 (uuid_or_nil t k id) (frame_tail payload junk)
              (length-uuid_or_nil id),
          byte_at-append 16 7 (uuid_or_nil t k id) (frame_tail payload junk)
              (length-uuid_or_nil id),
          drop_append 16 8 (uuid_or_nil t k id) (frame_tail payload junk) (length-uuid_or_nil id),
          length-append (uuid_or_nil t k id) (frame_tail payload junk),
          length-uuid_or_nil id,
          length-append payload junk,
          length_field (length payload) h,
          take-append payload junk,
          min_append,
        )
        (ground arith)

  frame_shown :
      (payload : Bytes) (content_type : ℕ) (id : Bytes)
      → length payload < 2 ^ 32
      → decode_text t k (frame_whole t k payload content_type id)
        ≡ (if is_silent_type t content_type then [] else text_of t k payload)
  frame_shown payload content_type id h =
      rw (← append-nil (frame_whole t k payload content_type id))
        (decode_text-frame_whole payload [] content_type id h)

  shown_text :
      (text : Bytes)
      → k.decode_content (k.encode_text_content text) ≡ some (some text)
      → (if is_silent_type t t.e2ee_signal then [] else text_of t k (k.encode_text_content text))
        ≡ text
  unfolding is_silent_type disposition text_of
  shown_text text h = ground arith

  shown_ping :
      (id : Bytes)
      → t.session_ping ≢ t.e2ee_signal
      → t.session_ping ≢ t.sender_sync
      → (if is_silent_type t t.session_ping then [] else text_of t k (k.encode_ping id)) ≡ []
  unfolding is_silent_type disposition
  shown_ping id ne ns = ground arith

  -- A text that its protobuf decoder reads back is shown as it was sent, whatever the message id;
  -- a session ping shows nothing, if its number is not that of a chat type. Both payloads are
  -- shorter than 2^32 bytes.
  pub decode_text-encode :
      (text id : Bytes)
      → k.decode_content (k.encode_text_content text) ≡ some (some text)
      → length (k.encode_text_content text) < 2 ^ 32
      → length (k.encode_ping id) < 2 ^ 32
      → t.session_ping ≢ t.e2ee_signal
      → t.session_ping ≢ t.sender_sync
      → (decode_text t k (encode_text t k text id) ≡ text)
        × (decode_text t k (encode_session_ping t k id) ≡ [])
  unfolding encode_text encode_session_ping
  decode_text-encode text id h short ping_short ne ns = (
    frame_shown (k.encode_text_content text) t.e2ee_signal id short ∙ shown_text text h,
    frame_shown (k.encode_ping id) t.session_ping id ping_short ∙ shown_ping id ne ns,
  )

  -- What is no frame and is valid UTF-8 is shown as it is.
  pub decode_text_bare : (s : Bytes) → is_frame s ≡ false → is_utf8 s ≡ true → decode_text t k s ≡ s
  unfolding decode_text
  decode_text_bare s h v = rw (h) (from_utf8_lossy-is_utf8 s v)
