-- ===== src/Invite/RoundTrip.antt =====
-- src/invite.rs: `encode_binary` against `decode_binary`.
use construct_tui.Prelude.{
  ℕ, ◌%◌, ◌^◌, ◌<◌, ◌≤◌, ◌≡◌, refl, true, ◌&&◌, Option, none, some, [], ◌∷◌, ◌++◌, length, drop,
  leb, ltb, if◌then◌else◌, All, take-append, drop-append, length-append, arith, inl, inr,
  Bool-cases,
}
use construct_tui.Prelude.Bytes.{Bytes, IsByte, =b-refl, u32_be, u64_be, from_u32_be-u32_be}
use construct_tui.Prelude.Int.{ℤ, pos}
use construct_tui.Prelude.Trim.{trim}
use construct_tui.Prelude.Try.{ok}
use construct_tui.Prelude.Utf8.{is_utf8}
use construct_tui.Invite.{un_utf8, server_utf8, Invite, Codecs, InviteError}
use construct_tui.Invite.Encode.{
  magic, name_of, ts_part, un_part, flags_of, ttl_part, eph_part, encode_binary, is_short,
}
use construct_tui.Invite.Decode.{
  take_bytes, take_u8, read_i64, read_u32, is_timely, take_text, take_un, take_ttl, take_eph, pure,
  ◌>>=◌, read_invite, ensure_floor, decode_binary,
}

-- The text of n bytes and what the crates promise of it.
abbrev pub IsBlock : ℕ → Bytes → Type 0
IsBlock n b = (length b ≡ n) × All IsByte b

pub record IsCodec (k : Codecs) : Type 0 where
  pub uuid_law : (b : Bytes) → IsBlock 16 b → k.parse_uuid (k.show_uuid b) ≡ some b
  pub hex_law : (b : Bytes) → IsBlock 16 b → k.decode_hex (k.encode_hex b) ≡ some b
  pub base64_law : (n : ℕ) (b : Bytes) → IsBlock n b → k.decode_base64 (k.encode_base64 b) ≡ some b

-- The contents of an invite before they are written as text.
pub record Parts : Type 0 where
  pub v : ℕ
  pub jti : Bytes
  pub uuid : Bytes
  pub device : Bytes
  pub eph : Bytes
  pub ts : ℕ
  pub sig : Bytes
  pub server : Bytes
  pub un : Option Bytes
  pub ttl : ℕ

abbrev pub invite_of : Codecs → Parts → Invite
invite_of k p = record {
  v = p.v;
  jti = k.show_uuid p.jti;
  uuid = k.show_uuid p.uuid;
  device_id = k.encode_hex p.device;
  server = p.server;
  eph_key = if leb p.v 3 then k.encode_base64 p.eph else [];
  ts = pos p.ts;
  sig = k.encode_base64 p.sig;
  un = p.un;
  ttl = if leb 5 p.v then some p.ttl else none;
}

-- A name as `mint` leaves it: trimmed, and not empty.
abbrev pub IsName : Option Bytes → Type 0
IsName none = Unit {0}
IsName (some u) = (trim u ≡ u) × (1 ≤ length u) × (length u ≤ 255) × (is_utf8 u ≡ true)

pub record IsParts (now : ℤ) (p : Parts) : Type 0 where
  pub jti_block : IsBlock 16 p.jti
  pub uuid_block : IsBlock 16 p.uuid
  pub device_block : IsBlock 16 p.device
  pub eph_block : IsBlock 32 p.eph
  pub sig_block : IsBlock 64 p.sig
  pub ts_bound : p.ts < 2 ^ 63
  pub timely : is_timely now (pos p.ts) ≡ true
  pub server_bound : (1 ≤ length p.server) × (length p.server ≤ 255)
  pub server_valid : is_utf8 p.server ≡ true
  pub un_valid : IsName p.un
  pub ttl_bound : (60 ≤ p.ttl) × (p.ttl < 2 ^ 32)

take_bytes-append : (n : ℕ) (p s : Bytes) → length p ≡ n → take_bytes n (p ++ s) ≡ ok (p, s)
unfolding take_bytes
take_bytes-append n p s h =
    rw (← h) (simp (length-append p s, take-append p s, drop-append p s) (ground arith))

take_u8_cons : (b : ℕ) (s : Bytes) → take_u8 (b ∷ s) ≡ ok (b, s)
unfolding take_u8 take_bytes
take_u8_cons b s = ground arith

take_text-append :
    (n : ℕ) (e : InviteError) (p s : Bytes)
    → length p ≡ n
    → is_utf8 p ≡ true
    → take_text n e (p ++ s) ≡ ok (p, s)
unfolding take_text
take_text-append n e p s h v = rw (take_bytes-append n p s h, v) refl

take_un-un_part :
    (un : Option Bytes) (s : Bytes)
    → IsName un
    → take_un (flags_of un) (un_part un ++ s) ≡ ok (un, s)
unfolding take_un flags_of un_part
take_un-un_part none s h = refl
take_un-un_part (some u) s (_, _, short, valid) =
    rw
      (
        take_u8_cons (length u % 256) (u ++ s),
        take_text-append (length u % 256) un_utf8 u s (omega arith) valid,
      )
      refl

name_of-IsName : (un : Option Bytes) → IsName un → name_of un ≡ un
unfolding name_of
name_of-IsName none h = refl
name_of-IsName (some []) (_, h, _, _) = absurd (omega arith)
name_of-IsName (some (c ∷ u)) (h, _, _, _) = rw h refl

length-u64_be : (n : ℕ) → length (u64_be n) ≡ 8
unfolding u64_be u32_be
length-u64_be n = refl

read_i64-u64_be : (n : ℕ) → n < 2 ^ 63 → read_i64 (u64_be n) ≡ pos n
unfolding u64_be u32_be
read_i64-u64_be n h = ground arith

take_u32 :
    (n : ℕ)
    → n < 2 ^ 32
    → (do ttl ← take_bytes 4; pure (some (read_u32 ttl))) (u32_be n) ≡ ok (some n, [])
unfolding take_bytes u32_be
take_u32 n h = rw (from_u32_be-u32_be n h) refl

is_short-IsName : (un : Option Bytes) → IsName un → is_short un ≡ true
is_short-IsName none h = refl
is_short-IsName (some u) (_, _, h, _) = ground arith

in_range : (n : ℕ) → (1 ≤ n) × (n ≤ 255) → ltb 0 n && leb n 255 ≡ true
in_range n h = ground arith

module _ (k : Codecs) (law : IsCodec k) where
  abbrev eph_bytes : Parts → Bytes
  eph_bytes p = if leb p.v 3 then p.eph else []

  abbrev ttl_bytes : Parts → Bytes
  ttl_bytes p = if leb 5 p.v then u32_be p.ttl else []

  abbrev pub wire : Parts → Bytes
  wire p =
      magic
      ++ (flags_of p.un
          ∷ p.v
          ∷ (p.jti
              ++ (p.uuid
                  ++ (p.device
                      ++ (eph_bytes p
                          ++ (u64_be p.ts
                              ++ (p.sig
                                  ++ ((length p.server % 256)
                                      ∷ (p.server ++ (un_part p.un ++ ttl_bytes p))))))))))

  eph_part-wire :
      (now : ℤ) (p : Parts) → IsParts now p → eph_part k (invite_of k p) ≡ ok (eph_bytes p)
  unfolding eph_part
  eph_part-wire now p h = elim (Bool-cases (leb p.v 3)) [
    | inl e ↦ rw (e, law.base64_law 32 p.eph h.eph_block, h.eph_block.0) refl
    | inr e ↦ rw e refl
  ]

  ttl_part-wire : (p : Parts) → ttl_part (invite_of k p) ≡ ok (ttl_bytes p)
  unfolding ttl_part
  ttl_part-wire p = elim (Bool-cases (leb 5 p.v)) [ inl e ↦ rw e refl | inr e ↦ rw e refl ]

  take_eph-wire :
      (p : Parts) (s : Bytes)
      → length p.eph ≡ 32
      → take_eph k p.v (eph_bytes p ++ s) ≡ ok ((invite_of k p).eph_key, s)
  unfolding take_eph
  take_eph-wire p s h = elim (Bool-cases (leb p.v 3)) [
    | inl e ↦ rw (e, take_bytes-append 32 p.eph s h) refl
    | inr e ↦ rw e refl
  ]

  take_ttl-wire :
      (p : Parts) → p.ttl < 2 ^ 32 → take_ttl p.v (ttl_bytes p) ≡ ok ((invite_of k p).ttl, [])
  unfolding take_ttl
  take_ttl-wire p h = elim (Bool-cases (leb 5 p.v)) [
    | inl e ↦ rw e (take_u32 p.ttl h)
    | inr e ↦ rw e refl
  ]

  pub encode_binary-wire :
      (now : ℤ) (p : Parts) → IsParts now p → encode_binary k (invite_of k p) ≡ ok (wire p)
  unfolding encode_binary
  encode_binary-wire now p h =
      simp
        (
          law.uuid_law p.jti h.jti_block,
          law.uuid_law p.uuid h.uuid_block,
          law.hex_law p.device h.device_block,
          law.base64_law 64 p.sig h.sig_block,
          h.device_block.0,
          h.sig_block.0,
          name_of-IsName p.un h.un_valid,
          eph_part-wire now p h,
          ttl_part-wire p,
          is_short-IsName p.un h.un_valid,
          in_range (length p.server) h.server_bound,
          ts_part,
        )
        refl

  ensure_floor-ttl :
      (v ttl : ℕ)
      → 60 ≤ ttl
      → (s : Bytes) → ensure_floor v (if leb 5 v then some ttl else none) s ≡ ok (tt, s)
  unfolding ensure_floor
  ensure_floor-ttl v ttl h s = ground arith

  read_invite-wire :
      (now : ℤ) (p : Parts) → IsParts now p → read_invite k now (wire p) ≡ ok (invite_of k p, [])
  unfolding read_invite
  read_invite-wire now p h =
      simp
        (
          take_bytes-append 4 magic (drop 4 (wire p)) refl,
          take_u8_cons,
          take_bytes-append 16 p.jti
              (p.uuid
                ++ (p.device
                    ++ (eph_bytes p
                        ++ (u64_be p.ts
                            ++ (p.sig
                                ++ ((length p.server % 256)
                                    ∷ (p.server ++ (un_part p.un ++ ttl_bytes p))))))))
              h.jti_block.0,
          take_bytes-append 16 p.uuid
              (p.device
                ++ (eph_bytes p
                    ++ (u64_be p.ts
                        ++ (p.sig
                            ++ ((length p.server % 256)
                                ∷ (p.server ++ (un_part p.un ++ ttl_bytes p)))))))
              h.uuid_block.0,
          take_bytes-append 16 p.device
              (eph_bytes p
                ++ (u64_be p.ts
                    ++ (p.sig
                        ++ ((length p.server % 256)
                            ∷ (p.server ++ (un_part p.un ++ ttl_bytes p))))))
              h.device_block.0,
          take_eph-wire p
              (u64_be p.ts
                ++ (p.sig
                    ++ ((length p.server % 256) ∷ (p.server ++ (un_part p.un ++ ttl_bytes p)))))
              h.eph_block.0,
          take_bytes-append 8 (u64_be p.ts)
              (p.sig ++ ((length p.server % 256) ∷ (p.server ++ (un_part p.un ++ ttl_bytes p))))
              (length-u64_be p.ts),
          take_bytes-append 64 p.sig
              ((length p.server % 256) ∷ (p.server ++ (un_part p.un ++ ttl_bytes p))) h.sig_block.0,
          take_text-append (length p.server % 256) server_utf8 p.server
              (un_part p.un ++ ttl_bytes p) (omega arith) h.server_valid,
          take_un-un_part p.un (ttl_bytes p) h.un_valid,
          take_ttl-wire p h.ttl_bound.1,
          read_i64-u64_be p.ts h.ts_bound,
          h.timely,
          =b-refl magic,
        )
        (rw (ensure_floor-ttl p.v p.ttl h.ttl_bound.0 []) refl)

  pub decode_binary-wire :
      (now : ℤ) (p : Parts) → IsParts now p → decode_binary k now (wire p) ≡ ok (invite_of k p)
  unfolding decode_binary
  decode_binary-wire now p h = rw (decode_binary, read_invite-wire now p h) refl

  -- With codecs that read back what they write: an invite of 16-byte ids, a 64-byte signature, a
  -- 32-byte key up to version 3, a server of 1 to 255 bytes, no or a trimmed name of 1 to 255
  -- bytes, a time that the reader takes for valid and a lifetime of 60 seconds or more is
  -- encoded without error, and its encoding decodes to the same invite.
  pub decode_binary-encode_binary :
      (now : ℤ) (p : Parts)
      → IsParts now p
      → (out : Bytes) × (encode_binary k (invite_of k p) ≡ ok out)
        × (decode_binary k now out ≡ ok (invite_of k p))
  decode_binary-encode_binary now p h =
      (wire p, encode_binary-wire now p h, decode_binary-wire now p h)
