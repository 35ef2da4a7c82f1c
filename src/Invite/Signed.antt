-- ===== src/Invite/Signed.antt =====
-- src/invite.rs: what a minted invite is signed over, and what its link is read as.
use construct_tui.Prelude.{
  ℕ, ◌≤◌, ◌≡◌, ◌≢◌, refl, true, Option, some, [], ◌∷◌, ◌++◌, drop, All, All-append, arith,
  Option-cases, inl, inr,
}
use construct_tui.Prelude.Bytes.{Bytes, starts_with, starts_with-append}
use construct_tui.Prelude.Decimal.{show_uint, show_int}
use construct_tui.Prelude.Int.{ℤ}
use construct_tui.Prelude.Trim.{IsVisible, trim_visible}
use construct_tui.Prelude.Try.{ok}
use construct_tui.Invite.{Invite, Codecs, canonical_string, bar_join, or_empty}
use construct_tui.Invite.Encode.{magic}
use construct_tui.Invite.RoundTrip.{
  IsCodec, Parts, IsParts, invite_of, wire, encode_binary-wire, decode_binary-wire,
}
use construct_tui.Invite.Link.{
  https_add, after_first, until_byte, extract_invite_param, to_base64url, https_link,
  decode_payload, parse_invite,
}
use construct_tui.Invite.Mint.{Signing, unsigned_invite, mint}

-- The canonical text of version 5.
abbrev canonical5 : Codecs → Invite → ℕ → Bytes
canonical5 k i ttl = bar_join (
    show_uint i.v
    ∷ k.to_lowercase i.jti
    ∷ k.to_lowercase i.uuid
    ∷ i.device_id
    ∷ i.server
    ∷ show_int i.ts
    ∷ or_empty i.un
    ∷ show_uint ttl
    ∷ [])

-- An invite that `mint` returns carries the signature, by the key of the given hex text, of its own
-- canonical text, and that signature verifies. Its lifetime is the one that was asked for, which is
-- at least 60 seconds; it begins at the clock's time, under the new id.
pub mint_verifies :
    (k : Codecs) (g : Signing) (now : ℤ) (new_id id device_id server_url signing_key : Bytes)
    (username : Option Bytes) (ttl : ℕ) (i : Invite)
    → mint k g now new_id id device_id server_url signing_key username ttl ≡ ok i
    → (key text : Bytes) × (k.decode_hex signing_key ≡ some key)
      × (canonical_string k i ≡ ok text)
      × (i.sig ≡ k.encode_base64 (g.sign key text))
      × (g.verify key text (g.sign key text) ≡ true)
      × (i.ttl ≡ some ttl)
      × (60 ≤ ttl)
      × (i.ts ≡ now)
      × (i.jti ≡ new_id)
unfolding mint canonical_string
mint_verifies k g now new_id id device_id server_url signing_key username ttl i e =
    elim (Option-cases (k.parse_uuid id)) [
      | inl n ↦ absurd (ground arith)
      | inr (parsed_id, hp) ↦ elim (Option-cases (k.decode_hex signing_key)) [
        | inl n ↦ absurd (ground arith)
        | inr (key, hk) ↦ (
          key,
          canonical5 k
              (unsigned_invite k g now new_id (k.to_lowercase (k.show_uuid parsed_id))
                (k.to_lowercase device_id) server_url username ttl)
              ttl,
          hk,
          ground arith,
          ground arith,
          ground arith,
          ground arith,
          ground arith,
          ground arith,
          ground arith,
        )
      ]
    ]

-- The alphabet of a link's parameter.
abbrev pub IsUrlChar : ℕ → Type 0
IsUrlChar c = IsVisible c × (c ≢ b'&')

IsUrlChar-IsVisible : (s : Bytes) → All IsUrlChar s → All IsVisible s
IsUrlChar-IsVisible [] h = tt
IsUrlChar-IsVisible (c ∷ s) ((h, n), hs) = (h, IsUrlChar-IsVisible s hs)

until_byte-url : (s : Bytes) → All IsUrlChar s → until_byte b'&' s ≡ s
unfolding until_byte
until_byte-url [] h = refl
until_byte-url (c ∷ s) ((h, n), hs) = ground (arith, until_byte-url s hs)

extract_invite_param-link :
    (s : Bytes) → All IsUrlChar s → extract_invite_param (https_add ++ s) ≡ some s
unfolding extract_invite_param after_first starts_with
extract_invite_param-link s h = rw (until_byte-url s h) refl

https_add-IsVisible : (s : Bytes) → All IsVisible s → All IsVisible (https_add ++ s)
https_add-IsVisible s h = All-append IsVisible https_add s (omega arith) h

module _ (k : Codecs) (law : IsCodec k) where
  parsed :
      (now : ℤ) (p : Parts)
      → IsParts now p
      → k.decode_base64url (k.encode_base64url (wire k law p)) ≡ some (wire k law p)
      → All IsUrlChar (k.encode_base64url (wire k law p))
      → parse_invite k now (https_add ++ k.encode_base64url (wire k law p)) ≡ ok (invite_of k p)
  unfolding parse_invite decode_payload
  parsed now p h back url =
      let text = k.encode_base64url (wire k law p) in
      rw
        (
          trim_visible (https_add ++ text)
              (https_add-IsVisible text (IsUrlChar-IsVisible text url)),
          extract_invite_param-link text url,
          trim_visible text (IsUrlChar-IsVisible text url),
          back,
          starts_with-append magic (drop 4 (wire k law p)),
          decode_binary-wire k law now p h,
        )
        refl

  -- An invite as in the round trip of the binary form, whose encoding has a base64 text in the
  -- alphabet of a link that decodes to it: its link is made without error, and `parse_invite`
  -- reads the same invite from the link.
  pub parse_invite-https_link :
      (now : ℤ) (p : Parts)
      → IsParts now p
      → k.decode_base64url (k.encode_base64url (wire k law p)) ≡ some (wire k law p)
      → All IsUrlChar (k.encode_base64url (wire k law p))
      → (link : Bytes) × (https_link k (invite_of k p) ≡ ok link)
        × (parse_invite k now link ≡ ok (invite_of k p))
  unfolding https_link to_base64url
  parse_invite-https_link now p h back url = (
    https_add ++ k.encode_base64url (wire k law p),
    rw (encode_binary-wire k law now p h) refl,
    parsed now p h back url,
  )
