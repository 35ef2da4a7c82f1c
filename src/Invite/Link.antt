-- ===== src/Invite/Link.antt =====
-- src/invite.rs: links around the binary form, and `parse_invite`, which also reads the old JSON form.
use construct_tui.Prelude.{
  ℕ, Bool, false, ◌&&◌, ◌||◌, Option, none, some, [], ◌∷◌, ◌++◌, length, drop, ltb, ◌==◌,
  if◌then◌else◌,
}
use construct_tui.Prelude.Bytes.{Bytes, bytes, starts_with, contains}
use construct_tui.Prelude.Int.{ℤ}
use construct_tui.Prelude.Trim.{trim}
use construct_tui.Prelude.Try.{Result, ok, err, ◌>>=◌}
use construct_tui.Invite.{Invite, Codecs, InviteError, unrecognized}
use construct_tui.Invite.Encode.{magic, encode_binary}
use construct_tui.Invite.Decode.{decode_binary}

abbrev pub https_add : Bytes
https_add = bytes "https://konstruct.cc/add?invite="

abbrev pub scheme_add : Bytes
scheme_add = bytes "konstruct://add?invite="

abbrev pub invite_param : Bytes
invite_param = bytes "invite="

-- What follows the first occurrence of the pattern.
unfoldable pub after_first : Bytes → Bytes → Option Bytes
unfolding starts_with
after_first pattern_bytes [] = if starts_with [] pattern_bytes then some [] else none
after_first pattern_bytes (c ∷ s) =
    let later = after_first pattern_bytes s in
    if starts_with (c ∷ s) pattern_bytes then some (drop (length pattern_bytes) (c ∷ s)) else later

-- What stands before the first such byte.
unfoldable pub until_byte : ℕ → Bytes → Bytes
until_byte b [] = []
until_byte b (c ∷ s) = let rest = until_byte b s in if c == b then [] else c ∷ rest

unfoldable pub extract_invite_param : Bytes → Option Bytes
unfolding after_first until_byte
extract_invite_param raw = elim (after_first invite_param raw) [
  | none ↦ none
  | some rest ↦ some (until_byte b'&' rest)
]

abbrev pub or_default : Option Bytes → Bytes → Bytes
or_default none d = d
or_default (some s) d = s

module _ (k : Codecs) where
  unfoldable pub to_base64url : Invite → Result InviteError Bytes
  unfolding encode_binary
  to_base64url i = do out ← encode_binary k i; ok (k.encode_base64url out)

  unfoldable pub https_link : Invite → Result InviteError Bytes
  unfolding to_base64url
  https_link i = do text ← to_base64url i; ok (https_add ++ text)

  unfoldable pub scheme_link : Invite → Result InviteError Bytes
  unfolding to_base64url
  scheme_link i = do text ← to_base64url i; ok (scheme_add ++ text)

  abbrev pub has_magic : Option Bytes → Bool
  has_magic none = false
  has_magic (some b) = starts_with b magic

  unfoldable pub looks_like_invite : Bytes → Bool
  unfolding trim contains starts_with
  looks_like_invite raw =
      let t = trim raw in
      contains t invite_param
      || (starts_with t (bytes "konstruct://")
          || (contains t (bytes "konstruct.cc/add")
              || (ltb 40 (length t) && has_magic (k.decode_base64url t))))

  abbrev pub or_standard : Bytes → Option Bytes → Option Bytes
  or_standard cleaned none = k.decode_base64 cleaned
  or_standard cleaned (some b) = some b

  unfoldable pub decode_payload : Bytes → Option Bytes
  decode_payload s = or_standard (trim s) (k.decode_base64url (trim s))

  abbrev pub or_unrecognized : Option Invite → Result InviteError Invite
  or_unrecognized none = err unrecognized
  or_unrecognized (some i) = ok i

  abbrev pub read_payload : ℤ → Option Bytes → Result InviteError Invite
  read_payload now none = err unrecognized
  read_payload now (some b) =
      if starts_with b magic then decode_binary k now b else or_unrecognized (k.from_json b)

  unfoldable pub parse_invite : ℤ → Bytes → Result InviteError Invite
  parse_invite now raw =
      read_payload now (decode_payload (or_default (extract_invite_param (trim raw)) (trim raw)))
