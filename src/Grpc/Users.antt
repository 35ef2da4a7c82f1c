-- ===== src/Grpc/Users.antt =====
-- src/grpc/users.rs: the search for a user by name.
use construct_tui.Prelude.{
  ℕ, ◌+◌, ◌≡◌, refl, Bool, true, false, ◌&&◌, ◌||◌, Option, none, some, List, [], ◌∷◌, length, leb,
  ◌==◌, if◌then◌else◌, arith, All,
}
use construct_tui.Prelude.Bytes.{Bytes, bytes, ◌=b◌}
use construct_tui.Prelude.Trim.{trim, trim_visible, IsVisible}
use construct_tui.Prelude.Try.{Result, ok, err, ◌>>=◌}
use construct_tui.Grpc.Error.{GrpcError, status}
use construct_tui.Grpc.Client.{GrpcClient, Call, Network}
use construct_tui.Grpc.Client.Unary.{Outcome}
use construct_tui.Grpc.Client.Unary.{unary, as_transport}
use construct_tui.Grpc.Service.{on_result, user_find}

-- `trim_start_matches('@')`
unfoldable pub strip_ats : Bytes → Bytes
strip_ats [] = []
strip_ats (b ∷ s) = let rest = strip_ats s in if b == b'@' then rest else b ∷ s

abbrev pub lower : ℕ → ℕ
lower b = if leb b'A' b && leb b b'Z' then b + 32 else b

unfoldable pub to_ascii_lowercase : Bytes → Bytes
to_ascii_lowercase [] = []
to_ascii_lowercase (b ∷ s) = lower b ∷ to_ascii_lowercase s

unfoldable pub normalize_username : Bytes → Bytes
unfolding trim strip_ats to_ascii_lowercase
normalize_username raw = to_ascii_lowercase (trim (strip_ats (trim raw)))

abbrev pub is_name_byte : ℕ → Bool
is_name_byte b =
    (leb b'a' b && leb b b'z')
    || ((leb b'A' b && leb b b'Z') || ((leb b'0' b && leb b b'9') || b == b'_'))

unfoldable pub all_name_bytes : Bytes → Bool
all_name_bytes [] = true
all_name_bytes (b ∷ s) = is_name_byte b && all_name_bytes s

unfoldable pub username_is_searchable : Bytes → Bool
unfolding all_name_bytes
username_is_searchable s = (leb 3 (length s) && leb (length s) 30) && all_name_bytes s

pub record UserCodec : Type 0 where
  pub find_user_request : Bytes → Bytes
  pub find_user_reply : Bytes → Result Bytes Bytes

abbrev unless_empty : Bytes → Result GrpcError (Option Bytes)
unless_empty user_id = if user_id =b [] then ok none else ok (some user_id)

-- Status 5 is NOT_FOUND.
abbrev pub found : UserCodec → Result GrpcError Bytes → Result GrpcError (Option Bytes)
found k (ok reply) =
    as_transport (bytes "FindUser decode: ") (k.find_user_reply reply) >>= unless_empty
found k (err (status code msg)) = if code == 5 then ok none else err (status code msg)
found k (err e) = err e

module _ (net : Network) (k : UserCodec) where
  unfoldable pub find_user : Bytes → GrpcClient → List Call → Outcome (Option Bytes)
  unfolding normalize_username username_is_searchable unary
  find_user username c calls =
      let name = normalize_username username in
      if username_is_searchable name
      then on_result (found k) (unary net user_find (k.find_user_request name) c calls)
      else (ok none, c, calls)

all_name_bytes-IsVisible : (s : Bytes) → all_name_bytes s ≡ true → All IsVisible s
unfolding all_name_bytes
all_name_bytes-IsVisible [] h = tt
all_name_bytes-IsVisible (b ∷ s) h = (ground arith, all_name_bytes-IsVisible s (ground arith))

strip_ats_name : (s : Bytes) → all_name_bytes s ≡ true → strip_ats s ≡ s
unfolding strip_ats all_name_bytes
strip_ats_name [] h = refl
strip_ats_name (b ∷ s) h = ground arith

to_ascii_lowercase_idem :
    (s : Bytes) → to_ascii_lowercase (to_ascii_lowercase s) ≡ to_ascii_lowercase s
unfolding to_ascii_lowercase
to_ascii_lowercase_idem [] = refl
to_ascii_lowercase_idem (b ∷ s) = ground (arith, to_ascii_lowercase_idem s)

names-searchable : (s : Bytes) → username_is_searchable s ≡ true → all_name_bytes s ≡ true
unfolding username_is_searchable
names-searchable s h = ground arith

normalize_lowercase :
    (t : Bytes)
    → all_name_bytes (to_ascii_lowercase t) ≡ true
    → normalize_username (to_ascii_lowercase t) ≡ to_ascii_lowercase t
unfolding normalize_username
normalize_lowercase t h =
    let s = to_ascii_lowercase t in
    let same = trim_visible s (all_name_bytes-IsVisible s h) in
    rw (same, strip_ats_name s h, same) (to_ascii_lowercase_idem t)

normalize_username_idem :
    (raw : Bytes)
    → username_is_searchable (normalize_username raw) ≡ true
    → normalize_username (normalize_username raw) ≡ normalize_username raw
unfolding normalize_username
normalize_username_idem raw h =
    normalize_lowercase (trim (strip_ats (trim raw))) (names-searchable (normalize_username raw) h)

module _ (net : Network) (k : UserCodec) (c : GrpcClient) (calls : List Call) where
  -- The name that the search screen has normalized and found searchable is, byte for byte, the
  -- name that the server is asked for; and a name that is not searchable is never sent.
  pub find_user_asks :
      (raw : Bytes)
      → let name = normalize_username raw in
        (username_is_searchable name ≡ true
          → find_user net k name c calls
            ≡ on_result (found k) (unary net user_find (k.find_user_request name) c calls))
        × (username_is_searchable name ≡ false → find_user net k raw c calls ≡ (ok none, c, calls))
  unfolding find_user
  find_user_asks raw = (λ h. rw (normalize_username_idem raw h, h) refl, λ h. rw h refl)
