-- ===== src/Grpc/Client/Status.antt =====
-- src/grpc/client.rs, `check_grpc_status`.
use construct_tui.Prelude.{
  ℕ, ◌^◌, ◌≡◌, refl, Bool, true, false, ◌&&◌, ◌||◌, Option, none, some, [], ◌∷◌, leb, ◌==◌,
  if◌then◌else◌, arith,
}
use construct_tui.Prelude.Bytes.{Bytes, bytes}
use construct_tui.Prelude.Decimal.{parse_uint}
use construct_tui.Prelude.Dict.{lookup}
use construct_tui.Prelude.Try.{Result, ok, err}
use construct_tui.Grpc.Error.{
  GrpcError, status, unauthenticated, permission_denied, is_unauthenticated, is_permission_denied,
  is_retryable_transport,
}
use construct_tui.Grpc.Client.{Headers}

-- `HeaderValue::to_str`: visible ASCII, the space and the tab.
unfoldable pub is_text : Bytes → Bool
is_text [] = true
is_text (b ∷ s) = (leb 32 b && leb b 126 || b == 9) && is_text s

unfoldable pub to_str : Option Bytes → Option Bytes
unfolding is_text
to_str none = none
to_str (some value) = if is_text value then some value else none

abbrev parse_code : Option Bytes → Option ℕ
parse_code none = none
parse_code (some s) = parse_uint (2 ^ 32) s

unfoldable pub grpc_code : Headers → Option ℕ
unfolding to_str lookup
grpc_code headers = parse_code (to_str (lookup (bytes "grpc-status") headers))

abbrev or_empty : Option Bytes → Bytes
or_empty none = []
or_empty (some s) = s

unfoldable pub grpc_message : Headers → Bytes
unfolding to_str lookup
grpc_message headers = or_empty (to_str (lookup (bytes "grpc-message") headers))

abbrev status_error : ℕ → Bytes → GrpcError
status_error code msg =
    if code == 16
    then unauthenticated msg
    else if code == 7
    then permission_denied msg
    else status code msg

abbrev check_code : Option ℕ → Bytes → Result GrpcError (Unit {0})
check_code none msg = ok tt
check_code (some code) msg = if code == 0 then ok tt else err (status_error code msg)

unfoldable pub check_grpc_status : Headers → Result GrpcError (Unit {0})
unfolding grpc_code grpc_message
check_grpc_status headers = check_code (grpc_code headers) (grpc_message headers)

check_code_classes :
    (o : Option ℕ) (msg : Bytes) (e : GrpcError)
    → check_code o msg ≡ err e
    → (code : ℕ) × (o ≡ some code)
      × ((code == 0) ≡ false)
      × (is_retryable_transport e ≡ false)
      × (is_unauthenticated e ≡ (code == 16))
      × (is_permission_denied e ≡ (code == 7))
unfolding is_retryable_transport is_unauthenticated is_permission_denied
check_code_classes none msg e h = cc
check_code_classes (some code) msg e h =
    (code, refl, ground arith, ground arith, ground arith, ground arith)

-- An error of the status comes from a status header that is a number other than 0. It is never
-- one that is retried, it asks for a new login exactly for 16, and it is a denial exactly for 7.
pub check_grpc_status_classes :
    (headers : Headers) (e : GrpcError)
    → check_grpc_status headers ≡ err e
    → (code : ℕ) × (grpc_code headers ≡ some code)
      × ((code == 0) ≡ false)
      × (is_retryable_transport e ≡ false)
      × (is_unauthenticated e ≡ (code == 16))
      × (is_permission_denied e ≡ (code == 7))
unfolding check_grpc_status
check_grpc_status_classes headers e h =
    check_code_classes (grpc_code headers) (grpc_message headers) e h
