-- ===== src/Bridge/Refresh.antt =====
-- src/bridge.rs: when the access token is refreshed, and what the refresh comes to.
use construct_tui.Prelude.{ℕ, ◌+◌, ◌-◌, ◌^◌, ◌*◌, ◌||◌, some, List, [], ltb, if◌then◌else◌}
use construct_tui.Prelude.Bytes.{Bytes, ◌=b◌}
use construct_tui.Prelude.Int.{ℤ, pos, negsuc, pos_part, diff, wrap_i64}
use construct_tui.Prelude.Try.{Result, ok, err}
use construct_tui.Grpc.Error.{GrpcError, is_unauthenticated, is_permission_denied}
use construct_tui.Grpc.Client.{GrpcClient, Call, Network, set_device_id}
use construct_tui.Grpc.Client.Unary.{Outcome}
use construct_tui.Grpc.Auth.{AuthCodec, refresh_token}

pub data TokenRefreshMsg : Type 0 where
  refreshed : (access_token refresh_token : Bytes) (expires_at : ℤ) → TokenRefreshMsg
  failed_transport : GrpcError → TokenRefreshMsg
  failed_auth : GrpcError → TokenRefreshMsg

abbrev pub refresh_ahead_secs : ℕ
refresh_ahead_secs = 5 * 60

-- `saturating_sub` on i64, of a number that is not negative
unfoldable pub saturating_sub : ℤ → ℕ → ℤ
saturating_sub (pos m) n = diff m n
saturating_sub (negsuc m) n = if ltb (m + n) (2 ^ 63) then negsuc (m + n) else negsuc (2 ^ 63 - 1)

abbrev minus : ℤ → ℕ → ℤ
minus (pos m) n = diff m n
minus (negsuc m) n = negsuc (m + n)

-- The seconds of sleep before the refresh.
unfoldable pub refresh_delay : ℤ → ℕ → ℕ
unfolding saturating_sub
refresh_delay expires_at now =
    pos_part (wrap_i64 (minus (saturating_sub expires_at refresh_ahead_secs) now))

-- The error's text is made of the error.
abbrev message_of : Bytes → Result GrpcError (Bytes × Bytes × ℤ) → TokenRefreshMsg
message_of old (ok (access, new, expires_at)) =
    refreshed access (if new =b [] then old else new) expires_at
message_of old (err e) =
    if is_unauthenticated e || is_permission_denied e then failed_auth e else failed_transport e

module _ (net : Network) (k : AuthCodec) where
  abbrev told : Bytes → Outcome (Bytes × Bytes × ℤ) → TokenRefreshMsg × GrpcClient × List Call
  told old (r, c, calls) = (message_of old r, c, calls)

  unfoldable pub do_refresh :
      Bytes → Bytes → GrpcClient → List Call → TokenRefreshMsg × GrpcClient × List Call
  unfolding is_unauthenticated is_permission_denied
  do_refresh device_id token c calls =
      told token (refresh_token net k token device_id (set_device_id (some device_id) c) calls)
