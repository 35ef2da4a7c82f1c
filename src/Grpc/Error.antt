-- ===== src/Grpc/Error.antt =====
-- src/grpc/error.rs: the client's error type and its three classes.
use construct_tui.Prelude.{ℕ, Bool, true, false, ◌==◌}
use construct_tui.Prelude.Bytes.{Bytes}

pub data GrpcError : Type 0 where
  transport : Bytes → GrpcError
  tls : Bytes → GrpcError
  status : ℕ → Bytes → GrpcError
  unauthenticated : Bytes → GrpcError
  permission_denied : Bytes → GrpcError

unfoldable pub is_unauthenticated : GrpcError → Bool
is_unauthenticated (unauthenticated m) = true
is_unauthenticated (status code m) = code == 16
is_unauthenticated _ = false

unfoldable pub is_permission_denied : GrpcError → Bool
is_permission_denied (permission_denied m) = true
is_permission_denied (status code m) = code == 7
is_permission_denied _ = false

unfoldable pub is_retryable_transport : GrpcError → Bool
is_retryable_transport (transport m) = true
is_retryable_transport (tls m) = true
is_retryable_transport _ = false
