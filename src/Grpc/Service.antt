-- ===== src/Grpc/Service.antt =====
-- src/grpc/paths.rs, and what the service calls share: `unary`, then the protobuf decoder, which is
-- a parameter with the text of its errors.
use construct_tui.Prelude.{List, ◌++◌}
use construct_tui.Prelude.Bytes.{Bytes, bytes}
use construct_tui.Prelude.Try.{Result, ◌>>=◌}
use construct_tui.Grpc.Error.{GrpcError}
use construct_tui.Grpc.Client.{GrpcClient, Call, Network}
use construct_tui.Grpc.Client.Unary.{Outcome, unary, as_transport}

abbrev service : Bytes → Bytes
service name = bytes "/shared.proto.services.v1." ++ name

abbrev pub auth_pow_challenge : Bytes
auth_pow_challenge = service (bytes "AuthService/GetPowChallenge")

abbrev pub auth_register : Bytes
auth_register = service (bytes "AuthService/RegisterDevice")

abbrev pub auth_authenticate : Bytes
auth_authenticate = service (bytes "AuthService/AuthenticateDevice")

abbrev pub auth_refresh : Bytes
auth_refresh = service (bytes "AuthService/RefreshToken")

abbrev pub device_confirm_link : Bytes
device_confirm_link = service (bytes "DeviceLinkService/ConfirmDeviceLink")

abbrev pub user_find : Bytes
user_find = service (bytes "UserService/FindUser")

abbrev pub invite_accept : Bytes
invite_accept = service (bytes "InviteService/AcceptInvite")

-- What follows the call, on its result only.
abbrev pub on_result :
    {A B : Type 0} → (Result GrpcError A → Result GrpcError B) → Outcome A → Outcome B
on_result f (r, c, calls) = (f r, c, calls)

abbrev decoded :
    {A : Type 0} → Bytes → (Bytes → Result Bytes A) → Result GrpcError Bytes → Result GrpcError A
decoded name decode r = r >>= λ reply. as_transport (name ++ bytes " decode: ") (decode reply)

module _ (net : Network) {A B : Type 0} where
  -- `unary(path, &req.encode_to_vec()).await?`, the decoder, and the rest of the function.
  unfoldable pub rpc :
      Bytes
      → Bytes
      → Bytes
      → (Bytes → Result Bytes A)
      → (A → Result GrpcError B)
      → GrpcClient
      → List Call
      → Outcome B
  unfolding unary
  rpc path name body decode rest c calls =
      on_result (λ r. decoded name decode r >>= rest) (unary net path body c calls)
