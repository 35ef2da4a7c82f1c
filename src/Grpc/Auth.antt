-- ===== src/Grpc/Auth.antt =====
-- src/grpc/auth.rs and src/grpc/invite.rs: the calls of the AuthService, the DeviceLinkService and
-- the InviteService. The protobuf messages are the record `AuthCodec`.
use construct_tui.Prelude.{ℕ, Option, none, some, List, [], if◌then◌else◌}
use construct_tui.Prelude.Bytes.{Bytes, bytes, ◌=b◌}
use construct_tui.Prelude.Int.{ℤ}
use construct_tui.Prelude.Try.{Result, ok, err, ok_or}
use construct_tui.Grpc.Error.{GrpcError, transport}
use construct_tui.Grpc.Client.{GrpcClient, Call, Network}
use construct_tui.Grpc.Client.Unary.{Outcome}
use construct_tui.Grpc.Service.{
  rpc, auth_pow_challenge, auth_register, auth_authenticate, auth_refresh, device_confirm_link,
  invite_accept,
}
use construct_tui.Invite.{Invite}

pub record AuthTokens : Type 0 where
  pub user_id : Bytes
  pub access_token : Bytes
  pub refresh_token : Bytes
  pub expires_at : ℤ

pub record RefreshReply : Type 0 where
  pub access_token : Bytes
  pub refresh_token : Option Bytes
  pub expires_at : ℤ

pub record DevicePublicKeys : Type 0 where
  pub verifying_key : Bytes
  pub identity_public : Bytes
  pub signed_prekey_public : Bytes
  pub signed_prekey_signature : Bytes
  pub crypto_suite : Bytes

-- The solution of a proof of work, with the challenge it answers.
pub record PowSolution : Type 0 where
  pub challenge : Bytes
  pub nonce : ℕ
  pub hash : Bytes

pub record AuthCodec : Type 0 where
  pub pow_challenge_request : Bytes
  pub pow_challenge_reply : Bytes → Result Bytes (Bytes × ℕ)
  pub register_request :
      (username : Option Bytes) (device_id : Bytes) (public_keys : DevicePublicKeys)
      (pow : PowSolution)
      → Bytes
  pub authenticate_request : (device_id : Bytes) (timestamp : ℤ) (signature : Bytes) → Bytes
  pub confirm_link_request : (link_token device_id : Bytes) (public_keys : DevicePublicKeys) → Bytes
  pub tokens_reply : Bytes → Result Bytes (Option AuthTokens)
  pub refresh_request : (refresh_token device_id : Bytes) → Bytes
  pub refresh_reply : Bytes → Result Bytes RefreshReply
  pub accept_invite_request : Invite → Bytes
  pub accept_invite_reply : Bytes → Result Bytes Bytes

unfoldable pub tokens_from : Option AuthTokens → Result GrpcError AuthTokens
tokens_from tokens = ok_or tokens (transport (bytes "server returned empty tokens"))

unfoldable pub device_public_keys : (_ _ _ _ : Bytes) → DevicePublicKeys
device_public_keys verifying identity prekey signature = record {
  verifying_key = verifying;
  identity_public = identity;
  signed_prekey_public = prekey;
  signed_prekey_signature = signature;
  crypto_suite = bytes "Curve25519+Ed25519";
}

abbrev non_empty_challenge : Bytes × ℕ → Result GrpcError (Bytes × ℕ)
non_empty_challenge (challenge, difficulty) =
    if challenge =b []
    then err
        (transport (bytes "GetPowChallenge returned an empty challenge (HTTP/2 body missing?)"))
    else ok (challenge, difficulty)

abbrev pub or_default : Option Bytes → Bytes
or_default none = []
or_default (some s) = s

abbrev refreshed : RefreshReply → Result GrpcError (Bytes × Bytes × ℤ)
refreshed r = ok (r.access_token, or_default r.refresh_token, r.expires_at)

abbrev accepted : Bytes → Result GrpcError Bytes
accepted user_id =
    if user_id =b [] then err (transport (bytes "AcceptInvite empty user_id")) else ok user_id

module _ (net : Network) (k : AuthCodec) where
  unfoldable pub get_pow_challenge : GrpcClient → List Call → Outcome (Bytes × ℕ)
  unfolding rpc
  get_pow_challenge =
      rpc net auth_pow_challenge (bytes "GetPowChallenge") k.pow_challenge_request
        k.pow_challenge_reply non_empty_challenge

  unfoldable pub register_device :
      Option Bytes
      → Bytes
      → DevicePublicKeys
      → PowSolution
      → GrpcClient
      → List Call
      → Outcome AuthTokens
  unfolding rpc tokens_from
  register_device username device_id public_keys pow =
      rpc net auth_register (bytes "RegisterDevice")
        (k.register_request username device_id public_keys pow) k.tokens_reply tokens_from

  unfoldable pub authenticate_device :
      Bytes → ℤ → Bytes → GrpcClient → List Call → Outcome AuthTokens
  unfolding rpc tokens_from
  authenticate_device device_id timestamp signature =
      rpc net auth_authenticate (bytes "AuthenticateDevice")
        (k.authenticate_request device_id timestamp signature) k.tokens_reply tokens_from

  unfoldable pub refresh_token :
      Bytes → Bytes → GrpcClient → List Call → Outcome (Bytes × Bytes × ℤ)
  unfolding rpc
  refresh_token token device_id =
      rpc net auth_refresh (bytes "RefreshToken") (k.refresh_request token device_id)
        k.refresh_reply refreshed

  unfoldable pub confirm_device_link :
      Bytes → Bytes → DevicePublicKeys → GrpcClient → List Call → Outcome AuthTokens
  unfolding rpc tokens_from
  confirm_device_link link_token device_id public_keys =
      rpc net device_confirm_link (bytes "ConfirmDeviceLink")
        (k.confirm_link_request link_token device_id public_keys) k.tokens_reply tokens_from

  unfoldable pub accept_invite : Invite → GrpcClient → List Call → Outcome Bytes
  unfolding rpc
  accept_invite invite =
      rpc net invite_accept (bytes "AcceptInvite") (k.accept_invite_request invite)
        k.accept_invite_reply accepted
