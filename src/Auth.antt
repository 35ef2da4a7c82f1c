-- ===== src/Auth.antt =====
-- src/auth.rs: registration, device link, and the restored session. The generated keys, the clock
-- and the signatures, hashes and encodings of the core library are arguments; the pauses between the
-- steps of the registration change nothing.
pub mod Saved
pub mod Restore
pub mod Granted
use construct_tui.Prelude.{ℕ, ◌==◌, Option, none, some, List, [], ◌∷◌, ◌++◌, length, if◌then◌else◌}
use construct_tui.Prelude.Bytes.{Bytes}
use construct_tui.Prelude.Decimal.{show_int}
use construct_tui.Prelude.Int.{ℤ, pos, wrap_i64}
use construct_tui.Prelude.Try.{Result, ok, err}
use construct_tui.Grpc.Error.{GrpcError}
use construct_tui.Grpc.Client.{GrpcClient, Call, Network, set_device_id}
use construct_tui.Grpc.Client.Unary.{Outcome}
use construct_tui.Grpc.Auth.{
  AuthTokens, DevicePublicKeys, AuthCodec, device_public_keys, get_pow_challenge, register_device,
  authenticate_device, confirm_device_link,
}
use construct_tui.Config.{Session, ConfigError, Libs}
use construct_tui.Config.Fs.{Disk}
use construct_tui.Config.Plain.{load_session, save_session}
use construct_tui.App.Events.{
  RegistrationStep, generating_signing_key, generating_identity_key, generating_pre_key,
  signing_pre_key, connecting, solving_pow, registering,
}

pub record AuthResult : Type 0 where
  pub user_id : Bytes
  pub device_id : Bytes
  pub access_token : Bytes
  pub session : Option Session

-- The errors by their context
pub data AuthError : Type 0 where
  bad_signing_key_hex signing_key_length clock_before_epoch pow_panicked : AuthError
  encode_failed : Bytes → AuthError
  call_failed : GrpcError → AuthError
  config_failed : ConfigError → AuthError

pub record KeyPair : Type 0 where
  pub public_key : Bytes
  pub private_key : Bytes

-- The pairs that a registration or a link generates
pub record DeviceKeys : Type 0 where
  pub signing_pair : KeyPair
  pub identity_pair : KeyPair
  pub spk_pair : KeyPair

-- The fields of `CfePrivateKeysV1` that are not constants of the source
pub record PrivateKeys : Type 0 where
  pub ik_priv : Bytes
  pub sk_priv : Bytes
  pub spk_priv : Bytes
  pub spk_sig : Bytes
  pub ik_pub : Bytes
  pub vk_pub : Bytes
  pub spk_pub : Bytes

pub record Crypto : Type 0 where
  pub encode_hex : Bytes → Bytes
  pub decode_hex : Bytes → Option Bytes
  pub sign : (private_key message : Bytes) → Bytes
  pub prologue : Bytes
  pub derive_device_id : Bytes → Bytes
  pub encode_private_keys : PrivateKeys → Result Bytes Bytes
  -- The nonce and the hash, or none where the computation panics
  pub compute_pow : (challenge : Bytes) (difficulty : ℕ) → Option (ℕ × Bytes)

-- What a login comes to, with the client and the calls made
abbrev pub Login : Type 0 → Type 0
Login A = Result AuthError A × GrpcClient × List Call

abbrev six_steps : List RegistrationStep
six_steps =
    generating_signing_key ∷ generating_identity_key ∷ generating_pre_key ∷ signing_pre_key
    ∷ connecting ∷ solving_pow ∷ []

module _ (x : Crypto) where
  abbrev spk_sig_of : DeviceKeys → Bytes
  spk_sig_of keys = x.sign keys.signing_pair.private_key (x.prologue ++ keys.spk_pair.public_key)

  unfoldable pub private_keys : DeviceKeys → PrivateKeys
  private_keys keys = record {
    ik_priv = keys.identity_pair.private_key;
    sk_priv = keys.signing_pair.private_key;
    spk_priv = keys.spk_pair.private_key;
    spk_sig = spk_sig_of keys;
    ik_pub = keys.identity_pair.public_key;
    vk_pub = keys.signing_pair.public_key;
    spk_pub = keys.spk_pair.public_key;
  }

  abbrev device_of : DeviceKeys → Bytes
  device_of keys = x.derive_device_id keys.identity_pair.public_key

  abbrev public_keys_of : DeviceKeys → DevicePublicKeys
  public_keys_of keys =
      device_public_keys keys.signing_pair.public_key keys.identity_pair.public_key
        keys.spk_pair.public_key (spk_sig_of keys)

  unfoldable pub new_session : DeviceKeys → AuthTokens → Session
  new_session keys tokens = record {
    signing_key_hex = x.encode_hex keys.signing_pair.private_key;
    identity_key_hex = x.encode_hex keys.identity_pair.private_key;
    device_id = device_of keys;
    user_id = tokens.user_id;
    access_token = tokens.access_token;
    refresh_token = tokens.refresh_token;
    expires_at = tokens.expires_at;
    spk_key_hex = x.encode_hex keys.spk_pair.private_key;
    spk_sig_hex = x.encode_hex (spk_sig_of keys);
  }

  -- The end of both functions: the tokens of the server and the new keys.
  unfoldable pub granted : DeviceKeys → Outcome AuthTokens → Login AuthResult
  unfolding new_session
  granted keys (err e, c, calls) = (err (call_failed e), c, calls)
  granted keys (ok tokens, c, calls) =
      let r : AuthResult = record {
        user_id = tokens.user_id;
        device_id = device_of keys;
        access_token = tokens.access_token;
        session = some (new_session keys tokens);
      } in
      (ok r, c, calls)

  abbrev key_of : Option Bytes → Result AuthError Bytes
  key_of none = err bad_signing_key_hex
  key_of (some key) = if length key == 32 then ok key else err signing_key_length

  -- The key that signs, from the session
  unfoldable pub signing_key : Session → Result AuthError Bytes
  signing_key session = key_of (x.decode_hex session.signing_key_hex)

  module _ (net : Network) (k : AuthCodec) where
    unfoldable pub link_with :
        Bytes → DeviceKeys → Result Bytes Bytes → GrpcClient → List Call → Login AuthResult
    unfolding granted confirm_device_link device_public_keys
    link_with link_token keys (err e) c calls = (err (encode_failed e), c, calls)
    link_with link_token keys (ok keys_cfe_data) c calls = granted keys (
        confirm_device_link net k link_token (device_of keys) (public_keys_of keys)
          (set_device_id (some (device_of keys)) c) calls)

    unfoldable pub link_existing_device :
        Bytes → DeviceKeys → GrpcClient → List Call → Login AuthResult
    unfolding link_with private_keys
    link_existing_device link_token keys =
        link_with link_token keys (x.encode_private_keys (private_keys keys))

    unfoldable pub solved :
        Option Bytes
        → DeviceKeys
        → Bytes
        → Option (ℕ × Bytes)
        → GrpcClient
        → List Call
        → Login AuthResult × List RegistrationStep
    unfolding granted register_device device_public_keys
    solved username keys challenge none c calls = ((err pow_panicked, c, calls), six_steps)
    solved username keys challenge (some (nonce, hash)) c calls = (
      granted keys (
          register_device net k username (device_of keys) (public_keys_of keys)
            (record { challenge = challenge; nonce = nonce; hash = hash }) c calls),
      six_steps ++ (registering ∷ []),
    )

    unfoldable pub challenged :
        Option Bytes → DeviceKeys → Outcome (Bytes × ℕ) → Login AuthResult × List RegistrationStep
    unfolding solved
    challenged username keys (err e, c, calls) = ((err (call_failed e), c, calls), six_steps)
    challenged username keys (ok (challenge, difficulty), c, calls) =
        solved username keys challenge (x.compute_pow challenge difficulty) c calls

    unfoldable pub register_with :
        Option Bytes
        → DeviceKeys
        → Result Bytes Bytes
        → GrpcClient
        → List Call
        → Login AuthResult × List RegistrationStep
    unfolding challenged get_pow_challenge
    register_with username keys (err e) c calls = (
      (err (encode_failed e), c, calls),
      generating_signing_key ∷ generating_identity_key ∷ generating_pre_key ∷ signing_pre_key ∷ [],
    )
    register_with username keys (ok keys_cfe_data) c calls =
        challenged username keys
          (get_pow_challenge net k (set_device_id (some (device_of keys)) c) calls)

    -- The login, and the steps that were reported.
    unfoldable pub register_new_device :
        Option Bytes
        → DeviceKeys
        → GrpcClient
        → List Call
        → Login AuthResult × List RegistrationStep
    unfolding register_with private_keys
    register_new_device username keys =
        register_with username keys (x.encode_private_keys (private_keys keys))
