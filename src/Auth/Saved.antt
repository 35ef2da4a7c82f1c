-- ===== src/Auth/Saved.antt =====
-- src/auth.rs, `authenticate_saved_session` and `try_restore_session`.
use construct_tui.Prelude.{ℕ, Option, none, some, List, ◌++◌}
use construct_tui.Prelude.Bytes.{Bytes}
use construct_tui.Prelude.Decimal.{show_int}
use construct_tui.Prelude.Int.{ℤ, pos, wrap_i64}
use construct_tui.Prelude.Try.{Result, ok, err}
use construct_tui.Grpc.Client.{GrpcClient, Call, Network, set_device_id}
use construct_tui.Grpc.Client.Unary.{Outcome}
use construct_tui.Grpc.Auth.{AuthTokens, AuthCodec, authenticate_device}
use construct_tui.Config.{Session, ConfigError, Libs}
use construct_tui.Config.Fs.{Disk}
use construct_tui.Config.Plain.{load_session, save_session}
use construct_tui.Auth.{
  AuthResult, AuthError, clock_before_epoch, call_failed, config_failed, Crypto, Login, signing_key,
}

unfoldable pub with_tokens : Session → AuthTokens → Session
with_tokens session tokens = record session {
  access_token = tokens.access_token;
  refresh_token = tokens.refresh_token;
  expires_at = tokens.expires_at;
}

abbrev pub authenticated : Session → Outcome AuthTokens → Login AuthResult
authenticated session (err e, c, calls) = (err (call_failed e), c, calls)
authenticated session (ok tokens, c, calls) =
    let r : AuthResult = record {
      user_id = tokens.user_id;
      device_id = session.device_id;
      access_token = tokens.access_token;
      session = some (with_tokens session tokens);
    } in
    (ok r, c, calls)

-- The session on disk after a restore: with the tokens of the login.
abbrev refreshed_from : Option Session → Session → Session
refreshed_from none s = s
refreshed_from (some new) s = record s {
  refresh_token = new.refresh_token;
  expires_at = new.expires_at;
}

unfoldable pub updated : Session → AuthResult → Session
updated session r = refreshed_from r.session (record session { access_token = r.access_token })

abbrev pub Restored : Type 0
Restored = Login (Option AuthResult) × Disk

abbrev pub saved_as :
    Session → AuthResult → GrpcClient → List Call → Result ConfigError (Unit {0}) × Disk → Restored
saved_as s r c calls (err e, d) = ((err (config_failed e), c, calls), d)
saved_as s r c calls (ok u, d) = ((ok (some (record r { session = some s })), c, calls), d)

-- `now` is the clock in seconds since 1970, or none where it stands before.
module _ (x : Crypto) (net : Network) (k : AuthCodec) (now : Option ℕ) where
  abbrev timestamp : ℕ → ℤ
  timestamp seconds = wrap_i64 (pos seconds)

  unfoldable pub signed_in : Session → Bytes → ℕ → GrpcClient → List Call → Login AuthResult
  unfolding authenticate_device with_tokens show_int
  signed_in session key seconds c calls = authenticated session (
      authenticate_device net k session.device_id (timestamp seconds)
        (x.sign key (session.device_id ++ show_int (timestamp seconds)))
        (set_device_id (some session.device_id) c) calls)

  unfoldable pub at_time :
      Session → Result AuthError Bytes → Option ℕ → GrpcClient → List Call → Login AuthResult
  unfolding signed_in
  at_time session (err e) clock c calls = (err e, c, calls)
  at_time session (ok key) none c calls = (err clock_before_epoch, c, calls)
  at_time session (ok key) (some seconds) c calls = signed_in session key seconds c calls

  unfoldable pub authenticate_saved_session : Session → GrpcClient → List Call → Login AuthResult
  unfolding at_time signing_key
  authenticate_saved_session session = at_time session (signing_key x session) now

  module _ (libs : Libs) where
    abbrev pub kept_after : Session → Login AuthResult → Disk → Restored
    kept_after session (err e, c, calls) d = ((err e, c, calls), d)
    kept_after session (ok r, c, calls) d =
        saved_as (updated session r) r c calls (save_session libs (updated session r) d)

    abbrev pub restored :
        Result ConfigError (Option Session) × Disk → GrpcClient → List Call → Restored
    restored (err e, d) c calls = ((err (config_failed e), c, calls), d)
    restored (ok none, d) c calls = ((ok none, c, calls), d)
    restored (ok (some session), d) c calls =
        kept_after session (authenticate_saved_session session c calls) d

    unfoldable pub try_restore_session : Disk → GrpcClient → List Call → Restored
    unfolding load_session save_session updated authenticate_saved_session
    try_restore_session d c calls = restored (load_session libs d) c calls
