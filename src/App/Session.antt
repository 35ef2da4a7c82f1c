-- ===== src/App/Session.antt =====
-- src/app.rs: the access token and the session in memory, and the jobs that renew them.
use construct_tui.Prelude.{Option, none, some, if◌then◌else◌}
use construct_tui.Prelude.Bytes.{Bytes, bytes}
use construct_tui.Prelude.Int.{ℤ}
use construct_tui.Bridge.Refresh.{TokenRefreshMsg, refreshed, failed_transport, failed_auth}
use construct_tui.Config.{Session, SessionKey}
use construct_tui.Config.Plain.{save_session}
use construct_tui.Config.Vault.{save_session_encrypted}
use construct_tui.Grpc.Client.{set_token}
use construct_tui.App.{App, Env, refresh_now, refresh_at, reauthenticate, emit, say}

abbrev refresh_for : Option Session → App → App
refresh_for none a = a
refresh_for (some s) a = emit (refresh_now s.device_id s.refresh_token) a

unfoldable pub refresh_token_now : App → App
refresh_token_now a = refresh_for a.current_session a

unfoldable pub start_token_refresh : Session → App → App
start_token_refresh s a = emit (refresh_at s.device_id s.refresh_token s.expires_at) a

abbrev reauth_with : Option Session → App → App
reauth_with none a = say (bytes "Device re-auth failed: no session in memory") a
reauth_with (some s) a = emit (reauthenticate s) a

unfoldable pub start_device_reauth : App → App
start_device_reauth a = reauth_with a.current_session a

abbrev renewed : Bytes → Bytes → ℤ → Option Session → Option Session
renewed access refresh expires_at none = none
renewed access refresh expires_at (some s) =
    some (record s { access_token = access; refresh_token = refresh; expires_at = expires_at })

unfoldable pub build_updated_session : Bytes → Bytes → ℤ → App → Option Session
build_updated_session access refresh expires_at a =
    renewed access refresh expires_at a.current_session

-- The session on disk, its result dropped.
abbrev saved : Env → Session → Option SessionKey → App → App
saved env s (some sk) a = record a {
  disk = (save_session_encrypted env.libs env.nonce s sk a.disk).1;
}
saved env s none a =
    if a.no_encrypt then record a { disk = (save_session env.libs s a.disk).1 } else a

unfoldable pub persist_session_background : Env → Session → App → App
unfolding start_token_refresh save_session_encrypted save_session
persist_session_background env s a =
    let started = start_token_refresh s (record a { current_session = some s }) in
    saved env s started.session_key started

abbrev persist_if : Env → Option Session → App → App
persist_if env none a = a
persist_if env (some s) a = persist_session_background env s a

unfoldable pub handle_token_refresh_msg : Env → TokenRefreshMsg → App → App
unfolding build_updated_session persist_session_background start_device_reauth
handle_token_refresh_msg env (refreshed access refresh expires_at) a =
    let set = record a { access_token = access; grpc = set_token (some access) a.grpc } in
    persist_if env (build_updated_session access refresh expires_at set) set
handle_token_refresh_msg env (failed_transport e) a = a
handle_token_refresh_msg env (failed_auth e) a = start_device_reauth a
