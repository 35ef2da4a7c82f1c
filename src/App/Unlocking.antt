-- ===== src/App/Unlocking.antt =====
-- src/app.rs, `handle_unlock`: the passphrase of a saved session.
use construct_tui.Prelude.{◌≡◌, refl, false, some, [], ◌∷◌, ◌++◌, length}
use construct_tui.Prelude.Bytes.{Bytes, ◌=b◌}
use construct_tui.Prelude.Try.{ok}
use construct_tui.Config.{SessionKey}
use construct_tui.Config
use construct_tui.Config.Fs.{Disk}
use construct_tui.Config.Keys.{create_session_key}
use construct_tui.Config.Vault.{save_session_encrypted}
use construct_tui.Config.Vault.Unlock.{Documented, unlock_after_save}
use construct_tui.Screens.Fields.{take_passphrase}
use construct_tui.App.{App, Env, authenticate_saved}
use construct_tui.App.Login.{try_unlock, start_auth_preloaded}

-- Whoever types the passphrase under which the session on disk was saved gets its keys and starts
-- the login with exactly that session, and the typed passphrase is gone from the form.
pub try_unlock_saved :
    (env : Env) (a : App) (salt nonce : Bytes) (sk : SessionKey) (session : Config.Session)
    (d : Disk)
    → Documented env.libs nonce session sk
    → length salt ≡ 16
    → length nonce ≡ 12
    → create_session_key env.libs a.unlock.passphrase salt ≡ ok sk
    → save_session_encrypted env.libs nonce session sk d ≡ (ok tt, a.disk)
    → a.disk.faults ≡ []
    → (a.unlock.passphrase =b []) ≡ false
    → let b = try_unlock env a in
      (b.session_key ≡ some sk)
      × (b.effects ≡ a.effects ++ (authenticate_saved session ∷ []))
      × (b.unlock.passphrase ≡ [])
unfolding try_unlock take_passphrase start_auth_preloaded
try_unlock_saved env a salt nonce sk session d laws hs hn hk saved calm typed =
    let (_, opened, loaded) =
      unlock_after_save env.libs a.unlock.passphrase salt nonce sk session d a.disk laws hs hn hk
        saved calm in
    rw (typed, opened, loaded) (refl, refl, refl)
