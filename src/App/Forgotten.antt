-- ===== src/App/Forgotten.antt =====
-- src/app.rs, `do_logout`: the application after a logout.
use construct_tui.Prelude.{◌≡◌, refl, ap, ◌∙◌, ◌⊎◌, none, [], arith}
use construct_tui.Prelude.Try.{Result, ok}
use construct_tui.Prelude.Bytes.{Bytes, bytes, ◌=b◌}
use construct_tui.Prelude.Dict.{lookup}
use construct_tui.Grpc.Client.{apply_auth_headers}
use construct_tui.Config.{ConfigError, absent}
use construct_tui.Config.Fs.{Fs, Disk}
use construct_tui.Config.Keys.{detect_session, open_session_key}
use construct_tui.Config.Plain.{clear_session, load_session}
use construct_tui.Config.Plain.Gone.{clear_session_forgets}
use construct_tui.App.{App, Env, onboarding_screen}
use construct_tui.App.Login.{do_logout, startup_check}

do_logout-disk :
    (env : Env) (a : App) (d : Disk)
    → clear_session env.garbage a.disk ≡ (ok tt, d)
    → (do_logout env a).disk ≡ d
unfolding do_logout
do_logout-disk env a d cleared = ground arith

startup_absent :
    (env : Env) (b : App)
    → detect_session env.libs b.disk ≡ absent
    → (startup_check env b).screen ≡ onboarding_screen
unfolding startup_check
startup_absent env b gone = rw gone refl

same_disk :
    {A : Type 0} (f : Fs A) (b : App) (d : Disk) (r : Result ConfigError A × Disk)
    → b.disk ≡ d
    → f d ≡ r
    → f b.disk ≡ r
same_disk f b d r e h = ap f e ∙ h

-- After a logout that could clear the disk, where at most one of the two session files was there and
-- no call of the file system is refused later: a program that starts from this disk goes to the
-- onboarding, no passphrase opens a session and no plain one is loaded; the headers of a call of the
-- server carry neither a bearer nor a device; and the application has no session, key, user,
-- database, contact, message or composed text in the fields for them. The remaining fields are not
-- spoken of.
pub do_logout_forgets :
    (env : Env) (a : App) (d : Disk) (passphrase : Bytes)
    → (a.disk.session_enc ≡ none) ⊎ (a.disk.session_json ≡ none)
    → clear_session env.garbage a.disk ≡ (ok tt, d)
    → d.faults ≡ []
    → let b = do_logout env a in
      let headers = apply_auth_headers [] b.grpc.token b.grpc.device_id in
      ((startup_check env b).screen ≡ onboarding_screen)
      × (open_session_key env.libs passphrase b.disk ≡ (ok none, d))
      × (load_session env.libs b.disk ≡ (ok none, d))
      × (lookup (bytes "authorization") headers ≡ none)
      × (lookup (bytes "x-device-id") headers ≡ none)
      × ((b.session_key ≡ none)
          × (b.current_session ≡ none)
          × (b.pending_session ≡ none)
          × (b.our_identity_key ≡ none)
          × (b.user_id ≡ [])
          × (b.read_storage ≡ none))
      × ((b.chat_list.contacts ≡ []) × (b.chat_view.messages ≡ []) × (b.chat_view.compose ≡ []))
unfolding do_logout lookup apply_auth_headers ◌=b◌
do_logout_forgets env a d passphrase one cleared calm =
    let (gone, locked, plain) =
      clear_session_forgets env.libs env.garbage passphrase a.disk d one cleared calm in
    let disk = do_logout-disk env a d cleared in
    (
      startup_absent env (do_logout env a) (rw disk gone),
      same_disk (open_session_key env.libs passphrase) (do_logout env a) d (ok none, d) disk locked,
      same_disk (load_session env.libs) (do_logout env a) d (ok none, d) disk plain,
      rw cleared refl,
      rw cleared refl,
      rw cleared (refl, refl, refl, refl, refl, refl),
      rw cleared (refl, refl, refl),
    )
