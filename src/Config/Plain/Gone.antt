-- ===== src/Config/Plain/Gone.antt =====
-- src/config/mod.rs: the disk after a logout.
use construct_tui.Prelude.{true, ◌≡◌, refl, ap, ◌⊎◌, none, some, [], arith}
use construct_tui.Prelude.Bytes.{Bytes}
use construct_tui.Prelude.Try.{ok}
use construct_tui.Config.{absent, Libs}
use construct_tui.Config.Fs.{Disk, exists, config_dir, migrate, session_path}
use construct_tui.Config.Keys.{detect_session, read_master_salt, open_session_key}
use construct_tui.Config.Plain.{clear_session, load_session}

cleared_empty :
    (garbage : Bytes) (d d' : Disk)
    → (d.session_enc ≡ none) ⊎ (d.session_json ≡ none)
    → clear_session garbage d ≡ (ok tt, d')
    → (d'.session_enc ≡ none) × (d'.session_json ≡ none) × (d'.has_config_dir ≡ true)
unfolding clear_session session_path config_dir migrate
cleared_empty garbage d d' one h = ground arith

path_absent :
    (d : Disk)
    → d.has_config_dir ≡ true
    → d.faults ≡ []
    → d.session_enc ≡ none
    → d.session_json ≡ none
    → session_path d ≡ (ok tt, d)
unfolding session_path config_dir migrate
path_absent d dir calm e j = ground arith

-- After a logout that succeeded there is no session left, neither for the start of the program nor
-- for a passphrase or a load; where at most one of the two session files was there before it, the
-- directory is found and no call of the file system is refused afterwards.
pub clear_session_forgets :
    (k : Libs) (garbage passphrase : Bytes) (d d' : Disk)
    → (d.session_enc ≡ none) ⊎ (d.session_json ≡ none)
    → clear_session garbage d ≡ (ok tt, d')
    → d'.faults ≡ []
    → (detect_session k d' ≡ absent)
      × (open_session_key k passphrase d' ≡ (ok none, d'))
      × (load_session k d' ≡ (ok none, d'))
unfolding detect_session open_session_key read_master_salt load_session
clear_session_forgets k garbage passphrase d d' one h calm =
    let (e, j, dir) = cleared_empty garbage d d' one h in
    let path = path_absent d' dir calm e j in
    let gone = ap exists e in
    (ground (arith, path, gone), rw (path, gone) refl, rw (path, gone) refl)

-- Where the old session.json is still beside session.enc, a logout that succeeded leaves it, and
-- the next start takes it for the session; where no call of the file system is refused.
pub clear_session_revives :
    (garbage old : Bytes) (d d' : Disk)
    → exists d.session_enc ≡ true
    → d.session_json ≡ some old
    → clear_session garbage d ≡ (ok tt, d')
    → d'.faults ≡ []
    → (session_path d').1.session_enc ≡ some old
unfolding clear_session session_path config_dir migrate
clear_session_revives garbage old d d' e j h calm = ground arith
