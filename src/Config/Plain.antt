-- ===== src/Config/Plain.antt =====
-- src/config/mod.rs: the session without encryption, its removal, and the configuration.
pub mod Gone
use construct_tui.Prelude.{Bool, true, false, Option, none, some}
use construct_tui.Prelude.Bytes.{Bytes, bytes}
use construct_tui.Prelude.Try.{Result, ok, err, ok_or}
use construct_tui.Config.{Session, AppSettings, direct, bad_json, Libs}
use construct_tui.Config.Fs.{
  Disk, Fs, ◌>>=◌, ◌>>◌, give, lift, call, exists, content_of, config_dir, session_path,
  read_session_file, write_session_file,
}

abbrev pub default_settings : AppSettings
default_settings = record { server = bytes "https://ams.konstruct.cc:443"; transport = direct }

abbrev wipe_if : Bytes → Bool → Fs (Unit {0})
wipe_if garbage false = give tt
wipe_if garbage true = do
  call (ok tt) (λ d. d)
  call (ok tt) (λ d. record d { session_enc = some garbage })
  call (ok tt) (λ d. record d { session_enc = none })

-- `garbage` is as many random bytes as the file has.
unfoldable pub clear_session : Bytes → Fs (Unit {0})
unfolding session_path
clear_session garbage = session_path >> λ d. wipe_if garbage (exists d.session_enc) d

module _ (k : Libs) where
  abbrev settings_if : Bool → Fs AppSettings
  settings_if false = give default_settings
  settings_if true = do
    data' ← λ d. call (content_of d.config_json) (λ e. e) d
    lift (ok_or (k.parse_settings data') bad_json)

  unfoldable pub load_config : Fs AppSettings
  unfolding config_dir
  load_config = config_dir >> λ d. settings_if (exists d.config_json) d

  unfoldable pub save_config : AppSettings → Fs (Unit {0})
  unfolding config_dir
  save_config cfg =
      config_dir >> call (ok tt) (λ d. record d { config_json = some (k.settings_json cfg) })

  abbrev plain_if : Bool → Fs (Option Session)
  plain_if false = give none
  plain_if true = do
    data' ← read_session_file
    session ← lift (ok_or (k.parse_session data') bad_json)
    give (some session)

  unfoldable pub load_session : Fs (Option Session)
  unfolding session_path read_session_file
  load_session = session_path >> λ d. plain_if (exists d.session_enc) d

  unfoldable pub save_session : Session → Fs (Unit {0})
  unfolding session_path write_session_file
  save_session session = session_path >> write_session_file (k.session_json_pretty session)
