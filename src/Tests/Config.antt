-- ===== src/Tests/Config.antt =====
-- A session on disk, with libraries that change nothing.
use construct_tui.Prelude.{◌≡◌, refl, sym, false, true, none, some, [], ◌∷◌, ◌++◌}
use construct_tui.Prelude.Bytes.{Bytes, bytes}
use construct_tui.Prelude.Int.{pos}
use construct_tui.Prelude.Utf8.{is_utf8}
use construct_tui.Prelude.Try.{ok}
use construct_tui.Config.{Session, SessionKey, Libs, EncryptedSession, encrypted}
use construct_tui.Config.Fs.{Disk, session_path, config_dir, migrate, write_session_file}
use construct_tui.Config.Keys.{
  detect_session, open_session_key, create_session_key, derive_master_key, derive_keys_from_master,
}
use construct_tui.Config.Vault.{save_session_encrypted, load_session_encrypted, sealed_session}
use construct_tui.Config.Vault.Unlock.{Documented, unlock_after_save}

abbrev block12 : Bytes
block12 = bytes "0123456789ab"

abbrev block16 : Bytes
block16 = bytes "0123456789abcdef"

abbrev pub session0 : Session
session0 = record {
  signing_key_hex = bytes "aa";
  identity_key_hex = bytes "bb";
  device_id = bytes "dev";
  user_id = bytes "bob";
  access_token = bytes "at";
  refresh_token = bytes "rt";
  expires_at = pos 1000;
  spk_key_hex = bytes "cc";
  spk_sig_hex = bytes "dd";
}

abbrev sealed0 : EncryptedSession
sealed0 = record { v = 1; salt = block16; nonce = block12; ciphertext = bytes "s" }

abbrev pub libs0 : Libs
libs0 = record {
  session_json = λ s. bytes "s";
  session_json_pretty = λ s. bytes "s";
  parse_session = λ t. some session0;
  encrypted_json = λ e. e.ciphertext;
  parse_encrypted = λ t. some sealed0;
  settings_json = λ s. [];
  parse_settings = λ t. none;
  base64 = λ b. b;
  unbase64 = λ b. some b;
  aes_encrypt = λ k n p. some p;
  aes_decrypt = λ k n c. some c;
  argon2id = λ p s. some p;
  hkdf_expand = λ m i. some (block16 ++ block16);
}

abbrev pub key0 : SessionKey
key0 = record {
  keys = record { session = block16 ++ block16; database = block16 ++ block16 };
  master_salt = block16;
}

s_utf8 : is_utf8 (bytes "s") ≡ true
unfolding is_utf8
s_utf8 = refl

libs0-Documented : Documented libs0 block12 session0 key0
libs0-Documented = record {
  parse-json = refl;
  parse-encrypted = λ c e. cc;
  encrypted_utf8 = λ c e. let u = s_utf8 in cc;
  unbase64-base64 = λ b. refl;
  decrypt-encrypt = λ key nonce p c e. sym e;
}

abbrev pub disk0 : Disk
disk0 = record {
  has_config_dir = true;
  session_enc = none;
  session_json = none;
  config_json = none;
  faults = false ∷ [];
}

abbrev pub disk1 : Disk
disk1 = record {
  has_config_dir = true;
  session_enc = some (bytes "s");
  session_json = none;
  config_json = none;
  faults = [];
}

key0_made : create_session_key libs0 (bytes "secret") block16 ≡ ok key0
unfolding create_session_key derive_master_key derive_keys_from_master
key0_made = refl

disk1_saved : save_session_encrypted libs0 block12 session0 key0 disk0 ≡ (ok tt, disk1)
unfolding save_session_encrypted sealed_session session_path config_dir migrate write_session_file
disk1_saved = refl

unlock_after_save_example :
    (detect_session libs0 disk1 ≡ encrypted)
    × (open_session_key libs0 (bytes "secret") disk1 ≡ (ok (some key0), disk1))
    × (load_session_encrypted libs0 key0 disk1 ≡ (ok (some session0), disk1))
unlock_after_save_example =
    unlock_after_save libs0 (bytes "secret") block16 block12 key0 session0 disk0 disk1
      libs0-Documented refl refl key0_made disk1_saved refl
