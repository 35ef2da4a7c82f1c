-- ===== src/Config/Keys.antt =====
-- src/config/mod.rs: what is on disk, and the keys that a passphrase gives.
use construct_tui.Prelude.{Bool, true, false, Option, none, some, length, ◌==◌, if◌then◌else◌}
use construct_tui.Prelude.Bytes.{Bytes, bytes}
use construct_tui.Prelude.Try.{Result, ok, err, ok_or}
use construct_tui.Config.{
  SessionKey, DerivedKeys, SessionState, encrypted, plaintext, absent, ConfigError,
  not_encrypted_format, bad_salt, salt_length, argon2_failed, hkdf_session_failed,
  hkdf_database_failed, Libs,
}
use construct_tui.Config.Fs.{
  Disk, Fs, ◌>>=◌, ◌>>◌, give, lift, exists, session_path, read_session_file,
}

module _ (k : Libs) where
  abbrev state_of : Result ConfigError Bytes → SessionState
  state_of (err e) = absent
  state_of (ok data') = elim (k.parse_encrypted data') [ none ↦ plaintext | some enc ↦ encrypted ]

  abbrev detect_at : Result ConfigError (Unit {0}) × Disk → SessionState
  detect_at (err e, d) = absent
  detect_at (ok u, d) = if exists d.session_enc then state_of (read_session_file d).0 else absent

  unfoldable pub detect_session : Disk → SessionState
  unfolding session_path read_session_file
  detect_session d = detect_at (session_path d)

  unfoldable pub derive_master_key : Bytes → Bytes → Result ConfigError Bytes
  derive_master_key passphrase salt = ok_or (k.argon2id passphrase salt) argon2_failed

  unfoldable pub derive_keys_from_master : Bytes → Result ConfigError DerivedKeys
  derive_keys_from_master master = elim (k.hkdf_expand master (bytes "construct-session-v1")) [
    | none ↦ err hkdf_session_failed
    | some session ↦ elim (k.hkdf_expand master (bytes "construct-database-v1")) [
      | none ↦ err hkdf_database_failed
      | some database ↦ ok (record { session = session; database = database })
    ]
  ]

  unfoldable pub create_session_key : Bytes → Bytes → Result ConfigError SessionKey
  unfolding derive_master_key derive_keys_from_master
  create_session_key passphrase master_salt = elim (derive_master_key passphrase master_salt) [
    | err e ↦ err e
    | ok master ↦ elim (derive_keys_from_master master) [
      | err e ↦ err e
      | ok derived ↦ ok (record { keys = derived; master_salt = master_salt })
    ]
  ]

  -- The salt in the text of the session file.
  unfoldable pub salt_in : Bytes → Result ConfigError Bytes
  salt_in data' = elim (k.parse_encrypted data') [
    | none ↦ err not_encrypted_format
    | some enc ↦ elim (k.unbase64 enc.salt) [
      | none ↦ err bad_salt
      | some salt ↦ if length salt == 16 then ok salt else err (salt_length (length salt))
    ]
  ]

  abbrev salt_if : Bool → Fs (Option Bytes)
  salt_if false = give none
  salt_if true = do data' ← read_session_file; salt ← lift (salt_in data'); give (some salt)

  unfoldable pub read_master_salt : Fs (Option Bytes)
  unfolding session_path read_session_file salt_in
  read_master_salt = session_path >> λ d. salt_if (exists d.session_enc) d

  abbrev key_of : Bytes → Option Bytes → Fs (Option SessionKey)
  key_of passphrase none = give none
  key_of passphrase (some master_salt) = do
    sk ← lift (create_session_key passphrase master_salt)
    give (some sk)

  unfoldable pub open_session_key : Bytes → Fs (Option SessionKey)
  unfolding read_master_salt create_session_key
  open_session_key passphrase = read_master_salt >>= key_of passphrase
