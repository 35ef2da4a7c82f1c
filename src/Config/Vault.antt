-- ===== src/Config/Vault.antt =====
-- src/config/mod.rs: the encrypted session.
use construct_tui.Prelude.{
  ℕ, Bool, true, false, Option, none, some, List, [], ◌∷◌, length, ◌==◌, if◌then◌else◌,
}
use construct_tui.Prelude.Bytes.{Bytes, bytes}
use construct_tui.Prelude.Try.{Result, ok, err, ok_or}
use construct_tui.Config.{
  Session, SessionKey, EncryptedSession, ConfigError, not_encrypted_format, bad_nonce,
  bad_ciphertext, cipher_init_failed, encrypt_failed, decrypt_failed, bad_json, panic, Libs,
}
use construct_tui.Config.Fs.{
  Disk, Fs, ◌>>=◌, ◌>>◌, give, lift, exists, session_path, read_session_file, write_session_file,
}
pub mod Unlock

module _ (k : Libs) where
  abbrev pub encrypted_of : Bytes → SessionKey → Bytes → EncryptedSession
  encrypted_of nonce sk ciphertext = record {
    v = 1;
    salt = k.base64 sk.master_salt;
    nonce = k.base64 nonce;
    ciphertext = k.base64 ciphertext;
  }

  -- The text of the session file, for a random nonce.
  unfoldable pub sealed_session : Bytes → Session → SessionKey → Result ConfigError Bytes
  sealed_session nonce session sk =
      if length sk.keys.session == 32
      then elim (k.aes_encrypt sk.keys.session nonce (k.session_json session)) [
        | none ↦ err encrypt_failed
        | some ciphertext ↦ ok (k.encrypted_json (encrypted_of nonce sk ciphertext))
      ]
      else err cipher_init_failed

  unfoldable pub save_session_encrypted : Bytes → Session → SessionKey → Fs (Unit {0})
  unfolding sealed_session session_path write_session_file
  save_session_encrypted nonce session sk = do
    text ← lift (sealed_session nonce session sk)
    session_path
    write_session_file text

  -- `Nonce::from_slice` panics on a nonce that has not 12 bytes.
  unfoldable pub opened_session : SessionKey → EncryptedSession → Result ConfigError Session
  opened_session sk enc = elim (k.unbase64 enc.nonce) [
    | none ↦ err bad_nonce
    | some nonce ↦ elim (k.unbase64 enc.ciphertext) [
      | none ↦ err bad_ciphertext
      | some ciphertext ↦
          if length sk.keys.session == 32
          then if length nonce == 12
            then elim (k.aes_decrypt sk.keys.session nonce ciphertext) [
              | none ↦ err decrypt_failed
              | some plaintext ↦ ok_or (k.parse_session plaintext) bad_json
            ]
            else err panic
          else err cipher_init_failed
    ]
  ]

  unfoldable pub session_in : SessionKey → Bytes → Result ConfigError Session
  unfolding opened_session
  session_in sk data' = elim (k.parse_encrypted data') [
    | none ↦ err not_encrypted_format
    | some enc ↦ opened_session sk enc
  ]

  abbrev session_if : SessionKey → Bool → Fs (Option Session)
  session_if sk false = give none
  session_if sk true = do
    data' ← read_session_file
    session ← lift (session_in sk data')
    give (some session)

  unfoldable pub load_session_encrypted : SessionKey → Fs (Option Session)
  unfolding session_path read_session_file session_in
  load_session_encrypted sk = session_path >> λ d. session_if sk (exists d.session_enc) d
