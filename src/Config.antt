-- ===== src/Config.antt =====
-- src/config/mod.rs: the session and the configuration on disk. JSON, base64, AES-GCM, Argon2id and
-- HKDF are the record `Libs`; random bytes are arguments.
pub mod Fs
pub mod Keys
pub mod Vault
pub mod Plain
use construct_tui.Prelude.{ℕ, Bool, Option}
use construct_tui.Prelude.Bytes.{Bytes}
use construct_tui.Prelude.Int.{ℤ}

pub record Session : Type 0 where
  pub signing_key_hex : Bytes
  pub identity_key_hex : Bytes
  pub device_id : Bytes
  pub user_id : Bytes
  pub access_token : Bytes
  pub refresh_token : Bytes
  pub expires_at : ℤ
  pub spk_key_hex : Bytes
  pub spk_sig_hex : Bytes

pub record DerivedKeys : Type 0 where
  pub session : Bytes
  pub database : Bytes

pub record SessionKey : Type 0 where
  pub keys : DerivedKeys
  pub master_salt : Bytes

pub data TransportConfig : Type 0 where
  direct : TransportConfig
  obfs4 : (bridge_line : Bytes) → TransportConfig
  obfs4_tls : (bridge_line tls_server_name : Bytes) → TransportConfig
  cdn_front : (cdn_endpoint sni_host real_host : Bytes) → TransportConfig

pub record AppSettings : Type 0 where
  pub server : Bytes
  pub transport : TransportConfig

pub record EncryptedSession : Type 0 where
  pub v : ℕ
  pub salt : Bytes
  pub nonce : Bytes
  pub ciphertext : Bytes

pub data SessionState : Type 0 where
  encrypted plaintext absent : SessionState

-- The errors by their context; `panic` is a call that does not return.
pub data ConfigError : Type 0 where
  no_config_dir refused not_utf8 not_encrypted_format bad_salt bad_nonce bad_ciphertext :
      ConfigError
  salt_length : ℕ → ConfigError
  argon2_failed hkdf_session_failed hkdf_database_failed : ConfigError
  cipher_init_failed encrypt_failed decrypt_failed bad_json panic : ConfigError

pub record Libs : Type 0 where
  pub session_json : Session → Bytes
  pub session_json_pretty : Session → Bytes
  pub parse_session : Bytes → Option Session
  pub encrypted_json : EncryptedSession → Bytes
  pub parse_encrypted : Bytes → Option EncryptedSession
  pub settings_json : AppSettings → Bytes
  pub parse_settings : Bytes → Option AppSettings
  pub base64 : Bytes → Bytes
  pub unbase64 : Bytes → Option Bytes
  pub aes_encrypt : (key nonce plaintext : Bytes) → Option Bytes
  pub aes_decrypt : (key nonce ciphertext : Bytes) → Option Bytes
  pub argon2id : (passphrase salt : Bytes) → Option Bytes
  pub hkdf_expand : (master info : Bytes) → Option Bytes
