-- ===== src/Config/Vault/Unlock.antt =====
-- src/config/mod.rs: a session that is saved under a passphrase and opened again.
use construct_tui.Prelude.{
  true, ◌≡◌, refl, ap, ◌∙◌, some, [], length, arith, inl, inr, Option-cases,
}
use construct_tui.Prelude.Bytes.{Bytes}
use construct_tui.Prelude.Utf8.{is_utf8}
use construct_tui.Prelude.Try.{ok}
use construct_tui.Config.{Session, SessionKey, EncryptedSession, encrypted, Libs}
use construct_tui.Config.Fs.{
  Disk, exists, config_dir, migrate, session_path, read_session_file, write_session_file,
}
use construct_tui.Config.Keys.{
  detect_session, create_session_key, read_master_salt, open_session_key, salt_in,
}
use construct_tui.Config.Vault.{
  encrypted_of, sealed_session, save_session_encrypted, session_in, opened_session,
  load_session_encrypted,
}

-- What the code relies on: JSON gives back this session and its encrypted form, and is UTF-8;
-- base64 and AES-GCM give back what they were given.
pub record Documented (k : Libs) (nonce : Bytes) (session : Session) (sk : SessionKey)
    : Type 0 where
  pub parse-json : k.parse_session (k.session_json session) ≡ some session
  pub parse-encrypted :
      (c : Bytes)
      → k.aes_encrypt sk.keys.session nonce (k.session_json session) ≡ some c
      → k.parse_encrypted (k.encrypted_json (encrypted_of k nonce sk c))
        ≡ some (encrypted_of k nonce sk c)
  pub encrypted_utf8 :
      (c : Bytes)
      → k.aes_encrypt sk.keys.session nonce (k.session_json session) ≡ some c
      → is_utf8 (k.encrypted_json (encrypted_of k nonce sk c)) ≡ true
  pub unbase64-base64 : (b : Bytes) → k.unbase64 (k.base64 b) ≡ some b
  pub decrypt-encrypt :
      (key nonce p c : Bytes)
      → k.aes_encrypt key nonce p ≡ some c
      → k.aes_decrypt key nonce c ≡ some p

-- The disk where the next calls succeed.
abbrev pub IsReady : Disk → Type 0
IsReady d = (d.has_config_dir ≡ true) × (d.faults ≡ [])

pub session_path_present :
    (d : Disk) (text : Bytes) → IsReady d → d.session_enc ≡ some text → session_path d ≡ (ok tt, d)
unfolding session_path config_dir migrate
session_path_present d text (hd, calm) here = ground arith

pub read_session_file_present :
    (d : Disk) (text : Bytes)
    → IsReady d
    → d.session_enc ≡ some text
    → is_utf8 text ≡ true
    → read_session_file d ≡ (ok text, d)
unfolding read_session_file
read_session_file_present d text (hd, calm) here valid = ground arith

module _ (k : Libs) where
  sealed_text :
      (nonce : Bytes) (session : Session) (sk : SessionKey) (text : Bytes)
      → sealed_session k nonce session sk ≡ ok text
      → (ciphertext : Bytes) × (k.aes_encrypt sk.keys.session nonce (k.session_json session)
          ≡ some ciphertext)
        × (length sk.keys.session ≡ 32)
        × (text ≡ k.encrypted_json (encrypted_of k nonce sk ciphertext))
  unfolding sealed_session
  sealed_text nonce session sk text h =
      elim (Option-cases (k.aes_encrypt sk.keys.session nonce (k.session_json session))) [
        | inl e ↦ ground arith
        | inr (c, e) ↦ (c, e, ground arith, ground arith)
      ]

  written_text :
      (text : Bytes) (d d' : Disk)
      → write_session_file text d ≡ (ok tt, d')
      → (d'.session_enc ≡ some text) × (d'.has_config_dir ≡ d.has_config_dir)
  unfolding write_session_file
  written_text text d d' h = ground arith

  path_has_dir :
      (d d' : Disk) (u : Unit {0}) → session_path d ≡ (ok u, d') → d'.has_config_dir ≡ true
  unfolding session_path config_dir migrate
  path_has_dir d d' u h = ground arith

  saved_text :
      (nonce : Bytes) (session : Session) (sk : SessionKey) (d d' : Disk)
      → save_session_encrypted k nonce session sk d ≡ (ok tt, d')
      → (text : Bytes) × (sealed_session k nonce session sk ≡ ok text)
        × (d'.session_enc ≡ some text)
        × (d'.has_config_dir ≡ true)
  unfolding save_session_encrypted
  saved_text nonce session sk d d' h = ground (arith, path_has_dir d)

  module _ (nonce : Bytes) (session : Session) (sk : SessionKey)
      (laws : Documented k nonce session sk) where
    salt_in_text :
        (c : Bytes)
        → k.aes_encrypt sk.keys.session nonce (k.session_json session) ≡ some c
        → length sk.master_salt ≡ 16
        → salt_in k (k.encrypted_json (encrypted_of k nonce sk c)) ≡ ok sk.master_salt
    unfolding salt_in
    salt_in_text c e h =
        ground (arith, laws.parse-encrypted c e, laws.unbase64-base64 sk.master_salt)

    session_in_text :
        (text : Bytes)
        → length nonce ≡ 12
        → sealed_session k nonce session sk ≡ ok text
        → session_in k sk text ≡ ok session
    unfolding session_in opened_session
    session_in_text text h e =
        let (c, enc, size, t) = sealed_text nonce session sk text e in
        ground (
          arith,
          t,
          laws.parse-encrypted c enc,
          laws.unbase64-base64 nonce,
          laws.unbase64-base64 c,
          laws.decrypt-encrypt sk.keys.session nonce (k.session_json session) c enc,
          laws.parse-json,
        )

  -- The file holds this text, and the next calls succeed.
  module _ (d : Disk) (text : Bytes) (ready : IsReady d) (here : d.session_enc ≡ some text)
      (valid : is_utf8 text ≡ true) where
    detect_present :
        (enc : EncryptedSession)
        → k.parse_encrypted text ≡ some enc
        → detect_session k d ≡ encrypted
    unfolding detect_session
    detect_present enc e =
        let found = read_session_file_present d text ready here valid in
        ground (arith, session_path_present d text ready here, ap exists here, found, e)

    open_present :
        (passphrase salt : Bytes) (sk : SessionKey)
        → salt_in k text ≡ ok salt
        → create_session_key k passphrase salt ≡ ok sk
        → open_session_key k passphrase d ≡ (ok (some sk), d)
    unfolding open_session_key read_master_salt
    open_present passphrase salt sk e hk =
        rw
          (
            session_path_present d text ready here,
            ap exists here,
            read_session_file_present d text ready here valid,
            e,
            hk,
          )
          refl

    load_present :
        (sk : SessionKey) (session : Session)
        → session_in k sk text ≡ ok session
        → load_session_encrypted k sk d ≡ (ok (some session), d)
    unfolding load_session_encrypted
    load_present sk session e =
        rw
          (
            session_path_present d text ready here,
            ap exists here,
            read_session_file_present d text ready here valid,
            e,
          )
          refl

  key_salt :
      (passphrase salt : Bytes) (sk : SessionKey)
      → create_session_key k passphrase salt ≡ ok sk
      → sk.master_salt ≡ salt
  unfolding create_session_key
  key_salt passphrase salt sk h = ground arith

  -- A session that was saved under a passphrase and a fresh salt of 16 bytes, with a nonce of 12,
  -- is later found to be encrypted, the passphrase alone gives back the same keys, the one of the
  -- database included, and these open the same session; where no call of the file system is
  -- refused after the save.
  pub unlock_after_save :
      (passphrase salt nonce : Bytes) (sk : SessionKey) (session : Session) (d d' : Disk)
      → Documented k nonce session sk
      → length salt ≡ 16
      → length nonce ≡ 12
      → create_session_key k passphrase salt ≡ ok sk
      → save_session_encrypted k nonce session sk d ≡ (ok tt, d')
      → d'.faults ≡ []
      → (detect_session k d' ≡ encrypted)
        × (open_session_key k passphrase d' ≡ (ok (some sk), d'))
        × (load_session_encrypted k sk d' ≡ (ok (some session), d'))
  unlock_after_save passphrase salt nonce sk session d d' laws hs hn hk saved calm =
      let (text, sealed, here, dir) = saved_text nonce session sk d d' saved in
      let (c, e, _, t) = sealed_text nonce session sk text sealed in
      let valid : is_utf8 text ≡ true = rw t (laws.encrypted_utf8 c e) in
      let same = key_salt passphrase salt sk hk in
      let salted = salt_in_text nonce session sk laws c e (rw same hs) in
      (
        detect_present d' text (dir, calm) here valid (encrypted_of k nonce sk c)
            (rw t (laws.parse-encrypted c e)),
        open_present d' text (dir, calm) here valid passphrase salt sk
            (rw t (salted ∙ ap (λ x. ok x) same)) hk,
        load_present d' text (dir, calm) here valid sk session
            (session_in_text nonce session sk laws text hn sealed),
      )
