-- ===== src/Auth/Restore.antt =====
-- src/auth.rs, `try_restore_session`: what the disk has after it.
use construct_tui.Prelude.{
  ℕ, Option, none, some, true, List, [], ◌++◌, ◌≡◌, refl, ap, sym, ◌∙◌, arith,
}
use construct_tui.Prelude.Bytes.{Bytes}
use construct_tui.Prelude.Decimal.{show_int}
use construct_tui.Prelude.Int.{pos, wrap_i64}
use construct_tui.Prelude.Utf8.{is_utf8}
use construct_tui.Prelude.Try.{Result, ok, err}
use construct_tui.Grpc.Client.{GrpcClient, Call, Network}
use construct_tui.Grpc.Client.Unary.{Outcome}
use construct_tui.Grpc.Auth.{AuthTokens, AuthCodec, authenticate_device}
use construct_tui.Config.{Session, ConfigError, Libs}
use construct_tui.Config.Fs.{
  Disk, config_dir, migrate, session_path, read_session_file, write_session_file,
}
use construct_tui.Config.Plain.{load_session, save_session}
use construct_tui.Auth.{AuthResult, AuthError, Crypto, Login, signing_key}
use construct_tui.Auth.Saved.{
  with_tokens, updated, authenticated, authenticate_saved_session, at_time, signed_in,
  try_restore_session, restored, kept_after, saved_as,
}

-- The session with the tokens of an answer.
abbrev pub session_with : Session → AuthTokens → Session
session_with old tokens = record {
  signing_key_hex = old.signing_key_hex;
  identity_key_hex = old.identity_key_hex;
  device_id = old.device_id;
  user_id = old.user_id;
  access_token = tokens.access_token;
  refresh_token = tokens.refresh_token;
  expires_at = tokens.expires_at;
  spk_key_hex = old.spk_key_hex;
  spk_sig_hex = old.spk_sig_hex;
}

-- The call of the server for a device and a key at a time: the signed text is the device's id
-- with the decimal time.
abbrev pub login_call :
    Crypto → Network → AuthCodec → Session → Bytes → ℕ → GrpcClient → List Call → Outcome AuthTokens
login_call x net k s key seconds c calls =
    authenticate_device net k s.device_id (wrap_i64 (pos seconds))
      (x.sign key (s.device_id ++ show_int (wrap_i64 (pos seconds))))
      (record c { device_id = some s.device_id }) calls

decoded_key :
    (x : Crypto) (s : Session) (key : Bytes)
    → signing_key x s ≡ ok key
    → x.decode_hex s.signing_key_hex ≡ some key
unfolding signing_key
decoded_key x s key h = ground arith

module _ (libs : Libs) where
  -- The JSON library takes this session's text back, and the text is UTF-8.
  abbrev IsReadable : Session → Type 0
  IsReadable s =
      (libs.parse_session (libs.session_json_pretty s) ≡ some s)
      × (is_utf8 (libs.session_json_pretty s) ≡ true)

  path_found :
      (d : Disk) (content : Bytes)
      → d.has_config_dir ≡ true
      → d.faults ≡ []
      → d.session_enc ≡ some content
      → session_path d ≡ (ok tt, d)
  unfolding session_path config_dir migrate
  path_found d content dir calm e = ground arith

  saved_file :
      (s : Session) (d d' : Disk)
      → save_session libs s d ≡ (ok tt, d')
      → (d'.has_config_dir ≡ true) × (d'.session_enc ≡ some (libs.session_json_pretty s))
  unfolding save_session session_path config_dir migrate write_session_file
  saved_file s d d' h = ground arith

  load_session-save_session :
      (s : Session) (d d' : Disk)
      → IsReadable s
      → save_session libs s d ≡ (ok tt, d')
      → d'.faults ≡ []
      → load_session libs d' ≡ (ok (some s), d')
  unfolding load_session read_session_file
  load_session-save_session s d d' (json, text) h calm =
      let (dir, e) = saved_file s d d' h in
      rw (path_found d' (libs.session_json_pretty s) dir calm e, calm, e, text, json) refl

  module _ (x : Crypto) (net : Network) (k : AuthCodec) (now : Option ℕ) where
    -- The login of a session: its key signs its device and the time, the server answers with tokens.
    abbrev IsLogin : Session → GrpcClient → List Call → AuthTokens → GrpcClient → List Call → Type 0
    IsLogin old c0 calls0 tokens c calls =
        (key : Bytes) × (seconds : ℕ) × (now ≡ some seconds)
        × (x.decode_hex old.signing_key_hex ≡ some key)
        × (login_call x net k old key seconds c0 calls0 ≡ (ok tokens, c, calls))

    -- A login gives the session with the tokens of the server.
    abbrev HasTokens :
        Session → AuthResult → GrpcClient → List Call → GrpcClient → List Call → Type 0
    HasTokens old r c0 calls0 c calls =
        (tokens : AuthTokens) × IsLogin old c0 calls0 tokens c calls
        × (r.session ≡ some (session_with old tokens))
        × (r.access_token ≡ tokens.access_token)
        × (r.user_id ≡ tokens.user_id)

    signed_in-HasTokens :
        (old : Session) (key : Bytes) (seconds : ℕ) (o : Outcome AuthTokens) (r : AuthResult)
        (c0 c : GrpcClient) (calls0 calls : List Call)
        → now ≡ some seconds
        → x.decode_hex old.signing_key_hex ≡ some key
        → login_call x net k old key seconds c0 calls0 ≡ o
        → authenticated old o ≡ (ok r, c, calls)
        → HasTokens old r c0 calls0 c calls
    unfolding with_tokens
    signed_in-HasTokens old key seconds (err e, c1, calls1) r c0 c calls0 calls t hex a h = cc
    signed_in-HasTokens old key seconds (ok tokens, c1, calls1) r c0 c calls0 calls t hex a h =
        (tokens, (key, seconds, t, hex, cc), cc, cc, cc)

    at_time-HasTokens :
        (old : Session) (signing : Result AuthError Bytes) (clock : Option ℕ) (r : AuthResult)
        (c0 c : GrpcClient) (calls0 calls : List Call)
        → signing_key x old ≡ signing
        → now ≡ clock
        → at_time x net k now old signing clock c0 calls0 ≡ (ok r, c, calls)
        → HasTokens old r c0 calls0 c calls
    unfolding at_time signed_in
    at_time-HasTokens old (err e) clock r c0 c calls0 calls s t h = cc
    at_time-HasTokens old (ok key) none r c0 c calls0 calls s t h = cc
    at_time-HasTokens old (ok key) (some seconds) r c0 c calls0 calls s t h =
        signed_in-HasTokens old key seconds _ r c0 c calls0 calls t (decoded_key x old key s) refl h

    updated-HasTokens :
        (old : Session) (r : AuthResult) (tokens : AuthTokens)
        → r.session ≡ some (session_with old tokens)
        → r.access_token ≡ tokens.access_token
        → updated old r ≡ session_with old tokens
    unfolding updated
    updated-HasTokens old r tokens s a = rw (s, a) refl

    saved_as-cases :
        (s : Session) (r1 r : AuthResult) (o : Result ConfigError (Unit {0}) × Disk)
        (c1 c : GrpcClient) (calls1 calls : List Call) (d' : Disk)
        → saved_as s r1 c1 calls1 o ≡ ((ok (some r), c, calls), d')
        → (o ≡ (ok tt, d')) × (record r1 { session = some s } ≡ r) × (c1 ≡ c) × (calls1 ≡ calls)
    saved_as-cases s r1 r (err e, d) c1 c calls1 calls d' h = cc
    saved_as-cases s r1 r (ok tt, d) c1 c calls1 calls d' h = (cc, cc, cc, cc)

    -- What a restore that succeeded leaves on disk.
    abbrev IsRestored :
        Session → AuthResult → GrpcClient → List Call → GrpcClient → List Call → Disk → Type 0
    IsRestored old r c0 calls0 c calls d' =
        (tokens : AuthTokens) × IsLogin old c0 calls0 tokens c calls
        × (r.access_token ≡ tokens.access_token)
        × (r.user_id ≡ tokens.user_id)
        × (r.session ≡ some (session_with old tokens))
        × (load_session libs d' ≡ (ok (some (session_with old tokens)), d'))

    kept_after-IsRestored :
        (old : Session) (l : Login AuthResult) (r : AuthResult) (c0 c : GrpcClient)
        (calls0 calls : List Call) (d d' : Disk)
        → ((r1 : AuthResult) (c1 : GrpcClient) (calls1 : List Call)
            → l ≡ (ok r1, c1, calls1)
            → HasTokens old r1 c0 calls0 c1 calls1)
        → ((s : Session) → r.session ≡ some s → IsReadable s)
        → kept_after x net k now libs old l d ≡ ((ok (some r), c, calls), d')
        → d'.faults ≡ []
        → IsRestored old r c0 calls0 c calls d'
    kept_after-IsRestored old (err e, c1, calls1) r c0 c calls0 calls d d' tokens_of readable h
          calm =
        cc
    kept_after-IsRestored old (ok r1, c1, calls1) r c0 c calls0 calls d d' tokens_of readable h
          calm =
        let (tokens, (key, seconds, t, hex, asked), s, a, u) = tokens_of r1 c1 calls1 refl in
        let e = updated-HasTokens old r1 tokens s a in
        let (written, same, client, all_calls) =
          saved_as-cases (updated old r1) r1 r _ c1 c calls1 calls d' h in
        let saved = sym (ap (λ (q : AuthResult). q.session) same) in
        let loaded =
          load_session-save_session (updated old r1) d d' (readable (updated old r1) saved) written
            calm in
        (
          tokens,
          (key, seconds, t, hex, rw (sym client, sym all_calls) asked),
          sym (ap (λ (q : AuthResult). q.access_token) same) ∙ a,
          sym (ap (λ (q : AuthResult). q.user_id) same) ∙ u,
          saved ∙ ap some e,
          rw (sym e) loaded,
        )

    restored-IsRestored :
        (o : Result ConfigError (Option Session) × Disk) (d' : Disk) (c0 c : GrpcClient)
        (calls0 calls : List Call) (r : AuthResult)
        → ((s : Session) → r.session ≡ some s → IsReadable s)
        → restored x net k now libs o c0 calls0 ≡ ((ok (some r), c, calls), d')
        → d'.faults ≡ []
        → (old : Session) × (o.0 ≡ ok (some old)) × IsRestored old r c0 calls0 c calls d'
    unfolding authenticate_saved_session
    restored-IsRestored (err e, d) d' c0 c calls0 calls r readable h calm = cc
    restored-IsRestored (ok none, d) d' c0 c calls0 calls r readable h calm = cc
    restored-IsRestored (ok (some old), d) d' c0 c calls0 calls r readable h calm = (
      old,
      refl,
      kept_after-IsRestored old _ r c0 c calls0 calls d d'
          (λ r1 c1 calls1 e. at_time-HasTokens old _ now r1 c0 c1 calls0 calls1 refl refl e)
          readable h calm,
    )

    -- A restore that succeeded has signed the device of the session on disk and the time with its
    -- key, and the server answered with tokens. The result carries that session with the tokens of
    -- this answer in the place of its own three and nothing else changed, and as long as no call of
    -- the file system is refused the next start loads exactly it; where the JSON of that session is
    -- UTF-8 and is parsed back to it.
    pub load_session-try_restore_session :
        (d d' : Disk) (c0 c : GrpcClient) (calls0 calls : List Call) (r : AuthResult)
        → ((s : Session) → r.session ≡ some s → IsReadable s)
        → try_restore_session x net k now libs d c0 calls0 ≡ ((ok (some r), c, calls), d')
        → d'.faults ≡ []
        → (old : Session) × ((load_session libs d).0 ≡ ok (some old))
          × IsRestored old r c0 calls0 c calls d'
    unfolding try_restore_session
    load_session-try_restore_session d d' c0 c calls0 calls r readable h calm =
        restored-IsRestored (load_session libs d) d' c0 c calls0 calls r readable h calm
