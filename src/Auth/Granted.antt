-- ===== src/Auth/Granted.antt =====
-- src/auth.rs: the session of a new device.
use construct_tui.Prelude.{ℕ, Option, none, some, List, [], ◌∷◌, ◌++◌, ◌≡◌, refl, length, map}
use construct_tui.Prelude.Bytes.{Bytes}
use construct_tui.Prelude.Try.{Result, ok, err}
use construct_tui.Grpc.Client.{GrpcClient, Call, Network}
use construct_tui.Grpc.Client.Unary.{Outcome}
use construct_tui.Grpc.Auth.{authenticate_device, AuthTokens, AuthCodec}
use construct_tui.App.Events.{index}
use construct_tui.Config.{Session}
use construct_tui.Auth.{
  AuthResult, Crypto, DeviceKeys, signing_key, granted, new_session, solved, challenged,
  register_with, register_new_device, link_with, link_existing_device,
}
use construct_tui.Auth.Restore.{session_with}
use construct_tui.Prelude.Decimal.{show_int}
use construct_tui.Prelude.Int.{pos, wrap_i64}
use construct_tui.Auth.Saved.{with_tokens, authenticate_saved_session, at_time, signed_in}

module _ (x : Crypto) (hex : (b : Bytes) → x.decode_hex (x.encode_hex b) ≡ some b) where
  -- The session of a result is one of these keys.
  abbrev IsGranted : DeviceKeys → AuthResult → Type 0
  IsGranted keys r =
      (tokens : AuthTokens) × (r.session ≡ some (new_session x keys tokens))
      × (r.access_token ≡ tokens.access_token)

  granted-IsGranted :
      (keys : DeviceKeys) (o : Outcome AuthTokens) (r : AuthResult) (c : GrpcClient)
      (calls : List Call)
      → granted x keys o ≡ (ok r, c, calls)
      → IsGranted keys r
  unfolding granted
  granted-IsGranted keys (err e, c1, calls1) r c calls h = cc
  granted-IsGranted keys (ok tokens, c1, calls1) r c calls h = (tokens, cc, cc)

  new_key :
      (keys : DeviceKeys) (tokens : AuthTokens)
      → length keys.signing_pair.private_key ≡ 32
      → signing_key x (new_session x keys tokens) ≡ ok keys.signing_pair.private_key
  unfolding signing_key new_session
  new_key keys tokens h = rw (hex keys.signing_pair.private_key, h) refl

  module _ (net : Network) (k : AuthCodec) where
    link_with-IsGranted :
        (link_token : Bytes) (keys : DeviceKeys) (blob : Result Bytes Bytes) (r : AuthResult)
        (c0 c : GrpcClient) (calls0 calls : List Call)
        → link_with x net k link_token keys blob c0 calls0 ≡ (ok r, c, calls)
        → IsGranted keys r
    unfolding link_with
    link_with-IsGranted link_token keys (err e) r c0 c calls0 calls h = cc
    link_with-IsGranted link_token keys (ok b) r c0 c calls0 calls h =
        granted-IsGranted keys _ r c calls h

    solved-IsGranted :
        (username : Option Bytes) (keys : DeviceKeys) (challenge : Bytes)
        (solution : Option (ℕ × Bytes)) (r : AuthResult) (c0 c : GrpcClient)
        (calls0 calls : List Call)
        → (solved x net k username keys challenge solution c0 calls0).0 ≡ (ok r, c, calls)
        → IsGranted keys r
          × (map index (solved x net k username keys challenge solution c0 calls0).1
              ≡ 0 ∷ 1 ∷ 2 ∷ 3 ∷ 4 ∷ 5 ∷ 6 ∷ [])
    unfolding solved index
    solved-IsGranted username keys challenge none r c0 c calls0 calls h = cc
    solved-IsGranted username keys challenge (some (n, hash)) r c0 c calls0 calls h =
        (granted-IsGranted keys _ r c calls h, refl)

    challenged-IsGranted :
        (username : Option Bytes) (keys : DeviceKeys) (o : Outcome (Bytes × ℕ)) (r : AuthResult)
        (c : GrpcClient) (calls : List Call)
        → (challenged x net k username keys o).0 ≡ (ok r, c, calls)
        → IsGranted keys r
          × (map index (challenged x net k username keys o).1 ≡ 0 ∷ 1 ∷ 2 ∷ 3 ∷ 4 ∷ 5 ∷ 6 ∷ [])
    unfolding challenged
    challenged-IsGranted username keys (err e, c0, calls0) r c calls h = cc
    challenged-IsGranted username keys (ok (challenge, d), c0, calls0) r c calls h =
        solved-IsGranted username keys challenge _ r c0 c calls0 calls h

    register_with-IsGranted :
        (username : Option Bytes) (keys : DeviceKeys) (blob : Result Bytes Bytes) (r : AuthResult)
        (c0 c : GrpcClient) (calls0 calls : List Call)
        → (register_with x net k username keys blob c0 calls0).0 ≡ (ok r, c, calls)
        → IsGranted keys r
          × (map index (register_with x net k username keys blob c0 calls0).1
              ≡ 0 ∷ 1 ∷ 2 ∷ 3 ∷ 4 ∷ 5 ∷ 6 ∷ [])
    unfolding register_with
    register_with-IsGranted username keys (err e) r c0 c calls0 calls h = cc
    register_with-IsGranted username keys (ok b) r c0 c calls0 calls h =
        challenged-IsGranted username keys _ r c calls h

    -- The call with which a device of these keys signs in, whatever its session else.
    abbrev pub device_call : DeviceKeys → ℕ → GrpcClient → List Call → Outcome AuthTokens
    device_call keys seconds c calls =
        let device = x.derive_device_id keys.identity_pair.public_key in
        authenticate_device net k device (wrap_i64 (pos seconds))
          (x.sign keys.signing_pair.private_key (device ++ show_int (wrap_i64 (pos seconds))))
          (record c { device_id = some device }) calls

    -- What a login gives for the answer of the server.
    abbrev pub login_of : DeviceKeys → Session → AuthTokens → AuthResult
    login_of keys s tokens = record {
      user_id = tokens.user_id;
      device_id = x.derive_device_id keys.identity_pair.public_key;
      access_token = tokens.access_token;
      session = some (session_with s tokens);
    }

    signs_in :
        (keys : DeviceKeys) (r : AuthResult) (seconds : ℕ) (tokens : AuthTokens) (c c' : GrpcClient)
        (calls calls' : List Call)
        → length keys.signing_pair.private_key ≡ 32
        → device_call keys seconds c calls ≡ (ok tokens, c', calls')
        → IsGranted keys r
        → (s : Session) × (r.session ≡ some s)
          × (authenticate_saved_session x net k (some seconds) s c calls
              ≡ (ok (login_of keys s tokens), c', calls'))
    unfolding authenticate_saved_session at_time signed_in new_session with_tokens
    signs_in keys r seconds tokens c c' calls calls' len answer (granted_tokens, session, token) = (
      new_session x keys granted_tokens,
      session,
      rw (new_key keys granted_tokens len, answer) refl,
    )

    -- A registration that succeeded reported all the seven steps in the order of the checklist, and
    -- gives a session with which a later start signs in from whatever client: it signs the id derived
    -- from the generated identity key, with the time, by the generated private key, and where the
    -- server answers this call with tokens the login succeeds with these tokens, in the result and
    -- in its session. The clock stands after 1970, decoding takes back the hexadecimal encoding and
    -- the private key has 32 bytes.
    pub authenticate_saved_session-register_new_device :
        (username : Option Bytes) (keys : DeviceKeys) (r : AuthResult) (c0 c c2 c3 : GrpcClient)
        (calls0 calls calls2 calls3 : List Call) (seconds : ℕ) (tokens : AuthTokens)
        → length keys.signing_pair.private_key ≡ 32
        → (register_new_device x net k username keys c0 calls0).0 ≡ (ok r, c, calls)
        → device_call keys seconds c2 calls2 ≡ (ok tokens, c3, calls3)
        → (map index (register_new_device x net k username keys c0 calls0).1
            ≡ 0 ∷ 1 ∷ 2 ∷ 3 ∷ 4 ∷ 5 ∷ 6 ∷ [])
          × ((s : Session) × (r.session ≡ some s)
              × (authenticate_saved_session x net k (some seconds) s c2 calls2
                  ≡ (ok (login_of keys s tokens), c3, calls3)))
    unfolding register_new_device
    authenticate_saved_session-register_new_device username keys r c0 c c2 c3 calls0 calls calls2
          calls3 seconds tokens len h answer =
        let (is_granted, steps) = register_with-IsGranted username keys _ r c0 c calls0 calls h in
        (steps, signs_in keys r seconds tokens c2 c3 calls2 calls3 len answer is_granted)

    -- The same for the session of a device that was linked to an account.
    authenticate_saved_session-link_existing_device :
        (link_token : Bytes) (keys : DeviceKeys) (r : AuthResult) (c0 c c2 c3 : GrpcClient)
        (calls0 calls calls2 calls3 : List Call) (seconds : ℕ) (tokens : AuthTokens)
        → length keys.signing_pair.private_key ≡ 32
        → link_existing_device x net k link_token keys c0 calls0 ≡ (ok r, c, calls)
        → device_call keys seconds c2 calls2 ≡ (ok tokens, c3, calls3)
        → (s : Session) × (r.session ≡ some s)
          × (authenticate_saved_session x net k (some seconds) s c2 calls2
              ≡ (ok (login_of keys s tokens), c3, calls3))
    unfolding link_existing_device
    authenticate_saved_session-link_existing_device link_token keys r c0 c c2 c3 calls0 calls calls2
          calls3 seconds tokens len h answer =
        signs_in keys r seconds tokens c2 c3 calls2 calls3 len answer
          (link_with-IsGranted link_token keys _ r c0 c calls0 calls h)
