-- ===== src/Grpc/Client/Retry.antt =====
-- src/grpc/client.rs: the retry of `unary`.
use construct_tui.Prelude.{ℕ, ◌≡◌, refl, true, false, none, some, List, [], ◌∷◌, ◌++◌, arith}
use construct_tui.Prelude.Bytes.{Bytes}
use construct_tui.Prelude.Try.{ok, err}
use construct_tui.Grpc.Error.{GrpcError}
use construct_tui.Grpc.Client.{GrpcClient, Call, dial, Network, invalidate}
use construct_tui.Grpc.Client.Unary.{
  Outcome, do_unary, ensure, is_transport_error, unary_once, unary, request_on, keep_or_drop,
}

module _ (net : Network) (path body : Bytes) where
  -- The session after one attempt: none, where the error is one of the transport.
  abbrev Dropped : Outcome Bytes → Type 0
  Dropped (result, c, calls) = is_transport_error result ≡ true → c.session ≡ none

  unary_once-Dropped :
      (c : GrpcClient) (calls : List Call) → Dropped (unary_once net path body c calls)
  unfolding unary_once ensure is_transport_error
  unary_once-Dropped c calls = ground arith

  -- When a call ends with an error of the transport, the client has no connection: the next call
  -- dials.
  pub unary_drops :
      (c : GrpcClient) (calls : List Call)
      → is_transport_error (unary net path body c calls).0 ≡ true
      → (unary net path body c calls).1.session ≡ none
  unfolding unary
  unary_drops c calls = ground (
    arith,
    unary_once-Dropped c calls,
    unary_once-Dropped (invalidate (unary_once net path body c calls).1)
        (unary_once net path body c calls).2,
  )

  once_live :
      (c : GrpcClient) (calls : List Call) (n : ℕ)
      → c.session ≡ some n
      → unary_once net path body c calls
        ≡ keep_or_drop
            (do_unary path body (net.exchange calls))
            c
            (calls ++ (request_on path body n c ∷ []))
  unfolding unary_once ensure
  once_live c calls n live = rw live refl

  once_refused :
      (c : GrpcClient) (calls : List Call) (e : GrpcError)
      → net.connect calls ≡ err e
      → unary_once net path body (invalidate c) calls
        ≡ (err e, invalidate c, calls ++ (dial c.host c.port ∷ []))
  unfolding unary_once ensure
  once_refused c calls e he = rw he refl

  once_dialled :
      (c : GrpcClient) (calls : List Call) (m : ℕ)
      → net.connect calls ≡ ok m
      → let calls1 = calls ++ (dial c.host c.port ∷ []) in
        unary_once net path body (invalidate c) calls
        ≡ keep_or_drop
            (do_unary path body (net.exchange calls1))
            (record c { session = some m })
            (calls1 ++ (request_on path body m c ∷ []))
  unfolding unary_once ensure
  once_dialled c calls m hm = rw hm refl

  -- A call on a live connection: an answer, or an error that is none of the transport, is the
  -- result of one request, and the connection stays. After an error of the transport the client
  -- dials; if that fails, this is the result, with no connection. Otherwise the request is sent a
  -- second and last time, on the new connection only, and its outcome is the result.
  pub unary_live :
      (c : GrpcClient) (calls : List Call) (n : ℕ)
      → c.session ≡ some n
      → let calls1 = calls ++ (request_on path body n c ∷ []) in
        let calls2 = calls1 ++ (dial c.host c.port ∷ []) in
        let first = do_unary path body (net.exchange calls) in
        let second = do_unary path body (net.exchange calls2) in
        (is_transport_error first ≡ false → unary net path body c calls ≡ (first, c, calls1))
        × (is_transport_error first ≡ true
            → (e : GrpcError) → net.connect calls1 ≡ err e
            → unary net path body c calls ≡ (err e, invalidate c, calls2))
        × (is_transport_error first ≡ true
            → (m : ℕ) → net.connect calls1 ≡ ok m
            → unary net path body c calls
              ≡ keep_or_drop second
                  (record c { session = some m })
                  (calls2 ++ (request_on path body m c ∷ [])))
  unfolding unary
  unary_live c calls n live =
      let once = once_live c calls n live in
      let calls1 = calls ++ (request_on path body n c ∷ []) in
      (
        λ h. rw (once, h) refl,
        λ h e he. rw (once, h) (once_refused c calls1 e he),
        λ h m hm. rw (once, h) (once_dialled c calls1 m hm),
      )
