-- ===== src/Streaming/Worker/Recovery.antt =====
-- src/streaming.rs, `run_worker`: from any loss of the stream back to a live one.
use construct_tui.Prelude.{
  min, ◌+◌, ◌-◌, ◌%◌, ◌^◌, ◌≡◌, ◌≢◌, refl, true, none, List, [], ◌∷◌, ◌++◌, length, ◌≤◌, arith,
  append_assoc, append-nil, ap, sym, ◌∙◌, ◌⊎◌, inl, inr,
}
use construct_tui.Streaming.Worker.{
  Worker, Phase, connecting, online, backing_off, stopped, Input, connect, empty, frame, waited,
  open_ok, Effect, opening, closed, emit, queued_all, queued_heartbeat, flush_pending, go_online,
  go_offline, opened, open_stream, on_connect, on_frame, start_backoff, at_phase, step, run,
}
use construct_tui.Streaming.{connected, disconnected, reconnecting}

Phase-cases : (p : Phase) → (p ≡ connecting) ⊎ (p ≡ backing_off) ⊎ (p ≡ online) ⊎ (p ≡ stopped)
Phase-cases connecting = inl refl
Phase-cases backing_off = inr (inl refl)
Phase-cases online = inr (inr (inl refl))
Phase-cases stopped = inr (inr (inr refl))

module _ {E : Type 0} where
  flush_pending-all : (es : List E) → flush_pending es [] ≡ (es, [])
  unfolding flush_pending
  flush_pending-all [] = refl
  flush_pending-all (e ∷ es) = rw (flush_pending-all es) refl

  -- The worker is online, with nothing left in its buffer, and its last effects put these into the channel.
  abbrev pub HasQueued : List E → Worker E × List (Effect E) → Type 0
  HasQueued es (w, effects) =
      ((w.phase ≡ online) × (w.pending ≡ []) × (w.attempt ≡ 0))
      × ((front : List (Effect E)) × (effects
            ≡ front ++ (queued_all es ++ (emit connected ∷ queued_heartbeat ∷ []))))

  -- The server accepts the next attempt.
  accepted : Input E
  accepted = connect empty none (open_ok [] true) 0

  connecting_recovers :
      (w : Worker E) → w.phase ≡ connecting → HasQueued w.pending (run w (accepted ∷ []))
  unfolding accepted run step at_phase on_connect open_stream opened go_online
  connecting_recovers w p =
      rw (p, flush_pending-all w.pending)
        (
          (refl, refl, refl),
          (
            opening w.subscribed_users none ∷ [],
            append-nil _
                ∙ ap (λ l. opening w.subscribed_users none ∷ l)
                    (append_assoc (queued_all w.pending) (emit connected ∷ [])
                      (queued_heartbeat ∷ [])),
          ),
        )

  -- Effects before do not matter.
  HasQueued-after :
      (es : List E) (before : List (Effect E)) (s : Worker E × List (Effect E))
      → HasQueued es s
      → HasQueued es (s.0, before ++ s.1)
  HasQueued-after es before (w, effects) (state, (front, e)) = (
    state,
    (
      before ++ front,
      ap (λ l. before ++ l) e
          ∙ sym (
              append_assoc before front
                (queued_all es ++ (emit connected ∷ queued_heartbeat ∷ []))),
    ),
  )

  backing_off_recovers :
      (w : Worker E) → w.phase ≡ backing_off → HasQueued w.pending (run w (waited ∷ accepted ∷ []))
  unfolding run step at_phase
  backing_off_recovers w p = rw p (connecting_recovers (record w { phase = connecting }) refl)

  online_recovers :
      (w : Worker E)
      → w.phase ≡ online
      → HasQueued w.pending (run w (frame none 0 ∷ waited ∷ accepted ∷ []))
  unfolding run step at_phase on_frame go_offline start_backoff
  online_recovers w p =
      let next : Worker E = record w {
        phase = connecting;
        attempt = min (w.attempt + 1) (2 ^ 32 - 1);
      } in
      rw p (
        HasQueued-after w.pending
          (closed ∷ emit disconnected ∷ emit (reconnecting ((w.attempt + 1) % 2 ^ 32) 0) ∷ [])
          (run next (accepted ∷ [])) (connecting_recovers next refl))

  -- From every state of the worker but its end, whatever was lost before, it can recover: there are
  -- at most three inputs after which it is online, its counter is reset and its buffer is empty, and
  -- the last that it did is to put everything that stood in the buffer, in order, into the channel of
  -- the new connection, to report the connection and to put a heartbeat behind.
  pub worker_recovers :
      (w : Worker E)
      → ◌≢◌ {A = Phase} w.phase stopped
      → (inputs : List (Input E)) × (length inputs ≤ 3) × HasQueued w.pending (run w inputs)
  worker_recovers w alive = elim (Phase-cases w.phase) [
    | inl p ↦ (accepted ∷ [], omega arith, connecting_recovers w p)
    | inr (inl p) ↦ (waited ∷ accepted ∷ [], omega arith, backing_off_recovers w p)
    | inr (inr (inl p)) ↦ (frame none 0 ∷ waited ∷ accepted ∷ [], omega arith, online_recovers w p)
    | inr (inr (inr p)) ↦ absurd (alive p)
  ]
