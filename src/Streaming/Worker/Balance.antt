-- ===== src/Streaming/Worker/Balance.antt =====
-- src/streaming.rs, `run_worker`: one step as the balance of the envelopes it takes, queues and keeps.
use construct_tui.Prelude.{
  ℕ, ◌<◌, ◌≡◌, refl, sym, ap, ◌∙◌, Bool, true, false, Option, none, some, List, [], ◌∷◌, ◌++◌,
  arith, length, append-nil,
}
use construct_tui.Prelude.Bytes.{Bytes}
use construct_tui.Streaming.{StreamCmd, send, subscribe, StreamEvent, connected}
use construct_tui.Streaming.Buffer.{push_pending}
use construct_tui.Streaming.Worker.{
  Worker, Phase, connecting, online, backing_off, Input, connect, tick, command, frame, waited,
  woken, Polled, got, empty, Opened, open_ok, Effect, queued, queued_heartbeat, queued_all,
  emit_all, go_online, at_phase, step, emit,
}
use construct_tui.Streaming.Worker.Flush.{AllTrue, flush_pending_all}

module _ {E : Type 0} where
  -- The envelope that a step takes from the command channel, if any.
  abbrev pub accepted : Phase → Input E → List E
  accepted connecting (connect (got (send e)) since outcome delay) = e ∷ []
  accepted online (command (some (send e)) ok delay) = e ∷ []
  accepted backing_off (woken (some (send e))) = e ∷ []
  accepted _ _ = []

  -- The envelopes among the effects.
  abbrev pub queued_of : List (Effect E) → List E
  queued_of [] = []
  queued_of (queued e ∷ fx) = e ∷ queued_of fx
  queued_of (_ ∷ fx) = queued_of fx

  abbrev pub FlushWorks : Input E → Type 0
  FlushWorks (connect polled since (open_ok outcomes ok) delay) = AllTrue outcomes
  FlushWorks _ = Unit

  pub queued_of-append :
      (fx gx : List (Effect E)) → queued_of (fx ++ gx) ≡ queued_of fx ++ queued_of gx
  queued_of-append [] gx = refl
  queued_of-append (queued e ∷ fx) gx = ap (λ (l : List E). e ∷ l) (queued_of-append fx gx)
  queued_of-append (_ ∷ fx) gx = queued_of-append fx gx

  queued_of-queued_all : (es : List E) → queued_of (queued_all es) ≡ es
  queued_of-queued_all [] = refl
  queued_of-queued_all (e ∷ es) = ap (λ (l : List E). e ∷ l) (queued_of-queued_all es)

  queued_of-emit_all : (events : List (StreamEvent E)) → queued_of (emit_all events) ≡ []
  queued_of-emit_all [] = refl
  queued_of-emit_all (e ∷ events) = queued_of-emit_all events

  push_room :
      (pending : List E) (e : E)
      → length pending < 256
      → push_pending pending e ≡ pending ++ (e ∷ [])
  unfolding push_pending
  push_room pending e h = ground arith

  abbrev pub Drained : Phase → List E → Type 0
  Drained online pending = pending ≡ []
  Drained _ pending = Unit

  go_online-queued :
      (w : Worker E) (outcomes : List Bool) (ok : Bool) (delay : ℕ)
      → AllTrue outcomes
      → (queued_of (go_online w outcomes ok delay).1 ≡ w.pending)
        × ((go_online w outcomes ok delay).0.pending ≡ [])
  unfolding go_online
  go_online-queued w outcomes true delay f =
      rw
        (
          flush_pending_all w.pending outcomes f,
          queued_of-append (queued_all w.pending ++ (emit connected ∷ [])) (queued_heartbeat ∷ []),
          queued_of-append (queued_all w.pending) (emit connected ∷ []),
          queued_of-queued_all w.pending,
        )
        (append-nil _ ∙ append-nil _, refl)
  go_online-queued w outcomes false delay f =
      rw
        (
          flush_pending_all w.pending outcomes f,
          queued_of-append (queued_all w.pending ++ (emit connected ∷ [])) _,
          queued_of-append (queued_all w.pending) (emit connected ∷ []),
          queued_of-queued_all w.pending,
        )
        (append-nil _ ∙ append-nil _, refl)

  -- One step: what was waiting and what is accepted is what is queued and what waits then; and a live
  -- stream has nothing waiting.
  pub record Balanced (p : Phase) (w : Worker E) (i : Input E) (w' : Worker E)
      (fx : List (Effect E)) : Type 0 where
    pub kept : w.pending ++ accepted p i ≡ queued_of fx ++ w'.pending
    pub drained : Drained w'.phase w'.pending

  -- The steps that leave the buffer alone.
  quiet :
      (p : Phase) (w : Worker E) (i : Input E) (w' : Worker E) (fx : List (Effect E))
      → accepted p i ≡ []
      → queued_of fx ≡ []
      → w'.pending ≡ w.pending
      → Drained w'.phase w'.pending
      → Balanced p w i w' fx
  quiet p w i w' fx a b c d = record { kept = rw (a, b, c) (append-nil w.pending); drained = d }

  Drained-go_online :
      (w : Worker E) (outcomes : List Bool) (ok : Bool) (delay : ℕ)
      → AllTrue outcomes
      → Drained (go_online w outcomes ok delay).0.phase (go_online w outcomes ok delay).0.pending
  unfolding go_online
  Drained-go_online w outcomes true delay f = rw (flush_pending_all w.pending outcomes f) refl
  Drained-go_online w outcomes false delay f = tt

  connect-Balanced :
      (w : Worker E) (polled : Polled E) (since : Option Bytes) (outcome : Opened) (delay : ℕ)
      → FlushWorks (connect polled since outcome delay)
      → length w.pending < 256
      → Balanced connecting w
          (connect polled since outcome delay)
          (at_phase connecting w (connect polled since outcome delay)).0
          (at_phase connecting w (connect polled since outcome delay)).1
  unfolding at_phase
  connect-Balanced w (got (send e)) since (open_ok outcomes ok) delay f room =
      let w' : Worker E = record w { pending = push_pending w.pending e } in
      let (all_queued, nothing_left) = go_online-queued w' outcomes ok delay f in
      record {
        kept =
            rw (all_queued, nothing_left)
              (sym (append-nil (push_pending w.pending e) ∙ push_room w.pending e room));
        drained = Drained-go_online w' outcomes ok delay f;
      }
  connect-Balanced w (got (send e)) since outcome delay f room = record {
    kept = sym (push_room w.pending e room);
    drained = tt;
  }
  connect-Balanced w (got (subscribe ids c)) since (open_ok outcomes ok) delay f room =
      let w' : Worker E = record w { subscribed_users = ids } in
      let (all_queued, nothing_left) = go_online-queued w' outcomes ok delay f in
      record {
        kept = rw (all_queued, nothing_left) refl;
        drained = Drained-go_online w' outcomes ok delay f;
      }
  connect-Balanced w empty since (open_ok outcomes ok) delay f room =
      let (all_queued, nothing_left) = go_online-queued w outcomes ok delay f in
      record {
        kept = rw (all_queued, nothing_left) refl;
        drained = Drained-go_online w outcomes ok delay f;
      }
  connect-Balanced w polled since outcome delay f room = quiet connecting w _ _ _ refl refl refl tt

  command-Balanced :
      (w : Worker E) (c : Option (StreamCmd E)) (ok : Bool) (delay : ℕ)
      → length w.pending < 256
      → w.phase ≡ online
      → w.pending ≡ []
      → Balanced online w
          (command c ok delay)
          (at_phase online w (command c ok delay)).0
          (at_phase online w (command c ok delay)).1
  unfolding at_phase
  command-Balanced w (some (send e)) true delay room here d = record {
    kept = rw d refl;
    drained = rw here d;
  }
  command-Balanced w (some (send e)) false delay room here d = record {
    kept = sym (push_room w.pending e room);
    drained = tt;
  }
  command-Balanced w (some (subscribe ids c)) true delay room here d =
      quiet online w _ _ _ refl refl refl (rw here d)
  command-Balanced w (some (subscribe ids c)) false delay room here d =
      quiet online w _ _ _ refl refl refl tt
  command-Balanced w c ok delay room here d = quiet online w _ _ _ refl refl refl tt

  woken-Balanced :
      (w : Worker E) (c : Option (StreamCmd E))
      → length w.pending < 256
      → Balanced backing_off w
          (woken c)
          (at_phase backing_off w (woken c)).0
          (at_phase backing_off w (woken c)).1
  unfolding at_phase
  woken-Balanced w (some (send e)) room = record {
    kept = sym (push_room w.pending e room);
    drained = tt;
  }
  woken-Balanced w c room = quiet backing_off w _ _ _ refl refl refl tt

  at_phase-Balanced :
      (p : Phase) (w : Worker E) (i : Input E)
      → w.phase ≡ p
      → FlushWorks i
      → length w.pending < 256
      → Drained p w.pending
      → Balanced p w i (at_phase p w i).0 (at_phase p w i).1
  at_phase-Balanced connecting w (connect polled since outcome delay) here f room d =
      connect-Balanced w polled since outcome delay f room
  at_phase-Balanced online w (command c ok delay) here f room d =
      command-Balanced w c ok delay room here d
  at_phase-Balanced backing_off w (woken c) here f room d = woken-Balanced w c room
  at_phase-Balanced online w (tick true delay) here f room d =
      unfold at_phase in quiet online w _ _ _ refl refl refl (rw here d)
  at_phase-Balanced online w (tick false delay) here f room d =
      unfold at_phase in quiet online w _ _ _ refl refl refl tt
  at_phase-Balanced online w (frame none delay) here f room d =
      unfold at_phase in quiet online w _ _ _ refl refl refl tt
  at_phase-Balanced online w (frame (some events) delay) here f room d =
      unfold at_phase in quiet online w _ _ _ refl (queued_of-emit_all events) refl (rw here d)
  at_phase-Balanced backing_off w waited here f room d =
      unfold at_phase in quiet backing_off w _ _ _ refl refl refl tt
  at_phase-Balanced p w i here f room d =
      unfold at_phase in quiet p w _ _ _ refl refl refl (rw here d)

  pub step-Balanced :
      (w : Worker E) (i : Input E)
      → FlushWorks i
      → length w.pending < 256
      → Drained w.phase w.pending
      → Balanced w.phase w i (step w i).0 (step w i).1
  unfolding step
  step-Balanced w i f room d = at_phase-Balanced w.phase w i refl f room d
