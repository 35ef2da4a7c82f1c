-- ===== src/Streaming/Worker.antt =====
-- src/streaming.rs, `run_worker` and `spawn_stream_worker`: one step for each point at which the
-- worker waits. What it waits for (a command, the outcome of opening the stream or of a send, a
-- frame, a tick, the end of a delay) is the input of the step.
pub mod Invariant
pub mod Flush
pub mod Balance
pub mod Recovery
pub mod Fifo
use construct_tui.Prelude.{
  ℕ, zero, suc, ◌+◌, ◌-◌, ◌%◌, ◌^◌, min, Bool, true, false, Option, none, some, List, [], ◌∷◌, ◌++◌,
  if◌then◌else◌,
}
use construct_tui.Prelude.Bytes.{Bytes}
use construct_tui.Streaming.{
  StreamCmd, send, subscribe, close, shutdown, StreamEvent, connected, disconnected, reconnecting,
  auth_required,
}
use construct_tui.Streaming.Buffer.{push_pending}

-- Where the worker stands: before a connection attempt, in the loop of a live stream, in
-- `wait_backoff`, or returned.
pub data Phase : Type 0 where
  connecting online backing_off stopped : Phase

pub record Worker (E : Type 0) : Type 0 where
  pub phase : Phase
  pub pending : List E
  pub subscribed_users : List Bytes
  pub attempt : ℕ

-- What leaves the worker, in order. `queued` is a `send_envelope` that returned `Ok`: it has put the
-- frame into the channel of the connection (src/grpc/stream.rs), from which `pump_task` writes it
-- later. What is still in that channel when the connection ends or is dropped (`closed`) is never
-- written, and the worker is not told.
pub data Effect (E : Type 0) : Type 0 where
  opening : List Bytes → Option Bytes → Effect E
  queued : E → Effect E
  queued_heartbeat : Effect E
  queued_subscribe : List Bytes → Option Bytes → Effect E
  emitted : StreamEvent E → Effect E
  closed : Effect E

-- `cmd_rx.try_recv()`
pub data Polled (E : Type 0) : Type 0 where
  got : StreamCmd E → Polled E
  empty : Polled E
  no_senders : Polled E

-- The outcome of `open_message_stream`. Of an open stream: how each send of the flush ends, true
-- for success (a list that has run out stands for success), and how the first heartbeat does.
pub data Opened : Type 0 where
  open_ok : List Bool → Bool → Opened
  unauthenticated failed : Opened

pub data Input (E : Type 0) : Type 0 where
  connect : Polled E → Option Bytes → Opened → ℕ → Input E
  tick : Bool → ℕ → Input E
  command : Option (StreamCmd E) → Bool → ℕ → Input E
  frame : Option (List (StreamEvent E)) → ℕ → Input E
  waited : Input E
  woken : Option (StreamCmd E) → Input E

abbrev pub Step : Type 0 → Type 0
Step E = Worker E × List (Effect E)

module _ {E : Type 0} where
  abbrev pub emit : StreamEvent E → Effect E
  emit e = emitted e

  -- `run_worker` returns `Ok(())`; `spawn_stream_worker` reports the end.
  stop : Worker E → Step E
  stop w = (record w { phase = stopped }, emit disconnected ∷ [])

  -- The head of `wait_backoff`, up to its `select!`. The delay in milliseconds is random.
  start_backoff : Worker E → ℕ → Step E
  start_backoff w delay = (
    record w { phase = backing_off; attempt = min (w.attempt + 1) (2 ^ 32 - 1) },
    emit (reconnecting ((w.attempt + 1) % 2 ^ 32) delay) ∷ [],
  )

  -- The stream is dropped, and the worker backs off.
  go_offline : Worker E → ℕ → Step E
  unfolding start_backoff
  go_offline w delay =
      let next = start_backoff w delay in (next.0, closed ∷ emit disconnected ∷ next.1)

  -- `while let Some(envelope) = pending.pop_front()`: what was queued, and what is left in the buffer.
  unfoldable pub flush_pending : List E → List Bool → List E × List E
  flush_pending [] outcomes = ([], [])
  flush_pending (e ∷ es) [] = (let (done, left) = flush_pending es [] in (e ∷ done, left))
  flush_pending (e ∷ es) (true ∷ outcomes) =
      (let (done, left) = flush_pending es outcomes in (e ∷ done, left))
  flush_pending (e ∷ es) (false ∷ outcomes) = ([], es)

  abbrev pub queued_all : List E → List (Effect E)
  queued_all [] = []
  queued_all (e ∷ es) = queued e ∷ queued_all es

  -- The flush, the report and the first heartbeat.
  go_online : Worker E → List Bool → Bool → ℕ → Step E
  unfolding go_offline flush_pending
  go_online w outcomes heartbeat_ok delay =
      let flushed = flush_pending w.pending outcomes in
      let w' = record w { phase = online; pending = flushed.1; attempt = 0 } in
      let front = queued_all flushed.0 ++ (emit connected ∷ []) in
      if heartbeat_ok
      then (w', front ++ (queued_heartbeat ∷ []))
      else (let next = go_offline w' delay in (next.0, front ++ next.1))

  opened : Worker E → Opened → ℕ → Step E
  unfolding go_online start_backoff
  opened w (open_ok outcomes heartbeat_ok) delay = go_online w outcomes heartbeat_ok delay
  opened w unauthenticated delay =
      let next = start_backoff w delay in (next.0, emit auth_required ∷ next.1)
  opened w failed delay = start_backoff w delay

  open_stream : Worker E → Option Bytes → Opened → ℕ → Step E
  unfolding opened
  open_stream w since outcome delay =
      let next = opened w outcome delay in (next.0, opening w.subscribed_users since ∷ next.1)

  -- The head of the outer loop, with the command that was polled.
  on_connect : Worker E → Polled E → Option Bytes → Opened → ℕ → Step E
  unfolding stop open_stream
  on_connect w (got shutdown) since outcome delay = stop w
  on_connect w (got close) since outcome delay = stop w
  on_connect w no_senders since outcome delay = stop w
  on_connect w (got (send e)) since outcome delay =
      open_stream (record w { pending = push_pending w.pending e }) since outcome delay
  on_connect w (got (subscribe ids c)) since outcome delay =
      open_stream (record w { subscribed_users = ids }) since outcome delay
  on_connect w empty since outcome delay = open_stream w since outcome delay

  on_tick : Worker E → Bool → ℕ → Step E
  unfolding go_offline
  on_tick w ok delay = if ok then (w, queued_heartbeat ∷ []) else go_offline w delay

  -- A command on the live stream; `ok` is the outcome of the send.
  on_command : Worker E → Option (StreamCmd E) → Bool → ℕ → Step E
  unfolding stop go_offline
  on_command w none ok delay = let next = stop w in (next.0, closed ∷ next.1)
  on_command w (some close) ok delay = let next = stop w in (next.0, closed ∷ next.1)
  on_command w (some shutdown) ok delay = let next = stop w in (next.0, closed ∷ next.1)
  on_command w (some (send e)) ok delay =
      if ok
      then (w, queued e ∷ [])
      else go_offline (record w { pending = push_pending w.pending e }) delay
  on_command w (some (subscribe ids c)) ok delay =
      let w' = record w { subscribed_users = ids } in
      if ok then (w', queued_subscribe ids c ∷ []) else go_offline w' delay

  abbrev emit_all : List (StreamEvent E) → List (Effect E)
  emit_all [] = []
  emit_all (e ∷ es) = emit e ∷ emit_all es

  -- A frame with the events of `dispatch_incoming`, or the end of the stream.
  on_frame : Worker E → Option (List (StreamEvent E)) → ℕ → Step E
  unfolding go_offline
  on_frame w none delay = go_offline w delay
  on_frame w (some events) delay = (w, emit_all events)

  -- The `select!` of `wait_backoff` ends by a command; any but a stop ends the delay.
  on_woken : Worker E → Option (StreamCmd E) → Step E
  unfolding stop
  on_woken w none = stop w
  on_woken w (some shutdown) = stop w
  on_woken w (some close) = stop w
  on_woken w (some (send e)) =
      (record w { phase = connecting; pending = push_pending w.pending e }, [])
  on_woken w (some (subscribe ids c)) =
      (record w { phase = connecting; subscribed_users = ids }, [])

  -- An input that the worker does not wait for at this point leaves it as it is.
  at_phase : Phase → Worker E → Input E → Step E
  unfolding on_connect on_tick on_command on_frame on_woken
  at_phase connecting w (connect polled since outcome delay) =
      on_connect w polled since outcome delay
  at_phase online w (tick ok delay) = on_tick w ok delay
  at_phase online w (command c ok delay) = on_command w c ok delay
  at_phase online w (frame f delay) = on_frame w f delay
  at_phase backing_off w waited = (record w { phase = connecting }, [])
  at_phase backing_off w (woken c) = on_woken w c
  at_phase _ w _ = (w, [])

  unfoldable pub step : Worker E → Input E → Step E
  unfolding at_phase
  step w i = at_phase w.phase w i

  unfoldable pub run : Worker E → List (Input E) → Step E
  unfolding step
  run w [] = (w, [])
  run w (i ∷ is) = let now = step w i in let later = run now.0 is in (later.0, now.1 ++ later.1)

-- The worker as it is spawned.
abbrev pub new_worker : {E : Type 0} → List Bytes → Worker E
new_worker ids = record { phase = connecting; pending = []; subscribed_users = ids; attempt = 0 }
