-- ===== src/Tests/Streaming.antt =====
-- Runs of the stream worker, and its theorems at concrete inputs.
use construct_tui.Prelude.{
  ℕ, ◌-◌, ◌≤◌, ◌≡◌, ◌≢◌, refl, true, false, Option, none, some, List, [], ◌∷◌, ◌++◌, arith, length,
  drop, concat,
}
use construct_tui.Prelude.Bytes.{Bytes, bytes}
use construct_tui.Prelude.Utf8.{is_utf8}
use construct_tui.Grpc.Framing.{encode_frame}
use construct_tui.Grpc.Pump.{receive}
use construct_tui.Storage.Watermark.{stored_cursor}
use construct_tui.Streaming.{send}
use construct_tui.Streaming.Tracker.{load}
use construct_tui.Streaming.Tracker.Synced.{
  Call, note_call, commit_call, direct_call, run_calls, set_faults, committed-stored,
}
use construct_tui.Streaming.Buffer.{push_pending}
use construct_tui.Streaming.Buffer.Laws.{push_all, push_all_newest}
use construct_tui.Streaming.Incoming.{Response, StreamResponse, of_ack}
use construct_tui.Streaming.Incoming.Route.{
  receive-dispatch_incoming, dispatch_all, Heard, frames_of,
}
use construct_tui.Streaming.Worker.{
  Input, connect, command, woken, waited, got, empty, open_ok, failed, step, run, new_worker,
  flush_pending, Worker, Phase, online, stopped,
}
use construct_tui.Streaming.Worker.Recovery.{HasQueued, worker_recovers}
use construct_tui.Streaming.Worker.Invariant.{IsValid, run-IsValid}
use construct_tui.Streaming.Worker.Flush.{flush_pending_loses}
use construct_tui.Streaming.Worker.Balance.{queued_of}
use construct_tui.Streaming.Worker.Fifo.{accepted_all, IsCalm, run-Fifo}
use construct_tui.Tests.Storage.{marked}

abbrev calls : List Call
calls =
    note_call (bytes "m1") (some (bytes "100-1")) ∷ commit_call (bytes "m1") ∷ direct_call none ∷ []

new_is_text : is_utf8 (bytes "100-1") ≡ true
unfolding is_utf8
new_is_text = refl

committed-stored_example :
    (run_calls calls (set_faults (false ∷ true ∷ []) (load marked))).cursor.committed
    ≡ stored_cursor (run_calls calls (set_faults (false ∷ true ∷ []) (load marked))).storage
committed-stored_example =
    committed-stored calls marked (false ∷ true ∷ []) refl (new_is_text, (tt, (tt, tt)))

push_all_newest_example :
    (length {A = ℕ} (push_all {E = ℕ} (1 ∷ 2 ∷ []) (3 ∷ [])) ≤ 256)
    × (push_all {E = ℕ} (1 ∷ 2 ∷ []) (3 ∷ [])
        ≡ drop (length {A = ℕ} (1 ∷ 2 ∷ 3 ∷ []) - 256) (1 ∷ 2 ∷ 3 ∷ []))
push_all_newest_example = push_all_newest {E = ℕ} (1 ∷ 2 ∷ []) (3 ∷ []) (omega arith)

-- A run: no connection at first, an envelope while backing off, a stream, a failed send.
abbrev inputs : List (Input ℕ)
inputs =
    connect empty none failed 1000
    ∷ woken (some (send 7))
    ∷ connect (got (send 8)) none (open_ok (true ∷ true ∷ []) true) 1000
    ∷ command (some (send 9)) false 1000
    ∷ waited
    ∷ connect empty none (open_ok [] true) 1000
    ∷ []

run_sends : queued_of (run (new_worker (bytes "bob" ∷ [])) inputs).1 ≡ 7 ∷ 8 ∷ 9 ∷ []
unfolding run flush_pending push_pending
run_sends = refl

run-IsValid_example : IsValid (run (new_worker (bytes "bob" ∷ [])) inputs).0
run-IsValid_example = run-IsValid (bytes "bob" ∷ []) inputs

inputs-IsCalm : IsCalm (new_worker (bytes "bob" ∷ [])) inputs
unfolding IsCalm step flush_pending push_pending
inputs-IsCalm = omega arith

run-Fifo_example :
    accepted_all (new_worker (bytes "bob" ∷ [])) inputs
    ≡ queued_of (run (new_worker (bytes "bob" ∷ [])) inputs).1
      ++ (run (new_worker (bytes "bob" ∷ [])) inputs).0.pending
run-Fifo_example = run-Fifo (bytes "bob" ∷ []) inputs inputs-IsCalm

flush_pending_loses_example :
    flush_pending {E = ℕ} (7 ∷ 8 ∷ 9 ∷ []) (true ∷ false ∷ []) ≡ (7 ∷ [], 9 ∷ [])
flush_pending_loses_example = flush_pending_loses {E = ℕ} (7 ∷ []) 8 (9 ∷ []) []

-- A codec of acknowledgements alone, and two of them in one chunk.
abbrev ack_response : ℕ → StreamResponse ℕ
ack_response n = record { response = some (of_ack (n ∷ [])); stream_cursor = none }

abbrev id_of : Option (Response ℕ) → Bytes
id_of (some (of_ack id)) = id
id_of r = []

abbrev encode : StreamResponse ℕ → Bytes
encode r = id_of r.response

abbrev decode : Bytes → Option (StreamResponse ℕ)
decode id = some (record { response = some (of_ack id); stream_cursor = none })

abbrev responses : List (StreamResponse ℕ)
responses = ack_response 3 ∷ ack_response 4 ∷ []

responses_split :
    concat (concat (frames_of encode responses) ∷ []) ≡ concat (frames_of encode responses)
unfolding encode_frame
responses_split = refl

receive-dispatch_incoming_example :
    Heard ℕ responses
      (dispatch_all decode (receive [] (concat (frames_of encode responses) ∷ [])).0)
receive-dispatch_incoming_example =
    receive-dispatch_incoming encode decode responses (concat (frames_of encode responses) ∷ [])
      (omega arith, (omega arith, tt)) (refl, (refl, tt)) responses_split

abbrev lossy : Worker ℕ
lossy = record {
  phase = online;
  pending = 1 ∷ 2 ∷ [];
  subscribed_users = bytes "bob" ∷ [];
  attempt = 0;
}

lossy_alive : ◌≢◌ {A = Phase} lossy.phase stopped
lossy_alive h = cc

worker_recovers_example :
    (inputs : List (Input ℕ)) × (length inputs ≤ 3) × HasQueued (1 ∷ 2 ∷ []) (run lossy inputs)
worker_recovers_example = worker_recovers lossy lossy_alive
