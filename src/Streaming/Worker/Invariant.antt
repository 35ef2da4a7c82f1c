-- ===== src/Streaming/Worker/Invariant.antt =====
-- src/streaming.rs, `run_worker`: the invariant of its state.
use construct_tui.Prelude.{
  ℕ, ◌≤◌, ◌^◌, ◌<◌, ◌≡◌, refl, Bool, true, false, some, List, [], ◌∷◌, arith, length,
}
use construct_tui.Prelude.Bytes.{Bytes}
use construct_tui.Streaming.{send}
use construct_tui.Streaming.Buffer.{push_pending}
use construct_tui.Streaming.Buffer.Laws.{length-push_pending}
use construct_tui.Streaming.Worker.{
  Worker, Phase, connecting, online, backing_off, Input, connect, command, woken, got, open_ok,
  flush_pending, at_phase, step, run, new_worker,
}

abbrev IsReset : Phase → ℕ → Type 0
IsReset online attempt = attempt ≡ 0
IsReset _ attempt = Unit

-- The buffer is bounded, the counter is a u32, and a live stream has reset it.
pub record IsValid {E : Type 0} (w : Worker E) : Type 0 where
  pub bounded : length w.pending ≤ 256
  pub counter : w.attempt < 2 ^ 32
  pub reset : IsReset w.phase w.attempt

module _ {E : Type 0} where
  length-flush_pending :
      (es : List E) (outcomes : List Bool) → length (flush_pending es outcomes).1 ≤ length es
  unfolding flush_pending
  length-flush_pending [] outcomes = omega arith
  length-flush_pending (e ∷ es) [] = omega (arith, length-flush_pending es [])
  length-flush_pending (e ∷ es) (true ∷ outcomes) = omega (arith, length-flush_pending es outcomes)
  length-flush_pending (e ∷ es) (false ∷ outcomes) = omega arith

  at_phase-IsValid :
      (p : Phase) (w : Worker E) (i : Input E)
      → w.phase ≡ p
      → IsValid w
      → IsValid (at_phase p w i).0
  unfolding at_phase
  at_phase-IsValid connecting w (connect (got (send e)) since (open_ok outcomes ok) delay) eq v =
      ground (
        arith,
        length-flush_pending (push_pending w.pending e) outcomes,
        length-push_pending w.pending e,
      )
  at_phase-IsValid connecting w (connect (got (send e)) since outcome delay) eq v =
      ground (arith, length-push_pending w.pending e)
  at_phase-IsValid connecting w (connect polled since (open_ok outcomes ok) delay) eq v =
      ground (arith, length-flush_pending w.pending outcomes)
  at_phase-IsValid connecting w (connect polled since outcome delay) eq v = ground arith
  at_phase-IsValid online w (command (some (send e)) ok delay) eq v =
      ground (arith, length-push_pending w.pending e)
  at_phase-IsValid backing_off w (woken (some (send e))) eq v =
      ground (arith, length-push_pending w.pending e)
  at_phase-IsValid p w i eq v = ground arith

  step-IsValid : (w : Worker E) (i : Input E) → IsValid w → IsValid (step w i).0
  unfolding step
  step-IsValid w i v = at_phase-IsValid w.phase w i refl v

  run_keeps_IsValid : (w : Worker E) (is : List (Input E)) → IsValid w → IsValid (run w is).0
  unfolding run
  run_keeps_IsValid w [] v = v
  run_keeps_IsValid w (i ∷ is) v = run_keeps_IsValid (step w i).0 is (step-IsValid w i v)

-- However a spawned worker is driven, its buffer never holds more than 256 envelopes, its attempt
-- counter never leaves the u32 range, and on a live stream the counter is zero.
pub run-IsValid :
    {E : Type 0} (ids : List Bytes) (is : List (Input E)) → IsValid (run (new_worker ids) is).0
run-IsValid ids is = run_keeps_IsValid (new_worker ids) is (omega arith)
