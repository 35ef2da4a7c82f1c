-- ===== src/Streaming/Worker/Fifo.antt =====
-- src/streaming.rs, `run_worker`: the order of the envelopes that it takes, queues and keeps.
use construct_tui.Prelude.{
  ◌<◌, ◌≡◌, sym, ap, ◌∙◌, List, [], ◌∷◌, ◌++◌, length, append_assoc, append-nil,
}
use construct_tui.Prelude.Bytes.{Bytes}
use construct_tui.Streaming.Worker.{Worker, Input, step, run, new_worker}
use construct_tui.Streaming.Worker.Balance.{
  accepted, queued_of, FlushWorks, Drained, queued_of-append, step-Balanced,
}

module _ {E : Type 0} where
  -- The envelopes that a run takes.
  unfoldable pub accepted_all : Worker E → List (Input E) → List E
  accepted_all w [] = []
  accepted_all w (i ∷ is) = accepted w.phase i ++ accepted_all (step w i).0 is

  -- No flush fails, and no step finds the buffer full.
  unfoldable pub IsCalm : Worker E → List (Input E) → Type 0
  IsCalm w [] = Unit
  IsCalm w (i ∷ is) = FlushWorks i × (length w.pending < 256) × IsCalm (step w i).0 is

  run-Balanced :
      (w : Worker E) (is : List (Input E))
      → Drained w.phase w.pending
      → IsCalm w is
      → w.pending ++ accepted_all w is ≡ queued_of (run w is).1 ++ (run w is).0.pending
  unfolding run accepted_all IsCalm
  run-Balanced w [] d calm = append-nil w.pending
  run-Balanced w (i ∷ is) d (f, room, calm) =
      let b = step-Balanced w i f room d in
      rw (queued_of-append (step w i).1 (run (step w i).0 is).1) (
        sym (append_assoc w.pending (accepted w.phase i) (accepted_all (step w i).0 is))
        ∙ ap (λ (l : List E). l ++ accepted_all (step w i).0 is) b.kept
        ∙ append_assoc (queued_of (step w i).1) (step w i).0.pending _
        ∙ ap (λ (l : List E). queued_of (step w i).1 ++ l)
            (run-Balanced (step w i).0 is b.drained calm)
        ∙ sym (append_assoc (queued_of (step w i).1) (queued_of (run (step w i).0 is).1) _))

-- While no send of a flush fails and the buffer is never full, every envelope that a spawned worker
-- has taken from its command channel has been put into the outgoing channel of a connection or waits
-- in the worker's buffer: each in one of the two and once, in the order in which they came, through
-- any failures to connect, sends that return an error, reconnects and heartbeats. Whether a
-- connection then writes what is in its channel is not said: a frame in it is lost with the
-- connection.
pub run-Fifo :
    {E : Type 0} (ids : List Bytes) (is : List (Input E))
    → IsCalm (new_worker ids) is
    → accepted_all (new_worker ids) is
      ≡ queued_of (run (new_worker ids) is).1 ++ (run (new_worker ids) is).0.pending
run-Fifo ids is calm = run-Balanced (new_worker ids) is tt calm
