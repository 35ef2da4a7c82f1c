-- ===== src/Streaming/Worker/Flush.antt =====
-- src/streaming.rs, `run_worker`: the flush of a new stream when a send returns an error.
use construct_tui.Prelude.{◌≡◌, refl, Bool, true, false, List, [], ◌∷◌, ◌++◌}
use construct_tui.Streaming.Worker.{flush_pending}

-- No send fails.
abbrev pub AllTrue : List Bool → Type 0
AllTrue [] = Unit
AllTrue (true ∷ bs) = AllTrue bs
AllTrue (false ∷ bs) = ⊥

module _ {E : Type 0} where
  -- The outcomes of as many successful sends as there are envelopes.
  abbrev pub successes : List E → List Bool
  successes [] = []
  successes (e ∷ es) = true ∷ successes es

  -- Where the send of one envelope fails after those of all envelopes before it, these are queued,
  -- the envelopes behind it stay in the buffer, and the envelope itself is in neither: it is lost.
  pub flush_pending_loses :
      (front : List E) (e : E) (back : List E) (outcomes : List Bool)
      → flush_pending (front ++ (e ∷ back)) (successes front ++ (false ∷ outcomes)) ≡ (front, back)
  unfolding flush_pending
  flush_pending_loses [] e back outcomes = refl
  flush_pending_loses (x ∷ front) e back outcomes = rw (flush_pending_loses front e back outcomes)

  -- Where no send fails, everything is queued, in order.
  pub flush_pending_all :
      (es : List E) (outcomes : List Bool) → AllTrue outcomes → flush_pending es outcomes ≡ (es, [])
  unfolding flush_pending
  flush_pending_all [] outcomes h = refl
  flush_pending_all (e ∷ es) [] h = rw (flush_pending_all es [] tt)
  flush_pending_all (e ∷ es) (true ∷ outcomes) h = rw (flush_pending_all es outcomes h)
  flush_pending_all (e ∷ es) (false ∷ outcomes) h = absurd h
