-- ===== src/Orchestrator/Stale.antt =====
-- src/orchestrator_task.rs: the path of a stale replay through `handle_command`.
use construct_tui.Prelude.{
  ℕ, ◌<◌, ◌≡◌, refl, true, ◌⊎◌, inl, inr, some, arith, Bool-cases, Option-cases, lt→ltb,
}
use construct_tui.Prelude.Dict.{lookup, Dict}
use construct_tui.Knst.{ContentTypes}
use construct_tui.Orchestrator.{Event, Task}
use construct_tui.Orchestrator.Replay.{
  StreamMessageContext, is_replay_sensitive, stream_cursor_millis, should_drop_stale_session_replay,
}
use construct_tui.Orchestrator.Actions.{Setup}
use construct_tui.Orchestrator.Loop.{stream_message, on_stream_message, handle_command}
use construct_tui.Orchestrator.Session.{handle}
use construct_tui.Orchestrator.Keeps.{commit_direct-messages}
use construct_tui.Streaming.Tracker.{note}

-- A message that could reset a session, and whose cursor is older than the session with its contact.
abbrev pub IsLate : ContentTypes → StreamMessageContext → Dict ℕ → Type 0
IsLate types m established =
    ((m.msg_num ≡ 0)
      ⊎ (m.content_type ≡ types.session_reset)
      ⊎ (m.content_type ≡ types.session_reset_init))
    × ((cursor_ms established_at_ms : ℕ) × (stream_cursor_millis m.stream_cursor ≡ some cursor_ms)
        × (lookup m.contact_id established ≡ some established_at_ms)
        × (cursor_ms < established_at_ms))

module _ (types : ContentTypes) (m : StreamMessageContext) (established : Dict ℕ) where
  IsLate-dropped :
      IsLate types m established → should_drop_stale_session_replay types m established ≡ true
  unfolding should_drop_stale_session_replay is_replay_sensitive
  IsLate-dropped (reset, (c, s, hc, hs, older)) = rw (hc, hs) (ground (arith, lt→ltb c s older))

  dropped-IsLate :
      should_drop_stale_session_replay types m established ≡ true → IsLate types m established
  unfolding should_drop_stale_session_replay is_replay_sensitive
  dropped-IsLate h = elim (Option-cases (stream_cursor_millis m.stream_cursor)) [
    | inl n ↦ absurd (ground arith)
    | inr (c, hc) ↦ elim (Option-cases (lookup m.contact_id established)) [
      | inl n ↦ absurd (ground arith)
      | inr (s, hs) ↦ (ground arith, (c, s, hc, hs, ground arith))
    ]
  ]

module _ {C B : Type 0} (p : Setup C B) where
  -- A message of the stream is dropped exactly when it is stale, that is when it could reset a session
  -- (number 0, or one of the two reset types) and its cursor is older than the session with its
  -- contact. When it is dropped the core does not see it, nothing is sent or shown, and the timers,
  -- the times of the sessions and the stored messages stay; every other message is handled by the
  -- core, after its cursor was noted.
  pub stale_replay_dropped :
      (e : Event) (m : StreamMessageContext) (t : Task C)
      → let t' = handle_command p (stream_message e m) t in
        (IsLate p.types m t.session_established_at_ms
          × (t'.core ≡ t.core)
          × (t'.outputs ≡ t.outputs)
          × (t'.timers ≡ t.timers)
          × (t'.session_established_at_ms ≡ t.session_established_at_ms)
          × (t'.tracked.storage.messages ≡ t.tracked.storage.messages))
        ⊎ ((IsLate p.types m t.session_established_at_ms → ⊥)
            × (t'
                ≡ handle p e (record t { tracked = note m.message_id m.stream_cursor t.tracked })))
  unfolding handle_command on_stream_message
  stale_replay_dropped e m t =
      elim (Bool-cases (should_drop_stale_session_replay p.types m t.session_established_at_ms)) [
        | inl d ↦ inl (
          dropped-IsLate p.types m t.session_established_at_ms d,
          rw d refl,
          rw d refl,
          rw d refl,
          rw d refl,
          rw d (commit_direct-messages m.stream_cursor t.tracked),
        )
        | inr d ↦ inr (
          λ stale. let dropped = IsLate-dropped p.types m t.session_established_at_ms stale in cc,
          rw d refl,
        )
      ]
