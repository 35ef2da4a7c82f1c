-- ===== src/Orchestrator/Kept.antt =====
-- src/orchestrator_task.rs: the stored messages through the loop of `run`.
use construct_tui.Prelude.{
  ◌≡◌, refl, ltb, Bool, true, false, Option, none, some, List, [], ◌∷◌, if◌then◌else◌,
}
use construct_tui.Prelude.Bytes.{Bytes, bytes}
use construct_tui.Prelude.Try.{Result, ok, err}
use construct_tui.Storage.{StoredMessage}
use construct_tui.Storage.Messages.Inbound.{row_of}
use construct_tui.Storage.Secure.{secure_save_or_delete, secure_delete}
use construct_tui.Streaming.Tracker.{note, commit_direct}
use construct_tui.Orchestrator.{
  Action, Event, active_chat_changed, outgoing_message, key_bundle_fetched, Task, Cycle,
}
use construct_tui.Orchestrator.Replay.{StreamMessageContext, should_drop_stale_session_replay}
use construct_tui.Orchestrator.Inbound.{archive_key, session_key}
use construct_tui.Orchestrator.Actions.{Setup, set_core, ask, on_core}
use construct_tui.Orchestrator.Session.{
  new_cycle, perform_all, perform, run_follow_ups, handle, established, with_bundle,
  establish_session, ping, chat_opened, send_or_fail, framed, prepare_outgoing,
}
use construct_tui.Orchestrator.Loop.{
  OrchestratorCommand, forget_contact, stream_message, TaskInput, command, event, save_state,
  state_key, drop_established, on_forget_contact, on_stream_message, handle_command,
  handle_prepared, task_step, run_task,
}
use construct_tui.Orchestrator.Keeps.{
  IsSame, Keeps, Keeps-trans, Keeps-messages, commit_direct-messages,
}
use construct_tui.Orchestrator.Durable.{
  dispatch_all-Safe, stored-Safe, secure_save_or_delete-Untouched, secure_delete-Untouched,
}
use construct_tui.Orchestrator.Dispatch.{stored}
use construct_tui.Knst.{encode_session_ping}

module _ {C B : Type 0} (p : Setup C B) where
  abbrev Safe : Task C → Task C → Type 0
  Safe t u = Keeps t.tracked.storage u.tracked.storage

  Safe-trans : (t u v : Task C) → Safe t u → Safe u v → Safe t v
  Safe-trans t u v h k = Keeps-trans t.tracked.storage u.tracked.storage v.tracked.storage h k

  Safe-refl : (t : Task C) → Safe t t
  Safe-refl t = Keeps-messages t.tracked.storage t.tracked.storage refl

  if-Safe : (b : Bool) (t u v : Task C) → Safe t u → Safe t v → Safe t (if b then u else v)
  if-Safe true t u v h k = h
  if-Safe false t u v h k = k

  pair-Safe :
      {A : Type 0} (b : Bool) (t : Task C) (x y : A × Task C)
      → Safe t x.1
      → Safe t y.1
      → Safe t (if b then x else y).1
  pair-Safe true t x y h k = h
  pair-Safe false t x y h k = k

  perform_all-Safe : (r : List Action × C) (c : Cycle C) → Safe c.task (perform_all p r c).task
  perform_all-Safe (actions, core) c = dispatch_all-Safe p actions (set_core core c)

  perform-Safe : (e : Event) (c : Cycle C) → Safe c.task (perform p e c).task
  unfolding perform
  perform-Safe e c = perform_all-Safe (p.api.handle_event c.task.core e) c

  run_follow_ups-Safe : (es : List Event) (c : Cycle C) → Safe c.task (run_follow_ups p es c).task
  unfolding run_follow_ups
  run_follow_ups-Safe [] c = Safe-refl c.task
  run_follow_ups-Safe (e ∷ es) c =
      let next = perform p e (record c { follow_ups = [] }) in
      Safe-trans c.task next.task (run_follow_ups p es next).task
        (perform-Safe e (record c { follow_ups = [] })) (run_follow_ups-Safe es next)

  handle-Safe : (e : Event) (t : Task C) → Safe t (handle p e t)
  unfolding handle
  handle-Safe e t =
      let c = perform p e (new_cycle t) in
      Safe-trans t c.task (run_follow_ups p c.follow_ups c).task (perform-Safe e (new_cycle t))
        (run_follow_ups-Safe c.follow_ups c)

  established-Safe :
      (contact : Bytes) (t u : Task C) → Safe t u → Safe t (established p contact u).1
  established-Safe contact t u h =
      pair-Safe (p.api.has_active_session u.core contact) t (ok true, u)
        (err (bytes "no session after InitSession"), u) h h

  with_bundle-Safe :
      (contact : Bytes) (r : Result Bytes Bytes) (t : Task C) → Safe t (with_bundle p contact r t).1
  with_bundle-Safe contact (err e) t = Safe-refl t
  with_bundle-Safe contact (ok bundle) t =
      established-Safe contact t (handle p (key_bundle_fetched contact bundle) t)
        (handle-Safe (key_bundle_fetched contact bundle) t)

  establish_session-Safe : (contact : Bytes) (t : Task C) → Safe t (establish_session p contact t).1
  unfolding establish_session
  establish_session-Safe contact t =
      let u = (ask (new_cycle t)).task in
      let fetched = p.world.fetch_bundle_json t.asked contact in
      pair-Safe (p.api.has_active_session t.core contact) t (ok false, t)
        (with_bundle p contact fetched u) (Safe-refl t) (with_bundle-Safe contact fetched u)

  ping-Safe : (contact : Bytes) (t : Task C) → Safe t (ping p contact t)
  unfolding ping
  ping-Safe contact t =
      let id = p.world.uuid_v4 t.asked in
      perform-Safe (outgoing_message contact id (encode_session_ping p.types p.codecs id) 0)
        (ask (new_cycle t))

  chat_opened-Safe :
      (contact : Bytes) (had : Bool) (r : Result Bytes Bool × Task C)
      → Safe r.1 (chat_opened p contact had r)
  chat_opened-Safe contact had (ok true, t) =
      if-Safe had t t (ping p contact t) (Safe-refl t) (ping-Safe contact t)
  chat_opened-Safe contact had (ok false, t) = Safe-refl t
  chat_opened-Safe contact had (err e, t) = Safe-refl t

  send_or_fail-Safe : (e : Event) (r : Result Bytes Bool × Task C) → Safe r.1 (send_or_fail p e r).1
  send_or_fail-Safe e (ok b, t) = Safe-refl t
  send_or_fail-Safe e (err x, t) = Safe-refl t

  prepare_outgoing-Safe : (e : Event) (t : Task C) → Safe t (prepare_outgoing p e t).1
  unfolding prepare_outgoing
  prepare_outgoing-Safe (active_chat_changed contact true) t =
      let r = establish_session p contact t in
      let had = ltb 0 (p.api.pending_message_count t.core contact) in
      Safe-trans t r.1 (chat_opened p contact had r) (establish_session-Safe contact t)
        (chat_opened-Safe contact had r)
  prepare_outgoing-Safe (active_chat_changed contact false) t = Safe-refl t
  prepare_outgoing-Safe (outgoing_message contact id plaintext content_type) t =
      let e = outgoing_message contact id (framed p plaintext id) content_type in
      let r = establish_session p contact t in
      pair-Safe (p.api.has_active_session t.core contact) t (some e, t) (send_or_fail p e r)
        (Safe-refl t)
        (Safe-trans t r.1 (send_or_fail p e r).1 (establish_session-Safe contact t)
          (send_or_fail-Safe e r))
  prepare_outgoing-Safe _ t = Safe-refl t

  save_state-Safe :
      (r : Result Bytes Bytes) (t : Task C) (c : Cycle C)
      → Safe t c.task
      → Safe t (save_state p r c).task
  save_state-Safe (err e) t c h = h
  save_state-Safe (ok state) t c h = Safe-trans t c.task (save_state p (ok state) c).task h (
      stored-Safe p (secure_save_or_delete state_key state)
        (secure_save_or_delete-Untouched state_key state) c)

  delete-Safe :
      (key : Bytes) (t : Task C) (c : Cycle C)
      → Safe t c.task
      → Safe t (stored (secure_delete key) c).task
  delete-Safe key t c h =
      Safe-trans t c.task (stored (secure_delete key) c).task h
        (stored-Safe p (secure_delete key) (secure_delete-Untouched key) c)

  on_forget_contact-Safe : (contact : Bytes) (t : Task C) → Safe t (on_forget_contact p contact t)
  unfolding on_forget_contact
  on_forget_contact-Safe contact t =
      let told = perform p (active_chat_changed contact false) (new_cycle t) in
      let forgotten =
        drop_established p contact (on_core (λ k. p.api.forget_contact_state k contact) told) in
      let saved = save_state p (p.api.export_state forgotten.task.core) forgotten in
      delete-Safe (archive_key contact) t (stored (secure_delete (session_key contact)) saved) (
        delete-Safe (session_key contact) t saved (
          save_state-Safe (p.api.export_state forgotten.task.core) t forgotten
            (perform-Safe (active_chat_changed contact false) (new_cycle t))))

  on_stream_message-Safe :
      (e : Event) (m : StreamMessageContext) (t : Task C) → Safe t (on_stream_message p e m t)
  unfolding on_stream_message note
  on_stream_message-Safe e m t =
      let noted = record t { tracked = note m.message_id m.stream_cursor t.tracked } in
      let dropped = record t { tracked = commit_direct m.stream_cursor t.tracked } in
      if-Safe (should_drop_stale_session_replay p.types m t.session_established_at_ms) t dropped
        (handle p e noted)
        (Keeps-messages t.tracked.storage dropped.tracked.storage
          (commit_direct-messages m.stream_cursor t.tracked))
        (handle-Safe e noted)

  handle_command-Safe : (c : OrchestratorCommand) (t : Task C) → Safe t (handle_command p c t)
  unfolding handle_command
  handle_command-Safe (forget_contact contact) t = on_forget_contact-Safe contact t
  handle_command-Safe (stream_message e m) t = on_stream_message-Safe e m t

  handle_prepared-Safe : (r : Option Event × Task C) → Safe r.1 (handle_prepared p r)
  handle_prepared-Safe (none, t) = Safe-refl t
  handle_prepared-Safe (some e, t) = handle-Safe e t

  task_step-Safe : (i : TaskInput) (t : Task C) → Safe t (task_step p i t)
  unfolding task_step
  task_step-Safe (command c) t = handle_command-Safe c t
  task_step-Safe (event e) t =
      let r = prepare_outgoing p e t in
      Safe-trans t r.1 (handle_prepared p r) (prepare_outgoing-Safe e t) (handle_prepared-Safe r)

  run_task-Safe : (is : List TaskInput) (t : Task C) → Safe t (run_task p is t)
  unfolding run_task
  run_task-Safe [] t = Safe-refl t
  run_task-Safe (i ∷ is) t =
      Safe-trans t (task_step p i t) (run_task p is (task_step p i t)) (task_step-Safe i t)
        (run_task-Safe is (task_step p i t))

  -- Whatever commands, events and actions of the core arrive, with whatever answers of the server
  -- and failures of the database: a message that is stored under an id stays stored under it, with
  -- its peer, text, direction and time; only its delivery status may change.
  pub run_task-Keeps :
      (is : List TaskInput) (t : Task C) (id : Bytes) (m : StoredMessage)
      → row_of id t.tracked.storage.messages ≡ some m
      → (n : StoredMessage) × (row_of id (run_task p is t).tracked.storage.messages ≡ some n)
        × IsSame m n
  run_task-Keeps is t id m e = run_task-Safe is t id m e
