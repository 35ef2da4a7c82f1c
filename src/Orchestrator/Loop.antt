-- ===== src/Orchestrator/Loop.antt =====
-- src/orchestrator_task.rs: `handle_command` and the loop of `run`.
use construct_tui.Prelude.{false, Option, none, some, List, [], ◌∷◌, if◌then◌else◌}
use construct_tui.Prelude.Bytes.{Bytes, bytes}
use construct_tui.Prelude.Dict.{remove}
use construct_tui.Prelude.Try.{Result, ok, err}
use construct_tui.Storage.Secure.{secure_save_or_delete, secure_delete}
use construct_tui.Streaming.Tracker.{note, commit_direct}
use construct_tui.Orchestrator.{Event, active_chat_changed, Task, Cycle}
use construct_tui.Orchestrator.Replay.{StreamMessageContext, should_drop_stale_session_replay}
use construct_tui.Orchestrator.Inbound.{archive_key, session_key}
use construct_tui.Orchestrator.Actions.{Setup, on_task, on_core}
use construct_tui.Orchestrator.Dispatch.{stored}
use construct_tui.Orchestrator.Session.{new_cycle, perform, handle, prepare_outgoing}

pub data OrchestratorCommand : Type 0 where
  forget_contact : Bytes → OrchestratorCommand
  stream_message : Event → StreamMessageContext → OrchestratorCommand

-- What the loop of `run` receives: a command, or an event of the application or of the task itself.
pub data TaskInput : Type 0 where
  command : OrchestratorCommand → TaskInput
  event : Event → TaskInput

abbrev pub state_key : Bytes
state_key = bytes "construct.orchestrator_state"

module _ {C B : Type 0} (p : Setup C B) where
  abbrev pub save_state : Result Bytes Bytes → Cycle C → Cycle C
  save_state (ok state) c = stored (secure_save_or_delete state_key state) c
  save_state (err e) c = c

  abbrev pub drop_established : Bytes → Cycle C → Cycle C
  drop_established contact_id =
      on_task
        λ t. record t { session_established_at_ms = remove contact_id t.session_established_at_ms }

  -- The follow-ups of the actions are dropped.
  unfoldable pub on_forget_contact : Bytes → Task C → Task C
  unfolding perform secure_save_or_delete secure_delete
  on_forget_contact contact_id t =
      let told = perform p (active_chat_changed contact_id false) (new_cycle t) in
      let forgotten =
        drop_established contact_id (on_core (λ k. p.api.forget_contact_state k contact_id) told) in
      let saved = save_state (p.api.export_state forgotten.task.core) forgotten in
      (stored (secure_delete (archive_key contact_id))
        (stored (secure_delete (session_key contact_id)) saved)).task

  unfoldable pub on_stream_message : Event → StreamMessageContext → Task C → Task C
  unfolding handle should_drop_stale_session_replay note commit_direct
  on_stream_message e context t =
      if should_drop_stale_session_replay p.types context t.session_established_at_ms
      then record t { tracked = commit_direct context.stream_cursor t.tracked }
      else handle p e
          (record t { tracked = note context.message_id context.stream_cursor t.tracked })

  unfoldable pub handle_command : OrchestratorCommand → Task C → Task C
  unfolding on_forget_contact on_stream_message
  handle_command (forget_contact contact_id) t = on_forget_contact contact_id t
  handle_command (stream_message e context) t = on_stream_message e context t

  abbrev pub handle_prepared : Option Event × Task C → Task C
  handle_prepared (none, t) = t
  handle_prepared (some e, t) = handle p e t

  -- One round of the loop.
  unfoldable pub task_step : TaskInput → Task C → Task C
  unfolding handle_command handle prepare_outgoing
  task_step (command c) t = handle_command c t
  task_step (event e) t = handle_prepared (prepare_outgoing p e t)

  unfoldable pub run_task : List TaskInput → Task C → Task C
  unfolding task_step
  run_task [] t = t
  run_task (i ∷ is) t = run_task is (task_step i t)
