-- ===== src/Tests/Orchestrator.antt =====
-- The task with a core that shows and marks one message, at concrete inputs.
use construct_tui.Prelude.{inl, inr, ◌⊎◌}
use construct_tui.Prelude.{refl, ◌≡◌, ◌⊎◌, false, none, some, List, [], ◌∷◌, arith}
use construct_tui.Prelude.Bytes.{bytes, ◌=b◌, split_once}
use construct_tui.Prelude.Try.{ok, err}
use construct_tui.Storage.{StoredMessage}
use construct_tui.Storage.Messages.Inbound.{row_of}
use construct_tui.Streaming.Tracker.{Tracked}
use construct_tui.Orchestrator.{
  Action, message_decrypted, mark_message_delivered, session_terminated, app_launched, Core, World,
  Task,
}
use construct_tui.Orchestrator.Inbound.{persist_inbound}
use construct_tui.Orchestrator.Actions.{Setup}
use construct_tui.Orchestrator.Loop.{
  TaskInput, command, event, forget_contact, run_task, stream_message, handle_command,
}
use construct_tui.Orchestrator.Keeps.{IsSame}
use construct_tui.Orchestrator.Kept.{run_task-Keeps}
use construct_tui.Orchestrator.Ordered.{persist_inbound_durable}
use construct_tui.Tests.Knst.{types, plain}
use construct_tui.Tests.Storage.{hello, with_hello, hello_stored, received_allowed}
use construct_tui.Prelude.Decimal.{parse_uint}
use construct_tui.Prelude.Dict.{lookup}
use construct_tui.Orchestrator.Replay.{StreamMessageContext, stream_cursor_millis}
use construct_tui.Orchestrator.Stale.{IsLate, stale_replay_dropped}
use construct_tui.Orchestrator.Session.{handle}
use construct_tui.Streaming.Tracker.{note}

abbrev actions : List Action
actions =
    message_decrypted (bytes "bob") (bytes "m2") (bytes "hi")
    ∷ mark_message_delivered (bytes "m1")
    ∷ session_terminated (bytes "bob") []
    ∷ []

-- A core without state, sessions or pending messages.
abbrev api : Core (Unit {0}) (Unit {0})
api = record {
  handle_event = λ k e. (actions, tt);
  pending_message_count = λ k id. 0;
  peek_first_pending_wire_payload = λ k id. none;
  init_receiving_session = λ k id bundle wire. (err [], tt);
  pop_first_pending = λ k id. (none, tt);
  take_heal_payload = λ k id. (none, tt);
  parse_bundle = λ s. ok tt;
  init_session_with_bundle = λ k id b. (ok [], tt);
  has_active_session = λ k id. false;
  forget_contact_state = λ k id. tt;
  export_state = λ k. ok [];
}

abbrev world : World
world = record {
  now_ms = λ n. 1000;
  uuid_v4 = λ n. n ∷ [];
  fetch_bundle_json = λ n id. err (bytes "offline");
}

abbrev setup : Setup (Unit {0}) (Unit {0})
setup = record {
  types = types;
  codecs = plain;
  api = api;
  world = world;
  my_user_id = bytes "alice";
  my_device_id = bytes "d1";
}

abbrev tracked : Tracked
tracked = record { cursor = record { committed = none; pending = [] }; storage = with_hello }

abbrev task : Task (Unit {0})
task = record {
  core = tt;
  tracked = tracked;
  timers = [];
  session_established_at_ms = [];
  asked = 0;
  outputs = [];
}

abbrev inputs : List TaskInput
inputs = event app_launched ∷ command (forget_contact (bytes "bob")) ∷ []

run_task-Keeps_example :
    (n : StoredMessage) × (row_of (bytes "m1") (run_task setup inputs task).tracked.storage.messages
      ≡ some n)
    × IsSame hello n
run_task-Keeps_example = run_task-Keeps setup inputs task (bytes "m1") hello hello_stored

persist_inbound_durable_example :
    ((row : StoredMessage) × (row_of
          (bytes "m1")
          (persist_inbound (bytes "m1") hello tracked).storage.messages
        ≡ some row))
    ⊎ (((persist_inbound (bytes "m1") hello tracked).cursor ≡ tracked.cursor)
        × ((persist_inbound (bytes "m1") hello tracked).storage.secure_store
            ≡ with_hello.secure_store))
persist_inbound_durable_example =
    persist_inbound_durable (bytes "m1") hello tracked received_allowed

abbrev old_reset : StreamMessageContext
old_reset = record {
  contact_id = bytes "bob";
  message_id = bytes "m9";
  stream_cursor = some (bytes "999-0");
  content_type = 21;
  msg_num = 4;
}

abbrev in_session : Task (Unit {0})
in_session = record task { session_established_at_ms = (bytes "bob", 1000) ∷ [] }

reset_millis : stream_cursor_millis old_reset.stream_cursor ≡ some 999
unfolding stream_cursor_millis split_once parse_uint
reset_millis = refl

bob_established : lookup (bytes "bob") in_session.session_established_at_ms ≡ some 1000
unfolding lookup ◌=b◌
bob_established = refl

old_reset-IsLate : IsLate types old_reset in_session.session_established_at_ms
old_reset-IsLate = (inr (inl refl), (999, 1000, reset_millis, bob_established, omega arith))

stale_replay_dropped_example :
    let t' = handle_command setup (stream_message app_launched old_reset) in_session in
    (IsLate types old_reset in_session.session_established_at_ms
      × (t'.core ≡ in_session.core)
      × (t'.outputs ≡ in_session.outputs)
      × (t'.timers ≡ in_session.timers)
      × (t'.session_established_at_ms ≡ in_session.session_established_at_ms)
      × (t'.tracked.storage.messages ≡ in_session.tracked.storage.messages))
    ⊎ ((IsLate types old_reset in_session.session_established_at_ms → ⊥)
        × (t'
            ≡ handle setup app_launched (record in_session {
              tracked = note old_reset.message_id old_reset.stream_cursor in_session.tracked;
            })))
stale_replay_dropped_example = stale_replay_dropped setup app_launched old_reset in_session
