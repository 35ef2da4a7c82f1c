-- ===== src/Orchestrator.antt =====
-- src/orchestrator_task.rs: the task that runs the protocol core and carries out its actions. The
-- core, the server, the clock and random ids are parameters; what leaves the task is a list.
pub mod Replay
pub mod Envelopes
pub mod Inbound
pub mod Actions
pub mod Dispatch
pub mod Session
pub mod Loop
pub mod Keeps
pub mod Durable
pub mod Kept
pub mod Ordered
pub mod Stale
use construct_tui.Prelude.{ℕ, Bool, Option, List}
use construct_tui.Prelude.Bytes.{Bytes}
use construct_tui.Prelude.Dict.{Dict}
use construct_tui.Prelude.Int.{ℤ}
use construct_tui.Prelude.Try.{Result}
use construct_tui.Streaming.Tracker.{Tracked}

-- `IncomingEvent` of the core: the events that the task or the application makes or looks
-- at, and all others.
pub data Event : Type 0 where
  active_chat_changed : Bytes → Bool → Event
  outgoing_message : Bytes → Bytes → Bytes → ℕ → Event
  key_bundle_fetched session_init_completed : Bytes → Bytes → Event
  session_loaded : Bytes → Option Bytes → Event
  ack_db_result : Bytes → Bool → Event
  app_launched : Event
  message_received :
      (message_id from data' : Bytes) (msg_num : ℕ) (kem_ct : Bytes) (otpk_id : ℕ)
      (is_control : Bool) (content_type : ℕ)
      → Event
  ack_received : Bytes → Event
  network_reconnected : Event
  timer_fired : Bytes → Event
  other_event : Bytes → Event

-- `Action` of the core, in the order of the arms of `dispatch`.
pub data Action : Type 0 where
  init_session : Bytes → Bytes → Action
  decrypt_message encrypt_message apply_pq_contribution archive_session : Action
  message_decrypted : Bytes → Bytes → Bytes → Action
  call_signal_decrypted end_session_suppressed message_queued_pending_init : Action
  session_heal_needed : Bytes → Bytes → Action
  heal_suppressed : Bytes → ℕ → Action
  save_session_to_secure_store : Bytes → Bytes → Action
  load_session_from_secure_store : Bytes → Action
  persist_message : Bytes → Action
  persist_ack : Bytes → ℕ → Action
  prune_ack_store : ℕ → Action
  mark_message_delivered : Bytes → Action
  check_ack_in_db : Bytes → Action
  fetch_public_key_bundle : Bytes → Action
  send_encrypted_message : Bytes → Bytes → Bytes → ℕ → Action
  send_receipt : Bytes → Action
  send_end_session : Bytes → Action
  send_heartbeat : Bytes → Action
  notify_new_message : Bytes → Bytes → Action
  notify_session_created : Bytes → Action
  notify_error : Bytes → Bytes → Action
  notify_linked_devices_of_session_reset : Action
  schedule_timer : Bytes → ℕ → Action
  cancel_timer : Bytes → Action
  session_terminated : Bytes → Bytes → Action

-- The cases of the generated enum that the task names.
pub data ContentType : Type 0 where
  e2ee_signal call_signal key_exchange session_reset session_reset_init : ContentType

-- The fields of the generated `Envelope` that the task sets.
pub record Envelope : Type 0 where
  pub sender : Bytes
  pub sender_device : Bytes
  pub recipient : Bytes
  pub content_type : ContentType
  pub message_id : Bytes
  pub encrypted_payload : Bytes
  pub conversation_id : Bytes

-- `BridgeEvent` of src/bridge.rs, to the application.
pub data BridgeEvent : Type 0 where
  new_message : Bytes → Bytes → Bytes → ℤ → BridgeEvent
  message_delivered : Bytes → BridgeEvent
  stream_status : Bool → BridgeEvent
  stream_reconnecting : ℕ → ℕ → BridgeEvent
  session_ready : Bytes → BridgeEvent
  error : Bytes → BridgeEvent

-- What leaves the task: a send that is tried on the stream's channel, an event to the application or
-- to the task itself, and the jobs that it spawns or aborts. What a fetch of a key bundle sends when
-- it ends is `on_bundle_fetched`; it runs beside the task.
pub data Output : Type 0 where
  to_stream : Envelope → Output
  to_app : BridgeEvent → Output
  to_self : Event → Output
  to_self_after : ℕ → Event → Output
  spawn_fetch : Bytes → Output
  abort_timer : Bytes → Output

-- The crate of the core, over its own state and the type of a parsed key bundle.
pub record Core (C B : Type 0) : Type 0 where
  pub handle_event : C → Event → List Action × C
  pub pending_message_count : C → Bytes → ℕ
  pub peek_first_pending_wire_payload : C → Bytes → Option Bytes
  pub init_receiving_session : C → Bytes → Bytes → Bytes → Result Bytes Bytes × C
  pub pop_first_pending : C → Bytes → Option Bytes × C
  pub take_heal_payload : C → Bytes → Option Bytes × C
  pub parse_bundle : Bytes → Result Bytes B
  pub init_session_with_bundle : C → Bytes → B → Result Bytes Bytes × C
  pub has_active_session : C → Bytes → Bool
  pub forget_contact_state : C → Bytes → C
  pub export_state : C → Result Bytes Bytes

-- What the world answers at its n-th question: the clock in milliseconds, a random id, and the key
-- bundle of a user or the text of the error.
pub record World : Type 0 where
  pub now_ms : ℕ → ℕ
  pub uuid_v4 : ℕ → Bytes
  pub fetch_bundle_json : ℕ → Bytes → Result Bytes Bytes

pub record Task (C : Type 0) : Type 0 where
  pub core : C
  pub tracked : Tracked
  pub timers : Dict Bytes
  pub session_established_at_ms : Dict ℕ
  pub asked : ℕ
  pub outputs : List Output

-- A task in a cycle of actions, with the follow-ups and the contacts whose session was set up.
pub record Cycle (C : Type 0) : Type 0 where
  pub task : Task C
  pub follow_ups : List Event
  pub session_inited : List Bytes
