-- ===== src/Orchestrator/Dispatch.antt =====
-- src/orchestrator_task.rs: `dispatch`, which carries out one action of the core.
use construct_tui.Prelude.{ℕ, ◌-◌, ◌^◌, min, Bool, false, Option, none, some, List, [], ◌∷◌, ◌++◌}
use construct_tui.Prelude.Bytes.{Bytes, bytes}
use construct_tui.Prelude.Dict.{lookup, insert, remove}
use construct_tui.Prelude.Int.{pos, as_i64}
use construct_tui.Prelude.Try.{Result, ok, err}
use construct_tui.Knst.{decode_text}
use construct_tui.Storage.{Db, DbError}
use construct_tui.Storage.Secure.{secure_load}
use construct_tui.Storage.Records.{persist_record}
use construct_tui.Storage.Acks.{store_ack, prune_acks, has_ack}
use construct_tui.Storage.Messages.{mark_delivered}
use construct_tui.Orchestrator
use construct_tui.Orchestrator.{
  Action, Event, session_loaded, ack_db_result, app_launched, timer_fired, outgoing_message,
  session_reset, new_message, session_ready, error, to_stream, to_app, to_self, to_self_after,
  spawn_fetch, Output, key_bundle_fetched, Task, Cycle, init_session, decrypt_message,
  encrypt_message, apply_pq_contribution, archive_session, message_decrypted, call_signal_decrypted,
  end_session_suppressed, message_queued_pending_init, session_heal_needed, heal_suppressed,
  save_session_to_secure_store, load_session_from_secure_store, persist_message, persist_ack,
  prune_ack_store, mark_message_delivered, check_ack_in_db, fetch_public_key_bundle,
  send_encrypted_message, send_receipt, send_end_session, send_heartbeat, notify_new_message,
  notify_session_created, notify_error, notify_linked_devices_of_session_reset, schedule_timer,
  cancel_timer, session_terminated,
}
use construct_tui.Orchestrator.Envelopes.{
  build_envelope, build_control_envelope, content_type_from_u8,
}
use construct_tui.Orchestrator.Inbound.{
  with_storage, apply_secure_store_save, apply_session_terminated,
}
use construct_tui.Orchestrator.Actions.{
  on_task, on_tracked, emit, ask, follow_up, Setup, at_now, deliver, on_init_session,
  on_session_heal_needed,
}

-- `let _ = storage...`: the result is dropped, or only logged.
abbrev pub stored : {A C : Type 0} → Db A → Cycle C → Cycle C
stored m = on_tracked λ t. with_storage t (m t.storage).1

abbrev pub answer : {A C : Type 0} → Db A → Cycle C → Result DbError A
answer m c = (m c.task.tracked.storage).0

-- `.ok().flatten()`
abbrev pub ok_flat : {A : Type 0} → Result DbError (Option A) → Option A
ok_flat (ok a) = a
ok_flat (err e) = none

-- `.unwrap_or(false)`
abbrev pub or_false : Result DbError Bool → Bool
or_false (ok b) = b
or_false (err e) = false

abbrev pub abort_if_running : {C : Type 0} → Bytes → Option Bytes → Cycle C → Cycle C
abort_if_running timer_id none c = c
abort_if_running timer_id (some handle) c = emit (Orchestrator.abort_timer handle) c

module _ {C B : Type 0} (p : Setup C B) where
  -- `Action::MessageDecrypted`
  unfoldable pub on_message_decrypted : Bytes → Bytes → Bytes → Cycle C → Cycle C
  unfolding decode_text deliver
  on_message_decrypted contact_id message_id plaintext c =
      deliver p contact_id message_id (decode_text p.types p.codecs plaintext) (at_now p c) (ask c)

  -- The persistence actions.
  unfoldable pub on_load_session : Bytes → Cycle C → Cycle C
  on_load_session key c =
      follow_up (session_loaded key (ok_flat (answer (secure_load key) c)))
        (stored (secure_load key) c)

  unfoldable pub on_check_ack : Bytes → Cycle C → Cycle C
  on_check_ack message_id c =
      follow_up (ack_db_result message_id (or_false (answer (has_ack message_id) c)))
        (stored (has_ack message_id) c)

  unfoldable pub on_send_encrypted : Bytes → Bytes → Bytes → ℕ → Cycle C → Cycle C
  unfolding build_envelope content_type_from_u8
  on_send_encrypted recipient payload message_id content_type c =
      emit
        (to_stream (
          build_envelope p.my_user_id p.my_device_id recipient payload message_id
            (content_type_from_u8 content_type)))
        c

  unfoldable pub on_send_end_session : Bytes → Cycle C → Cycle C
  unfolding build_control_envelope
  on_send_end_session contact_id c =
      emit
        (to_stream (
          build_control_envelope p.my_user_id p.my_device_id contact_id session_reset []
            (bytes "end-session-" ++ contact_id)))
        c

  unfoldable pub on_send_heartbeat : Bytes → Cycle C → Cycle C
  on_send_heartbeat contact_id c =
      emit
        (to_self (
          outgoing_message contact_id (p.world.uuid_v4 c.task.asked)
            (0 ∷ (bytes "HEARTBEAT" ++ (0 ∷ []))) 0))
        (ask c)

  unfoldable pub on_notify_new_message : Bytes → Bytes → Cycle C → Cycle C
  on_notify_new_message chat_id preview c =
      emit
        (to_app
          (new_message chat_id [] preview (pos (min (p.world.now_ms c.task.asked) (2 ^ 63 - 1)))))
        (ask c)

  -- The end of the job that `spawn_fetch` stands for: what it sends, to the task or to the application.
  unfoldable pub on_bundle_fetched : Bytes → Result Bytes Bytes → Output
  on_bundle_fetched user_id (ok bundle_json) = to_self (key_bundle_fetched user_id bundle_json)
  on_bundle_fetched user_id (err e) = to_app (error (bytes "[PREKEY_BUNDLE] " ++ e))

  -- A timer of the same id is forgotten, and its job still runs.
  unfoldable pub on_schedule_timer : Bytes → ℕ → Cycle C → Cycle C
  on_schedule_timer timer_id delay_ms c =
      on_task (λ t. record t { timers = insert timer_id timer_id t.timers })
        (emit (to_self_after delay_ms (timer_fired timer_id)) c)

  unfoldable pub on_cancel_timer : Bytes → Cycle C → Cycle C
  on_cancel_timer timer_id c =
      abort_if_running timer_id (lookup timer_id c.task.timers)
        (on_task (λ t. record t { timers = remove timer_id t.timers }) c)

  unfoldable pub on_session_terminated : Bytes → Bytes → Cycle C → Cycle C
  unfolding apply_session_terminated
  on_session_terminated contact_id archive_bytes c =
      on_task
        (λ t. record t {
          session_established_at_ms = remove contact_id t.session_established_at_ms;
        })
        (stored (apply_session_terminated contact_id archive_bytes) c)

  unfoldable pub dispatch : Action → Cycle C → Cycle C
  unfolding on_init_session on_message_decrypted on_session_heal_needed on_load_session on_check_ack
      on_send_encrypted on_send_end_session on_send_heartbeat on_notify_new_message
      on_schedule_timer on_cancel_timer on_session_terminated
  dispatch (init_session contact_id bundle_json) c = on_init_session p contact_id bundle_json c
  dispatch decrypt_message c = c
  dispatch encrypt_message c = c
  dispatch apply_pq_contribution c = c
  dispatch archive_session c = c
  dispatch (message_decrypted contact_id message_id plaintext) c =
      on_message_decrypted contact_id message_id plaintext c
  dispatch call_signal_decrypted c = c
  dispatch end_session_suppressed c = c
  dispatch message_queued_pending_init c = c
  dispatch (session_heal_needed contact_id role) c = on_session_heal_needed p contact_id role c
  dispatch (heal_suppressed contact_id retry_after_ms) c =
      emit (to_self_after retry_after_ms app_launched) c
  dispatch (save_session_to_secure_store key value) c = stored (apply_secure_store_save key value) c
  dispatch (load_session_from_secure_store key) c = on_load_session key c
  dispatch (persist_message message_json) c = stored (persist_record (bytes "msg") message_json) c
  dispatch (persist_ack message_id timestamp) c = stored (store_ack message_id (as_i64 timestamp)) c
  dispatch (prune_ack_store cutoff_ts) c = stored (prune_acks (as_i64 cutoff_ts)) c
  dispatch (mark_message_delivered message_id) c = stored (mark_delivered message_id) c
  dispatch (check_ack_in_db message_id) c = on_check_ack message_id c
  dispatch (fetch_public_key_bundle user_id) c = emit (spawn_fetch user_id) c
  dispatch (send_encrypted_message recipient payload message_id content_type) c =
      on_send_encrypted recipient payload message_id content_type c
  dispatch (send_receipt message_id) c = c
  dispatch (send_end_session contact_id) c = on_send_end_session contact_id c
  dispatch (send_heartbeat contact_id) c = on_send_heartbeat contact_id c
  dispatch (notify_new_message chat_id preview) c = on_notify_new_message chat_id preview c
  dispatch (notify_session_created contact_id) c = emit (to_app (session_ready contact_id)) c
  dispatch (notify_error code message) c =
      emit (to_app (error (bytes "[" ++ (code ++ (bytes "] " ++ message))))) c
  dispatch notify_linked_devices_of_session_reset c = c
  dispatch (schedule_timer timer_id delay_ms) c = on_schedule_timer timer_id delay_ms c
  dispatch (cancel_timer timer_id) c = on_cancel_timer timer_id c
  dispatch (session_terminated contact_id archive_bytes) c =
      on_session_terminated contact_id archive_bytes c

  unfoldable pub dispatch_all : List Action → Cycle C → Cycle C
  unfolding dispatch
  dispatch_all [] c = c
  dispatch_all (a ∷ as') c = dispatch_all as' (dispatch a c)
