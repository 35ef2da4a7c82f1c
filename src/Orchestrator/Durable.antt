-- ===== src/Orchestrator/Durable.antt =====
-- src/orchestrator_task.rs: the stored messages through `dispatch`.
use construct_tui.Prelude.{
  ◌≡◌, refl, Bool, true, false, Option, none, some, List, [], ◌∷◌, arith, if◌then◌else◌, ltb,
}
use construct_tui.Prelude.Bytes.{Bytes, bytes, ◌=b◌}
use construct_tui.Prelude.Dict.{lookup, remove}
use construct_tui.Prelude.Int.{ℤ, as_i64}
use construct_tui.Prelude.Try.{Result, ok, err}
use construct_tui.Knst.{decode_text}
use construct_tui.Storage.{Storage, Db, statement}
use construct_tui.Storage.Secure.{secure_save, secure_delete, secure_load, secure_save_or_delete}
use construct_tui.Storage.Records.{persist_record}
use construct_tui.Storage.Acks.{store_ack, prune_acks, has_ack}
use construct_tui.Orchestrator.{
  Action, Cycle, init_session, message_decrypted, session_heal_needed, save_session_to_secure_store,
  load_session_from_secure_store, persist_message, persist_ack, prune_ack_store,
  mark_message_delivered, check_ack_in_db, cancel_timer, session_terminated,
}
use construct_tui.Orchestrator.Inbound.{
  apply_secure_store_save, apply_session_terminated, received, is_user_text,
}
use construct_tui.Orchestrator.Actions.{
  Setup, at_now, fetch, end_session, set_core, on_task, ask, mark_inited, deliver, surface_first,
  with_first_id, as_initiator, as_responder, init_with, on_init_session, init_initiator_from_json,
  initiator_healed, heal_as_initiator, responder_healed, heal_as_responder, with_payload,
  on_session_heal_needed, is_member, session_set_up,
}
use construct_tui.Orchestrator.Dispatch.{
  stored, dispatch, dispatch_all, on_message_decrypted, on_load_session, on_check_ack,
  on_send_encrypted, on_send_end_session, on_send_heartbeat, on_notify_new_message,
  on_schedule_timer, on_cancel_timer, on_session_terminated, abort_if_running,
}
use construct_tui.Orchestrator.Keeps.{
  Keeps, Keeps-trans, Keeps-messages, persist_inbound-Keeps, mark_delivered-Keeps,
}

-- A statement that leaves the table of messages alone.
abbrev Untouched : {A : Type 0} → Db A → Type 0
Untouched m = (s : Storage) → (m s).1.messages ≡ s.messages

secure_save-Untouched : (key value : Bytes) → Untouched (secure_save key value)
unfolding secure_save statement
secure_save-Untouched key value s = ground arith

pub secure_delete-Untouched : (key : Bytes) → Untouched (secure_delete key)
unfolding secure_delete statement
secure_delete-Untouched key s = ground arith

secure_load-Untouched : (key : Bytes) → Untouched (secure_load key)
unfolding secure_load statement
secure_load-Untouched key s = ground arith

pub secure_save_or_delete-Untouched :
    (key value : Bytes) → Untouched (secure_save_or_delete key value)
unfolding secure_save_or_delete
secure_save_or_delete-Untouched key [] = secure_delete-Untouched key
secure_save_or_delete-Untouched key (b ∷ bs) = secure_save-Untouched key (b ∷ bs)

persist_record-Untouched : (table json : Bytes) → Untouched (persist_record table json)
unfolding persist_record statement
persist_record-Untouched table json s = ground arith

store_ack-Untouched : (id : Bytes) (at_ms : ℤ) → Untouched (store_ack id at_ms)
unfolding store_ack statement
store_ack-Untouched id at_ms s = ground arith

prune_acks-Untouched : (cutoff : ℤ) → Untouched (prune_acks cutoff)
unfolding prune_acks statement
prune_acks-Untouched cutoff s = ground arith

has_ack-Untouched : (id : Bytes) → Untouched (has_ack id)
unfolding has_ack statement
has_ack-Untouched id s = ground arith

apply_session_terminated-Untouched :
    (id archive : Bytes) → Untouched (apply_session_terminated id archive)
unfolding apply_session_terminated secure_save secure_delete statement
apply_session_terminated-Untouched id archive s = ground arith

module _ {C B : Type 0} (p : Setup C B) where
  abbrev pub Safe : Cycle C → Cycle C → Type 0
  Safe c d = Keeps c.task.tracked.storage d.task.tracked.storage

  same_storage : (c d : Cycle C) → d.task.tracked.storage ≡ c.task.tracked.storage → Safe c d
  same_storage c d h = Keeps-messages c.task.tracked.storage d.task.tracked.storage (rw h)

  pub if-Safe : (b : Bool) (c x y : Cycle C) → Safe c x → Safe c y → Safe c (if b then x else y)
  if-Safe true c x y h k = h
  if-Safe false c x y h k = k

  pub stored-Safe : {A : Type 0} (m : Db A) → Untouched m → (c : Cycle C) → Safe c (stored m c)
  stored-Safe m h c =
      Keeps-messages c.task.tracked.storage (m c.task.tracked.storage).1 (h c.task.tracked.storage)

  deliver-Safe :
      (contact id text : Bytes) (at_ms : ℤ) (c : Cycle C)
      → Safe c (deliver p contact id text at_ms c)
  unfolding deliver
  deliver-Safe contact id text at_ms c =
      persist_inbound-Keeps id (received id contact text at_ms) c.task.tracked

  surface_first-Safe :
      (contact id plaintext : Bytes) (c : Cycle C) → Safe c (surface_first p contact id plaintext c)
  unfolding surface_first
  surface_first-Safe contact id plaintext c =
      if-Safe (is_user_text (decode_text p.types p.codecs plaintext)) c
        (deliver p contact id (decode_text p.types p.codecs plaintext) (at_now p c) (ask c)) c
        (deliver-Safe contact id (decode_text p.types p.codecs plaintext) (at_now p c) (ask c))
        (same_storage c c refl)

  with_first_id-Safe :
      (r : Option Bytes × C) (f : Bytes → Cycle C → Cycle C) (c : Cycle C)
      → ((id : Bytes) (k : Cycle C) → Safe k (f id k))
      → Safe c (with_first_id p r f c)
  with_first_id-Safe (some id, core) f c h = h id (set_core core c)
  with_first_id-Safe (none, core) f c h = h (p.world.uuid_v4 c.task.asked) (ask (set_core core c))

  session_set_up-Safe :
      (contact : Bytes) (c d : Cycle C) → Safe c d → Safe c (session_set_up p contact d)
  unfolding session_set_up
  session_set_up-Safe contact c d h = h

  as_initiator-Safe :
      (contact : Bytes) (r : Result Bytes Bytes × C) (c : Cycle C)
      → Safe c (as_initiator p contact r c)
  unfolding session_set_up
  as_initiator-Safe contact (err e, core) c = same_storage c c refl
  as_initiator-Safe contact (ok x, core) c = same_storage c c refl

  as_responder-Safe :
      (contact : Bytes) (r : Result Bytes Bytes × C) (c : Cycle C)
      → Safe c (as_responder p contact r c)
  unfolding session_set_up
  as_responder-Safe contact (err e, core) c = same_storage c c refl
  as_responder-Safe contact (ok plaintext, core) c =
      with_first_id-Safe (p.api.pop_first_pending core contact)
        (λ id k. surface_first p contact id plaintext (mark_inited contact k)) c
        λ id k. surface_first-Safe contact id plaintext (mark_inited contact k)

  init_with-Safe :
      (contact bundle : Bytes) (wire : Option Bytes) (c : Cycle C)
      → Safe c (init_with p contact bundle wire c)
  init_with-Safe contact bundle (some wire) c =
      as_responder-Safe contact (p.api.init_receiving_session c.task.core contact bundle wire) c
  init_with-Safe contact bundle none c =
      as_initiator-Safe contact (init_initiator_from_json p contact bundle c.task.core) c

  on_init_session-Safe :
      (contact bundle : Bytes) (c : Cycle C) → Safe c (on_init_session p contact bundle c)
  unfolding on_init_session
  on_init_session-Safe contact bundle c =
      let wire = p.api.peek_first_pending_wire_payload c.task.core contact in
      if-Safe (ltb 0 (p.api.pending_message_count c.task.core contact)) c
        (init_with p contact bundle wire c) (init_with p contact bundle none c)
        (init_with-Safe contact bundle wire c) (init_with-Safe contact bundle none c)

  initiator_healed-Safe :
      (contact : Bytes) (r : Result Bytes Bytes × C) (c : Cycle C)
      → Safe c (initiator_healed p contact r c)
  initiator_healed-Safe contact (err e, core) c = same_storage c c refl
  initiator_healed-Safe contact (ok x, core) c = same_storage c c refl

  heal_as_initiator-Safe :
      (contact : Bytes) (r : Result Bytes Bytes) (c : Cycle C)
      → Safe c (heal_as_initiator p contact r c)
  heal_as_initiator-Safe contact (err e) c = same_storage c c refl
  heal_as_initiator-Safe contact (ok bundle) c =
      initiator_healed-Safe contact (init_initiator_from_json p contact bundle c.task.core) c

  responder_healed-Safe :
      (contact : Bytes) (r : Result Bytes Bytes × C) (c : Cycle C)
      → Safe c (responder_healed p contact r c)
  responder_healed-Safe contact (err e, core) c = same_storage c c refl
  responder_healed-Safe contact (ok plaintext, core) c =
      with_first_id-Safe (p.api.pop_first_pending core contact)
        (λ id k. surface_first p contact id plaintext k) c
        λ id k. surface_first-Safe contact id plaintext k

  heal_as_responder-Safe :
      (contact wire : Bytes) (r : Result Bytes Bytes) (c : Cycle C)
      → Safe c (heal_as_responder p contact wire r c)
  heal_as_responder-Safe contact wire (err e) c = same_storage c c refl
  heal_as_responder-Safe contact wire (ok bundle) c =
      responder_healed-Safe contact (p.api.init_receiving_session c.task.core contact bundle wire) c

  with_payload-Safe :
      (contact : Bytes) (r : Option Bytes × C) (c : Cycle C) → Safe c (with_payload p contact r c)
  with_payload-Safe contact (none, core) c = same_storage c c refl
  with_payload-Safe contact (some wire, core) c =
      heal_as_responder-Safe contact wire (p.world.fetch_bundle_json c.task.asked contact)
        (ask (set_core core c))

  on_session_heal_needed-Safe :
      (contact role : Bytes) (c : Cycle C) → Safe c (on_session_heal_needed p contact role c)
  unfolding on_session_heal_needed
  on_session_heal_needed-Safe contact role c =
      let ended = end_session p contact c in
      let healed = fetch p contact (heal_as_initiator p contact) ended in
      let answered = with_payload p contact (p.api.take_heal_payload c.task.core contact) c in
      if-Safe (is_member contact c.session_inited) c c
        (if role =b bytes "Initiator" then healed else answered) (same_storage c c refl)
        (if-Safe (role =b bytes "Initiator") c healed answered
          (heal_as_initiator-Safe contact (p.world.fetch_bundle_json ended.task.asked contact)
            (ask ended))
          (with_payload-Safe contact (p.api.take_heal_payload c.task.core contact) c))

  abort_if_running-Safe :
      (id : Bytes) (handle : Option Bytes) (c d : Cycle C)
      → Safe c d
      → Safe c (abort_if_running id handle d)
  abort_if_running-Safe id none c d h = h
  abort_if_running-Safe id (some x) c d h = h

  pub dispatch-Safe : (a : Action) (c : Cycle C) → Safe c (dispatch p a c)
  unfolding dispatch on_message_decrypted on_load_session on_check_ack on_send_encrypted
      on_send_end_session on_send_heartbeat on_notify_new_message on_schedule_timer on_cancel_timer
      on_session_terminated apply_secure_store_save
  dispatch-Safe (init_session contact bundle) c = on_init_session-Safe contact bundle c
  dispatch-Safe (message_decrypted contact id plaintext) c =
      deliver-Safe contact id (decode_text p.types p.codecs plaintext) (at_now p c) (ask c)
  dispatch-Safe (session_heal_needed contact role) c = on_session_heal_needed-Safe contact role c
  dispatch-Safe (save_session_to_secure_store key value) c =
      stored-Safe (secure_save_or_delete key value) (secure_save_or_delete-Untouched key value) c
  dispatch-Safe (load_session_from_secure_store key) c =
      stored-Safe (secure_load key) (secure_load-Untouched key) c
  dispatch-Safe (persist_message json) c =
      stored-Safe (persist_record (bytes "msg") json) (persist_record-Untouched (bytes "msg") json)
        c
  dispatch-Safe (persist_ack id at_ms) c =
      stored-Safe (store_ack id (as_i64 at_ms)) (store_ack-Untouched id (as_i64 at_ms)) c
  dispatch-Safe (prune_ack_store cutoff) c =
      stored-Safe (prune_acks (as_i64 cutoff)) (prune_acks-Untouched (as_i64 cutoff)) c
  dispatch-Safe (mark_message_delivered id) c = mark_delivered-Keeps id c.task.tracked.storage
  dispatch-Safe (check_ack_in_db id) c = stored-Safe (has_ack id) (has_ack-Untouched id) c
  dispatch-Safe (cancel_timer id) c =
      abort_if_running-Safe id (lookup id c.task.timers) c
        (on_task (λ t. record t { timers = remove id t.timers }) c) (same_storage c c refl)
  dispatch-Safe (session_terminated contact archive) c =
      stored-Safe (apply_session_terminated contact archive)
        (apply_session_terminated-Untouched contact archive) c
  dispatch-Safe _ c = same_storage c c refl

  pub dispatch_all-Safe : (as' : List Action) (c : Cycle C) → Safe c (dispatch_all p as' c)
  unfolding dispatch_all
  dispatch_all-Safe [] c = same_storage c c refl
  dispatch_all-Safe (a ∷ as') c =
      Keeps-trans c.task.tracked.storage (dispatch p a c).task.tracked.storage
        (dispatch_all p as' (dispatch p a c)).task.tracked.storage (dispatch-Safe a c)
        (dispatch_all-Safe as' (dispatch p a c))
