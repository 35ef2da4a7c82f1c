-- ===== src/Orchestrator/Actions.antt =====
-- src/orchestrator_task.rs: the arms of `dispatch` that set up and heal sessions.
use construct_tui.Prelude.{
  suc, ◌%◌, ◌^◌, Bool, true, false, Option, none, some, List, [], ◌∷◌, ◌++◌, ltb, if◌then◌else◌,
}
use construct_tui.Prelude.Bytes.{Bytes, bytes, ◌=b◌}
use construct_tui.Prelude.Dict.{insert}
use construct_tui.Prelude.Int.{ℤ, as_i64}
use construct_tui.Prelude.Try.{Result, ok, err}
use construct_tui.Knst
use construct_tui.Knst.{ContentTypes, nil_uuid, decode_text, encode_session_ping}
use construct_tui.Streaming.Tracker.{Tracked}
use construct_tui.Orchestrator.{
  Event, session_init_completed, outgoing_message, session_reset, new_message, error, Output,
  to_stream, to_app, Core, World, Task, Cycle,
}
use construct_tui.Orchestrator.Envelopes.{build_control_envelope}
use construct_tui.Orchestrator.Inbound.{persist_inbound, is_user_text, received}

module _ {C : Type 0} where
  abbrev pub on_task : (Task C → Task C) → Cycle C → Cycle C
  on_task f c = record c { task = f c.task }

  abbrev pub emit : Output → Cycle C → Cycle C
  emit o = on_task λ t. record t { outputs = t.outputs ++ (o ∷ []) }

  abbrev pub on_core : (C → C) → Cycle C → Cycle C
  on_core f = on_task λ t. record t { core = f t.core }

  abbrev pub set_core : C → Cycle C → Cycle C
  set_core k = on_core λ old. k

  abbrev pub on_tracked : (Tracked → Tracked) → Cycle C → Cycle C
  on_tracked f = on_task λ t. record t { tracked = f t.tracked }

  -- One more question to the clock, the random source or the server.
  abbrev pub ask : Cycle C → Cycle C
  ask = on_task λ t. record t { asked = suc t.asked }

  abbrev pub follow_up : Event → Cycle C → Cycle C
  follow_up e c = record c { follow_ups = c.follow_ups ++ (e ∷ []) }

  abbrev pub mark_inited : Bytes → Cycle C → Cycle C
  mark_inited contact_id c = record c { session_inited = contact_id ∷ c.session_inited }

abbrev pub is_member : Bytes → List Bytes → Bool
is_member x [] = false
is_member x (y ∷ ys) = if x =b y then true else is_member x ys

abbrev pub session_init_failed : Bytes → Output
session_init_failed e = to_app (error (bytes "[SESSION_INIT_FAILED] " ++ e))

-- The parameters: the numbers of the content types, the codecs of the text frames, the core, the
-- world, and the user and device of this client.
pub record Setup (C B : Type 0) : Type 0 where
  pub types : ContentTypes
  pub codecs : Knst.Codecs
  pub api : Core C B
  pub world : World
  pub my_user_id : Bytes
  pub my_device_id : Bytes

module _ {C B : Type 0} (p : Setup C B) where
  abbrev pub at_now : Cycle C → ℤ
  at_now c = as_i64 (p.world.now_ms c.task.asked % 2 ^ 64)

  -- Stores a decrypted text and shows it.
  unfoldable pub deliver : Bytes → Bytes → Bytes → ℤ → Cycle C → Cycle C
  unfolding persist_inbound
  deliver contact_id message_id text at_ms c =
      emit (to_app (new_message contact_id message_id text at_ms))
        (on_tracked (persist_inbound message_id (received message_id contact_id text at_ms)) c)

  -- The first message of a session, unless it is control text.
  unfoldable pub surface_first : Bytes → Bytes → Bytes → Cycle C → Cycle C
  unfolding deliver is_user_text decode_text
  surface_first contact_id message_id plaintext c =
      let text = decode_text p.types p.codecs plaintext in
      if is_user_text text then deliver contact_id message_id text (at_now c) (ask c) else c

  -- `pop_first_pending(..).unwrap_or_else(uuid_v4)`, with the id and what comes after it.
  abbrev pub with_first_id : Option Bytes × C → (Bytes → Cycle C → Cycle C) → Cycle C → Cycle C
  with_first_id (some id, core) f c = f id (set_core core c)
  with_first_id (none, core) f c = f (p.world.uuid_v4 c.task.asked) (ask (set_core core c))

  unfoldable pub init_initiator_from_json : Bytes → Bytes → C → Result Bytes Bytes × C
  init_initiator_from_json contact_id bundle_json core = elim (p.api.parse_bundle bundle_json) [
    | err e ↦ (err e, core)
    | ok bundle ↦ p.api.init_session_with_bundle core contact_id bundle
  ]

  -- The end of `InitSession`, where a session was set up.
  unfoldable pub session_set_up : Bytes → Cycle C → Cycle C
  session_set_up contact_id c = follow_up (session_init_completed contact_id []) (
      ask (
        on_task
          (λ t. record t {
            session_established_at_ms =
                insert contact_id (p.world.now_ms t.asked) t.session_established_at_ms;
          })
          (mark_inited contact_id c)))

  abbrev pub as_initiator : Bytes → Result Bytes Bytes × C → Cycle C → Cycle C
  as_initiator contact_id (err e, core) c = emit (session_init_failed e) (set_core core c)
  as_initiator contact_id (ok r, core) c = session_set_up contact_id (set_core core c)

  abbrev pub as_responder : Bytes → Result Bytes Bytes × C → Cycle C → Cycle C
  as_responder contact_id (err e, core) c = set_core core c
  as_responder contact_id (ok plaintext, core) c = session_set_up contact_id (
      with_first_id (p.api.pop_first_pending core contact_id)
        (λ id k. surface_first contact_id id plaintext (mark_inited contact_id k)) c)

  abbrev pub init_with : Bytes → Bytes → Option Bytes → Cycle C → Cycle C
  init_with contact_id bundle_json (some wire) c =
      as_responder contact_id (p.api.init_receiving_session c.task.core contact_id bundle_json wire)
        c
  init_with contact_id bundle_json none c =
      as_initiator contact_id (init_initiator_from_json contact_id bundle_json c.task.core) c

  -- `Action::InitSession`
  unfoldable pub on_init_session : Bytes → Bytes → Cycle C → Cycle C
  unfolding session_set_up surface_first init_initiator_from_json
  on_init_session contact_id bundle_json c =
      if ltb 0 (p.api.pending_message_count c.task.core contact_id)
      then init_with contact_id bundle_json
          (p.api.peek_first_pending_wire_payload c.task.core contact_id) c
      else init_with contact_id bundle_json none c

  abbrev pub end_session : Bytes → Cycle C → Cycle C
  end_session contact_id c =
      emit
        (to_stream (
          build_control_envelope p.my_user_id p.my_device_id contact_id session_reset nil_uuid
            (p.world.uuid_v4 c.task.asked)))
        (ask c)

  abbrev pub fetch : Bytes → (Result Bytes Bytes → Cycle C → Cycle C) → Cycle C → Cycle C
  fetch user_id f c = f (p.world.fetch_bundle_json c.task.asked user_id) (ask c)

  abbrev pub send_ping : Bytes → Cycle C → Cycle C
  send_ping contact_id c =
      let ping_id = p.world.uuid_v4 c.task.asked in
      follow_up
        (outgoing_message contact_id ping_id (encode_session_ping p.types p.codecs ping_id) 0)
        (ask c)

  abbrev pub initiator_healed : Bytes → Result Bytes Bytes × C → Cycle C → Cycle C
  initiator_healed contact_id (err e, core) c = set_core core c
  initiator_healed contact_id (ok r, core) c =
      send_ping contact_id (follow_up (session_init_completed contact_id []) (set_core core c))

  abbrev pub heal_as_initiator : Bytes → Result Bytes Bytes → Cycle C → Cycle C
  heal_as_initiator contact_id (err e) c = c
  heal_as_initiator contact_id (ok bundle_json) c =
      initiator_healed contact_id (init_initiator_from_json contact_id bundle_json c.task.core) c

  abbrev pub responder_healed : Bytes → Result Bytes Bytes × C → Cycle C → Cycle C
  responder_healed contact_id (err e, core) c = end_session contact_id (set_core core c)
  responder_healed contact_id (ok plaintext, core) c =
      follow_up (session_init_completed contact_id []) (
        with_first_id (p.api.pop_first_pending core contact_id)
          (λ id k. surface_first contact_id id plaintext k) c)

  abbrev pub heal_as_responder : Bytes → Bytes → Result Bytes Bytes → Cycle C → Cycle C
  heal_as_responder contact_id wire (err e) c = c
  heal_as_responder contact_id wire (ok bundle_json) c =
      responder_healed contact_id
        (p.api.init_receiving_session c.task.core contact_id bundle_json wire) c

  abbrev pub with_payload : Bytes → Option Bytes × C → Cycle C → Cycle C
  with_payload contact_id (none, core) c = set_core core c
  with_payload contact_id (some wire, core) c =
      fetch contact_id (heal_as_responder contact_id wire) (set_core core c)

  -- `Action::SessionHealNeeded`
  unfoldable pub on_session_heal_needed : Bytes → Bytes → Cycle C → Cycle C
  unfolding surface_first init_initiator_from_json
  on_session_heal_needed contact_id role c =
      if is_member contact_id c.session_inited
      then c
      else if role =b bytes "Initiator"
      then fetch contact_id (heal_as_initiator contact_id) (end_session contact_id c)
      else with_payload contact_id (p.api.take_heal_payload c.task.core contact_id) c
