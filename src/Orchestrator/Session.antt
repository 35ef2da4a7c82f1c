-- ===== src/Orchestrator/Session.antt =====
-- src/orchestrator_task.rs: `establish_session` and `prepare_outgoing`.
use construct_tui.Prelude.{
  ◌==◌, ltb, Bool, true, false, ◌||◌, Option, none, some, List, [], ◌∷◌, ◌++◌, if◌then◌else◌,
}
use construct_tui.Prelude.Bytes.{Bytes, bytes}
use construct_tui.Prelude.Try.{Result, ok, err}
use construct_tui.Prelude.Utf8.{from_utf8_lossy}
use construct_tui.Knst.{is_frame, encode_text, encode_session_ping}
use construct_tui.Orchestrator.{
  Event, Action, active_chat_changed, outgoing_message, key_bundle_fetched, Task, Cycle,
}
use construct_tui.Orchestrator.Actions.{Setup, set_core, emit, ask, session_init_failed}
use construct_tui.Orchestrator.Dispatch.{dispatch_all}

abbrev pub new_cycle : {C : Type 0} → Task C → Cycle C
new_cycle t = record { task = t; follow_ups = []; session_inited = [] }

module _ {C B : Type 0} (p : Setup C B) where
  abbrev pub perform_all : List Action × C → Cycle C → Cycle C
  perform_all (actions, core) c = dispatch_all p actions (set_core core c)

  -- The core handles an event, and its actions are carried out.
  unfoldable pub perform : Event → Cycle C → Cycle C
  unfolding dispatch_all
  perform e c = perform_all (p.api.handle_event c.task.core e) c

  -- The follow-ups in order; what these ask for in turn is dropped.
  unfoldable pub run_follow_ups : List Event → Cycle C → Cycle C
  unfolding perform
  run_follow_ups [] c = c
  run_follow_ups (e ∷ es) c = run_follow_ups es (perform e (record c { follow_ups = [] }))

  -- An event with its follow-ups, in a cycle of its own.
  unfoldable pub handle : Event → Task C → Task C
  unfolding perform run_follow_ups
  handle e t = let c = perform e (new_cycle t) in (run_follow_ups c.follow_ups c).task

  abbrev pub established : Bytes → Task C → Result Bytes Bool × Task C
  established contact_id t =
      if p.api.has_active_session t.core contact_id
      then (ok true, t)
      else (err (bytes "no session after InitSession"), t)

  abbrev pub with_bundle : Bytes → Result Bytes Bytes → Task C → Result Bytes Bool × Task C
  with_bundle contact_id (err e) t = (err (bytes "GetPreKeyBundle: " ++ e), t)
  with_bundle contact_id (ok bundle_json) t =
      established contact_id (handle (key_bundle_fetched contact_id bundle_json) t)

  unfoldable pub establish_session : Bytes → Task C → Result Bytes Bool × Task C
  unfolding handle
  establish_session contact_id t =
      if p.api.has_active_session t.core contact_id
      then (ok false, t)
      else with_bundle contact_id (p.world.fetch_bundle_json t.asked contact_id)
          (ask (new_cycle t)).task

  -- The ping that takes the first message number of a session that this side opened.
  unfoldable pub ping : Bytes → Task C → Task C
  unfolding perform
  ping contact_id t =
      let ping_id = p.world.uuid_v4 t.asked in
      (perform
        (outgoing_message contact_id ping_id (encode_session_ping p.types p.codecs ping_id) 0)
        (ask (new_cycle t))).task

  abbrev pub chat_opened : Bytes → Bool → Result Bytes Bool × Task C → Task C
  chat_opened contact_id had_inbound (ok true, t) = if had_inbound then t else ping contact_id t
  chat_opened contact_id had_inbound (ok false, t) = t
  chat_opened contact_id had_inbound (err e, t) = (emit (session_init_failed e) (new_cycle t)).task

  abbrev pub starts_with_zero : Bytes → Bool
  starts_with_zero [] = false
  starts_with_zero (b ∷ bs) = b == 0

  unfoldable pub framed : Bytes → Bytes → Bytes
  unfolding encode_text
  framed plaintext message_id =
      if is_frame plaintext || starts_with_zero plaintext
      then plaintext
      else encode_text p.types p.codecs (from_utf8_lossy plaintext) message_id

  abbrev pub send_or_fail : Event → Result Bytes Bool × Task C → Option Event × Task C
  send_or_fail e (ok b, t) = (some e, t)
  send_or_fail e (err x, t) = (none, (emit (session_init_failed x) (new_cycle t)).task)

  unfoldable pub prepare_outgoing : Event → Task C → Option Event × Task C
  unfolding establish_session ping framed
  prepare_outgoing (active_chat_changed contact_id true) t =
      let had_inbound = ltb 0 (p.api.pending_message_count t.core contact_id) in
      (
        some (active_chat_changed contact_id true),
        chat_opened contact_id had_inbound (establish_session contact_id t),
      )
  prepare_outgoing (outgoing_message contact_id message_id plaintext content_type) t =
      let event =
        outgoing_message contact_id message_id (framed plaintext message_id) content_type in
      if p.api.has_active_session t.core contact_id
      then (some event, t)
      else send_or_fail event (establish_session contact_id t)
  prepare_outgoing e t = (some e, t)
