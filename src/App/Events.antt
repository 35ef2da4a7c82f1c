-- ===== src/App/Events.antt =====
-- src/app.rs: what arrives from the background tasks.
use construct_tui.Prelude.{
  ℕ, ◌+◌, Bool, true, false, ◌||◌, Option, none, some, List, [], ◌∷◌, ◌++◌, if◌then◌else◌,
}
use construct_tui.Prelude.Bytes.{Bytes, bytes, ◌=b◌, contains}
use construct_tui.Prelude.Decimal.{show_uint}
use construct_tui.Bridge.Refresh.{TokenRefreshMsg}
use construct_tui.Orchestrator.{
  BridgeEvent, new_message, message_delivered, stream_status, stream_reconnecting, session_ready,
  error,
}
use construct_tui.Screens.ChatList.{Contact}
use construct_tui.Screens.ChatView.{ChatMessage, received, on_new_message, push_message}
use construct_tui.Screens.Search.{SearchResult, set_results, set_error}
use construct_tui.Screens.Fields.{advance, tick, steps}
use construct_tui.App.{
  App, Env, Screen, registering_screen, is_disconnected, is_connected, is_reconnecting, say,
  transport_label, current_time_hhmm,
}
use construct_tui.App.Contacts.{finish_add_contact, on_search}
use construct_tui.App.Login.{AuthMsg, handle_auth_msg, stop_ticking}
use construct_tui.App.Session.{handle_token_refresh_msg, refresh_token_now}

pub data RegistrationStep : Type 0 where
  generating_signing_key generating_identity_key generating_pre_key signing_pre_key :
      RegistrationStep
  connecting solving_pow registering : RegistrationStep

unfoldable pub index : RegistrationStep → ℕ
index generating_signing_key = 0
index generating_identity_key = 1
index generating_pre_key = 2
index signing_pre_key = 3
index connecting = 4
index solving_pow = 5
index registering = 6

pub data InternalEvent : Type 0 where
  auth : AuthMsg → InternalEvent
  token_refresh : TokenRefreshMsg → InternalEvent
  bridge : BridgeEvent → InternalEvent
  contact_search_result : List SearchResult → InternalEvent
  contact_search_error : Bytes → InternalEvent
  invite_accepted : (user_id username : Bytes) → InternalEvent
  registration_step : RegistrationStep → InternalEvent
  ticked : InternalEvent
  stream_auth_required : InternalEvent
  p2p_status :
      (peer_id : Bytes) (connected : Bool) (latency_ms : Option ℕ) (is_relay : Bool) → InternalEvent

abbrev latency_text : Option ℕ → Bytes
latency_text none = bytes "unknown"
latency_text (some ms) = show_uint ms ++ bytes "ms"

unfoldable pub handle_p2p_status : Bytes → Bool → Option ℕ → Bool → App → App
unfolding show_uint
handle_p2p_status peer_id true latency_ms is_relay a = record a {
  status =
      bytes "P2P connected to "
      ++ (peer_id ++ (bytes " (" ++ (latency_text latency_ms ++ bytes " latency)")));
  connection = is_connected (bytes "P2P") latency_ms;
}
handle_p2p_status peer_id false latency_ms true a = record a {
  status = bytes "P2P failed for " ++ (peer_id ++ bytes ", using relay");
  connection = is_connected (bytes "Relay") none;
}
handle_p2p_status peer_id false latency_ms false a =
    say (bytes "P2P disconnected from " ++ peer_id) a

-- The name of the first contact with this id.
abbrev contact_name : Bytes → List Contact → Bytes
contact_name id [] = bytes "contact"
contact_name id (c ∷ cs) =
    let later = contact_name id cs in if c.id =b id then c.display_name else later

abbrev pub shown_received : Env → Bytes → ChatMessage
shown_received env text = record {
  id = env.new_id;
  kind = received;
  text = text;
  time = current_time_hhmm env.now_secs;
}

-- The bullets of the texts are U+25CF, U+25CB and U+21BA.
unfoldable pub handle_bridge_event : Env → BridgeEvent → App → App
unfolding on_new_message current_time_hhmm transport_label show_uint
handle_bridge_event env (new_message peer_id message_id text timestamp_ms) a = record a {
  chat_view = on_new_message (push_message (shown_received env text) a.chat_view);
}
handle_bridge_event env (message_delivered message_id) a = a
handle_bridge_event env (stream_status true) a = record a {
  connection = is_connected (transport_label a.transport) none;
  status = 226 ∷ 151 ∷ 143 ∷ bytes " connected";
}
handle_bridge_event env (stream_status false) a = record a {
  connection = is_disconnected;
  status = 226 ∷ 151 ∷ 139 ∷ bytes " disconnected";
}
handle_bridge_event env (stream_reconnecting attempt delay_ms) a = record a {
  connection = is_reconnecting attempt (env.now_ms + delay_ms) delay_ms;
  status = 226 ∷ 134 ∷ 186 ∷ (bytes " reconnecting (attempt " ++ (show_uint attempt ++ bytes ")"));
}
handle_bridge_event env (error text) a = say (bytes "Bridge error: " ++ text) a
handle_bridge_event env (session_ready contact_id) a =
    say (bytes "Session ready with @" ++ contact_name contact_id a.chat_list.contacts) a

abbrev pub is_registering : Screen → Bool
is_registering registering_screen = true
is_registering _ = false

abbrev steps_done : App → App
steps_done a =
    if is_registering a.screen
    then record (stop_ticking a) { registration = record (a.registration) { active_step = steps } }
    else a

abbrev search_error : Bytes → Bytes
search_error msg =
    if contains msg (bytes "rate limit") || contains msg (bytes "8:")
    then bytes "Search limit (5/hour). Wait, then Enter once."
    else msg

unfoldable pub handle_internal : Env → InternalEvent → App → App
unfolding handle_auth_msg handle_token_refresh_msg handle_bridge_event set_results set_error
    contains finish_add_contact advance index tick refresh_token_now handle_p2p_status
handle_internal env (auth msg) a = handle_auth_msg env msg (steps_done a)
handle_internal env (token_refresh msg) a = handle_token_refresh_msg env msg a
handle_internal env (bridge e) a = handle_bridge_event env e a
handle_internal env (contact_search_result results) a = on_search (set_results results) a
handle_internal env (contact_search_error msg) a = on_search (set_error (search_error msg)) a
handle_internal env (invite_accepted user_id username) a = finish_add_contact user_id username a
handle_internal env (registration_step step) a = record a {
  registration = advance (index step) a.registration;
}
handle_internal env ticked a =
    if is_registering a.screen then record a { registration = tick a.registration } else a
handle_internal env stream_auth_required a = refresh_token_now a
handle_internal env (p2p_status peer_id connected latency_ms is_relay) a =
    handle_p2p_status peer_id connected latency_ms is_relay a
