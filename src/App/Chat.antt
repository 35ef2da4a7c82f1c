-- ===== src/App/Chat.antt =====
-- src/app.rs: the open chat, from the list to a sent message.
use construct_tui.Prelude.{
  ℕ, ◌+◌, ◌/◌, ◌%◌, Bool, true, false, Option, none, some, List, [], ◌∷◌, ◌++◌, map, ◌==◌,
  if◌then◌else◌,
}
use construct_tui.Prelude.Bytes.{Bytes, bytes, ◌=b◌}
use construct_tui.Prelude.Decimal.{show_uint}
use construct_tui.Prelude.Int.{ℤ, pos, negsuc}
use construct_tui.Prelude.Trim.{trim}
use construct_tui.Prelude.Try.{Result, ok, err}
use construct_tui.Orchestrator.{Event, active_chat_changed, outgoing_message}
use construct_tui.Screens.ChatList.{Contact, selected_contact}
use construct_tui.Screens.ChatView.{
  ChatMessage, ChatViewPane, sent, received, take_compose, push_message,
}
use construct_tui.Storage.{StoredMessage, Storage, DbError}
use construct_tui.Storage.Messages.{get_messages}
use construct_tui.App.{
  App, Env, Focus, contact_list, chat_view, compose, to_core, emit, say, two_digits,
  current_time_hhmm,
}

abbrev focused_on : Focus → Focus → Bool
focused_on contact_list contact_list = true
focused_on chat_view chat_view = true
focused_on compose compose = true
focused_on _ _ = false

unfoldable pub set_focus : Focus → App → App
set_focus f a = record a {
  chat_list = record (a.chat_list) { focused = focused_on f contact_list };
  chat_view = record (a.chat_view) {
    focused = focused_on f chat_view;
    compose_focused = focused_on f compose;
  };
  focus = f;
}

-- To the task of the core, if it runs.
abbrev pub send_if : Bool → Event → App → App
send_if true e a = emit (to_core e) a
send_if false e a = a

-- `format!("{:02}", ...)` of a signed number below 100
abbrev two_signed : Bool → ℕ → Bytes
two_signed is_negative n =
    if n == 0 then bytes "00" else if is_negative then b'-' ∷ show_uint n else two_digits n

abbrev hhmm_of : Bool → ℕ → Bytes
hhmm_of is_negative secs =
    two_signed is_negative (secs / 3600 % 24) ++ (b':' ∷ two_signed is_negative (secs / 60 % 60))

-- Of a stored time in milliseconds. Rust's division rounds to zero.
unfoldable pub stored_hhmm : ℤ → Bytes
unfolding show_uint
stored_hhmm (pos ms) = hhmm_of false (ms / 1000)
stored_hhmm (negsuc ms) = hhmm_of true ((ms + 1) / 1000)

unfoldable pub history_message : StoredMessage → ChatMessage
unfolding stored_hhmm
history_message msg = record {
  id = msg.id;
  kind = if msg.direction =b bytes "sent" then sent else received;
  text = msg.text;
  time = stored_hhmm msg.timestamp_ms;
}

abbrev pub messages_of : Result DbError (List StoredMessage) → List ChatMessage
messages_of (ok history) = map history_message history
messages_of (err e) = []

-- The pane of a contact, before its history.
abbrev pub cleared_for : Contact → ChatViewPane → ChatViewPane
cleared_for c v = record v { contact_name = c.display_name; messages = [] }

abbrev load_history : Env → Contact → Option Storage → App → App
load_history env c none a = a
load_history env c (some storage) a =
    let (result, s) = get_messages env.order_by_desc c.id 50 storage in
    record a {
      chat_view = record (a.chat_view) { messages = a.chat_view.messages ++ messages_of result };
      read_storage = some s;
    }

abbrev opened : Env → Contact → App → App
opened env c a =
    let told = send_if a.has_orchestrator (active_chat_changed c.id true) a in
    load_history env c told.read_storage (record told { chat_view = cleared_for c told.chat_view })

abbrev open_if : Env → Option Contact → App → App
open_if env none a = a
open_if env (some c) a = opened env c a

-- Enter or Tab in the list.
unfoldable pub open_selected_chat : Env → App → App
unfolding get_messages selected_contact set_focus history_message
open_selected_chat env a = set_focus chat_view (open_if env (selected_contact a.chat_list) a)

abbrev pub outgoing : Contact → Env → Bytes → Event
outgoing c env text = outgoing_message c.id env.new_id text 0

abbrev send_to : Option Contact → Env → Bytes → App → App
send_to none env text a = a
send_to (some c) env text a = send_if a.has_orchestrator (outgoing c env text) a

abbrev pub shown_sent : Env → Bytes → ChatMessage
shown_sent env text = record {
  id = env.new_id;
  kind = sent;
  text = text;
  time = current_time_hhmm env.now_secs;
}

-- Enter in the compose field.
unfoldable pub send_composed : Env → App → App
unfolding take_compose trim selected_contact current_time_hhmm
send_composed env a =
    let (text, view) = take_compose a.chat_view in
    let taken = record a { chat_view = view } in
    let told = send_to (selected_contact a.chat_list) env text taken in
    if trim text =b []
    then taken
    else say (bytes "Message sent")
        (record told { chat_view = push_message (shown_sent env text) told.chat_view })
