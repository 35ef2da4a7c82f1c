-- ===== src/Screens/ChatView.antt =====
-- src/screens/chat_view.rs: the open chat, its compose field and the part of it that is shown.
use construct_tui.Prelude.{
  ℕ, ◌+◌, ◌-◌, min, Bool, false, List, [], ◌∷◌, ◌++◌, length, take, drop, ◌==◌, if◌then◌else◌,
}
use construct_tui.Prelude.Bytes.{Bytes}
use construct_tui.Prelude.Text.{Char}
use construct_tui.Prelude.Text
pub mod Scroll

pub data MessageKind : Type 0 where
  sent received : MessageKind

pub record ChatMessage : Type 0 where
  pub id : Bytes
  pub kind : MessageKind
  pub text : Bytes
  pub time : Bytes

pub record ChatViewPane : Type 0 where
  pub contact_name : Bytes
  pub messages : List ChatMessage
  pub compose : Bytes
  pub focused : Bool
  pub compose_focused : Bool
  pub scroll_offset : ℕ

abbrev pub new_view : Bytes → ChatViewPane
new_view contact_name = record {
  contact_name = contact_name;
  messages = [];
  compose = [];
  focused = false;
  compose_focused = false;
  scroll_offset = 0;
}

unfoldable pub push_char : Char → ChatViewPane → ChatViewPane
push_char c v = record v { compose = Text.push_char c v.compose }

unfoldable pub pop_char : ChatViewPane → ChatViewPane
pop_char v = record v { compose = Text.pop_char v.compose }

unfoldable pub take_compose : ChatViewPane → Bytes × ChatViewPane
take_compose v = (v.compose, record v { compose = [] })

unfoldable pub scroll_up : ℕ → ChatViewPane → ChatViewPane
scroll_up n v = record v { scroll_offset = min (v.scroll_offset + n) (length v.messages - 1) }

unfoldable pub scroll_down : ℕ → ChatViewPane → ChatViewPane
scroll_down n v = record v { scroll_offset = v.scroll_offset - n }

unfoldable pub scroll_to_top : ChatViewPane → ChatViewPane
scroll_to_top v = record v { scroll_offset = length v.messages - 1 }

unfoldable pub scroll_to_bottom : ChatViewPane → ChatViewPane
scroll_to_bottom v = record v { scroll_offset = 0 }

unfoldable pub on_new_message : ChatViewPane → ChatViewPane
on_new_message v =
    if v.scroll_offset == 0 then v else record v { scroll_offset = v.scroll_offset + 1 }

-- The messages that a pane of this height shows.
unfoldable pub visible : ℕ → ChatViewPane → List ChatMessage
visible height v =
    let end = length v.messages - v.scroll_offset in
    let start = end - height in take (end - start) (drop start v.messages)

-- `messages.push(m)`
abbrev pub push_message : ChatMessage → ChatViewPane → ChatViewPane
push_message m v = record v { messages = v.messages ++ (m ∷ []) }
