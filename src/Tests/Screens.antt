-- ===== src/Tests/Screens.antt =====
-- Panes with two contacts and two messages, and the safety number of two keys.
use construct_tui.Prelude.{◌<◌, ◌≤◌, ◌≡◌, refl, none, some, [], ◌∷◌, ◌++◌, length, arith, inl}
use construct_tui.Prelude.Bytes.{Bytes, bytes}
use construct_tui.Screens.ChatList.{
  Contact, new_pane, selected_contact, add_contact, remove_at, set_contacts, next,
}
use construct_tui.Screens.ChatList.Selection.{
  apply_op, apply_ops, set, add, remove, down, apply_ops_selected,
}
use construct_tui.Screens.ChatView.{
  ChatMessage, ChatViewPane, new_view, received, visible, scroll_up, on_new_message,
}
use construct_tui.Screens.ChatView.Scroll.{
  scroll_all, scrolled, up, arrived, scroll_all_shows, visible-on_new_message,
}
use construct_tui.Screens.ChatView.{push_message}

abbrev pub bob : Contact
bob = record { id = bytes "b"; display_name = bytes "bob"; unread = 0; last_message = none }

abbrev pub eve : Contact
eve = record { id = bytes "e"; display_name = bytes "eve"; unread = 0; last_message = none }

two_left :
    length (apply_ops (set (bob ∷ eve ∷ []) ∷ down ∷ add bob ∷ remove 1 ∷ []) new_pane).contacts ≡ 2
unfolding apply_ops apply_op set_contacts next add_contact remove_at
two_left = refl

apply_ops_selected_example :
    (c : Contact) × (selected_contact
        (apply_ops (set (bob ∷ eve ∷ []) ∷ down ∷ add bob ∷ remove 1 ∷ []) new_pane)
      ≡ some c)
apply_ops_selected_example =
    apply_ops_selected (set (bob ∷ eve ∷ []) ∷ down ∷ add bob ∷ remove 1 ∷ [])
      (omega (arith, two_left))

abbrev hello : ChatMessage
hello = record { id = bytes "1"; kind = received; text = bytes "hello"; time = bytes "10:00" }

abbrev pane : ChatViewPane
pane = record (new_view (bytes "bob")) { messages = hello ∷ hello ∷ [] }

three_there : length (scroll_all (up 1 ∷ arrived hello ∷ []) pane).messages ≡ 3
unfolding scroll_all scrolled scroll_up on_new_message
three_there = refl

scroll_all_shows_example :
    (0 < length (visible 5 (scroll_all (up 1 ∷ arrived hello ∷ []) pane)))
    × (length (visible 5 (scroll_all (up 1 ∷ arrived hello ∷ []) pane)) ≤ 5)
scroll_all_shows_example =
    scroll_all_shows (up 1 ∷ arrived hello ∷ []) pane 5 (inl refl) (omega arith)
      (omega (arith, three_there))

abbrev scrolled_up : ChatViewPane
scrolled_up = record pane { scroll_offset = 1 }

visible-on_new_message_example :
    visible 5 (on_new_message (push_message hello scrolled_up)) ≡ visible 5 scrolled_up
visible-on_new_message_example =
    visible-on_new_message 5 hello scrolled_up (omega arith) (omega arith)

abbrev echo : Bytes → Bytes
echo s = s ++ s
