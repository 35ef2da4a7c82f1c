-- ===== src/App/Sending.antt =====
-- src/app.rs: Enter in the compose field.
use construct_tui.Prelude.{◌≡◌, refl, true, false, Bool-cases, inl, inr, some, [], ◌∷◌, ◌++◌}
use construct_tui.Prelude.Bytes.{◌=b◌}
use construct_tui.Prelude.Trim.{trim}
use construct_tui.Screens.ChatList.{Contact, selected_contact}
use construct_tui.Screens.ChatView.{ChatMessage, sent, take_compose}
use construct_tui.Orchestrator.{outgoing_message}
use construct_tui.App.{App, Env, to_core, current_time_hhmm}
use construct_tui.App.Chat.{send_composed}

-- Enter in the compose field, with a contact selected and the task of the core running: a text that
-- is not blank goes to the core once, as a message of type 0 to the selected contact and to no one
-- else, under the new id with which it is appended to the chat as sent at this minute; a blank text
-- goes nowhere and is not shown; the field is empty after both.
pub send_composed_once :
    (env : Env) (a : App) (c : Contact)
    → selected_contact a.chat_list ≡ some c
    → a.has_orchestrator ≡ true
    → let text = a.chat_view.compose in
      let shown : ChatMessage = record {
        id = env.new_id;
        kind = sent;
        text = text;
        time = current_time_hhmm env.now_secs;
      } in
      let b = send_composed env a in
      (b.chat_view.compose ≡ [])
      × ((trim text =b []) ≡ false
          → (b.effects ≡ a.effects ++ (to_core (outgoing_message c.id env.new_id text 0) ∷ []))
            × (b.chat_view.messages ≡ a.chat_view.messages ++ (shown ∷ [])))
      × ((trim text =b []) ≡ true
          → (b.effects ≡ a.effects) × (b.chat_view.messages ≡ a.chat_view.messages))
unfolding send_composed take_compose
send_composed_once env a c selected runs = (
  elim (Bool-cases (trim a.chat_view.compose =b [])) [
    | inl h ↦ rw (selected, runs, h) refl
    | inr h ↦ rw (selected, runs, h) refl
  ],
  λ h. (rw (selected, runs, h) refl, rw (selected, runs, h) refl),
  λ h. (rw h refl, rw h refl),
)
