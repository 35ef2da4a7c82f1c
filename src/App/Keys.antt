-- ===== src/App/Keys.antt =====
-- src/app.rs: what a key press does on each screen.
use construct_tui.Prelude.{
  ℕ, zero, suc, Bool, true, false, not, ◌&&◌, ◌||◌, Option, none, some, [], ◌∷◌, if◌then◌else◌,
}
use construct_tui.Prelude.Bytes.{Bytes, bytes, ◌=b◌}
use construct_tui.Prelude.Text.{Char}
use construct_tui.Prelude.Trim.{trim}
use construct_tui.Prelude.Try.{Result, ok, err}
use construct_tui.Screens.ChatList.{Contact, selected_contact}
use construct_tui.Screens.ChatList
use construct_tui.Screens.ChatView.{
  scroll_up, scroll_down, scroll_to_top, scroll_to_bottom, ChatViewPane,
}
use construct_tui.Screens.ChatView
use construct_tui.Screens.Fields.{
  push_username, pop_username, OnboardingScreen, DeviceLinkScreen, new_device_link, push_token,
  pop_token, set_link_status, clear_link_status, UnlockScreen, unlock, reset_for_mode,
  push_passphrase, pop_passphrase, clear_unlock_error,
}
use construct_tui.Screens.Safety.{compute_safety_number}
use construct_tui.Screens.Search.{new_search, selected_result}
use construct_tui.Screens.Search
use construct_tui.Screens.Settings.{
  SettingsAction, logout, show_safety_number, export_keys, show_my_qr, back, confirm,
}
use construct_tui.Screens.Settings
use construct_tui.Storage.{Storage, StoredContact, DbError}
use construct_tui.Storage.Contacts.{get_contact_by_id}
use construct_tui.App.{
  App, Env, Key, KeyCode, Modifiers, char_key, enter, tab, back_tab, esc, backspace, up, down,
  page_up, page_down, home, end_of, is, is_plain, is_control, is_ctrl_c, is_quit, Focus,
  contact_list, chat_view, compose, Screen, startup_screen, unlock_screen, set_passphrase_screen,
  onboarding_screen, device_link_screen, registering_screen, connecting_screen, auth_error_screen,
  main_screen, settings_screen, identity_qr_screen, contact_search_screen, safety_number_screen,
  export_key, emit, say, go_to,
}
use construct_tui.App.Chat.{open_selected_chat, send_composed, set_focus}
use construct_tui.App.Contacts.{
  confirm_delete, add_selected_search_result, submit_contact_search, on_search,
}
use construct_tui.App.Login.{
  start_auth_register, start_auth_link, try_unlock, choose_passphrase, do_logout,
}

abbrev stop : App → App
stop a = record a { running = false }

abbrev on_onboarding : (OnboardingScreen → OnboardingScreen) → App → App
on_onboarding f a = record a { onboarding = record (f a.onboarding) { status = none } }

abbrev username_key : Char → Modifiers → App → App
username_key c m a =
    if is b'q' c && (is_plain m && a.onboarding.username =b [])
    then stop a
    else if is b'c' c && is_control m
    then stop a
    else on_onboarding (push_username c) a

unfoldable pub handle_onboarding : KeyCode → Modifiers → App → App
unfolding push_username pop_username trim start_auth_register
handle_onboarding (char_key c) m a = username_key c m a
handle_onboarding tab m a = go_to device_link_screen (record a { device_link = new_device_link })
handle_onboarding back_tab m a =
    go_to device_link_screen (record a { device_link = new_device_link })
handle_onboarding enter m a =
    start_auth_register (trim a.onboarding.username) (on_onboarding (λ s. s) a)
handle_onboarding backspace m a = on_onboarding pop_username a
handle_onboarding _ m a = a

abbrev on_unlock : (UnlockScreen → UnlockScreen) → App → App
on_unlock f a = record a { unlock = f a.unlock }

unfoldable pub handle_unlock : Env → KeyCode → App → App
unfolding push_passphrase pop_passphrase clear_unlock_error try_unlock
handle_unlock env backspace a = on_unlock (λ s. clear_unlock_error (pop_passphrase s)) a
handle_unlock env (char_key c) a = on_unlock (λ s. clear_unlock_error (push_passphrase c s)) a
handle_unlock env enter a = try_unlock env a
handle_unlock env _ a = a

unfoldable pub handle_set_passphrase : Env → KeyCode → App → App
unfolding push_passphrase pop_passphrase choose_passphrase
handle_set_passphrase env backspace a = on_unlock pop_passphrase a
handle_set_passphrase env (char_key c) a = on_unlock (push_passphrase c) a
handle_set_passphrase env enter a = choose_passphrase env a
handle_set_passphrase env _ a = a

abbrev on_link : (DeviceLinkScreen → DeviceLinkScreen) → App → App
on_link f a = record a { device_link = f a.device_link }

abbrev token_key : Char → Modifiers → App → App
token_key c m a =
    if is b'q' c && is_plain m
    then go_to onboarding_screen a
    else if is b'c' c && is_control m
    then stop a
    else on_link (push_token c) a

abbrev submit_token : Bytes → App → App
submit_token token a =
    if token =b []
    then on_link (set_link_status (bytes "Paste the link token first") true) a
    else start_auth_link token (on_link clear_link_status a)

unfoldable pub handle_device_link : KeyCode → Modifiers → App → App
unfolding push_token pop_token trim start_auth_link set_link_status clear_link_status
handle_device_link esc m a = if is_plain m then go_to onboarding_screen a else a
handle_device_link (char_key c) m a = token_key c m a
handle_device_link enter m a = submit_token (trim a.device_link.token) a
handle_device_link backspace m a = on_link pop_token a
handle_device_link _ m a = a

abbrev on_list : (ChatList.ChatListPane → ChatList.ChatListPane) → App → App
on_list f a = record a { chat_list = f a.chat_list }

abbrev on_view : (ChatViewPane → ChatViewPane) → App → App
on_view f a = record a { chat_view = f a.chat_view }

abbrev ask_delete : Option Contact → App → App
ask_delete none a = a
ask_delete (some c) a = record a { delete_confirm = some c.id }

abbrev list_char : Char → Modifiers → App → App
list_char c m a =
    if is b'j' c
    then on_list ChatList.next a
    else if is b'k' c
    then on_list ChatList.prev a
    else if is b'x' c && is_plain m
    then ask_delete (selected_contact a.chat_list) a
    else if is b's' c && is_plain m
    then go_to settings_screen a
    else if (is b'a' c || is b'n' c) && is_plain m
    then go_to contact_search_screen (on_search (λ s. new_search) a)
    else a

unfoldable pub list_key : Env → KeyCode → Modifiers → App → App
unfolding ChatList.next ChatList.prev selected_contact open_selected_chat
list_key env down m a = on_list ChatList.next a
list_key env up m a = on_list ChatList.prev a
list_key env enter m a = open_selected_chat env a
list_key env tab m a = open_selected_chat env a
list_key env (char_key c) m a = list_char c m a
list_key env _ m a = a

abbrev view_char : Char → App → App
view_char c a =
    if is b'i' c
    then set_focus compose a
    else if is b'u' c
    then on_view (scroll_up 10) a
    else if is b'd' c
    then on_view (scroll_down 10) a
    else if is b'k' c
    then on_view (scroll_up 1) a
    else if is b'j' c
    then on_view (scroll_down 1) a
    else a

unfoldable pub view_key : KeyCode → App → App
unfolding set_focus scroll_up scroll_down scroll_to_top scroll_to_bottom
view_key tab a = set_focus compose a
view_key back_tab a = set_focus contact_list a
view_key esc a = set_focus contact_list a
view_key page_up a = on_view (scroll_up 10) a
view_key page_down a = on_view (scroll_down 10) a
view_key up a = on_view (scroll_up 1) a
view_key down a = on_view (scroll_down 1) a
view_key home a = on_view scroll_to_top a
view_key end_of a = on_view scroll_to_bottom a
view_key (char_key c) a = view_char c a
view_key _ a = a

unfoldable pub compose_key : Env → KeyCode → App → App
unfolding set_focus send_composed ChatView.push_char ChatView.pop_char
compose_key env esc a = set_focus chat_view a
compose_key env enter a = send_composed env a
compose_key env backspace a = on_view ChatView.pop_char a
compose_key env (char_key c) a = on_view (ChatView.push_char c) a
compose_key env _ a = a

abbrev is_yes : KeyCode → Bool
is_yes (char_key c) = is b'y' c || is b'Y' c
is_yes _ = false

-- A key while the confirmation of a deletion is shown.
abbrev dialog_key : Env → KeyCode → App → App
dialog_key env code a =
    if is_yes code then confirm_delete env a else record a { delete_confirm = none }

abbrev is_composing : Focus → Bool
is_composing compose = true
is_composing _ = false

abbrev focused_key : Env → Focus → Key → App → App
focused_key env contact_list k a = list_key env k.code k.modifiers a
focused_key env chat_view k a = view_key k.code a
focused_key env compose k a = compose_key env k.code a

abbrev main_key : Env → Option Bytes → Key → App → App
main_key env (some id) k a = dialog_key env k.code a
main_key env none k a =
    if is_quit k && not (is_composing a.focus) then stop a else focused_key env a.focus k a

unfoldable pub handle_main : Env → Key → App → App
unfolding confirm_delete is_quit list_key view_key compose_key
handle_main env k a = main_key env a.delete_confirm k a

abbrev pub pad_zeros : ℕ → Bytes → Bytes
pad_zeros zero s = []
pad_zeros (suc n) [] = 0 ∷ pad_zeros n []
pad_zeros (suc n) (b ∷ s) = b ∷ pad_zeros n s

unfoldable pub vec_to_key32 : Bytes → Bytes
vec_to_key32 v = pad_zeros 32 v

abbrev decoded_key : Env → Bytes → Option Bytes
decoded_key env [] = none
decoded_key env (b ∷ s) = env.codecs.decode_base64 (b ∷ s)

abbrev key_of_row : Env → Result DbError (Option StoredContact) → Option Bytes
key_of_row env (ok (some c)) = decoded_key env c.identity_key_b64
key_of_row env (ok none) = none
key_of_row env (err e) = none

-- The key of the peer, zeros where there is none yet.
abbrev key_or_zeros : Option Bytes → Bytes
key_or_zeros none = vec_to_key32 []
key_or_zeros (some v) = vec_to_key32 v

abbrev pub their_key : Env → Bytes → Option Storage → Bytes × Option Storage
their_key env id none = (key_or_zeros none, none)
their_key env id (some s) =
    let (row, s') = get_contact_by_id id s in (key_or_zeros (key_of_row env row), some s')

abbrev show_number : Env → Contact → Option Bytes → App → App
show_number env c none a = say (bytes "Identity key not available") a
show_number env c (some ours) a =
    let (theirs, s) = their_key env c.id a.read_storage in
    go_to safety_number_screen (record a {
      read_storage = s;
      safety_number =
          some (c.display_name, compute_safety_number env.sha512 (vec_to_key32 ours) theirs);
    })

abbrev number_for : Env → Option Contact → App → App
number_for env none a = say (bytes "Select a contact first") a
number_for env (some c) a = show_number env c a.our_identity_key a

unfoldable pub open_safety_number_screen : Env → App → App
unfolding selected_contact vec_to_key32 get_contact_by_id compute_safety_number
open_safety_number_screen env a = number_for env (selected_contact a.chat_list) a

abbrev export_with : Env → Option Bytes → App → App
export_with env none a = say (bytes "Identity key not available") a
export_with env (some key) a = say (env.exported key) (emit (export_key key) a)

unfoldable pub export_identity_key : Env → App → App
export_identity_key env a = export_with env a.our_identity_key a

abbrev settings_action : Env → Option SettingsAction → App → App
settings_action env none a = a
settings_action env (some back) a = go_to main_screen a
settings_action env (some logout) a = do_logout env a
settings_action env (some show_safety_number) a = open_safety_number_screen env a
settings_action env (some export_keys) a = export_identity_key env a
settings_action env (some show_my_qr) a = go_to identity_qr_screen a

abbrev on_settings : (Settings.SettingsScreen → Settings.SettingsScreen) → App → App
on_settings f a = record a { settings = f a.settings }

abbrev settings_char : Env → Char → App → App
settings_char env c a =
    if is b'k' c
    then on_settings Settings.prev a
    else if is b'j' c
    then on_settings Settings.next a
    else if is b'l' c || is b'L' c
    then do_logout env a
    else if is b'q' c || is b'Q' c
    then go_to identity_qr_screen a
    else if is b's' c || is b'S' c
    then open_safety_number_screen env a
    else a

unfoldable pub handle_settings : Env → KeyCode → App → App
unfolding Settings.next Settings.prev confirm do_logout open_safety_number_screen
    export_identity_key
handle_settings env esc a = go_to main_screen a
handle_settings env up a = on_settings Settings.prev a
handle_settings env down a = on_settings Settings.next a
handle_settings env enter a = settings_action env (confirm a.settings) a
handle_settings env (char_key c) a = settings_char env c a
handle_settings env _ a = a

abbrev is_some : Option Search.SearchResult → Bool
is_some none = false
is_some (some r) = true

unfoldable pub handle_contact_search : Env → KeyCode → Modifiers → App → App
unfolding Search.next Search.prev Search.push_char Search.pop_char selected_result
    add_selected_search_result submit_contact_search
handle_contact_search env esc m a = go_to main_screen (on_search (λ s. new_search) a)
handle_contact_search env down m a = on_search Search.next a
handle_contact_search env tab m a = on_search Search.next a
handle_contact_search env up m a = on_search Search.prev a
handle_contact_search env back_tab m a = on_search Search.prev a
handle_contact_search env enter m a =
    if is_some (selected_result a.contact_search)
    then add_selected_search_result a
    else submit_contact_search env a
handle_contact_search env (char_key c) m a =
    if is b'a' c && is_control m
    then add_selected_search_result a
    else on_search (Search.push_char c) a
handle_contact_search env backspace m a = on_search Search.pop_char a
handle_contact_search env _ m a = a

abbrev leave_error : Bool → App → App
leave_error true a = go_to unlock_screen (on_unlock (reset_for_mode unlock) a)
leave_error false a = go_to onboarding_screen a

abbrev has_key : {A : Type 0} → Option A → Bool
has_key none = false
has_key (some k) = true

abbrev screen_key : Env → Screen → Key → App → App
screen_key env startup_screen k a = a
screen_key env (connecting_screen text) k a = a
screen_key env registering_screen k a = a
screen_key env (auth_error_screen text) k a = leave_error (has_key a.session_key) a
screen_key env unlock_screen k a = handle_unlock env k.code a
screen_key env set_passphrase_screen k a = handle_set_passphrase env k.code a
screen_key env onboarding_screen k a = handle_onboarding k.code k.modifiers a
screen_key env device_link_screen k a = handle_device_link k.code k.modifiers a
screen_key env main_screen k a = handle_main env k a
screen_key env settings_screen k a = handle_settings env k.code a
screen_key env contact_search_screen k a = handle_contact_search env k.code k.modifiers a
screen_key env safety_number_screen k a = go_to settings_screen a
screen_key env identity_qr_screen k a = go_to settings_screen a

unfoldable pub handle_event : Env → Key → App → App
unfolding is_ctrl_c reset_for_mode handle_unlock handle_set_passphrase handle_onboarding
    handle_device_link handle_main handle_settings handle_contact_search
handle_event env k a =
    if not k.is_press then a else if is_ctrl_c k then stop a else screen_key env a.screen k a
