-- ===== src/App/Contacts.antt =====
-- src/app.rs: contacts are searched, added and removed.
use construct_tui.Prelude.{
  ℕ, suc, min, Bool, true, false, not, ◌&&◌, ◌||◌, Option, none, some, List, [], ◌∷◌, ◌++◌, map,
  length, take, if◌then◌else◌,
}
use construct_tui.Prelude.Bytes.{Bytes, bytes, ◌=b◌}
use construct_tui.Prelude.Int.{pos}
use construct_tui.Prelude.Trim.{trim}
use construct_tui.Prelude.Try.{Result, ok, err}
use construct_tui.Grpc.Users.{normalize_username, username_is_searchable}
use construct_tui.Invite.{Invite, InviteError, is_expired}
use construct_tui.Invite.Link.{looks_like_invite, parse_invite}
use construct_tui.Orchestrator.{active_chat_changed}
use construct_tui.Screens.ChatList.{Contact, ChatListPane, add_contact, remove_at, selected_contact}
use construct_tui.Screens.Search.{
  SearchResult, ContactSearchScreen, new_search, set_error, selected_result,
}
use construct_tui.Storage.{Storage, DbError}
use construct_tui.Storage.Contacts.{upsert_contact}
use construct_tui.Storage.Deletion.{delete_contact}
use construct_tui.Storage.Secure.{load_stream_cursor}
use construct_tui.Streaming.{subscribe}
use construct_tui.App.{
  App, Env, main_screen, forget_contact, to_stream, find_user_named, accept_invite_as, emit, say,
}
use construct_tui.App.Chat.{send_if}

unfoldable pub contact_ids_for_stream : List Contact → List Bytes
contact_ids_for_stream contacts = map (λ (c : Contact). c.id) contacts

abbrev cursor_of : Result DbError (Option Bytes) → Option Bytes
cursor_of (ok c) = c
cursor_of (err e) = none

abbrev pub subscribed : Option Storage → List Bytes → App → App
subscribed none ids a = emit (to_stream (subscribe ids none)) a
subscribed (some storage) ids a =
    let (result, s) = load_stream_cursor storage in
    emit (to_stream (subscribe ids (cursor_of result))) (record a { read_storage = some s })

unfoldable pub resubscribe_stream_to_contacts : App → App
unfolding contact_ids_for_stream load_stream_cursor
resubscribe_stream_to_contacts a =
    if a.has_stream
    then subscribed a.read_storage (contact_ids_for_stream a.chat_list.contacts) a
    else a

abbrev pub added : Bytes → Bytes → Contact
added user_id username = record {
  id = user_id;
  display_name = username;
  unread = 0;
  last_message = none;
}

abbrev upserted : Option Storage → Bytes → Bytes → Option Storage
upserted none user_id username = none
upserted (some storage) user_id username =
    some
      (upsert_contact (record { user_id = user_id; display_name = username; identity_key_b64 = [] })
        storage).1

-- The dash of the status is U+2014.
unfoldable pub finish_add_contact : Bytes → Bytes → App → App
unfolding upsert_contact add_contact resubscribe_stream_to_contacts
finish_add_contact user_id username a =
    let listed = resubscribe_stream_to_contacts (record a {
      read_storage = upserted a.read_storage user_id username;
      chat_list = add_contact (added user_id username) a.chat_list;
    }) in
    let told = send_if listed.has_orchestrator (active_chat_changed user_id true) listed in
    record told {
      status = bytes "Added @" ++ (username ++ (b' ' ∷ 226 ∷ 128 ∷ 148 ∷ bytes " opening session"));
      contact_search = new_search;
      screen = main_screen;
    }

abbrev add_if : Option SearchResult → App → App
add_if none a = a
add_if (some r) a = finish_add_contact r.user_id r.username a

unfoldable pub add_selected_search_result : App → App
unfolding finish_add_contact selected_result
add_selected_search_result a = add_if (selected_result a.contact_search) a

abbrev pub on_search : (ContactSearchScreen → ContactSearchScreen) → App → App
on_search f a = record a { contact_search = f a.contact_search }

-- The dash of the text is U+2013.
abbrev name_rule : Bytes
name_rule = bytes "Username: 3" ++ (226 ∷ 128 ∷ 147 ∷ bytes "30 chars, letters/digits/_  (no @)")

abbrev shown_name : Invite → Option Bytes → Bytes
shown_name invite none = take (min 8 (length invite.uuid)) invite.uuid
shown_name invite (some []) = take (min 8 (length invite.uuid)) invite.uuid
shown_name invite (some (b ∷ s)) = b ∷ s

-- The ellipsis of the text is U+2026.
abbrev redeeming : Bytes
redeeming = bytes "Redeeming invite" ++ (226 ∷ 128 ∷ 166 ∷ [])

abbrev redeem : Env → Result InviteError Invite → App → App
redeem env (err e) a = on_search (set_error (bytes "Bad invite: " ++ env.invite_error_text e)) a
redeem env (ok invite) a =
    if is_expired invite (pos env.now_secs)
    then on_search (set_error (bytes "Invite expired")) a
    else emit (accept_invite_as invite (shown_name invite invite.un))
        (on_search (λ s. record s { searching = true; status = some redeeming }) a)

unfoldable pub redeem_pasted_invite : Env → Bytes → App → App
unfolding parse_invite is_expired set_error
redeem_pasted_invite env raw = redeem env (parse_invite env.codecs (pos env.now_secs) raw)

unfoldable pub submit_contact_search : Env → App → App
unfolding trim looks_like_invite redeem_pasted_invite normalize_username username_is_searchable
    set_error
submit_contact_search env a =
    let raw = trim a.contact_search.query in
    let query = normalize_username a.contact_search.query in
    if looks_like_invite env.codecs raw
    then redeem_pasted_invite env raw a
    else if not (username_is_searchable query)
    then on_search (set_error name_rule) a
    else emit (find_user_named query) (on_search (λ s. record s { searching = true }) a)

-- `position(|c| c.id == peer_id)`
abbrev pub position : Bytes → List Contact → Option ℕ
position peer_id [] = none
position peer_id (c ∷ cs) =
    let later = position peer_id cs in
    if c.id =b peer_id then some 0 else elim later [ none ↦ none | some i ↦ some (suc i) ]

abbrev pub none_has : Bytes → List Contact → Bool
none_has peer_id [] = true
none_has peer_id (c ∷ cs) = not (c.id =b peer_id) && none_has peer_id cs

abbrev name_of : Option Contact → Bytes
name_of none = []
name_of (some c) = c.display_name

abbrev pub remove_if : Option ℕ → ChatListPane → ChatListPane
remove_if none p = p
remove_if (some i) p = remove_at i p

abbrev pub forget_if : Bool → Bytes → App → App
forget_if true peer_id a = emit (forget_contact peer_id) a
forget_if false peer_id a = a

abbrev pub clear_view : Bytes → App → App
clear_view peer_id a =
    if a.chat_view.contact_name =b peer_id || none_has peer_id a.chat_list.contacts
    then record a {
      chat_view = record (a.chat_view) {
        messages = [];
        contact_name = name_of (selected_contact a.chat_list);
      };
    }
    else a

-- After the rows are gone, with the contact's place in the list before it.
abbrev pub removed : Bytes → App → App
removed peer_id a =
    let told = forget_if a.has_orchestrator peer_id a in
    let unlisted = record told {
      chat_list = remove_if (position peer_id a.chat_list.contacts) told.chat_list;
    } in
    say (bytes "Node removed.") (clear_view peer_id (resubscribe_stream_to_contacts unlisted))

abbrev deleted : Env → Bytes → Result DbError ℕ × Storage → App → App
deleted env peer_id (err e, s) a =
    say (bytes "Delete failed: " ++ env.db_text e) (record a { read_storage = some s })
deleted env peer_id (ok rows, s) a = removed peer_id (record a { read_storage = some s })

abbrev delete_from : Env → Bytes → Option Storage → App → App
delete_from env peer_id none a = removed peer_id a
delete_from env peer_id (some s) a = deleted env peer_id (delete_contact peer_id s) a

abbrev delete_if : Env → Option Bytes → App → App
delete_if env none a = a
delete_if env (some peer_id) a =
    delete_from env peer_id a.read_storage (record a { delete_confirm = none })

unfoldable pub confirm_delete : Env → App → App
unfolding delete_contact remove_at resubscribe_stream_to_contacts selected_contact
confirm_delete env a = delete_if env a.delete_confirm a
