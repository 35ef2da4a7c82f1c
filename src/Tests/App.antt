-- ===== src/Tests/App.antt =====
-- An application with one contact, and what it does at concrete inputs.
use construct_tui.Prelude.Dict.{lookup}
use construct_tui.Config.Plain.{load_session}
use construct_tui.Config.Keys.{open_session_key}
use construct_tui.Grpc.Client.{apply_auth_headers}
use construct_tui.Orchestrator.{outgoing_message}
use construct_tui.Screens.ChatView.{ChatMessage, sent}
use construct_tui.Prelude.{◌≡◌, refl, true, false, none, some, [], ◌∷◌, inr}
use construct_tui.Prelude.Bytes.{bytes, ◌=b◌}
use construct_tui.Prelude.Int.{pos}
use construct_tui.Prelude.Trim.{trim}
use construct_tui.Prelude.Try.{ok}
use construct_tui.Config.{direct}
use construct_tui.Config.Fs.{Disk, session_path, config_dir, migrate}
use construct_tui.Config.Plain.{clear_session}
use construct_tui.Invite.{Codecs}
use construct_tui.Screens.ChatList.{selected_contact}
use construct_tui.Screens.ChatView.{new_view}
use construct_tui.Screens.Fields.{
  new_onboarding, new_device_link, new_unlock, new_registration, set_new,
}
use construct_tui.Screens.Search.{new_search}
use construct_tui.Screens.Settings.{new_settings}
use construct_tui.Storage.{Storage, empty_storage, statement}
use construct_tui.Storage.Deletion.{delete_contact, like}
use construct_tui.App.{
  App, Env, main_screen, onboarding_screen, contact_list, is_disconnected, to_core,
  current_time_hhmm,
}
use construct_tui.App.Chat.{send_composed}
use construct_tui.App.Contacts.{none_has, confirm_delete}
use construct_tui.App.Forgotten.{do_logout_forgets}
use construct_tui.App.Login.{do_logout, startup_check}
use construct_tui.App.Relay.{StreamEnvelope, Opener, resolve_inbound_envelope}
use construct_tui.App.Relay.Context.{resolve_inbound_envelope_sealed}
use construct_tui.App.Removal.{confirm_delete_unlists}
use construct_tui.App.Restoring.{stored_pairs, restore_sessions_all}
use construct_tui.App.Sending.{send_composed_once}
use construct_tui.App.Start.{restore_sessions}
use construct_tui.Tests.Config.{libs0, disk1, session0, key0}
use construct_tui.Tests.Screens.{bob, eve}

abbrev plain : Codecs
plain = record {
  parse_uuid = λ s. some s;
  show_uuid = λ b. b;
  decode_hex = λ s. some s;
  encode_hex = λ b. b;
  decode_base64 = λ s. some s;
  encode_base64 = λ b. b;
  decode_base64url = λ s. some s;
  encode_base64url = λ b. b;
  to_lowercase = λ s. s;
  from_json = λ s. none;
}

abbrev store0 : Storage
store0 = record empty_storage { secure_store = (bytes "session_b", bytes "ratchet") ∷ [] }

abbrev env0 : Env
env0 = record {
  now_secs = 36000;
  now_ms = 0;
  new_id = bytes "id-1";
  nonce = bytes "0123456789ab";
  salt = bytes "0123456789abcdef";
  garbage = bytes "?";
  libs = libs0;
  codecs = plain;
  sha512 = λ s. s;
  decode_hex = λ s. ok s;
  from_keys = λ a b c d. ok tt;
  open_storage = λ k. ok store0;
  identity_public_key = none;
  has_otpks = false;
  order_by_desc = λ rows. rows;
  config_text = λ e. [];
  db_text = λ e. [];
  invite_error_text = λ e. [];
  exported = λ s. s;
}

abbrev app0 : App
app0 = record {
  screen = main_screen;
  onboarding = new_onboarding;
  device_link = new_device_link;
  unlock = new_unlock set_new;
  registration = new_registration;
  ticking = false;
  session_key = some key0;
  current_session = some session0;
  pending_session = none;
  no_encrypt = false;
  focus = contact_list;
  chat_list = record { contacts = bob ∷ eve ∷ []; selected = some 1; focused = true };
  chat_view = record (new_view (bytes "eve")) { compose = bytes "hi" };
  status = [];
  running = true;
  server_url = bytes "h";
  grpc = record {
    host = bytes "h";
    port = 443;
    session = none;
    token = some (bytes "t");
    device_id = none;
  };
  transport = direct;
  user_id = bytes "me";
  pq_active = false;
  connection = is_disconnected;
  settings = new_settings [] [] [] [] false [];
  contact_search = new_search;
  safety_number = none;
  has_orchestrator = true;
  has_stream = true;
  read_storage = some store0;
  device_id = bytes "d";
  access_token = bytes "t";
  our_identity_key = none;
  delete_confirm = some (bytes "b");
  disk = disk1;
  effects = [];
}

eve_selected : selected_contact app0.chat_list ≡ some eve
unfolding selected_contact
eve_selected = refl

send_composed_once_example :
    let shown : ChatMessage = record {
      id = env0.new_id;
      kind = sent;
      text = bytes "hi";
      time = current_time_hhmm env0.now_secs;
    } in
    ((send_composed env0 app0).chat_view.compose ≡ [])
    × ((trim (bytes "hi") =b []) ≡ false
        → ((send_composed env0 app0).effects
            ≡ to_core (outgoing_message eve.id env0.new_id (bytes "hi") 0) ∷ [])
          × ((send_composed env0 app0).chat_view.messages ≡ shown ∷ []))
    × ((trim (bytes "hi") =b []) ≡ true
        → ((send_composed env0 app0).effects ≡ [])
          × ((send_composed env0 app0).chat_view.messages ≡ []))
send_composed_once_example = send_composed_once env0 app0 eve eve_selected refl

abbrev disk2 : Disk
disk2 = record disk1 { session_enc = none }

disk1_cleared : clear_session (bytes "?") disk1 ≡ (ok tt, disk2)
unfolding clear_session session_path config_dir migrate
disk1_cleared = refl

do_logout_forgets_example :
    let b = do_logout env0 app0 in
    let headers = apply_auth_headers [] b.grpc.token b.grpc.device_id in
    ((startup_check env0 b).screen ≡ onboarding_screen)
    × (open_session_key env0.libs (bytes "pass") b.disk ≡ (ok none, disk2))
    × (load_session env0.libs b.disk ≡ (ok none, disk2))
    × (lookup (bytes "authorization") headers ≡ none)
    × (lookup (bytes "x-device-id") headers ≡ none)
    × ((b.session_key ≡ none)
        × (b.current_session ≡ none)
        × (b.pending_session ≡ none)
        × (b.our_identity_key ≡ none)
        × (b.user_id ≡ [])
        × (b.read_storage ≡ none))
    × ((b.chat_list.contacts ≡ []) × (b.chat_view.messages ≡ []) × (b.chat_view.compose ≡ []))
do_logout_forgets_example =
    do_logout_forgets env0 app0 disk2 (bytes "pass") (inr refl) disk1_cleared refl

bob_deleted : delete_contact (bytes "b") store0 ≡ (ok 0, empty_storage)
unfolding delete_contact statement like ◌=b◌
bob_deleted = refl

confirm_delete_unlists_example :
    none_has (bytes "b") (confirm_delete env0 app0).chat_list.contacts ≡ true
unfolding ◌=b◌
confirm_delete_unlists_example =
    confirm_delete_unlists env0 app0 (bytes "b") store0 empty_storage 0 refl refl bob_deleted
      (refl, (refl, tt))

restore_sessions_all_example :
    restore_sessions (bytes "b" ∷ []) store0 ≡ (stored_pairs store0 (bytes "b" ∷ []), store0)
restore_sessions_all_example = restore_sessions_all (bytes "b" ∷ []) store0 refl

abbrev opener : Opener
opener = record {
  decode_sealed_inner = λ s.
      ok (record {
        sender_cert_ciphertext = s;
        encrypted_payload = bytes "p";
        content_type = pos 1;
      });
  unseal_sender_cert = λ c s. ok c;
  decode_sender_user_id = λ s. ok (bytes "eve");
  unpack = λ s. ok (record { message_number = 3; kem_ciphertext = none; one_time_prekey_id = 0 });
}

abbrev sealed : StreamEnvelope
sealed = record {
  message_id_type = none;
  sender = some (bytes "mallory");
  sealed_sender = some (bytes "c");
  encrypted_payload = [];
  content_type = pos 21;
}

resolve_inbound_envelope_sealed_example :
    resolve_inbound_envelope opener [] (record sealed { sender = none; content_type = pos 7 })
    ≡ resolve_inbound_envelope opener [] sealed
resolve_inbound_envelope_sealed_example =
    resolve_inbound_envelope_sealed opener [] (bytes "c") sealed none (pos 7) refl
