-- ===== src/App.antt =====
-- src/app.rs and src/event.rs: the application between the terminal, the server and the task of the
-- core. A handler takes the application to the application; what it starts, and what it sends to
-- the task and to the stream, is added to `effects`. What a handler asks the machine for is `Env`.
pub mod Relay
pub mod Chat
pub mod Contacts
pub mod Session
pub mod Start
pub mod Login
pub mod Events
pub mod Keys
pub mod Sending
pub mod Forgotten
pub mod Removal
pub mod Unlocking
pub mod Restoring
use construct_tui.Prelude.{
  ℕ, ◌+◌, ◌*◌, ◌/◌, ◌%◌, Bool, true, false, ◌&&◌, Option, none, some, List, [], ◌∷◌, ◌++◌, ltb,
  ◌==◌, if◌then◌else◌,
}
use construct_tui.Prelude.Bytes.{Bytes, bytes, ◌=b◌}
use construct_tui.Prelude.Decimal.{show_uint}
use construct_tui.Prelude.Int.{ℤ}
use construct_tui.Prelude.Text.{Char, encoded}
use construct_tui.Prelude.Try.{Result}
use construct_tui.Config.{
  SessionKey, TransportConfig, direct, obfs4, obfs4_tls, cdn_front, ConfigError, Libs,
}
use construct_tui.Config
use construct_tui.Config.Fs.{Disk}
use construct_tui.Grpc.Client.{GrpcClient}
use construct_tui.Invite.{Invite, Codecs, InviteError}
use construct_tui.Orchestrator.{Event}
use construct_tui.Screens.ChatList.{ChatListPane}
use construct_tui.Screens.ChatView.{ChatViewPane}
use construct_tui.Screens.Search.{ContactSearchScreen}
use construct_tui.Screens.Fields.{
  OnboardingScreen, DeviceLinkScreen, UnlockScreen, RegistrationScreen,
}
use construct_tui.Screens.Settings.{SettingsScreen}
use construct_tui.Storage.{StoredMessage, Storage, DbError}
use construct_tui.Streaming.{StreamCmd}

pub data Screen : Type 0 where
  startup_screen unlock_screen set_passphrase_screen onboarding_screen device_link_screen : Screen
  registering_screen : Screen
  connecting_screen auth_error_screen : Bytes → Screen
  main_screen settings_screen identity_qr_screen contact_search_screen : Screen
  safety_number_screen : Screen

pub data Focus : Type 0 where
  contact_list chat_view compose : Focus

pub data ConnectionState : Type 0 where
  is_disconnected : ConnectionState
  is_connected : (transport : Bytes) (latency_ms : Option ℕ) → ConnectionState
  is_reconnecting : (attempt next_retry interval : ℕ) → ConnectionState

-- What the task of the core starts from: the user, the imported state and the events before its
-- loop.
pub record CoreStart : Type 0 where
  pub user_id : Bytes
  pub imported : Option Bytes
  pub events : List Event

pub data Effect : Type 0 where
  start_ticker stop_ticker restore_from_disk invalidate_h2 : Effect
  register : Option Bytes → Effect
  link : Bytes → Effect
  authenticate_saved reauthenticate : Config.Session → Effect
  refresh_at : (device_id refresh_token : Bytes) → ℤ → Effect
  refresh_now : (device_id refresh_token : Bytes) → Effect
  find_user_named : Bytes → Effect
  accept_invite_as : Invite → Bytes → Effect
  to_core : Event → Effect
  forget_contact : Bytes → Effect
  to_stream : StreamCmd (Unit {0}) → Effect
  spawn_stream : List Bytes → Effect
  spawn_core : CoreStart → Effect
  upload_otpks : Bytes → Effect
  export_key : Bytes → Effect
  close_storage : Storage → Effect

pub record App : Type 0 where
  pub screen : Screen
  pub onboarding : OnboardingScreen
  pub device_link : DeviceLinkScreen
  pub unlock : UnlockScreen
  pub registration : RegistrationScreen
  pub ticking : Bool
  pub session_key : Option SessionKey
  pub current_session : Option Config.Session
  pub pending_session : Option Config.Session
  pub no_encrypt : Bool
  pub focus : Focus
  pub chat_list : ChatListPane
  pub chat_view : ChatViewPane
  pub status : Bytes
  pub running : Bool
  pub server_url : Bytes
  pub grpc : GrpcClient
  pub transport : TransportConfig
  pub user_id : Bytes
  pub pq_active : Bool
  pub connection : ConnectionState
  pub settings : SettingsScreen
  pub contact_search : ContactSearchScreen
  pub safety_number : Option (Bytes × Bytes)
  pub has_orchestrator : Bool
  pub has_stream : Bool
  pub read_storage : Option Storage
  pub device_id : Bytes
  pub access_token : Bytes
  pub our_identity_key : Option Bytes
  pub delete_confirm : Option Bytes
  pub disk : Disk
  pub effects : List Effect

-- The clocks, random bytes and a random id of one event; the libraries; the texts of errors.
pub record Env : Type 0 where
  pub now_secs : ℕ
  pub now_ms : ℕ
  pub new_id : Bytes
  pub nonce : Bytes
  pub salt : Bytes
  pub garbage : Bytes
  pub libs : Libs
  pub codecs : Codecs
  pub sha512 : Bytes → Bytes
  pub decode_hex : Bytes → Result Bytes Bytes
  pub from_keys : (identity signing spk spk_sig : Bytes) → Result Bytes (Unit {0})
  pub open_storage : Option Bytes → Result Bytes Storage
  pub identity_public_key : Option Bytes
  pub has_otpks : Bool
  pub order_by_desc : List StoredMessage → List StoredMessage
  pub config_text : ConfigError → Bytes
  pub db_text : DbError → Bytes
  pub invite_error_text : InviteError → Bytes
  pub exported : Bytes → Bytes

abbrev pub emit : Effect → App → App
emit e a = record a { effects = a.effects ++ (e ∷ []) }

abbrev pub say : Bytes → App → App
say text a = record a { status = text }

abbrev pub go_to : Screen → App → App
go_to s a = record a { screen = s }

pub data KeyCode : Type 0 where
  char_key : Char → KeyCode
  enter tab back_tab esc backspace up down page_up page_down home end_of other_key : KeyCode

pub data Modifiers : Type 0 where
  no_modifier control other_modifiers : Modifiers

pub record Key : Type 0 where
  pub code : KeyCode
  pub modifiers : Modifiers
  pub is_press : Bool

abbrev pub is : ℕ → Char → Bool
is b c = encoded c =b (b ∷ [])

abbrev pub is_plain : Modifiers → Bool
is_plain no_modifier = true
is_plain _ = false

abbrev pub is_control : Modifiers → Bool
is_control control = true
is_control _ = false

abbrev ctrl_c : KeyCode → Modifiers → Bool
ctrl_c (char_key c) m = is b'c' c && is_control m
ctrl_c _ m = false

-- `key.code == Char('c') && key.modifiers == CONTROL`
unfoldable pub is_ctrl_c : Key → Bool
is_ctrl_c k = ctrl_c k.code k.modifiers

abbrev plain_q : KeyCode → Modifiers → Bool
plain_q (char_key c) m = is b'q' c && is_plain m
plain_q _ m = false

unfoldable pub is_quit : Key → Bool
unfolding is_ctrl_c
is_quit k = if is_ctrl_c k then true else plain_q k.code k.modifiers

abbrev pub two_digits : ℕ → Bytes
two_digits n = (b'0' + n / 10 % 10) ∷ (b'0' + n % 10) ∷ []

unfoldable pub current_time_hhmm : ℕ → Bytes
current_time_hhmm secs = two_digits (secs % 86400 / 3600) ++ (b':' ∷ two_digits (secs % 3600 / 60))

unfoldable pub transport_label : TransportConfig → Bytes
transport_label direct = bytes "direct"
transport_label (obfs4 line) = bytes "obfs4"
transport_label (obfs4_tls line name) = bytes "obfs4+tls"
transport_label (cdn_front endpoint sni real) = bytes "cdn-front"
