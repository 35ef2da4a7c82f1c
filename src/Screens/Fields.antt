-- ===== src/Screens/Fields.antt =====
-- src/screens/onboarding.rs, device_link.rs, unlock.rs and registration.rs: the forms.
use construct_tui.Prelude.{
  ℕ, ◌+◌, ◌^◌, ◌%◌, Bool, false, Option, none, some, [], length, ltb, if◌then◌else◌,
}
use construct_tui.Prelude.Bytes.{Bytes, bytes}
use construct_tui.Prelude.Text.{Char}
use construct_tui.Prelude.Text

pub record OnboardingScreen : Type 0 where
  pub username : Bytes
  pub status : Option Bytes
  pub is_error : Bool

abbrev pub new_onboarding : OnboardingScreen
new_onboarding = record { username = []; status = none; is_error = false }

-- A field takes a character while it has fewer than so many bytes.
abbrev pub push_below : ℕ → Char → Bytes → Bytes
push_below limit c s = if ltb (length s) limit then Text.push_char c s else s

unfoldable pub push_username : Char → OnboardingScreen → OnboardingScreen
push_username c s = record s { username = push_below 32 c s.username }

unfoldable pub pop_username : OnboardingScreen → OnboardingScreen
pop_username s = record s { username = Text.pop_char s.username }

pub data DeviceLinkTab : Type 0 where
  scan show : DeviceLinkTab

pub record DeviceLinkScreen : Type 0 where
  pub tab : DeviceLinkTab
  pub token : Bytes
  pub own_token : Option Bytes
  pub status : Option Bytes
  pub is_error : Bool

abbrev pub new_device_link : DeviceLinkScreen
new_device_link = record {
  tab = scan;
  token = [];
  own_token = none;
  status = some (bytes "Paste or type the link token shown on your other device");
  is_error = false;
}

abbrev on_scan : DeviceLinkTab → Bytes → Bytes → Bytes
on_scan scan new old = new
on_scan show new old = old

unfoldable pub push_token : Char → DeviceLinkScreen → DeviceLinkScreen
push_token c s = record s { token = on_scan s.tab (push_below 64 c s.token) s.token }

unfoldable pub pop_token : DeviceLinkScreen → DeviceLinkScreen
pop_token s = record s { token = on_scan s.tab (Text.pop_char s.token) s.token }

abbrev other_tab : DeviceLinkTab → DeviceLinkTab
other_tab scan = show
other_tab show = scan

unfoldable pub toggle_tab : DeviceLinkScreen → DeviceLinkScreen
toggle_tab s = record s { tab = other_tab s.tab }

unfoldable pub set_link_status : Bytes → Bool → DeviceLinkScreen → DeviceLinkScreen
set_link_status msg error s = record s { status = some msg; is_error = error }

unfoldable pub clear_link_status : DeviceLinkScreen → DeviceLinkScreen
clear_link_status s = record s { status = none; is_error = false }

pub data UnlockMode : Type 0 where
  unlock set_new : UnlockMode

pub record UnlockScreen : Type 0 where
  pub passphrase : Bytes
  pub error : Option Bytes
  pub mode : UnlockMode

abbrev pub new_unlock : UnlockMode → UnlockScreen
new_unlock mode = record { passphrase = []; error = none; mode = mode }

unfoldable pub reset_for_mode : UnlockMode → UnlockScreen → UnlockScreen
reset_for_mode mode s = record s { passphrase = []; error = none; mode = mode }

unfoldable pub push_passphrase : Char → UnlockScreen → UnlockScreen
push_passphrase c s = record s { passphrase = push_below 128 c s.passphrase }

unfoldable pub pop_passphrase : UnlockScreen → UnlockScreen
pop_passphrase s = record s { passphrase = Text.pop_char s.passphrase }

unfoldable pub take_passphrase : UnlockScreen → Bytes × UnlockScreen
take_passphrase s = (s.passphrase, record s { passphrase = [] })

unfoldable pub set_unlock_error : Bytes → UnlockScreen → UnlockScreen
set_unlock_error msg s = record s { error = some msg }

unfoldable pub clear_unlock_error : UnlockScreen → UnlockScreen
clear_unlock_error s = record s { error = none }

pub record RegistrationScreen : Type 0 where
  pub active_step : ℕ
  pub spinner_tick : ℕ

abbrev pub steps : ℕ
steps = 7

abbrev pub new_registration : RegistrationScreen
new_registration = record { active_step = 0; spinner_tick = 0 }

unfoldable pub advance : ℕ → RegistrationScreen → RegistrationScreen
advance step s = if ltb s.active_step step then record s { active_step = step } else s

unfoldable pub tick : RegistrationScreen → RegistrationScreen
tick s = record s { spinner_tick = (s.spinner_tick + 1) % 2 ^ 8 }
