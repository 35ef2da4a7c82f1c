-- ===== src/Screens/Settings.antt =====
-- src/screens/settings.rs: the rows of the settings and the cached invite.
use construct_tui.Prelude.{
  ℕ, ◌+◌, ◌-◌, min, Bool, true, not, ◌&&◌, Option, none, some, List, [], ◌∷◌, length, leb,
  if◌then◌else◌,
}
use construct_tui.Prelude.Bytes.{Bytes, bytes, ◌=b◌}
use construct_tui.Screens.ChatList.{at_index}
use construct_tui.Screens.Search.{index_or_0}

pub data SettingsAction : Type 0 where
  logout show_safety_number export_keys show_my_qr back : SettingsAction

pub record SettingsItem : Type 0 where
  pub label : Bytes
  pub value : Bytes
  pub action : Option SettingsAction

-- The time of the cached invite is in seconds of the monotonic clock.
pub record SettingsScreen : Type 0 where
  pub server : Bytes
  pub transport_label : Bytes
  pub device_id : Bytes
  pub user_id : Bytes
  pub pq_active : Bool
  pub selected : Option ℕ
  pub items : List SettingsItem
  pub signing_key_hex : Bytes
  pub invite_cache : Option (Bytes × ℕ)

abbrev row : Bytes → Bytes → SettingsItem
row label value = record { label = label; value = value; action = none }

abbrev action_row : Bytes → SettingsAction → SettingsItem
action_row label action = record { label = label; value = []; action = some action }

unfoldable pub new_settings :
    (server transport_label device_id user_id : Bytes) → Bool → Bytes → SettingsScreen
new_settings server transport_label device_id user_id pq_active signing_key_hex = record {
  server = server;
  transport_label = transport_label;
  device_id = device_id;
  user_id = user_id;
  pq_active = pq_active;
  selected = some 6;
  items =
      row (bytes "Server") server
      ∷ row (bytes "Transport") transport_label
      ∷ row (bytes "Device ID") device_id
      ∷ row (bytes "User ID") user_id
      ∷ row (bytes "Post-quantum")
          (if pq_active then bytes "yes (Kyber-768)" else bytes "no (classic)")
      ∷ row [] []
      ∷ action_row (bytes "[Q] My QR code") show_my_qr
      ∷ action_row (bytes "[S] Safety number") show_safety_number
      ∷ action_row (bytes "[E] Export keys") export_keys
      ∷ action_row (bytes "[L] Logout") logout
      ∷ action_row (bytes "[Esc] Back") back
      ∷ [];
  signing_key_hex = signing_key_hex;
  invite_cache = none;
}

unfoldable pub next : SettingsScreen → SettingsScreen
next s = record s {
  selected = some (index_or_0 (λ i. min (i + 1) (length s.items - 1)) s.selected);
}

unfoldable pub prev : SettingsScreen → SettingsScreen
prev s = record s { selected = some (index_or_0 (λ i. i - 1) s.selected) }

abbrev action_of : Option SettingsItem → Option SettingsAction
action_of none = none
action_of (some item) = item.action

unfoldable pub confirm : SettingsScreen → Option SettingsAction
confirm s = action_of (at_index s.selected s.items)

abbrev needs_refresh : ℕ → Option (Bytes × ℕ) → Bool
needs_refresh now none = true
needs_refresh now (some (payload, at')) = leb 240 (now - at')

abbrev cached : ℕ → Option Bytes → Option (Bytes × ℕ) → Option (Bytes × ℕ)
cached now none old = old
cached now (some payload) old = some (payload, now)

-- With a new invite, if one can be made, at this time of the clock.
unfoldable pub invite_payload : Option Bytes → ℕ → SettingsScreen → SettingsScreen
invite_payload made now s =
    if needs_refresh now s.invite_cache && (not (s.signing_key_hex =b []) && not (s.user_id =b []))
    then record s { invite_cache = cached now made s.invite_cache }
    else s
