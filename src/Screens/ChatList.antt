-- ===== src/Screens/ChatList.antt =====
-- src/screens/chat_list.rs: the list of contacts with its selection.
use construct_tui.Prelude.{
  ℕ, zero, suc, ◌+◌, ◌-◌, ◌<◌, min, ◌≡◌, Bool, true, Option, none, some, List, [], ◌∷◌, ◌++◌,
  length, get_elem?, leb, if◌then◌else◌, arith, refl,
}
use construct_tui.Prelude.Bytes.{Bytes}
pub mod Selection

pub record Contact : Type 0 where
  pub id : Bytes
  pub display_name : Bytes
  pub unread : ℕ
  pub last_message : Option Bytes

pub record ChatListPane : Type 0 where
  pub contacts : List Contact
  pub selected : Option ℕ
  pub focused : Bool

abbrev pub new_pane : ChatListPane
new_pane = record { contacts = []; selected = none; focused = true }

unfoldable pub set_contacts : List Contact → ChatListPane → ChatListPane
set_contacts [] p = record p { contacts = []; selected = none }
set_contacts (c ∷ cs) p = record p { contacts = c ∷ cs; selected = some 0 }

abbrev pub or_first : Option ℕ → Option ℕ
or_first none = some 0
or_first (some i) = some i

unfoldable pub add_contact : Contact → ChatListPane → ChatListPane
add_contact c p = record p { contacts = p.contacts ++ (c ∷ []); selected = or_first p.selected }

abbrev pub map_index : (ℕ → ℕ) → Option ℕ → Option ℕ
map_index f none = none
map_index f (some i) = some (f i)

unfoldable pub next : ChatListPane → ChatListPane
next p = record p { selected = map_index (λ i. min (i + 1) (length p.contacts - 1)) p.selected }

unfoldable pub prev : ChatListPane → ChatListPane
prev p = record p { selected = map_index (λ i. i - 1) p.selected }

abbrev pub at_index {ℓ} : {A : Type ℓ} → Option ℕ → List A → Option A
at_index none xs = none
at_index (some i) xs = get_elem? xs i

unfoldable pub selected_contact : ChatListPane → Option Contact
selected_contact p = at_index p.selected p.contacts

-- `Vec::remove`, for an index in range
abbrev pub remove_nth {ℓ} : {A : Type ℓ} → ℕ → List A → List A
remove_nth i [] = []
remove_nth zero (x ∷ xs) = xs
remove_nth (suc i) (x ∷ xs) = x ∷ remove_nth i xs

abbrev pub selection_after : ℕ → List Contact → Option ℕ
selection_after index [] = none
selection_after index (c ∷ cs) = some (min index (length (c ∷ cs) - 1))

unfoldable pub remove_at : ℕ → ChatListPane → ChatListPane
remove_at index p = if leb (length p.contacts) index then p else record p {
  contacts = remove_nth index p.contacts;
  selected = selection_after index (remove_nth index p.contacts);
}
