-- ===== src/Screens/Search.antt =====
-- src/screens/contact_search.rs: the search for a contact.
use construct_tui.Prelude.{
  ℕ, ◌+◌, ◌-◌, min, Bool, true, false, Option, none, some, List, [], ◌∷◌, length,
}
use construct_tui.Prelude.Bytes.{Bytes, bytes}
use construct_tui.Prelude.Text.{Char}
use construct_tui.Prelude.Text
use construct_tui.Screens.ChatList.{at_index}

pub record SearchResult : Type 0 where
  pub user_id : Bytes
  pub username : Bytes
  pub display_name : Bytes

pub record ContactSearchScreen : Type 0 where
  pub query : Bytes
  pub results : List SearchResult
  pub status : Option Bytes
  pub is_error : Bool
  pub searching : Bool
  pub selected : Option ℕ

abbrev pub new_search : ContactSearchScreen
new_search = record {
  query = [];
  results = [];
  status = none;
  is_error = false;
  searching = false;
  selected = none;
}

unfoldable pub push_char : Char → ContactSearchScreen → ContactSearchScreen
push_char c s = record s {
  query = Text.push_char c s.query;
  results = [];
  selected = none;
  status = none;
}

unfoldable pub pop_char : ContactSearchScreen → ContactSearchScreen
pop_char s = record s {
  query = Text.pop_char s.query;
  results = [];
  selected = none;
  status = none;
}

abbrev pub index_or_0 : (ℕ → ℕ) → Option ℕ → ℕ
index_or_0 f none = 0
index_or_0 f (some i) = f i

abbrev next_of : List SearchResult → Option ℕ → Option ℕ
next_of [] o = o
next_of (r ∷ rs) o = some (index_or_0 (λ i. min (i + 1) (length (r ∷ rs) - 1)) o)

unfoldable pub next : ContactSearchScreen → ContactSearchScreen
next s = record s { selected = next_of s.results s.selected }

unfoldable pub prev : ContactSearchScreen → ContactSearchScreen
prev s = record s { selected = some (index_or_0 (λ i. i - 1) s.selected) }

abbrev first_of : List SearchResult → Option ℕ
first_of [] = none
first_of (r ∷ rs) = some 0

abbrev status_of : List SearchResult → Bytes
status_of [] = bytes "No results"
status_of (r ∷ rs) = bytes "Enter = add to chats"

unfoldable pub set_results : List SearchResult → ContactSearchScreen → ContactSearchScreen
set_results rs s = record s {
  results = rs;
  selected = first_of rs;
  status = some (status_of rs);
  is_error = false;
  searching = false;
}

unfoldable pub set_error : Bytes → ContactSearchScreen → ContactSearchScreen
set_error msg s = record s { status = some msg; is_error = true; searching = false }

unfoldable pub selected_result : ContactSearchScreen → Option SearchResult
selected_result s = at_index s.selected s.results
