-- ===== src/Storage.antt =====
-- src/storage.rs: the SQLite tables as lists of rows in the order of their rowids, and a statement
-- as an action on them. `faults` says of each later statement whether SQLite refuses it (disk full,
-- locked, ...); a refused statement changes nothing. The operations stand in the modules below.
pub mod Cursor
pub mod Messages
pub mod Contacts
pub mod Acks
pub mod Secure
pub mod Records
pub mod Watermark
pub mod Deletion
use construct_tui.Prelude.{
  ℕ, ◌≡◌, refl, Bool, true, false, Option, none, some, List, [], ◌∷◌, if◌then◌else◌,
}
use construct_tui.Prelude.Bytes.{Bytes}
use construct_tui.Prelude.Dict.{Dict}
use construct_tui.Prelude.Int.{ℤ}
use construct_tui.Prelude.Try.{Result, ok, err}

pub record StoredMessage : Type 0 where
  pub id : Bytes
  pub peer_id : Bytes
  pub text : Bytes
  pub direction : Bytes
  pub timestamp_ms : ℤ
  pub delivery_status : Bytes

pub record StoredContact : Type 0 where
  pub user_id : Bytes
  pub display_name : Bytes
  pub identity_key_b64 : Bytes

pub record Storage : Type 0 where
  pub messages : List StoredMessage
  pub contacts : List StoredContact
  pub pending_acks : Dict ℤ
  pub secure_store : Dict Bytes
  pub records : List (Bytes × Bytes)
  pub faults : List Bool

-- The tables that `init` creates in a new database.
abbrev pub empty_storage : Storage
empty_storage = record {
  messages = [];
  contacts = [];
  pending_acks = [];
  secure_store = [];
  records = [];
  faults = [];
}

-- SQLite refused the statement, or a row breaks a CHECK constraint.
pub data DbError : Type 0 where
  refused check_failed : DbError

abbrev pub Db : Type 0 → Type 0
Db A = Storage → Result DbError A × Storage

abbrev pub is_refused : List Bool → Bool
is_refused [] = false
is_refused (b ∷ bs) = b

abbrev pub later_faults : List Bool → List Bool
later_faults [] = []
later_faults (b ∷ bs) = bs

-- One statement: it takes effect whole, or not at all.
unfoldable pub statement : {A : Type 0} → Db A → Db A
statement run s =
    let s' = record s { faults = later_faults s.faults } in
    if is_refused s.faults then (err refused, s') else run s'

infixl 5 ◌>>=◌ ◌>>◌
abbrev pub continue : {A B : Type 0} → Result DbError A → (A → Db B) → Db B
continue (ok a) f s = f a s
continue (err e) f s = (err e, s)

abbrev pub ◌>>=◌ : {A B : Type 0} → Db A → (A → Db B) → Db B
◌>>=◌ m f s = continue (m s).0 f (m s).1

abbrev pub ◌>>◌ : {A B : Type 0} → Db A → Db B → Db B
m >> n = m >>= λ _. n

abbrev pub pure : {A : Type 0} → A → Db A
pure a s = (ok a, s)

-- `WHERE`: the rows that pass a test.
abbrev pub keep {ℓ} : {A : Type ℓ} → (A → Bool) → List A → List A
keep p [] = []
keep p (x ∷ xs) = if p x then x ∷ keep p xs else keep p xs
