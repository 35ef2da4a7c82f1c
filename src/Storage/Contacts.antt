-- ===== src/Storage/Contacts.antt =====
-- src/storage.rs: the `contacts` table.
use construct_tui.Prelude.{Option, none, some, List, [], ◌∷◌, ◌++◌, not, if◌then◌else◌}
use construct_tui.Prelude.Bytes.{Bytes, ◌=b◌, lt_bytes}
use construct_tui.Prelude.Try.{ok}
use construct_tui.Storage.{StoredContact, Db, statement, keep}

-- INSERT OR REPLACE
unfoldable pub upsert_contact : StoredContact → Db (Unit {0})
upsert_contact c = statement λ s.
    (ok tt, record s { contacts = keep (λ k. not (k.user_id =b c.user_id)) s.contacts ++ (c ∷ []) })

abbrev first_row : List StoredContact → Option StoredContact
first_row [] = none
first_row (c ∷ cs) = some c

unfoldable pub get_contact_by_id : Bytes → Db (Option StoredContact)
get_contact_by_id user_id =
    statement λ s. (ok (first_row (keep (λ c. c.user_id =b user_id) s.contacts)), s)

-- ORDER BY display_name, by its bytes; contacts of one name stay in the table's order.
unfoldable pub by_name : StoredContact → List StoredContact → List StoredContact
by_name c [] = c ∷ []
by_name c (k ∷ ks) = if lt_bytes k.display_name c.display_name then k ∷ by_name c ks else c ∷ k ∷ ks

unfoldable pub sort_by_name : List StoredContact → List StoredContact
unfolding by_name
sort_by_name [] = []
sort_by_name (c ∷ cs) = by_name c (sort_by_name cs)

unfoldable pub get_contacts : Db (List StoredContact)
get_contacts = statement λ s. (ok (sort_by_name s.contacts), s)
