-- ===== src/App/Removal.antt =====
-- src/app.rs, `confirm_delete`: the contact that was removed.
use construct_tui.Prelude.{
  ℕ, ◌<◌, ◌≡◌, refl, ap, ◌∙◌, Bool, true, false, none, some, List, [], ◌∷◌, length, arith, leb,
  Bool-cases, Option-cases, inl, inr,
}
use construct_tui.Prelude.Bytes.{Bytes, ◌=b◌, =b_iff}
use construct_tui.Prelude.Try.{ok}
use construct_tui.Screens.ChatList.{Contact, ChatListPane, remove_at, remove_nth}
use construct_tui.Storage.{Storage}
use construct_tui.Storage.Deletion.{delete_contact}
use construct_tui.Storage.Secure.{load_stream_cursor}
use construct_tui.App.{App, Env}
use construct_tui.App.Contacts.{
  position, none_has, remove_if, resubscribe_stream_to_contacts, confirm_delete, removed,
  clear_view, forget_if,
}

-- No two contacts of the list have one id.
abbrev pub AreDistinct : List Contact → Type 0
AreDistinct [] = Unit
AreDistinct (c ∷ cs) = (none_has c.id cs ≡ true) × AreDistinct cs

position-lt : (id : Bytes) (cs : List Contact) (i : ℕ) → position id cs ≡ some i → i < length cs
position-lt id [] i h = cc
position-lt id (c ∷ cs) i h = elim (Option-cases (position id cs)) [
  | inl p ↦ ground arith
  | inr (j, p) ↦ ground (arith, position-lt id cs j p)
]

none_has-position : (id : Bytes) (cs : List Contact) → position id cs ≡ none → none_has id cs ≡ true
none_has-position id [] h = refl
none_has-position id (c ∷ cs) h = elim (Option-cases (position id cs)) [
  | inl p ↦ ground (arith, none_has-position id cs p)
  | inr (j, p) ↦ ground arith
]

none_has-remove_nth :
    (id : Bytes) (cs : List Contact) (i : ℕ)
    → AreDistinct cs
    → position id cs ≡ some i
    → none_has id (remove_nth i cs) ≡ true
none_has-remove_nth id [] i d h = cc
none_has-remove_nth id (c ∷ cs) i (fresh, d) h = elim (Bool-cases (c.id =b id)) [
  | inl e ↦ ground (arith, =b_iff c.id id)
  | inr e ↦ elim (Option-cases (position id cs)) [
    | inl p ↦ ground arith
    | inr (j, p) ↦ ground (arith, none_has-remove_nth id cs j d p)
  ]
]

none_has-remove_if :
    (id : Bytes) (p : ChatListPane)
    → AreDistinct p.contacts
    → none_has id (remove_if (position id p.contacts) p).contacts ≡ true
unfolding remove_at
none_has-remove_if id p d = elim (Option-cases (position id p.contacts)) [
  | inl e ↦ rw e (none_has-position id p.contacts e)
  | inr (i, e) ↦
      let small : leb (length p.contacts) i ≡ false =
        ground (arith, position-lt id p.contacts i e) in
      rw (e, small) (none_has-remove_nth id p.contacts i d e)
]

-- What stands around the removal leaves the list as it is.
resubscribe_same : (a : App) → (resubscribe_stream_to_contacts a).chat_list ≡ a.chat_list
unfolding resubscribe_stream_to_contacts load_stream_cursor
resubscribe_same a = ground arith

clear_view_same : (id : Bytes) (a : App) → (clear_view id a).chat_list ≡ a.chat_list
clear_view_same id a = ground arith

forget_if_same :
    (runs : Bool) (id : Bytes) (a : App) → (forget_if runs id a).chat_list ≡ a.chat_list
forget_if_same true id a = refl
forget_if_same false id a = refl

removed-chat_list :
    (id : Bytes) (a : App)
    → (removed id a).chat_list ≡ remove_if (position id a.chat_list.contacts) a.chat_list
removed-chat_list id a =
    let told = forget_if a.has_orchestrator id a in
    let unlisted : App = record told {
      chat_list = remove_if (position id a.chat_list.contacts) told.chat_list;
    } in
    clear_view_same id (resubscribe_stream_to_contacts unlisted)
    ∙ resubscribe_same unlisted
    ∙ ap (remove_if (position id a.chat_list.contacts)) (forget_if_same a.has_orchestrator id a)

-- A confirmed deletion that the database carries out takes the contact out of the list, where the
-- list had no two contacts of one id.
pub confirm_delete_unlists :
    (env : Env) (a : App) (id : Bytes) (s s' : Storage) (n : ℕ)
    → a.delete_confirm ≡ some id
    → a.read_storage ≡ some s
    → delete_contact id s ≡ (ok n, s')
    → AreDistinct a.chat_list.contacts
    → none_has id (confirm_delete env a).chat_list.contacts ≡ true
unfolding confirm_delete
confirm_delete_unlists env a id s s' n asked reads deleted d =
    rw
      (
        asked,
        reads,
        deleted,
        removed-chat_list id (record a { delete_confirm = none; read_storage = some s' }),
      )
      (none_has-remove_if id a.chat_list d)
