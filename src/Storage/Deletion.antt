-- ===== src/Storage/Deletion.antt =====
-- src/storage.rs, `delete_contact`: a contact with its messages and its session keys.
pub mod Forget
use construct_tui.Prelude.{
  ℕ, ◌+◌, ◌-◌, Bool, true, false, not, ◌&&◌, ◌||◌, List, [], ◌∷◌, ◌++◌, length, ltb, leb, ◌==◌,
  if◌then◌else◌,
}
use construct_tui.Prelude.Bytes.{Bytes, bytes, ◌=b◌}
use construct_tui.Prelude.Dict.{Dict}
use construct_tui.Prelude.Try.{ok}
use construct_tui.Storage.{StoredMessage, Storage, Db, statement, keep, ◌>>=◌, ◌>>◌, pure}

-- SQLite's LIKE folds the case of ASCII letters.
abbrev pub fold_case : ℕ → ℕ
fold_case c = if leb b'A' c && leb c b'Z' then c + 32 else c

-- The continuation bytes of a character, passed over by `_`.
abbrev pub skip_tail : Bytes → Bytes
skip_tail [] = []
skip_tail (b ∷ s) = if leb 0x80 b && ltb b 0xc0 then skip_tail s else b ∷ s

abbrev pub skip_char : ℕ → Bytes → Bytes
skip_char b s = if ltb b 0xc0 then s else skip_tail s

-- `%` stands for any text: some end of the text matches what follows.
unfoldable pub any_suffix : (Bytes → Bool) → Bytes → Bool
any_suffix matches [] = matches []
any_suffix matches (c ∷ s) = matches (c ∷ s) || any_suffix matches s

abbrev pub like_one : ℕ → (Bytes → Bool) → Bytes → Bool
like_one p matches [] = false
like_one p matches (c ∷ s) =
    if p == b'_' then matches (skip_char c s) else fold_case p == fold_case c && matches s

abbrev pub like_nil : Bytes → Bool
like_nil [] = true
like_nil (c ∷ s) = false

unfoldable pub like : Bytes → Bytes → Bool
unfolding any_suffix
like [] s = like_nil s
like (p ∷ pattern) s =
    if p == b'%' then any_suffix (like pattern) s else like_one p (like pattern) s

-- '%' || ?1 || '%'
abbrev pub containing : Bytes → Bytes
containing user_id = bytes "%" ++ (user_id ++ bytes "%")

delete_contact_row : Bytes → Db (Unit {0})
delete_contact_row user_id =
    statement
      λ s. (ok tt, record s { contacts = keep (λ c. not (c.user_id =b user_id)) s.contacts })

-- Returns the number of deleted rows.
delete_messages : Bytes → Db ℕ
delete_messages user_id = statement λ s. (
  ok (length (keep (λ m. m.peer_id =b user_id) s.messages)),
  record s { messages = keep (λ m. not (m.peer_id =b user_id)) s.messages },
)

delete_keys : Bytes → Db (Unit {0})
delete_keys user_id = statement λ s. (
  ok tt,
  record s { secure_store = keep (λ row. not (like (containing user_id) row.0)) s.secure_store },
)

-- Three statements, and no transaction around them.
unfoldable pub delete_contact : Bytes → Db ℕ
unfolding delete_contact_row delete_messages delete_keys
delete_contact user_id = do
  delete_contact_row user_id
  count ← delete_messages user_id
  delete_keys user_id
  pure count
