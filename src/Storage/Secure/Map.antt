-- ===== src/Storage/Secure/Map.antt =====
-- src/storage.rs: the `secure_store` table against a map from keys to values.
use construct_tui.Prelude.{◌≡◌, refl, ap, Option, none, some, List, [], ◌∷◌, arith, if◌then◌else◌}
use construct_tui.Prelude.Bytes.{Bytes, ◌=b◌}
use construct_tui.Prelude.Dict.{lookup, lookup-insert, lookup-remove}
use construct_tui.Prelude.Try.{Result, ok, err}
use construct_tui.Storage.{Storage, Db, DbError, statement}
use construct_tui.Storage.Secure.{secure_save, secure_delete, secure_save_or_delete, secure_load}

pub data SecureOp : Type 0 where
  save save_or_delete : (key value : Bytes) → SecureOp
  delete : (key : Bytes) → SecureOp

unfoldable pub perform_op : SecureOp → Db (Unit {0})
perform_op (save key value) = secure_save key value
perform_op (save_or_delete key value) = secure_save_or_delete key value
perform_op (delete key) = secure_delete key

-- The table after many operations, with the operations that SQLite did not refuse.
abbrev kept_if : SecureOp → Result DbError (Unit {0}) → List SecureOp → List SecureOp
kept_if op (ok u) later = op ∷ later
kept_if op (err e) later = later

unfoldable pub perform_all : List SecureOp → Storage → Storage × List SecureOp
unfolding perform_op
perform_all [] s = (s, [])
perform_all (op ∷ ops) s =
    let (result, s1) = perform_op op s in
    let (s2, later) = perform_all ops s1 in (s2, kept_if op result later)

-- What the store promises: a map that is changed at one key, where the empty value means none.
abbrev pub SecureMap : Type 0
SecureMap = Bytes → Option Bytes

abbrev set_at : Bytes → Option Bytes → SecureMap → SecureMap
set_at key value m j = if key =b j then value else m j

abbrev unless_empty : Bytes → Option Bytes
unless_empty [] = none
unless_empty (b ∷ value) = some (b ∷ value)

unfoldable pub change : SecureOp → SecureMap → SecureMap
change (save key value) m = set_at key (some value) m
change (save_or_delete key value) m = set_at key (unless_empty value) m
change (delete key) m = set_at key none m

unfoldable pub change_all : List SecureOp → SecureMap → SecureMap
unfolding change
change_all [] m = m
change_all (op ∷ ops) m = change_all ops (change op m)

abbrev map_of : Storage → SecureMap
map_of s key = lookup key s.secure_store

-- One operation changes the table as the map, or is refused and changes nothing.
perform_op-change :
    (op : SecureOp) (s : Storage) (m : SecureMap)
    → ((j : Bytes) → map_of s j ≡ m j)
    → (j : Bytes)
    → map_of (perform_op op s).1 j ≡ change_all (kept_if op (perform_op op s).0 []) m j
unfolding perform_op change change_all secure_save secure_delete secure_save_or_delete statement
perform_op-change (save key value) s m h j =
    ground (arith, h j, lookup-insert key j value s.secure_store)
perform_op-change (save_or_delete key []) s m h j =
    ground (arith, h j, lookup-remove key j s.secure_store)
perform_op-change (save_or_delete key (b ∷ value)) s m h j =
    ground (arith, h j, lookup-insert key j (b ∷ value) s.secure_store)
perform_op-change (delete key) s m h j = ground (arith, h j, lookup-remove key j s.secure_store)

change_all-kept_if :
    (op : SecureOp) (r : Result DbError (Unit {0})) (later : List SecureOp) (m : SecureMap)
    → change_all (kept_if op r later) m ≡ change_all later (change_all (kept_if op r []) m)
unfolding change_all
change_all-kept_if op (ok u) later m = refl
change_all-kept_if op (err e) later m = refl

perform_all-change_all :
    (ops : List SecureOp) (s : Storage) (m : SecureMap)
    → ((j : Bytes) → map_of s j ≡ m j)
    → (j : Bytes) → map_of (perform_all ops s).0 j ≡ change_all (perform_all ops s).1 m j
unfolding perform_all change_all
perform_all-change_all [] s m h j = h j
perform_all-change_all (op ∷ ops) s m h j =
    let (result, s1) = perform_op op s in
    rw (change_all-kept_if op result (perform_all ops s1).1 m) (
      perform_all-change_all ops s1 (change_all (kept_if op result []) m)
        (perform_op-change op s m h) j)

-- The secure store is a map: after any saves and deletions, some of which SQLite may refuse, a key
-- is loaded as the map has it that was changed by exactly the operations that were not refused,
-- in their order; where the load itself is not refused.
pub secure_store_refines :
    (ops : List SecureOp) (s : Storage) (key : Bytes)
    → (perform_all ops s).0.faults ≡ []
    → (secure_load key (perform_all ops s).0).0
      ≡ ok (change_all (perform_all ops s).1 (λ j. lookup j s.secure_store) key)
unfolding secure_load statement
secure_store_refines ops s key calm =
    rw calm
      (ap (λ o. ok o) (perform_all-change_all ops s (λ j. lookup j s.secure_store) (λ j. refl) key))
