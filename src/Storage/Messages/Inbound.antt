-- ===== src/Storage/Messages/Inbound.antt =====
-- src/storage.rs, `store_inbound_message`: the table under many inbound messages.
use construct_tui.Prelude.{
  ◌≡◌, refl, ◌∙◌, ◌⊎◌, inl, inr, true, false, Option, none, some, List, [], ◌∷◌, ◌++◌, arith, All,
  if◌then◌else◌, Bool-cases,
}
use construct_tui.Prelude.Bytes.{Bytes, =b_iff}
use construct_tui.Storage.{StoredMessage, Storage, statement}
use construct_tui.Storage.Messages.{is_direction, has_id, exists_id, store_inbound_message}

-- The rows of an id, in order. The table has at most one.
abbrev pub row_of : Bytes → List StoredMessage → Option StoredMessage
row_of id [] = none
row_of id (m ∷ ms) = if has_id id m then some m else row_of id ms

abbrev pub or_else {ℓ} : {A : Type ℓ} → Option A → Option A → Option A
or_else none b = b
or_else (some a) b = some a

pub row_of-append :
    (id : Bytes) (ms ns : List StoredMessage)
    → row_of id (ms ++ ns) ≡ or_else (row_of id ms) (row_of id ns)
row_of-append id [] ns = refl
row_of-append id (m ∷ ms) ns = ground (arith, row_of-append id ms ns)

pub row_of-exists_id :
    (id : Bytes) (ms : List StoredMessage) → exists_id id ms ≡ false → row_of id ms ≡ none
row_of-exists_id id [] e = refl
row_of-exists_id id (m ∷ ms) e = ground (arith, row_of-exists_id id ms)

pub exists_id-row_of :
    (id : Bytes) (ms : List StoredMessage)
    → exists_id id ms ≡ true
    → (m : StoredMessage) × (row_of id ms ≡ some m)
exists_id-row_of id [] e = cc
exists_id-row_of id (m ∷ ms) e = elim (Bool-cases (has_id id m)) [
  | inl h ↦ (m, rw h)
  | inr h ↦ let (n, p) = exists_id-row_of id ms (ground arith) in (n, rw h p)
]

-- Received messages, stored one after the other, whatever the results.
unfoldable pub store_inbound_all : List StoredMessage → Storage → Storage
store_inbound_all [] s = s
store_inbound_all (m ∷ ms) s = store_inbound_all ms (store_inbound_message m s).1

-- One message adds itself at the end, or nothing.
store_inbound_message_adds :
    (m : StoredMessage) (s : Storage)
    → ((store_inbound_message m s).1.messages ≡ s.messages)
      ⊎ (((store_inbound_message m s).1.messages ≡ s.messages ++ (m ∷ []))
          × (exists_id m.id s.messages ≡ false))
unfolding store_inbound_message statement
store_inbound_message_adds m s = ground arith

-- What a peer or a rewound server sends later, under an id that is stored, never changes the
-- stored row: not its text, nor its status, nor its time.
pub store_inbound_all_keeps :
    (ms : List StoredMessage) (s : Storage) (id : Bytes) (row : StoredMessage)
    → row_of id s.messages ≡ some row
    → row_of id (store_inbound_all ms s).messages ≡ some row
unfolding store_inbound_all
store_inbound_all_keeps [] s id row h = h
store_inbound_all_keeps (m ∷ ms) s id row h =
    store_inbound_all_keeps ms (store_inbound_message m s).1 id row
      (elim (store_inbound_message_adds m s) [
        | inl e ↦ rw e h
        | inr (e, _) ↦ rw (e, row_of-append id s.messages (m ∷ []), h)
      ])

-- One message where SQLite refuses nothing: it is stored if no row has its id.
store_inbound_message_first :
    (m : StoredMessage) (s : Storage) (id : Bytes)
    → s.faults ≡ []
    → is_direction m.direction ≡ true
    → ((store_inbound_message m s).1.faults ≡ [])
      × (row_of id (store_inbound_message m s).1.messages
          ≡ or_else (row_of id s.messages) (row_of id (m ∷ [])))
unfolding store_inbound_message statement
store_inbound_message_first m s id calm hm = elim (Bool-cases (exists_id m.id s.messages)) [
  | inl e ↦
      let (row, r) = exists_id-row_of m.id s.messages e in
      (ground arith, ground (arith, =b_iff m.id id, r))
  | inr e ↦ (ground arith, ground (arith, row_of-append id s.messages (m ∷ [])))
]

-- Where SQLite refuses nothing and every direction is allowed, the first row of an id wins: the
-- row that was stored, or else the first received message of that id.
pub store_inbound_all_first :
    (ms : List StoredMessage) (s : Storage) (id : Bytes)
    → s.faults ≡ []
    → All (λ m. is_direction m.direction ≡ true) ms
    → row_of id (store_inbound_all ms s).messages ≡ or_else (row_of id s.messages) (row_of id ms)
unfolding store_inbound_all
store_inbound_all_first [] s id calm h = ground arith
store_inbound_all_first (m ∷ ms) s id calm (hm, hms) =
    let (calm', first) = store_inbound_message_first m s id calm hm in
    store_inbound_all_first ms (store_inbound_message m s).1 id calm' hms ∙ ground (arith, first)
