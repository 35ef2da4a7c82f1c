-- ===== src/Storage/Deletion/Forget.antt =====
-- src/storage.rs, `delete_contact`: the tables after it.
use construct_tui.Prelude.{
  ℕ, ◌≡◌, refl, ap, inl, inr, Bool, true, not, none, List, [], ◌∷◌, ◌++◌, arith, Bool-cases, length,
}
use construct_tui.Prelude.Bytes.{Bytes, bytes, ◌=b◌, =b_iff}
use construct_tui.Prelude.Dict.{Dict, lookup}
use construct_tui.Prelude.Try.{ok}
use construct_tui.Storage.{StoredMessage, StoredContact, Storage, statement, keep}
use construct_tui.Storage.Deletion.{like, like_nil, any_suffix, containing, delete_contact}

any_suffix_self : (f : Bytes → Bool) (s : Bytes) → f s ≡ true → any_suffix f s ≡ true
unfolding any_suffix
any_suffix_self f [] h = h
any_suffix_self f (c ∷ s) h = ground arith

any_suffix-append : (f : Bytes → Bool) (pre s : Bytes) → f s ≡ true → any_suffix f (pre ++ s) ≡ true
unfolding any_suffix
any_suffix-append f [] s h = any_suffix_self f s h
any_suffix-append f (c ∷ pre) s h = ground (arith, any_suffix-append f pre s h)

-- A text matches itself as a pattern, with anything that matches the rest behind it.
like-append :
    (uid pattern post : Bytes)
    → like pattern post ≡ true
    → like (uid ++ pattern) (uid ++ post) ≡ true
unfolding like
like-append [] pattern post h = h
like-append (c ∷ uid) pattern post h =
    let ih = like-append uid pattern post h in
    ground (arith, ih, any_suffix_self (like (uid ++ pattern)) (uid ++ post) ih)

-- A key that contains the user's id, wildcards and all, matches the pattern of the statement.
like-containing : (pre uid post : Bytes) → like (containing uid) (pre ++ (uid ++ post)) ≡ true
unfolding like
like-containing pre uid post =
    any_suffix-append (like (uid ++ bytes "%")) pre (uid ++ post)
      (like-append uid (bytes "%") post (tail_wildcard post))
  where
    tail_wildcard : (s : Bytes) → any_suffix like_nil s ≡ true
    tail_wildcard [] = refl
    tail_wildcard (c ∷ s) = ground (arith, tail_wildcard s)

lookup-keep :
    (p : Bytes → Bool) (key : Bytes) (d : Dict Bytes)
    → p key ≡ true
    → lookup key (keep (λ row. not (p row.0)) d) ≡ none
unfolding lookup
lookup-keep p key [] h = refl
lookup-keep p key ((j, v) ∷ d) h = elim (Bool-cases (j =b key)) [
  | inl e ↦ rw ((=b_iff j key).0 e, h) (lookup-keep p key d h)
  | inr e ↦ elim (Bool-cases (p j)) [
    | inl q ↦ rw q (lookup-keep p key d h)
    | inr q ↦ rw q (rw e (lookup-keep p key d h))
  ]
]

keep-keep-not {ℓ} :
    {A : Type ℓ} (p : A → Bool) (xs : List A) → keep p (keep (λ x. not (p x)) xs) ≡ []
keep-keep-not p [] = refl
keep-keep-not p (x ∷ xs) = elim (Bool-cases (p x)) [
  | inl e ↦ rw e (keep-keep-not p xs)
  | inr e ↦ rw e (rw e (keep-keep-not p xs))
]

keep-not-keep-not {ℓ} :
    {A : Type ℓ} (p : A → Bool) (xs : List A)
    → keep (λ x. not (p x)) (keep (λ x. not (p x)) xs) ≡ keep (λ x. not (p x)) xs
keep-not-keep-not p [] = refl
keep-not-keep-not p (x ∷ xs) = elim (Bool-cases (p x)) [
  | inl e ↦ rw e (keep-not-keep-not p xs)
  | inr e ↦ rw e (rw e (ap (λ (l : List _). x ∷ l) (keep-not-keep-not p xs)))
]

-- The tables after a deletion that SQLite did not refuse.
deleted_tables :
    (uid : Bytes) (s s' : Storage) (n : ℕ)
    → delete_contact uid s ≡ (ok n, s')
    → (n ≡ length (keep (λ m. m.peer_id =b uid) s.messages))
      × (s'.messages ≡ keep (λ m. not (m.peer_id =b uid)) s.messages)
      × (s'.contacts ≡ keep (λ c. not (c.user_id =b uid)) s.contacts)
      × (s'.secure_store ≡ keep (λ row. not (like (containing uid) row.0)) s.secure_store)
unfolding delete_contact statement
deleted_tables uid s s' n h = ground arith

-- When `delete_contact` returns a number, that is how many messages the user had; no message and no
-- contact row of the user is left, no key of the secure store that contains the user's id is, and
-- the messages of all other users are what they were, in their order.
pub delete_contact_forgets :
    (uid pre post : Bytes) (s s' : Storage) (n : ℕ)
    → delete_contact uid s ≡ (ok n, s')
    → (n ≡ length (keep (λ m. m.peer_id =b uid) s.messages))
      × (keep (λ m. m.peer_id =b uid) s'.messages ≡ [])
      × (keep (λ c. c.user_id =b uid) s'.contacts ≡ [])
      × (lookup (pre ++ (uid ++ post)) s'.secure_store ≡ none)
      × (keep (λ m. not (m.peer_id =b uid)) s'.messages
          ≡ keep (λ m. not (m.peer_id =b uid)) s.messages)
delete_contact_forgets uid pre post s s' n h =
    let (count, messages, contacts, keys) = deleted_tables uid s s' n h in
    (
      count,
      rw messages (keep-keep-not (λ (m : StoredMessage). m.peer_id =b uid) s.messages),
      rw contacts (keep-keep-not (λ (c : StoredContact). c.user_id =b uid) s.contacts),
      rw keys (
          lookup-keep (like (containing uid)) (pre ++ (uid ++ post)) s.secure_store
            (like-containing pre uid post)),
      rw messages (keep-not-keep-not (λ (m : StoredMessage). m.peer_id =b uid) s.messages),
    )
