-- ===== src/Storage/Messages/Query.antt =====
-- src/storage.rs, `get_messages`: the result against the rows of the conversation.
use construct_tui.Prelude.{
  ℕ, suc, ◌^◌, ◌<◌, min, ◌≡◌, refl, sym, ap, ◌∙◌, List, [], ◌∷◌, ◌++◌, arith, length, take, drop,
  length-append, length-take, take-append-drop, lt→ltb,
}
use mathlib.Core.List.{
  reverse, reverse-append, reverse_perm, reverse-cons, Perm, Permᴰ, Pairwise, Pairwise-reverse,
}
use mathlib.Core.List.Perm
use mathlib.Core.Logic.{∥∥₁_elim}
use native.Mathlib.Bridge.{le_prop}
use native.Mathlib.Nat.{ℕ_set}
use construct_tui.Prelude.Bytes.{Bytes, ◌=b◌}
use construct_tui.Prelude.Int.{◌≤ℤ◌}
use construct_tui.Prelude.Try.{ok}
use construct_tui.Storage.{StoredMessage, Storage, statement, keep}
use construct_tui.Storage.Messages.{get_messages}

-- What SQL promises of ORDER BY timestamp_ms DESC: the same rows, the later ones first.
pub record IsOrderByDesc (order : List StoredMessage → List StoredMessage) : Type 0 where
  pub same_rows : (rows : List StoredMessage) → Perm (order rows) rows
  pub descending :
      (rows : List StoredMessage)
      → Pairwise (λ (a b : StoredMessage). b.timestamp_ms ≤ℤ a.timestamp_ms) (order rows)

abbrev pub rows_of : Bytes → Storage → List StoredMessage
rows_of peer s = keep (λ m. m.peer_id =b peer) s.messages

length-reverse : (xs : List StoredMessage) → length (reverse xs) ≡ length xs
length-reverse [] = refl
length-reverse (x ∷ xs) =
    rw (reverse-cons x xs, length-append (reverse xs) (x ∷ [])) (omega (arith, length-reverse xs))

length-Permᴰ : {xs ys : List StoredMessage} → Permᴰ xs ys → length xs ≡ length ys
length-Permᴰ Permᴰ.nil = refl
length-Permᴰ (Permᴰ.cons e p) = ap suc (length-Permᴰ p)
length-Permᴰ (Permᴰ.swap e f) = refl
length-Permᴰ (Permᴰ.trans p q) = length-Permᴰ p ∙ length-Permᴰ q

length-Perm : (xs ys : List StoredMessage) → Perm xs ys → length xs ≡ length ys
length-Perm xs ys p = ∥∥₁_elim p (ℕ_set _ _) length-Permᴰ

-- The two parts of the sorted rows, turned round, are the sorted rows turned round.
parts_reversed :
    (n : ℕ) (rows : List StoredMessage)
    → reverse (drop n rows) ++ reverse (take n rows) ≡ reverse rows
parts_reversed n rows =
    sym (reverse-append (take n rows) (drop n rows)) ∙ ap reverse (take-append-drop n rows)

-- Where SQLite refuses no statement, ORDER BY does what SQL promises and the limit is below 2^63,
-- the result is the end of the peer's conversation in chronological order: with some older
-- messages before it, it is all rows of the peer in the order of their times, and it holds `limit`
-- of them, or all if there are fewer. Nothing is changed.
pub get_messages_window :
    (order : List StoredMessage → List StoredMessage) (peer : Bytes) (limit : ℕ) (s : Storage)
    → IsOrderByDesc order
    → limit < 2 ^ 63
    → s.faults ≡ []
    → (older recent : List StoredMessage) × (get_messages order peer limit s ≡ (ok recent, s))
      × Perm (older ++ recent) (rows_of peer s)
      × Pairwise (λ (a b : StoredMessage). a.timestamp_ms ≤ℤ b.timestamp_ms) (older ++ recent)
      × (length recent ≡ min limit (length (rows_of peer s)))
unfolding get_messages statement
get_messages_window order peer limit s h small calm =
    let rows = order (rows_of peer s) in
    (
      reverse (drop limit rows),
      reverse (take limit rows),
      ground (arith, lt→ltb limit (2 ^ 63) small),
      rw (parts_reversed limit rows)
          (Perm.trans (reverse_perm rows) (h.same_rows (rows_of peer s))),
      rw (parts_reversed limit rows)
          ((Pairwise-reverse (λ _ _. le_prop)).1 (h.descending (rows_of peer s))),
      rw (length-reverse, length-take limit rows)
          (ap (min limit) (length-Perm rows (rows_of peer s) (h.same_rows (rows_of peer s)))),
    )
