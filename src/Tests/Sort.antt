-- ===== src/Tests/Sort.antt =====
-- A sort that keeps what SQL promises of ORDER BY ... DESC.
use mathlib.Core.List.{Perm, Pairwise, mem-cons, not-mem-nil}
use mathlib.Core.List.Perm
use mathlib.Core.Logic.Or
use native.Mathlib.Bridge.{le_prop}
use construct_tui.Prelude.{inl, inr, List, [], ◌∷◌, arith, if◌then◌else◌, Bool-cases}
use construct_tui.Prelude.Int.{leb_ℤ, ◌≤ℤ◌}
use construct_tui.Storage.{StoredMessage}
use construct_tui.Storage.Messages.Query.{IsOrderByDesc}

place : StoredMessage → List StoredMessage → List StoredMessage
place m [] = m ∷ []
place m (x ∷ xs) = if leb_ℤ x.timestamp_ms m.timestamp_ms then m ∷ x ∷ xs else x ∷ place m xs

unfoldable pub newest_first : List StoredMessage → List StoredMessage
unfolding place
newest_first [] = []
newest_first (m ∷ ms) = place m (newest_first ms)

place-perm : (m : StoredMessage) (xs : List StoredMessage) → Perm (place m xs) (m ∷ xs)
unfolding place
place-perm m [] = Perm.refl (m ∷ [])
place-perm m (x ∷ xs) = elim (Bool-cases (leb_ℤ x.timestamp_ms m.timestamp_ms)) [
  | inl e ↦ rw e (Perm.refl (m ∷ x ∷ xs))
  | inr e ↦ rw e (Perm.trans (Perm.cons x (place-perm m xs)) (Perm.swap m x xs))
]

newest_first-perm : (ms : List StoredMessage) → Perm (newest_first ms) ms
unfolding newest_first
newest_first-perm [] = Perm.refl []
newest_first-perm (m ∷ ms) =
    Perm.trans (place-perm m (newest_first ms)) (Perm.cons m (newest_first-perm ms))

abbrev Desc : StoredMessage → StoredMessage → Type 0
Desc a b = b.timestamp_ms ≤ℤ a.timestamp_ms

place-Desc :
    (m : StoredMessage) (xs : List StoredMessage) → Pairwise Desc xs → Pairwise Desc (place m xs)
unfolding place
place-Desc m [] h = Pairwise.cons (λ a n. absurd (not-mem-nil n)) Pairwise.nil
place-Desc m (x ∷ xs) (Pairwise.cons later h) =
    elim (Bool-cases (leb_ℤ x.timestamp_ms m.timestamp_ms)) [
      | inl e ↦ rw e (
          Pairwise.cons
            (λ a n.
              Or.elim le_prop (mem-cons.0 n) (λ p. rw p (ground arith))
                (λ k. let le = later a k in ground arith))
            (Pairwise.cons later h))
      | inr e ↦ rw e (
          Pairwise.cons
            (λ a n.
              Or.elim le_prop (mem-cons.0 ((Perm.mem_iff (place-perm m xs)).0 n))
                (λ p. rw p (ground arith)) (later a))
            (place-Desc m xs h))
    ]

newest_first-Desc : (ms : List StoredMessage) → Pairwise Desc (newest_first ms)
unfolding newest_first
newest_first-Desc [] = Pairwise.nil
newest_first-Desc (m ∷ ms) = place-Desc m (newest_first ms) (newest_first-Desc ms)

pub newest_first-IsOrderByDesc : IsOrderByDesc newest_first
newest_first-IsOrderByDesc = record {
  same_rows = newest_first-perm;
  descending = newest_first-Desc;
}
