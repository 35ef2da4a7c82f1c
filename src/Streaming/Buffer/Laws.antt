-- ===== src/Streaming/Buffer/Laws.antt =====
-- src/streaming.rs: the buffer after many sends, and the delays one after the other.
use construct_tui.Prelude.{
  ℕ, zero, suc, ◌-◌, ◌*◌, ◌≤◌, ◌≡◌, refl, ap, ◌∙◌, inl, inr, min, List, [], ◌∷◌, ◌++◌, length, leb,
  leb→le, drop, arith, length-append, append_assoc, append-nil, Bool-cases,
}
use construct_tui.Streaming.Buffer.{push_pending, backoff_base_secs}

module _ {E : Type 0} where
  -- Envelopes pushed one after the other.
  unfoldable pub push_all : List E → List E → List E
  push_all pending [] = pending
  push_all pending (e ∷ es) = push_all (push_pending pending e) es

  pub length-push_pending :
      (pending : List E) (e : E) → length pending ≤ 256 → length (push_pending pending e) ≤ 256
  unfolding push_pending
  length-push_pending [] e h = omega arith
  length-push_pending (x ∷ xs) e h = ground (arith, length-append xs (e ∷ []))

  -- One push leaves the newest 256 of a longer row of envelopes what they are.
  newest-push_pending :
      (pending : List E) (e : E) (es : List E)
      → length pending ≤ 256
      → drop (length (push_pending pending e ++ es) - 256) (push_pending pending e ++ es)
        ≡ drop (length (pending ++ (e ∷ es)) - 256) (pending ++ (e ∷ es))
  unfolding push_pending
  newest-push_pending [] e es h = refl
  newest-push_pending (x ∷ xs) e es h = elim (Bool-cases (leb 256 (length (x ∷ xs)))) [
    | inl full ↦
        rw (full, append_assoc xs (e ∷ []) es)
          (let over : length (x ∷ (xs ++ (e ∷ es))) - 256 ≡ suc (length (xs ++ (e ∷ es)) - 256) =
              omega (arith, length-append xs (e ∷ es), leb→le 256 (length (x ∷ xs)) full) in
            rw over refl)
    | inr room ↦
        rw room (ap (λ (l : List E). drop (length l - 256) l) (append_assoc (x ∷ xs) (e ∷ []) es))
  ]

  -- A buffer of at most 256 envelopes never holds more after any pushes, and then holds the newest
  -- 256 of all, or all if they are fewer, in their order.
  pub push_all_newest :
      (pending es : List E)
      → length pending ≤ 256
      → (length (push_all pending es) ≤ 256)
        × (push_all pending es ≡ drop (length (pending ++ es) - 256) (pending ++ es))
  unfolding push_all
  push_all_newest pending [] h =
      let none_over : length pending - 256 ≡ 0 = omega arith in
      rw (append-nil pending, none_over) (h, refl)
  push_all_newest pending (e ∷ es) h =
      let (small, newest) =
        push_all_newest (push_pending pending e) es (length-push_pending pending e h) in
      (small, newest ∙ newest-push_pending pending e es h)

-- The delay before the first retry is one second; each further failure doubles it, up to sixty.
pub backoff_doubles :
    (attempt : ℕ)
    → (backoff_base_secs 0 ≡ 1)
      × (backoff_base_secs (suc attempt) ≡ min (2 * backoff_base_secs attempt) 60)
unfolding backoff_base_secs
backoff_doubles zero = (refl, refl)
backoff_doubles (suc zero) = (refl, refl)
backoff_doubles (suc (suc zero)) = (refl, refl)
backoff_doubles (suc (suc (suc zero))) = (refl, refl)
backoff_doubles (suc (suc (suc (suc zero)))) = (refl, refl)
backoff_doubles (suc (suc (suc (suc (suc zero))))) = (refl, refl)
backoff_doubles (suc (suc (suc (suc (suc (suc n)))))) =
    let here : min (suc (suc (suc (suc (suc (suc n)))))) 6 ≡ 6 = omega arith in
    let next : min (suc (suc (suc (suc (suc (suc (suc n))))))) 6 ≡ 6 = omega arith in
    (refl, rw (here, next) refl)
