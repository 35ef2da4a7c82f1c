-- ===== src/Prelude/Trim/Strip.antt =====
-- How far `str::trim_start_matches` strips, and that its fuel is enough.
use construct_tui.Prelude.{
  ℕ, zero, suc, ◌<◌, ◌≤◌, ◌≡◌, refl, sym, ◌∙◌, ap, true, false, [], ◌∷◌, ◌++◌, length, drop,
  length-drop, append_assoc, arith, Bool-cases, inl, inr,
}
use construct_tui.Prelude.Bytes.{Bytes, starts_with}
use construct_tui.Prelude.Trim.{strip_all, trim_start_matches}

-- So many copies of a string.
abbrev copies : ℕ → Bytes → Bytes
copies zero p = []
copies (suc n) p = p ++ copies n p

starts_with-drop : (p s : Bytes) → starts_with s p ≡ true → s ≡ p ++ drop (length p) s
unfolding starts_with
starts_with-drop [] s h = refl
starts_with-drop (c ∷ p) [] h = cc
starts_with-drop (c ∷ p) (b ∷ s) h = ground (arith, starts_with-drop p s)

length-starts_with : (p s : Bytes) → starts_with s p ≡ true → length p ≤ length s
unfolding starts_with
length-starts_with [] s h = omega arith
length-starts_with (c ∷ p) [] h = cc
length-starts_with (c ∷ p) (b ∷ s) h = ground (arith, length-starts_with p s)

-- With fuel for its length, the loop ends at a string that has the prefix no more.
strip_all_ends :
    (fuel : ℕ) (p s : Bytes)
    → 0 < length p
    → length s ≤ fuel
    → starts_with (strip_all fuel p s) p ≡ false
unfolding strip_all starts_with
strip_all_ends zero [] s h f = ground arith
strip_all_ends zero (c ∷ p) [] h f = refl
strip_all_ends zero (c ∷ p) (b ∷ s) h f = ground arith
strip_all_ends (suc fuel) p s h f = elim (Bool-cases (starts_with s p)) [
  | inl e ↦ rw e (
      strip_all_ends fuel p (drop (length p) s) h
        (omega (arith, length-drop (length p) s, length-starts_with p s e)))
  | inr e ↦ rw (e, e) refl
]

strip_all-copies : (fuel : ℕ) (p s : Bytes) → (n : ℕ) × (s ≡ copies n p ++ strip_all fuel p s)
unfolding strip_all
strip_all-copies zero p s = (0, refl)
strip_all-copies (suc fuel) p s = elim (Bool-cases (starts_with s p)) [
  | inl e ↦
      let (n, rest) = strip_all-copies fuel p (drop (length p) s) in
      (
        suc n,
        rw e (
            starts_with-drop p s e
            ∙ ap (λ r. p ++ r) rest
            ∙ sym (append_assoc p (copies n p) (strip_all fuel p (drop (length p) s)))),
      )
  | inr e ↦ (0, rw e refl)
]

-- The loop that strips a prefix always ends with nothing left to strip:
-- the result does not start with the prefix, and what is gone are whole copies of it; for a prefix
-- that is not empty.
trim_start_matches_ends :
    (p s : Bytes)
    → 0 < length p
    → (starts_with (trim_start_matches p s) p ≡ false)
      × ((n : ℕ) × (s ≡ copies n p ++ trim_start_matches p s))
unfolding trim_start_matches
trim_start_matches_ends p s h =
    (strip_all_ends (length s) p s h (omega arith), strip_all-copies (length s) p s)
