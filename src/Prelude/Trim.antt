-- ===== src/Prelude/Trim.antt =====
-- `str::trim` and its kin on UTF-8: the characters with the Unicode property White_Space.
pub mod Strip
use construct_tui.Prelude.{
  zero, suc, length, drop, if◌then◌else◌, ◌≡◌, ◌≤◌, ◌<◌, refl, All, arith, ℕ, Bool, ◌&&◌, ◌||◌, [],
  ◌∷◌, leb, ◌==◌,
}
use construct_tui.Prelude.Bytes.{Bytes, starts_with}

-- U+0009 to U+000D and the space
abbrev is_space1 : ℕ → Bool
is_space1 a = leb 9 a && leb a 13 || a == 32

-- U+0085 and U+00A0
abbrev is_space2 : ℕ → ℕ → Bool
is_space2 a b = a == 194 && (b == 133 || b == 160)

-- U+1680, U+2000 to U+200A, U+2028, U+2029, U+202F, U+205F and U+3000
abbrev is_space3 : ℕ → ℕ → ℕ → Bool
is_space3 a b c =
    (a == 225 && (b == 154 && c == 128))
    || ((a == 226 && (b == 128 && (leb 128 c && leb c 138 || (c == 168 || (c == 169 || c == 175)))))
        || ((a == 226 && (b == 129 && c == 159)) || (a == 227 && (b == 128 && c == 128))))

unfoldable pub trim_start : Bytes → Bytes
trim_start [] = []
trim_start (a ∷ []) = if is_space1 a then [] else a ∷ []
trim_start (a ∷ b ∷ []) =
    let rest = trim_start (b ∷ []) in
    if is_space1 a then rest else if is_space2 a b then [] else a ∷ b ∷ []
trim_start (a ∷ b ∷ c ∷ s) =
    let rest1 = trim_start (b ∷ c ∷ s) in
    let rest2 = trim_start (c ∷ s) in
    let rest3 = trim_start s in
    if is_space1 a
    then rest1
    else if is_space2 a b
    then rest2
    else if is_space3 a b c
    then rest3
    else a ∷ b ∷ c ∷ s

-- Nothing, where only spaces are left.
abbrev unless_blank : Bytes → Bytes → Bytes
unless_blank [] kept = []
unless_blank (d ∷ ds) kept = kept

-- No character of valid UTF-8 that is a space starts with a continuation byte, so a tail of
-- spaces begins at a character.
unfoldable pub trim_end : Bytes → Bytes
unfolding trim_start
trim_end [] = []
trim_end (c ∷ s) = unless_blank (trim_start (c ∷ s)) (c ∷ trim_end s)

unfoldable pub trim : Bytes → Bytes
unfolding trim_start trim_end
trim s = trim_start (trim_end s)

-- A visible ASCII character.
abbrev pub IsVisible : ℕ → Type 0
IsVisible c = (33 ≤ c) × (c < 127)

trim_start_visible : (c : ℕ) (s : Bytes) → IsVisible c → trim_start (c ∷ s) ≡ c ∷ s
unfolding trim_start
trim_start_visible c [] h = ground arith
trim_start_visible c (a ∷ []) h = ground arith
trim_start_visible c (a ∷ b ∷ s) h = ground arith

trim_end_visible : (s : Bytes) → All IsVisible s → trim_end s ≡ s
unfolding trim_end
trim_end_visible [] h = refl
trim_end_visible (c ∷ s) (hc, hs) = rw (trim_start_visible c s hc, trim_end_visible s hs) refl

pub trim_visible : (s : Bytes) → All IsVisible s → trim s ≡ s
unfolding trim
trim_visible [] h = refl
trim_visible (c ∷ s) (hc, hs) = rw (trim_end_visible (c ∷ s) (hc, hs)) (trim_start_visible c s hc)

-- `str::trim_start_matches`: the prefix is not empty, so the length is enough fuel.
strip_all : ℕ → Bytes → Bytes → Bytes
strip_all zero p s = s
strip_all (suc fuel) p s =
    let rest = strip_all fuel p (drop (length p) s) in if starts_with s p then rest else s

unfoldable pub trim_start_matches : Bytes → Bytes → Bytes
unfolding strip_all starts_with
trim_start_matches p s = strip_all (length s) p s
