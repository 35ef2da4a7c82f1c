-- ===== src/Prelude/Bytes.antt =====
-- Byte strings. A Rust `String` is its UTF-8 bytes, a `Vec<u8>` or `Bytes` likewise; equality and
-- order are those of the bytes. Big-endian words are written out by division.
use construct_tui.Prelude.{
  ℕ, ◌+◌, ◌*◌, ◌/◌, ◌%◌, ◌^◌, ◌<◌, ◌≡◌, refl, ◌↔◌, Bool, true, false, ◌&&◌, ◌||◌, List, [], ◌∷◌,
  ◌++◌, arith, ltb, ◌==◌, if◌then◌else◌, ◌⊎◌, inl, inr, Option, none, some,
}
use Prim.Native.Char.{code}
use Prim.Native.String.{String}

abbrev pub Bytes : Type 0
Bytes = List ℕ

abbrev pub IsByte : ℕ → Type 0
IsByte b = b < 256

-- The bytes of a literal. Every literal of the model is ASCII.
abbrev pub bytes : String → Bytes
bytes String.[] = []
bytes (String.◌∷◌ c s) = code c ∷ bytes s

infix 50 ◌=b◌
unfoldable pub ◌=b◌ : Bytes → Bytes → Bool
[] =b [] = true
[] =b (b ∷ bs) = false
(a ∷ as') =b [] = false
(a ∷ as') =b (b ∷ bs) = a == b && as' =b bs

pub =b_iff : (a b : Bytes) → ((a =b b) ≡ true) ↔ (a ≡ b)
unfolding ◌=b◌
=b_iff [] [] = (λ _. refl, λ _. refl)
=b_iff [] (b ∷ bs) = (λ h. cc, λ h. cc)
=b_iff (a ∷ as') [] = (λ h. cc, λ h. cc)
=b_iff (a ∷ as') (b ∷ bs) = ground (arith, =b_iff as' bs)

pub =b-refl : (a : Bytes) → (a =b a) ≡ true
=b-refl a = (=b_iff a a).1 refl

-- `a < b` on strings: byte by byte, a proper prefix first.
unfoldable pub lt_bytes : Bytes → Bytes → Bool
lt_bytes [] [] = false
lt_bytes [] (b ∷ bs) = true
lt_bytes (a ∷ as') [] = false
lt_bytes (a ∷ as') (b ∷ bs) = ltb a b || (a == b && lt_bytes as' bs)

pub lt_bytes_irrefl : (a : Bytes) → lt_bytes a a ≡ false
unfolding lt_bytes
lt_bytes_irrefl [] = refl
lt_bytes_irrefl (a ∷ as') = ground (arith, lt_bytes_irrefl as')

-- Two different strings are ordered one way, and one way only.
pub lt_bytes-total :
    (a b : Bytes)
    → (a ≡ b)
      ⊎ ((lt_bytes a b ≡ true) × (lt_bytes b a ≡ false))
      ⊎ ((lt_bytes a b ≡ false) × (lt_bytes b a ≡ true))
unfolding lt_bytes
lt_bytes-total [] [] = inl refl
lt_bytes-total [] (b ∷ bs) = inr (inl (refl, refl))
lt_bytes-total (a ∷ as') [] = inr (inr (refl, refl))
lt_bytes-total (a ∷ as') (b ∷ bs) = ground (arith, lt_bytes-total as' bs)

-- `starts_with`
unfoldable pub starts_with : Bytes → Bytes → Bool
starts_with s [] = true
starts_with [] (p ∷ ps) = false
starts_with (c ∷ s) (p ∷ ps) = c == p && starts_with s ps

pub starts_with-append : (p s : Bytes) → starts_with (p ++ s) p ≡ true
unfolding starts_with
starts_with-append [] s = refl
starts_with-append (c ∷ p) s = ground (arith, starts_with-append p s)

-- `contains`
unfoldable pub contains : Bytes → Bytes → Bool
unfolding starts_with
contains [] p = starts_with [] p
contains (c ∷ s) p = starts_with (c ∷ s) p || contains s p

-- `split_once(c)`: what stands before and after the first `c`.
unfoldable pub split_once : ℕ → Bytes → Option (Bytes × Bytes)
split_once c [] = none
split_once c (b ∷ s) =
    if b == c
    then some ([], s)
    else elim (split_once c s) [ none ↦ none | some (front, rest) ↦ some (b ∷ front, rest) ]

-- `(v as u16).to_be_bytes()` and so on, for a value in range
unfoldable pub u16_be : ℕ → Bytes
u16_be v = (v / 2 ^ 8 % 256) ∷ (v % 256) ∷ []

unfoldable pub u32_be : ℕ → Bytes
u32_be v = (v / 2 ^ 24 % 256) ∷ (v / 2 ^ 16 % 256) ∷ (v / 2 ^ 8 % 256) ∷ (v % 256) ∷ []

unfoldable pub u64_be : ℕ → Bytes
unfolding u32_be
u64_be v = u32_be (v / 2 ^ 32 % 2 ^ 32) ++ u32_be (v % 2 ^ 32)

-- `u32::from_be_bytes([a, b, c, d])`
abbrev pub from_u32_be : ℕ → ℕ → ℕ → ℕ → ℕ
from_u32_be a b c d = a * 2 ^ 24 + b * 2 ^ 16 + c * 2 ^ 8 + d

pub from_u32_be-u32_be :
    (v : ℕ)
    → v < 2 ^ 32
    → from_u32_be (v / 2 ^ 24 % 256) (v / 2 ^ 16 % 256) (v / 2 ^ 8 % 256) (v % 256) ≡ v
from_u32_be-u32_be v h = omega arith

pub u32_be-from_u32_be :
    (a b c d : ℕ)
    → IsByte a
    → IsByte b
    → IsByte c
    → IsByte d
    → u32_be (from_u32_be a b c d) ≡ a ∷ b ∷ c ∷ d ∷ []
unfolding u32_be
u32_be-from_u32_be a b c d ha hb hc hd = ground arith
