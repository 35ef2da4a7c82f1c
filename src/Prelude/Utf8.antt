-- ===== src/Prelude/Utf8.antt =====
-- UTF-8 as Rust checks it (`String::from_utf8`) and repairs it (`String::from_utf8_lossy`).
use construct_tui.Prelude.{
  ℕ, zero, suc, ◌≡◌, refl, Bool, true, false, ◌&&◌, Option, none, some, [], ◌∷◌, ◌++◌, arith,
  append_assoc, ltb, leb, ◌==◌, if◌then◌else◌,
}
use construct_tui.Prelude.Bytes.{Bytes}

-- After a first byte: how many continuation bytes follow, and the range of the next one.
pub data Expect : Type 0 where
  start : Expect
  more : ℕ → ℕ → ℕ → Expect

-- The first byte of a character (Unicode table 3-7); `none` where no character begins so.
unfoldable pub lead : ℕ → Option Expect
lead b =
    if ltb b 0x80
    then some start
    else if leb 0xc2 b && leb b 0xdf
    then some (more 0 0x80 0xbf)
    else if b == 0xe0
    then some (more 1 0xa0 0xbf)
    else if b == 0xed
    then some (more 1 0x80 0x9f)
    else if leb 0xe1 b && leb b 0xef
    then some (more 1 0x80 0xbf)
    else if b == 0xf0
    then some (more 2 0x90 0xbf)
    else if leb 0xf1 b && leb b 0xf3
    then some (more 2 0x80 0xbf)
    else if b == 0xf4
    then some (more 2 0x80 0x8f)
    else none

-- The state after an accepted continuation byte.
unfoldable pub after : ℕ → Expect
after zero = start
after (suc n) = more n 0x80 0xbf

valid_from : Expect → Bytes → Bool
valid_from start [] = true
valid_from (more n lo hi) [] = false
valid_from start (b ∷ s) = elim (lead b) [ none ↦ false | some e ↦ valid_from e s ]
valid_from (more n lo hi) (b ∷ s) = leb lo b && leb b hi && valid_from (after n) s

-- `String::from_utf8(s).is_ok()`
unfoldable pub is_utf8 : Bytes → Bool
unfolding valid_from after lead
is_utf8 = valid_from start

-- U+FFFD
abbrev pub replacement : Bytes
replacement = 0xef ∷ 0xbf ∷ 0xbd ∷ []

-- What a byte at the start of a character adds, and the state after it with the bytes held back.
begin : ℕ → Bytes × Expect × Bytes
begin b = elim (lead b) [
  | none ↦ (replacement, start, [])
  | some start ↦ (b ∷ [], start, [])
  | some (more n lo hi) ↦ ([], more n lo hi, b ∷ [])
]

-- Each longest prefix of a character that does not go on as one is replaced as a whole; the byte
-- that broke it begins anew.
lossy_from : Expect → Bytes → Bytes → Bytes
lossy_from start held [] = []
lossy_from (more n lo hi) held [] = replacement
lossy_from start held (b ∷ s) = (begin b).0 ++ lossy_from (begin b).1 (begin b).2 s
lossy_from (more zero lo hi) held (b ∷ s) = elim (leb lo b && leb b hi) [
  | true ↦ held ++ (b ∷ lossy_from start [] s)
  | false ↦ replacement ++ ((begin b).0 ++ lossy_from (begin b).1 (begin b).2 s)
]
lossy_from (more (suc n) lo hi) held (b ∷ s) = elim (leb lo b && leb b hi) [
  | true ↦ lossy_from (more n 0x80 0xbf) (held ++ (b ∷ [])) s
  | false ↦ replacement ++ ((begin b).0 ++ lossy_from (begin b).1 (begin b).2 s)
]

-- `String::from_utf8_lossy(s).into_owned()`
unfoldable pub from_utf8_lossy : Bytes → Bytes
unfolding lossy_from begin
from_utf8_lossy = lossy_from start []

-- Between characters nothing is held back.
abbrev Held : Expect → Bytes → Type 0
Held start held = held ≡ []
Held (more n lo hi) held = Unit

-- What begins with `b` adds or holds back exactly `b`, where the text is valid.
record Begun (b : ℕ) (s : Bytes) : Type 0 where
  valid : valid_from (begin b).1 s ≡ true
  held : Held (begin b).1 (begin b).2
  byte : (begin b).0 ++ (begin b).2 ≡ b ∷ []

begin-valid : (b : ℕ) (s : Bytes) → valid_from start (b ∷ s) ≡ true → Begun b s
unfolding begin valid_from
begin-valid b s v = go (lead b) refl
  where
    go : (o : Option Expect) → lead b ≡ o → Begun b s
    go none e = cc (rw (e, valid_from) at v)
    go (some start) e =
        let p : begin b ≡ (b ∷ [], start, []) = rw (e, begin) in
        record { valid = rw p (rw (e, valid_from) at v); held = rw p refl; byte = rw p refl }
    go (some (more n lo hi)) e =
        let p : begin b ≡ ([], more n lo hi, b ∷ []) = rw (e, begin) in
        record { valid = rw p (rw (e, valid_from) at v); held = rw p tt; byte = rw p refl }

lossy_from-valid :
    (e : Expect) (held s : Bytes)
    → Held e held
    → valid_from e s ≡ true
    → lossy_from e held s ≡ held ++ s
unfolding valid_from lossy_from begin after
lossy_from-valid start held [] h v = rw h
lossy_from-valid (more n lo hi) held [] h v = cc
lossy_from-valid start held (b ∷ s) h v =
    let w : Begun b s = begin-valid b s v in
    rw (
      h,
      lossy_from-valid (begin b).1 (begin b).2 s w.held w.valid,
      ← append_assoc (begin b).0 (begin b).2 s,
      w.byte,
    )
lossy_from-valid (more zero lo hi) held (b ∷ s) h v = ground (arith, lossy_from-valid start [] s)
lossy_from-valid (more (suc n) lo hi) held (b ∷ s) h v = ground (
  arith,
  lossy_from-valid (more n 0x80 0xbf) (held ++ (b ∷ [])) s tt,
  append_assoc held (b ∷ []) s,
)

-- Valid UTF-8 is left as it is.
pub from_utf8_lossy-is_utf8 : (s : Bytes) → is_utf8 s ≡ true → from_utf8_lossy s ≡ s
unfolding from_utf8_lossy is_utf8
from_utf8_lossy-is_utf8 s v = lossy_from-valid start [] s refl v
