-- ===== src/Prelude/Text.antt =====
-- `String::push` and `String::pop` on UTF-8. A character is its bytes: one that is no
-- continuation byte, and continuation bytes.
use construct_tui.Prelude.{
  ℕ, ◌≡◌, Bool, true, false, ◌&&◌, [], ◌∷◌, ◌++◌, arith, leb, if◌then◌else◌,
}
use construct_tui.Prelude.Bytes.{Bytes}

abbrev is_continuation : ℕ → Bool
is_continuation b = leb 128 b && leb b 191

unfoldable pub all_continuation : Bytes → Bool
all_continuation [] = true
all_continuation (b ∷ s) = is_continuation b && all_continuation s

pub record Char : Type 0 where
  pub head : ℕ
  pub rest : Bytes
  pub starts : is_continuation head ≡ false
  pub continues : all_continuation rest ≡ true

abbrev pub encoded : Char → Bytes
encoded c = c.head ∷ c.rest

unfoldable pub push_char : Char → Bytes → Bytes
push_char c s = s ++ encoded c

unfoldable pub pop_char : Bytes → Bytes
unfolding all_continuation
pop_char [] = []
pop_char (b ∷ s) = let rest = pop_char s in if all_continuation s then [] else b ∷ rest

all_continuation-append : (s : Bytes) (c : Char) → all_continuation (s ++ encoded c) ≡ false
unfolding all_continuation
all_continuation-append [] c = ground (arith, c.starts)
all_continuation-append (b ∷ s) c = ground (arith, all_continuation-append s c)

pub pop_char-push_char : (c : Char) (s : Bytes) → pop_char (push_char c s) ≡ s
unfolding pop_char push_char
pop_char-push_char c [] = ground (arith, c.continues)
pop_char-push_char c (b ∷ s) = ground (arith, all_continuation-append s c, pop_char-push_char c s)
