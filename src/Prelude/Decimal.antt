-- ===== src/Prelude/Decimal.antt =====
-- Decimal numbers in text: `to_string` of an unsigned integer and Rust's `str::parse`.
use construct_tui.Prelude.{
  ℕ, zero, suc, ◌+◌, ◌-◌, ◌*◌, ◌/◌, ◌%◌, ◌<◌, ◌≡◌, ◌&&◌, [], ◌∷◌, Option, none, some, arith, ltb,
  leb, ◌==◌, if◌then◌else◌,
}
use construct_tui.Prelude.Bytes.{Bytes}
use construct_tui.Prelude.Int.{ℤ, pos, negsuc}

-- The digits of `n`, put before `tail`. A u64 has at most twenty.
digits_loop : ℕ → ℕ → Bytes → Bytes
digits_loop zero n tail = tail
digits_loop (suc fuel) n tail =
    let rest = digits_loop fuel (n / 10) ((b'0' + n % 10) ∷ tail) in
    if ltb n 10 then (b'0' + n) ∷ tail else rest

-- `n.to_string()` of a value of at most 64 bits
unfoldable pub show_uint : ℕ → Bytes
unfolding digits_loop
show_uint n = digits_loop 20 n []

-- The loop of `from_str_radix`: an unknown character or a value of `bound` or more is an error.
parse_digits : ℕ → ℕ → Bytes → Option ℕ
parse_digits bound acc [] = some acc
parse_digits bound acc (c ∷ cs) =
    if leb b'0' c && leb c b'9'
    then if ltb (acc * 10 + (c - b'0')) bound
      then parse_digits bound (acc * 10 + (c - b'0')) cs
      else none
    else none

-- `s.parse::<uN>()` with `bound` 2^N. One leading plus sign is accepted.
unfoldable pub parse_uint : ℕ → Bytes → Option ℕ
unfolding parse_digits
parse_uint bound [] = none
parse_uint bound (c ∷ []) = parse_digits bound 0 (c ∷ [])
parse_uint bound (c ∷ d ∷ cs) =
    if c == b'+' then parse_digits bound 0 (d ∷ cs) else parse_digits bound 0 (c ∷ d ∷ cs)

-- What is parsed is below the bound.
parse_digits-lt :
    (bound acc : ℕ) (s : Bytes) (v : ℕ)
    → acc < bound
    → parse_digits bound acc s ≡ some v
    → v < bound
unfolding parse_digits
parse_digits-lt bound acc [] v h e = ground arith
parse_digits-lt bound acc (c ∷ cs) v h e =
    ground (arith, parse_digits-lt bound (acc * 10 + (c - b'0')) cs v)

pub parse_uint-lt :
    (bound : ℕ) (s : Bytes) (v : ℕ) → 0 < bound → parse_uint bound s ≡ some v → v < bound
unfolding parse_uint
parse_uint-lt bound [] v h e = cc
parse_uint-lt bound (c ∷ []) v h e = parse_digits-lt bound 0 (c ∷ []) v h e
parse_uint-lt bound (c ∷ d ∷ cs) v h e =
    ground (arith, parse_digits-lt bound 0 (d ∷ cs) v, parse_digits-lt bound 0 (c ∷ d ∷ cs) v)

-- `n.to_string()` of an i64
unfoldable pub show_int : ℤ → Bytes
unfolding show_uint
show_int (pos n) = show_uint n
show_int (negsuc n) = b'-' ∷ show_uint (suc n)
