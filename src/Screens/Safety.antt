-- ===== src/Screens/Safety.antt =====
-- src/screens/safety_number.rs: the safety number of two identity keys. SHA-512 is a parameter.
use construct_tui.Prelude.{
  ℕ, zero, suc, ◌+◌, ◌-◌, ◌*◌, ◌/◌, ◌%◌, ◌^◌, not, [], ◌∷◌, ◌++◌, take, drop, if◌then◌else◌,
}
use construct_tui.Prelude.Bytes.{Bytes, bytes, lt_bytes}

-- `bytes.iter().fold(0u64, |acc, &b| (acc << 8) | b as u64)`, of at most eight bytes
unfoldable pub big_endian : ℕ → Bytes → ℕ
big_endian acc [] = acc
big_endian acc (b ∷ s) = big_endian (acc * 2 ^ 8 + b) s

abbrev digit : ℕ → ℕ → ℕ
digit n unit = b'0' + n / unit % 10

-- `format!("{:05}", n % 100_000)`
unfoldable pub five_digits : ℕ → Bytes
five_digits n = digit n 10000 ∷ digit n 1000 ∷ digit n 100 ∷ digit n 10 ∷ digit n 1 ∷ []

abbrev group : Bytes → ℕ → Bytes
group digest i = five_digits (big_endian 0 (take 5 (drop (i * 5) digest)))

-- The last `n` of the twelve groups, joined by spaces.
unfoldable pub groups_from : Bytes → ℕ → Bytes
unfolding five_digits big_endian
groups_from digest zero = []
groups_from digest (suc zero) = group digest 11
groups_from digest (suc (suc n)) = group digest (10 - n) ++ (b' ' ∷ groups_from digest (suc n))

module _ (sha512 : Bytes → Bytes) where
  unfoldable pub number_of : Bytes → Bytes → Bytes
  unfolding groups_from
  number_of first second =
      groups_from (sha512 (bytes "construct-safety-number-v1" ++ (0 ∷ (first ++ second)))) 12

  unfoldable pub compute_safety_number : Bytes → Bytes → Bytes
  unfolding number_of lt_bytes
  compute_safety_number our_identity their_identity =
      if not (lt_bytes their_identity our_identity)
      then number_of our_identity their_identity
      else number_of their_identity our_identity
