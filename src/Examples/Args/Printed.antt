-- ===== src/Examples/Args/Printed.antt =====
-- src/examples/baseline.rs: `str::parse` on the text of a number.
use lumberjack_protocol.Examples.Args.{parse_digits, parse_bytes}
use lumberjack_protocol.Error.Display.{digit, decimal_before, decimal}
use lumberjack_protocol.Base.{
  ℕ, zero, suc, Bytes, [], ◌∷◌, ◌≡◌, refl, ◌<◌, ◌+◌, ◌*◌, ◌/◌, ◌%◌, ◌^◌, some, arith, ◌∙◌, inl, inr,
  Bool-cases, ltb, ◌-◌, ◌==◌, leb, false, true,
}

-- One more digit.
parse_digits-digit :
    (n d : ℕ) (rest : Bytes)
    → n * 10 + d % 10 < 2 ^ 64
    → parse_digits n (digit d ∷ rest) ≡ parse_digits (n * 10 + d % 10) rest
unfolding parse_digits
parse_digits-digit n d rest fits =
    let same : digit d - b'0' ≡ d % 10 = omega arith in
    let low : leb b'0' (digit d) ≡ true = ground arith in
    let high : leb (digit d) b'9' ≡ true = ground arith in
    let small : ltb (n * 10 + d % 10) (2 ^ 64) ≡ true = ground arith in
    rw (same, low, high, small) refl

-- The digits in front of the others are read first.
parse_digits-decimal_before :
    (fuel n : ℕ) (rest : Bytes)
    → n < 10 ^ fuel
    → n < 2 ^ 64
    → parse_digits 0 (decimal_before fuel n rest) ≡ parse_digits n rest
unfolding decimal_before
parse_digits-decimal_before zero n rest few fits =
    let nothing : n ≡ 0 = omega arith in rw nothing refl
parse_digits-decimal_before (suc fuel) n rest few fits = elim (Bool-cases (ltb n 10)) [
  | inl e ↦
      let whole : 0 * 10 + n % 10 ≡ n = ground arith in
      rw e (parse_digits-digit 0 n rest (omega arith) ∙ rw whole refl)
  | inr e ↦
      let whole : n / 10 * 10 + n % 10 ≡ n = omega arith in
      rw e (
        parse_digits-decimal_before fuel (n / 10) (digit n ∷ rest) (omega arith) (omega arith)
        ∙ parse_digits-digit (n / 10) n rest (omega arith)
        ∙ rw whole refl)
]

-- A digit is no sign.
parse_bytes-digit :
    (d : ℕ) (rest : Bytes) → parse_bytes (digit d ∷ rest) ≡ parse_digits 0 (digit d ∷ rest)
unfolding parse_bytes
parse_bytes-digit d [] = refl
parse_bytes-digit d (c ∷ rest) =
    let no_sign : (digit d == b'+') ≡ false = ground arith in rw no_sign refl

parse_bytes-decimal_before :
    (fuel n d : ℕ) (rest : Bytes)
    → parse_bytes (decimal_before fuel n (digit d ∷ rest))
      ≡ parse_digits 0 (decimal_before fuel n (digit d ∷ rest))
unfolding decimal_before
parse_bytes-decimal_before zero n d rest = parse_bytes-digit d rest
parse_bytes-decimal_before (suc fuel) n d rest = elim (Bool-cases (ltb n 10)) [
  | inl e ↦ rw e (parse_bytes-digit n (digit d ∷ rest))
  | inr e ↦ rw e (parse_bytes-decimal_before fuel (n / 10) n (digit d ∷ rest))
]

parse_bytes-decimal_first :
    (fuel n : ℕ) (rest : Bytes)
    → parse_bytes (decimal_before (suc fuel) n rest)
      ≡ parse_digits 0 (decimal_before (suc fuel) n rest)
unfolding decimal_before
parse_bytes-decimal_first fuel n rest = elim (Bool-cases (ltb n 10)) [
  | inl e ↦ rw e (parse_bytes-digit n rest)
  | inr e ↦ rw e (parse_bytes-decimal_before fuel (n / 10) n rest)
]

parse_bytes-decimal_from :
    (fuel n : ℕ)
    → n < 10 ^ suc fuel
    → n < 2 ^ 64
    → parse_bytes (decimal_before (suc fuel) n []) ≡ some n
unfolding parse_digits
parse_bytes-decimal_from fuel n few fits =
    parse_bytes-decimal_first fuel n [] ∙ parse_digits-decimal_before (suc fuel) n [] few fits

-- `str::parse` reads the text that `Display` gives for a number of 64 bits as that number.
pub parse_bytes-decimal : (n : ℕ) → n < 2 ^ 64 → parse_bytes (decimal n) ≡ some n
unfolding decimal
parse_bytes-decimal n fits = parse_bytes-decimal_from 19 n (omega arith) fits
