-- ===== src/Strconv/Decimal.antt =====
-- Atoi reads back what Itoa wrote, and CutSuffix takes off what was appended.
use bitphase_file_share.Prelude.{
  ℕ, zero, suc, ◌+◌, ◌-◌, ◌/◌, ◌%◌, ◌^◌, ◌≤◌, ◌<◌, ◌≡◌, refl, [], ◌∷◌, ◌++◌, some, arith,
  append_assoc, append-nil, Bool-cases, ltb, inl, inr, length, length-append, take-length_append,
  drop-length_append, Text, text_eq_refl, pos,
}
use bitphase_file_share.Strconv.{digits_of, itoa, parse_digits, parse_unsigned, atoi, cut_suffix}

parse_digits-digits_of :
    (fuel n : ℕ) (rest : Text)
    → n < fuel
    → parse_digits 0 (digits_of fuel n ++ rest) ≡ parse_digits n rest
unfolding digits_of parse_digits
parse_digits-digits_of zero n rest h = absurd (omega arith)
parse_digits-digits_of (suc fuel) n rest h = ground (
  arith,
  append_assoc (digits_of fuel (n / 10)) ((b'0' + n % 10) ∷ []) rest,
  parse_digits-digits_of fuel (n / 10) ((b'0' + n % 10) ∷ rest),
)

-- The text of a number is not empty and begins with a digit.
digits_of-head :
    (fuel n : ℕ)
    → n < fuel
    → (c : ℕ) × (s : Text) × (digits_of fuel n ≡ c ∷ s) × (b'0' ≤ c) × (c ≤ b'9')
unfolding digits_of
digits_of-head zero n h = absurd (omega arith)
digits_of-head (suc fuel) n h = elim (Bool-cases (ltb n 10)) [
  | inl small ↦ rw small (b'0' + n, [], refl, omega arith, ground arith)
  | inr large ↦
      let (c, s, front, lo, hi) = digits_of-head fuel (n / 10) (ground arith) in
      rw (large, front) (c, s ++ (b'0' + n % 10) ∷ [], refl, lo, hi)
]

parse_unsigned-digits_of : (fuel n : ℕ) → n < fuel → parse_unsigned (digits_of fuel n) ≡ some n
unfolding parse_unsigned
parse_unsigned-digits_of fuel n h = ground (
  arith,
  digits_of-head fuel n h,
  parse_digits-digits_of fuel n [] h,
  append-nil (digits_of fuel n),
)

-- Atoi is the inverse of Itoa on every non-negative `int`.
pub atoi-itoa : (n : ℕ) → n < 2 ^ 63 → atoi (itoa (pos n)) ≡ some (pos n)
unfolding itoa atoi
atoi-itoa n h =
    ground (arith, digits_of-head (suc n) n (omega arith), parse_unsigned-digits_of (suc n) n)

-- CutSuffix takes off the suffix that was appended.
pub cut_suffix-append : (s suffix : Text) → cut_suffix (s ++ suffix) suffix ≡ some s
unfolding cut_suffix
cut_suffix-append s suffix =
    let e : length (s ++ suffix) - length suffix ≡ length s =
      omega (arith, length-append s suffix) in
    rw (e, drop-length_append s suffix, take-length_append s suffix, text_eq_refl suffix)
      (ground (arith, length-append s suffix))
