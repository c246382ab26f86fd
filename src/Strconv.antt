-- ===== src/Strconv.antt =====
-- What store.go uses of the standard library's strconv and strings: Itoa, Atoi and CutSuffix.
pub mod Decimal
use bitphase_file_share.Prelude.{
  ℕ, zero, suc, ◌+◌, ◌-◌, ◌*◌, ◌/◌, ◌%◌, ◌^◌, Bool, ◌&&◌, List, [], ◌∷◌, ◌++◌, Option, none, some,
  ltb, leb, ◌==◌, if◌then◌else◌, length, take, drop, Text, text_eq, ℤ, pos, negsuc,
}

-- The decimal digits of `n`, by as many divisions as it has digits: `n + 1` rounds are enough.
unfoldable pub digits_of : ℕ → ℕ → Text
digits_of zero n = []
digits_of (suc fuel) n =
    let front = digits_of fuel (n / 10) in
    if ltb n 10 then (b'0' + n) ∷ [] else front ++ (b'0' + n % 10) ∷ []

unfoldable pub itoa : ℤ → Text
unfolding digits_of
itoa (pos n) = digits_of (suc n) n
itoa (negsuc n) = b'-' ∷ digits_of (suc (suc n)) (suc n)

abbrev pub is_digit : ℕ → Bool
is_digit c = leb b'0' c && leb c b'9'

unfoldable pub parse_digits : ℕ → Text → Option ℕ
parse_digits acc [] = some acc
parse_digits acc (c ∷ s) =
    let rest = parse_digits (acc * 10 + (c - b'0')) s in if is_digit c then rest else none

unfoldable pub parse_unsigned : Text → Option ℕ
unfolding parse_digits
parse_unsigned [] = none
parse_unsigned (c ∷ s) = parse_digits 0 (c ∷ s)

-- The magnitude must fit Go's 64-bit `int`.
abbrev pub to_positive : Option ℕ → Option ℤ
to_positive none = none
to_positive (some n) = if ltb n (2 ^ 63) then some (pos n) else none

abbrev pub to_negative : Option ℕ → Option ℤ
to_negative none = none
to_negative (some zero) = some (pos 0)
to_negative (some (suc n)) = if ltb n (2 ^ 63) then some (negsuc n) else none

-- `none` is a syntax or a range error; the callers do not tell them apart.
unfoldable pub atoi : Text → Option ℤ
unfolding parse_unsigned
atoi [] = none
atoi (c ∷ s) =
    if c == b'-'
    then to_negative (parse_unsigned s)
    else if c == b'+'
    then to_positive (parse_unsigned s)
    else to_positive (parse_unsigned (c ∷ s))

-- strings.CutSuffix; `none` is its `false`.
unfoldable pub cut_suffix : Text → Text → Option Text
unfolding text_eq
cut_suffix s suffix =
    let n = length s - length suffix in
    if leb (length suffix) (length s) && text_eq (drop n s) suffix then some (take n s) else none
