-- ===== src/Base64.antt =====
-- base64.RawURLEncoding, as genRandomToken in server.go uses it.
pub mod Alphabet
use bitphase_file_share.Prelude.{
  ℕ, ◌+◌, ◌-◌, ◌*◌, ◌/◌, ◌%◌, List, [], ◌∷◌, ltb, ◌==◌, if◌then◌else◌, Text,
}

abbrev pub digit : ℕ → ℕ
digit d =
    if ltb d 26
    then b'A' + d
    else if ltb d 52
    then b'a' + (d - 26)
    else if ltb d 62
    then b'0' + (d - 52)
    else if d == 62
    then b'-'
    else b'_'

-- No padding: one byte left over makes two digits, and two make three.
unfoldable pub encode_url : Text → Text
encode_url [] = []
encode_url (a ∷ []) = digit (a / 4) ∷ digit (a % 4 * 16) ∷ []
encode_url (a ∷ b ∷ []) = digit (a / 4) ∷ digit (a % 4 * 16 + b / 16) ∷ digit (b % 16 * 4) ∷ []
encode_url (a ∷ b ∷ c ∷ s) =
    digit (a / 4)
    ∷ digit (a % 4 * 16 + b / 16)
    ∷ digit (b % 16 * 4 + c / 64)
    ∷ digit (c % 64)
    ∷ encode_url s
