-- ===== src/Base64/Alphabet.antt =====
-- What is encoded is made of the characters of a transfer identifier, and tells the bytes apart.
use bitphase_file_share.Prelude.{
  ℕ, ◌+◌, ◌*◌, ◌/◌, ◌%◌, ◌≤◌, ◌<◌, ◌≡◌, refl, true, [], ◌∷◌, arith, length, Text,
}
use bitphase_file_share.Base64.{digit, encode_url}
use bitphase_file_share.Store.Meta.{is_id_char, all_id_chars, valid_transfer_id}

is_id_char-digit : (d : ℕ) → is_id_char (digit d) ≡ true
is_id_char-digit d = ground arith

digit-injective : (d e : ℕ) → d < 64 → e < 64 → digit d ≡ digit e → d ≡ e
digit-injective d e hd he h = ground arith

pub all_id_chars-encode_url : (s : Text) → all_id_chars (encode_url s) ≡ true
unfolding all_id_chars encode_url
all_id_chars-encode_url [] = refl
all_id_chars-encode_url (a ∷ []) = rw (is_id_char-digit (a / 4), is_id_char-digit (a % 4 * 16))
all_id_chars-encode_url (a ∷ b ∷ []) = rw (
  is_id_char-digit (a / 4),
  is_id_char-digit (a % 4 * 16 + b / 16),
  is_id_char-digit (b % 16 * 4),
)
all_id_chars-encode_url (a ∷ b ∷ c ∷ s) =
    rw
      (
        is_id_char-digit (a / 4),
        is_id_char-digit (a % 4 * 16 + b / 16),
        is_id_char-digit (b % 16 * 4 + c / 64),
        is_id_char-digit (c % 64),
      )
      (all_id_chars-encode_url s)

pub length-encode_url : (s : Text) → length (encode_url s) ≡ (length s * 4 + 2) / 3
unfolding encode_url
length-encode_url [] = refl
length-encode_url (a ∷ []) = refl
length-encode_url (a ∷ b ∷ []) = refl
length-encode_url (a ∷ b ∷ c ∷ s) = omega (arith, length-encode_url s)

-- Up to 96 random bytes make a valid identifier.
pub valid_transfer_id-encode_url :
    (s : Text) → 1 ≤ length s → length s ≤ 96 → valid_transfer_id (encode_url s) ≡ true
unfolding valid_transfer_id
valid_transfer_id-encode_url s one most =
    ground (arith, length-encode_url s, all_id_chars-encode_url s)
