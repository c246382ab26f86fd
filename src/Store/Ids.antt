-- ===== src/Store/Ids.antt =====
-- What validTransferID accepts.
use bitphase_file_share.Prelude.{
  ℕ, ◌≤◌, ◌≡◌, ◌↔◌, ◌⊎◌, refl, true, [], ◌∷◌, arith, length, Text, All,
}
use bitphase_file_share.Store.Meta.{all_id_chars, valid_transfer_id}

-- A letter, a digit, a hyphen or an underscore.
abbrev pub IsIdChar : ℕ → Type 0
IsIdChar c =
    ((b'A' ≤ c) × (c ≤ b'Z'))
    ⊎ ((b'a' ≤ c) × (c ≤ b'z'))
    ⊎ ((b'0' ≤ c) × (c ≤ b'9'))
    ⊎ (c ≡ b'_')
    ⊎ (c ≡ b'-')

all_id_chars_iff : (s : Text) → (all_id_chars s ≡ true) ↔ All IsIdChar s
unfolding all_id_chars
all_id_chars_iff [] = (λ h. tt, λ h. refl)
all_id_chars_iff (c ∷ s) = ground (arith, all_id_chars_iff s)

-- Exactly the texts of 1 to 128 letters, digits, hyphens and underscores are accepted.
pub valid_transfer_id_iff :
    (id : Text)
    → (valid_transfer_id id ≡ true) ↔ ((1 ≤ length id) × (length id ≤ 128) × All IsIdChar id)
unfolding valid_transfer_id
valid_transfer_id_iff id = ground (arith, all_id_chars_iff id)
