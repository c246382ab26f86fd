-- ===== src/Ws/Bits.antt =====
-- Masks on one byte, each checked for every byte, and big-endian numbers (encoding/binary).
use Prim.Native.Nat.{bit_and, bit_or, bit_xor}
use native.Mathlib.Nat.{pow-suc}
use bitphase_file_share.Prelude.{
  ℕ, zero, suc, ◌+◌, ◌*◌, ◌/◌, ◌%◌, ◌^◌, ◌<◌, ◌≡◌, refl, Bool, true, false, [], ◌∷◌, ◌++◌, arith,
  ◌==◌, ==_iff, if◌then◌else◌, length, length-append, Text,
}

-- `test` holds of every number below the bound.
holds_below : (ℕ → Bool) → ℕ → Bool
holds_below test zero = true
holds_below test (suc top) = if test top then holds_below test top else false

holds_below_sound :
    (test : ℕ → Bool) (top b : ℕ) → holds_below test top ≡ true → b < top → test b ≡ true
unfolding holds_below
holds_below_sound test zero b all small = absurd (omega (arith, small))
holds_below_sound test (suc top) b all small =
    ground (arith, all, small, holds_below_sound test top b)

module _ (f g : ℕ → ℕ) (n : ℕ) where
  agree : holds_below (λ x. f x == g x) n ≡ true → (x : ℕ) → x < n → f x ≡ g x
  agree h x lt = (==_iff (f x) (g x)).0 (holds_below_sound (λ y. f y == g y) n x h lt)

-- The opcode and the FIN bit share a byte.
pub opcode_of_fin : (op : ℕ) → op < 16 → bit_and (bit_or 0x80 op) 0x0F ≡ op
unfolding holds_below
opcode_of_fin = agree (λ op. bit_and (bit_or 0x80 op) 0x0F) (λ op. op) 16 refl

pub fin_of_fin : (op : ℕ) → op < 16 → bit_and (bit_or 0x80 op) 0x80 ≡ 0x80
unfolding holds_below
fin_of_fin = agree (λ op. bit_and (bit_or 0x80 op) 0x80) (λ op. 0x80) 16 refl

pub opcode_of_more : (op : ℕ) → op < 16 → bit_and (bit_or 0 op) 0x0F ≡ op
unfolding holds_below
opcode_of_more = agree (λ op. bit_and (bit_or 0 op) 0x0F) (λ op. op) 16 refl

pub fin_of_more : (op : ℕ) → op < 16 → bit_and (bit_or 0 op) 0x80 ≡ 0
unfolding holds_below
fin_of_more = agree (λ op. bit_and (bit_or 0 op) 0x80) (λ op. 0) 16 refl

-- The length and the mask bit share a byte.
pub length_of_masked : (n : ℕ) → n < 128 → bit_and (bit_or 0x80 n) 0x7F ≡ n
unfolding holds_below
length_of_masked = agree (λ n. bit_and (bit_or 0x80 n) 0x7F) (λ n. n) 128 refl

pub mask_of_masked : (n : ℕ) → n < 128 → bit_and (bit_or 0x80 n) 0x80 ≡ 0x80
unfolding holds_below
mask_of_masked = agree (λ n. bit_and (bit_or 0x80 n) 0x80) (λ n. 0x80) 128 refl

pub length_of_plain : (n : ℕ) → n < 128 → bit_and (bit_or 0 n) 0x7F ≡ n
unfolding holds_below
length_of_plain = agree (λ n. bit_and (bit_or 0 n) 0x7F) (λ n. n) 128 refl

pub mask_of_plain : (n : ℕ) → n < 128 → bit_and (bit_or 0 n) 0x80 ≡ 0
unfolding holds_below
mask_of_plain = agree (λ n. bit_and (bit_or 0 n) 0x80) (λ n. 0) 128 refl

xor_row : ℕ → ℕ → Bool
xor_row k b = bit_xor (bit_xor b k) k == b

xor_table : holds_below (λ k. holds_below (xor_row k) 256) 256 ≡ true
unfolding holds_below xor_row
xor_table = refl

-- Masking a byte twice with one key gives it back.
pub xor_twice : (b k : ℕ) → b < 256 → k < 256 → bit_xor (bit_xor b k) k ≡ b
unfolding xor_row
xor_twice b k hb hk =
    let row = holds_below_sound (λ y. holds_below (xor_row y) 256) 256 k xor_table hk in
    (==_iff (bit_xor (bit_xor b k) k) b).0 (holds_below_sound (xor_row k) 256 b row hb)

-- The `k` lowest bytes of `n`, highest first.
unfoldable pub be_bytes : ℕ → ℕ → Text
be_bytes zero n = []
be_bytes (suc k) n = be_bytes k (n / 256) ++ (n % 256) ∷ []

unfoldable pub be_value : ℕ → Text → ℕ
be_value acc [] = acc
be_value acc (b ∷ s) = be_value (acc * 256 + b) s

pub length-be_bytes : (k n : ℕ) → length (be_bytes k n) ≡ k
unfolding be_bytes
length-be_bytes zero n = refl
length-be_bytes (suc k) n =
    omega
      (arith, length-append (be_bytes k (n / 256)) ((n % 256) ∷ []), length-be_bytes k (n / 256))

be_value-append : (acc : ℕ) (s t : Text) → be_value acc (s ++ t) ≡ be_value (be_value acc s) t
unfolding be_value
be_value-append acc [] t = refl
be_value-append acc (b ∷ s) t = be_value-append (acc * 256 + b) s t

pub be_value-be_bytes : (k n : ℕ) → n < 256 ^ k → be_value 0 (be_bytes k n) ≡ n
unfolding be_bytes be_value
be_value-be_bytes zero n h = omega arith
be_value-be_bytes (suc k) n h = omega (
  arith,
  be_value-append 0 (be_bytes k (n / 256)) ((n % 256) ∷ []),
  be_value-be_bytes k (n / 256) (omega (arith, pow-suc 256 k)),
)
