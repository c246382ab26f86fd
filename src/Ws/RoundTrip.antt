-- ===== src/Ws/RoundTrip.antt =====
-- readFrame reads back what writeFrame wrote, for a client and for a server.
use Prim.Native.Nat.{bit_and, bit_or}
use bitphase_file_share.Prelude.{
  ℕ, zero, suc, ◌%◌, ◌^◌, ◌≤◌, ◌<◌, ◌≡◌, refl, ap, inl, inr, Bool, true, false, Bool-cases, [], ◌∷◌,
  ◌++◌, Option, none, some, arith, ltb, leb, length, length-append, take-length_append,
  drop-length_append, append_assoc, All, Text, ok,
}
use bitphase_file_share.Ws.Bits.{
  be_bytes, length-be_bytes, be_value-be_bytes, opcode_of_fin, fin_of_fin, opcode_of_more,
  fin_of_more, length_of_masked, mask_of_masked, length_of_plain, mask_of_plain, xor_twice,
}
use bitphase_file_share.Ws.Frame.{
  max_frame_size, read_full, byte_at, read_length, read_key, xor_key, read_body, has_top_bit,
  read_frame, mask_bit, length_bytes, masked_payload, frame_bytes,
}

abbrev pub IsByte : ℕ → Type 0
IsByte b = b < 256

-- Four bytes.
abbrev pub IsKey : Option Text → Type 0
IsKey none = Unit
IsKey (some key) = (length key ≡ 4) × All IsByte key

pub read_full-append :
    (n : ℕ) (s rest : Text) → length s ≡ n → read_full n (s ++ rest) ≡ ok (s, rest)
unfolding read_full
read_full-append n s rest e = rw (← e) (
    rw (take-length_append s rest, drop-length_append s rest)
      (ground (arith, length-append s rest)))

byte_at-IsByte : (key : Text) (i : ℕ) → All IsByte key → byte_at key i < 256
byte_at-IsByte [] i h = omega arith
byte_at-IsByte (b ∷ s) zero h = h.0
byte_at-IsByte (b ∷ s) (suc i) h = byte_at-IsByte s i h.1

-- Masking twice from the same index with the same key is the identity.
xor_key-xor_key :
    (i : ℕ) (key s : Text) → All IsByte key → All IsByte s → xor_key i key (xor_key i key s) ≡ s
unfolding xor_key
xor_key-xor_key i key [] k h = refl
xor_key-xor_key i key (b ∷ s) k (hb, h) = cc (
  xor_twice b (byte_at key (i % 4)) hb (byte_at-IsByte key (i % 4) k),
  xor_key-xor_key (suc i) key s k h,
)

pub length-xor_key : (i : ℕ) (key s : Text) → length (xor_key i key s) ≡ length s
unfolding xor_key
length-xor_key i key [] = refl
length-xor_key i key (b ∷ s) = ap suc (length-xor_key (suc i) key s)

-- The mask bit of the length's byte.
is_masked : Option Text → Bool
is_masked none = false
is_masked (some key) = true

mask_bit_cases :
    (key : Option Text) (n : ℕ)
    → n < 128
    → (bit_and (bit_or (mask_bit key) n) 0x7F ≡ n)
      × (has_top_bit (bit_or (mask_bit key) n) ≡ is_masked key)
unfolding is_masked
mask_bit_cases none n h = (length_of_plain n h, rw (mask_of_plain n h))
mask_bit_cases (some key) n h = (length_of_masked n h, rw (mask_of_masked n h))

read_length-two :
    (n : ℕ) (rest : Text) → n < 2 ^ 16 → read_length 126 (be_bytes 2 n ++ rest) ≡ ok (n, rest)
unfolding read_length
read_length-two n rest h = rw (
  read_full-append 2 (be_bytes 2 n) rest (length-be_bytes 2 n),
  be_value-be_bytes 2 n (omega arith),
)

read_length-eight :
    (n : ℕ) (rest : Text) → n < 2 ^ 64 → read_length 127 (be_bytes 8 n ++ rest) ≡ ok (n, rest)
unfolding read_length
read_length-eight n rest h = rw (
  read_full-append 8 (be_bytes 8 n) rest (length-be_bytes 8 n),
  be_value-be_bytes 8 n (omega arith),
)

-- The length is read back in each of its three forms.
read_length-length_bytes :
    (key : Option Text) (n : ℕ) (rest : Text)
    → n ≤ max_frame_size
    → (first : ℕ) × (ext : Text) × (length_bytes (mask_bit key) n ≡ first ∷ ext)
      × (read_length (bit_and first 0x7F) (ext ++ rest) ≡ ok (n, rest))
      × (has_top_bit first ≡ is_masked key)
unfolding length_bytes
read_length-length_bytes key n rest h = elim (Bool-cases (leb n 125)) [
  | inl small ↦
      let (low, top) = mask_bit_cases key n (ground arith) in
      (bit_or (mask_bit key) n, [], rw small, rw low (unfold read_length in ground arith), top)
  | inr large ↦ elim (Bool-cases (leb n 0xFFFF)) [
    | inl medium ↦
        let (low, top) = mask_bit_cases key 126 (omega arith) in
        (
          bit_or (mask_bit key) 126,
          be_bytes 2 n,
          rw (large, medium),
          rw low (read_length-two n rest (ground arith)),
          top,
        )
    | inr huge ↦
        let (low, top) = mask_bit_cases key 127 (omega arith) in
        (
          bit_or (mask_bit key) 127,
          be_bytes 8 n,
          rw (large, huge),
          rw low (read_length-eight n rest (omega arith)),
          top,
        )
  ]
]

fits : (n : ℕ) → n ≤ max_frame_size → ltb max_frame_size n ≡ false
fits n h = ground arith

read_body-masked_payload :
    (fin : Bool) (op : ℕ) (key : Option Text) (payload rest : Text)
    → IsKey key
    → All IsByte payload
    → length payload ≤ max_frame_size
    → read_body fin op (is_masked key) (length payload) (masked_payload key payload ++ rest)
      ≡ ok (record { fin = fin; opcode = op; payload = payload }, rest)
unfolding read_body read_key is_masked
read_body-masked_payload fin op none payload rest k b h =
    rw (fits (length payload) h, read_full-append (length payload) payload rest refl)
read_body-masked_payload fin op (some key) payload rest (four, kb) b h = rw (
  fits (length payload) h,
  append_assoc key (xor_key 0 key payload) rest,
  read_full-append 4 key (xor_key 0 key payload ++ rest) four,
  read_full-append (length payload) (xor_key 0 key payload) rest (length-xor_key 0 key payload),
  xor_key-xor_key 0 key payload kb b,
)

abbrev pub fin_bit : Bool → ℕ
fin_bit true = 0x80
fin_bit false = 0

fin_cases :
    (fin : Bool) (op : ℕ)
    → op < 16
    → (bit_and (bit_or (fin_bit fin) op) 0x0F ≡ op) × (has_top_bit (bit_or (fin_bit fin) op) ≡ fin)
fin_cases true op h = (opcode_of_fin op h, rw (fin_of_fin op h))
fin_cases false op h = (opcode_of_more op h, rw (fin_of_more op h))

-- One frame, final or not, masked or not, is read back exactly, and what follows it is left.
pub read_frame-frame_bytes :
    (fin : Bool) (key : Option Text) (op : ℕ) (payload rest : Text)
    → op < 16
    → IsKey key
    → All IsByte payload
    → length payload ≤ max_frame_size
    → read_frame (frame_bytes (fin_bit fin) key op payload ++ rest)
      ≡ ok (record { fin = fin; opcode = op; payload = payload }, rest)
unfolding read_frame frame_bytes
read_frame-frame_bytes fin key op payload rest o k b h =
    let body = masked_payload key payload in
    let (first, ext, shape, back, top) =
      read_length-length_bytes key (length payload) (body ++ rest) h in
    let (code, last) = fin_cases fin op o in
    rw (shape, append_assoc ext body rest)
      (rw (read_full-append 2 (bit_or (fin_bit fin) op ∷ first ∷ []) (ext ++ (body ++ rest)) refl)
        (rw back (rw (code, last, top) (read_body-masked_payload fin op key payload rest k b h))))
