-- ===== src/Ws/Frame.antt =====
-- readFrame and writeFrame. The stream of a connection is the bytes not yet read.
use Prim.Native.Nat.{bit_and, bit_or, bit_xor}
use bitphase_file_share.Prelude.{
  ℕ, zero, suc, ◌*◌, ◌%◌, ◌^◌, Bool, true, false, not, [], ◌∷◌, ◌++◌, Option, none, some, ltb, leb,
  ◌==◌, if◌then◌else◌, length, take, drop, Text, bytes, Result, ok, err, ◌>>=◌,
}
use bitphase_file_share.Ws.Bits.{be_bytes, be_value}

abbrev pub max_frame_size : ℕ
max_frame_size = 6 * 2 ^ 20

abbrev pub op_continuation : ℕ
op_continuation = 0

abbrev pub op_text : ℕ
op_text = 1

abbrev pub op_binary : ℕ
op_binary = 2

abbrev pub op_close : ℕ
op_close = 8

abbrev pub op_ping : ℕ
op_ping = 9

abbrev pub op_pong : ℕ
op_pong = 10

pub record Frame : Type 0 where
  pub fin : Bool
  pub opcode : ℕ
  pub payload : Text

abbrev pub eof : Text
eof = bytes "EOF"

abbrev pub unexpected_eof : Text
unexpected_eof = bytes "unexpected EOF"

abbrev pub frame_too_large : Text
frame_too_large = bytes "frame too large"

abbrev pub short_read : Text → Text
short_read [] = eof
short_read (b ∷ s) = unexpected_eof

-- io.ReadFull into a buffer of `n` bytes
unfoldable pub read_full : ℕ → Text → Result (Text × Text)
read_full n input =
    if leb n (length input) then ok (take n input, drop n input) else err (short_read input)

abbrev pub byte_at : Text → ℕ → ℕ
byte_at [] i = 0
byte_at (b ∷ s) zero = b
byte_at (b ∷ s) (suc i) = byte_at s i

-- The extended lengths of 16 and 64 bits.
unfoldable pub read_length : ℕ → Text → Result (ℕ × Text)
read_length n rest =
    if n == 126
    then (do (ext, after) ← read_full 2 rest; ok (be_value 0 ext, after))
    else if n == 127
    then (do (ext, after) ← read_full 8 rest; ok (be_value 0 ext, after))
    else ok (n, rest)

-- An unmasked frame has no key.
unfoldable pub read_key : Bool → Text → Result (Text × Text)
read_key true rest = read_full 4 rest
read_key false rest = ok ([], rest)

-- payload[i] ^= maskKey[i%4], from the index `i` on
unfoldable pub xor_key : ℕ → Text → Text → Text
xor_key i key [] = []
xor_key i key (b ∷ s) = bit_xor b (byte_at key (i % 4)) ∷ xor_key (suc i) key s

abbrev pub unmask : Bool → Text → Text → Text
unmask true key s = xor_key 0 key s
unmask false key s = s

unfoldable pub read_body : Bool → ℕ → Bool → ℕ → Text → Result (Frame × Text)
read_body fin opcode masked n rest = if ltb max_frame_size n then err frame_too_large else do
  (key, rest') ← read_key masked rest
  (payload, after) ← read_full n rest'
  ok (record { fin = fin; opcode = opcode; payload = unmask masked key payload }, after)

abbrev pub has_top_bit : ℕ → Bool
has_top_bit b = not (bit_and b 0x80 == 0)

-- Returns the frame and the stream behind it.
unfoldable pub read_frame : Text → Result (Frame × Text)
read_frame input = do
  (header, rest) ← read_full 2 input
  (n, rest') ← read_length (bit_and (byte_at header 1) 0x7F) rest
  read_body (has_top_bit (byte_at header 0)) (bit_and (byte_at header 0) 0x0F)
      (has_top_bit (byte_at header 1)) n rest'

-- The bytes of a frame. A client masks with a key of four bytes, and a server with none.
abbrev pub mask_bit : Option Text → ℕ
mask_bit none = 0
mask_bit (some key) = 0x80

unfoldable pub length_bytes : ℕ → ℕ → Text
length_bytes bit n =
    if leb n 125
    then bit_or bit n ∷ []
    else if leb n 0xFFFF
    then bit_or bit 126 ∷ be_bytes 2 n
    else bit_or bit 127 ∷ be_bytes 8 n

abbrev pub masked_payload : Option Text → Text → Text
masked_payload none payload = payload
masked_payload (some key) payload = key ++ xor_key 0 key payload

unfoldable pub frame_bytes : ℕ → Option Text → ℕ → Text → Text
frame_bytes fin_bit key opcode payload =
    bit_or fin_bit opcode ∷ length_bytes (mask_bit key) (length payload)
    ++ masked_payload key payload

-- What writeFrame puts on the wire: one frame, with FIN set.
unfoldable pub write_frame : Option Text → ℕ → Text → Text
unfolding frame_bytes
write_frame key opcode payload = frame_bytes 0x80 key opcode payload
