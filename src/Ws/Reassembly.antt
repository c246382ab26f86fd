-- ===== src/Ws/Reassembly.antt =====
-- A server puts a fragmented message together, and answers the pings in between.
use bitphase_file_share.Prelude.{
  ℕ, zero, suc, ◌+◌, ◌≤◌, ◌<◌, ◌≡◌, ◌≢◌, ◌⊎◌, refl, ◌∙◌, Bool, true, false, List, [], ◌∷◌, ◌++◌,
  append_assoc, Option, none, some, arith, ltb, ◌==◌, if◌then◌else◌, length, length-append, Text,
  All, ok,
}
use bitphase_file_share.Ws.Frame.{
  Frame, max_frame_size, frame_bytes, write_frame, op_ping, op_pong, op_close, op_text, op_binary,
}
use bitphase_file_share.Ws.RoundTrip.{IsByte, IsKey, fin_bit, read_frame-frame_bytes}
use bitphase_file_share.Ws.Message.{
  WsConn, send, send_frame, Received, first_opcode, finish, collect, on_frame, read_loop,
  read_message,
}

-- What a peer may send before the last frame of a message.
pub data Piece : Type 0 where
  fragment : ℕ → Text → Piece
  ping : Text → Piece
  pong : Text → Piece

abbrev pub payload_of : Piece → Text
payload_of (fragment op s) = s
payload_of (ping s) = s
payload_of (pong s) = s

abbrev pub piece_bytes : Option Text × Piece → Text
piece_bytes (key, fragment op s) = frame_bytes (fin_bit false) key op s
piece_bytes (key, ping s) = frame_bytes (fin_bit true) key op_ping s
piece_bytes (key, pong s) = frame_bytes (fin_bit true) key op_pong s

abbrev pub IsData : ℕ → Type 0
IsData op = (op < 16) × (op ≢ op_ping) × (op ≢ op_pong) × (op ≢ op_close)

abbrev pub IsOpcode : Piece → Type 0
IsOpcode (fragment op s) = IsData op
IsOpcode (ping s) = Unit
IsOpcode (pong s) = Unit

abbrev pub IsSent : Option Text → Text → Type 0
IsSent key s = IsKey key × All IsByte s × (length s ≤ max_frame_size)

abbrev pub IsPiece : Option Text × Piece → Type 0
IsPiece (key, p) = IsSent key (payload_of p) × IsOpcode p

abbrev pub stream : List (Option Text × Piece) → Text → Text
stream [] rest = rest
stream (p ∷ ps) rest = piece_bytes p ++ stream ps rest

abbrev pub joined : List (Option Text × Piece) → Text → Text
joined [] last = last
joined ((key, fragment op s) ∷ ps) last = s ++ joined ps last
joined ((key, ping s) ∷ ps) last = joined ps last
joined ((key, pong s) ∷ ps) last = joined ps last

abbrev pub opcode_of : Option ℕ → List (Option Text × Piece) → ℕ → ℕ
opcode_of first [] op = first_opcode first op
opcode_of first ((key, fragment o s) ∷ ps) op = opcode_of (some (first_opcode first o)) ps op
opcode_of first ((key, ping s) ∷ ps) op = opcode_of first ps op
opcode_of first ((key, pong s) ∷ ps) op = opcode_of first ps op

-- One pong for each ping, with its payload.
abbrev pub answers : Text → List (Option Text × Piece) → Text
answers out [] = out
answers out ((key, fragment o s) ∷ ps) = answers out ps
answers out ((key, ping s) ∷ ps) = answers (out ++ write_frame none op_pong s) ps
answers out ((key, pong s) ∷ ps) = answers out ps

abbrev pub server : Text → Text → WsConn
server input out = record { input = input; output = out; keys = none; write_error = none }

-- A data frame goes on to `collect`, and fits.
on_frame-data :
    (again : WsConn → Text → Option ℕ → Received) (limit : ℕ) (frame : Frame) (c : WsConn)
    (payload : Text) (first : Option ℕ)
    → IsData frame.opcode
    → length payload + length frame.payload ≤ limit
    → on_frame again limit frame c payload first ≡ (
        if frame.fin
        then some (finish (first_opcode first frame.opcode) (payload ++ frame.payload), c)
        else again c (payload ++ frame.payload) (some (first_opcode first frame.opcode)))
on_frame-data again limit frame c payload first (o, a, b, d) fits =
    let e₁ : (frame.opcode == op_ping) ≡ false = ground arith in
    let e₂ : (frame.opcode == op_pong) ≡ false = ground arith in
    let e₃ : (frame.opcode == op_close) ≡ false = ground arith in
    let e₄ : ltb limit (length payload + length frame.payload) ≡ false = ground arith in
    unfold on_frame collect in rw (e₁, e₂, e₃, e₄)

module _ (fuel limit : ℕ) (key : Option Text) (s rest out payload : Text) (first : Option ℕ)
    (sent : IsSent key s) where
  loop_data :
      (fin : Bool) (op : ℕ)
      → IsData op
      → length payload + length s ≤ limit
      → read_loop
          (suc fuel)
          limit
          (server (frame_bytes (fin_bit fin) key op s ++ rest) out)
          payload
          first
        ≡ (if fin
            then some (finish (first_opcode first op) (payload ++ s), server rest out)
            else read_loop fuel limit
                (server rest out)
                (payload ++ s)
                (some (first_opcode first op)))
  loop_data fin op d fits =
      unfold read_loop in
      rw (read_frame-frame_bytes fin key op s rest d.0 sent.0 sent.1 sent.2) (
        on_frame-data _ limit (record { fin = fin; opcode = op; payload = s }) (server rest out)
          payload first d fits)

  loop_ping :
      read_loop
        (suc fuel)
        limit
        (server (frame_bytes (fin_bit true) key op_ping s ++ rest) out)
        payload
        first
      ≡ read_loop fuel limit (server rest (out ++ write_frame none op_pong s)) payload first
  loop_ping =
      unfold read_loop in
      rw (read_frame-frame_bytes true key op_ping s rest (omega arith) sent.0 sent.1 sent.2)
        (unfold on_frame send_frame send in refl)

  loop_pong :
      read_loop
        (suc fuel)
        limit
        (server (frame_bytes (fin_bit true) key op_pong s ++ rest) out)
        payload
        first
      ≡ read_loop fuel limit (server rest out) payload first
  loop_pong =
      unfold read_loop in
      rw (read_frame-frame_bytes true key op_pong s rest (omega arith) sent.0 sent.1 sent.2)
        (unfold on_frame in refl)

length-joined :
    (ps : List (Option Text × Piece)) (last : Text) → length last ≤ length (joined ps last)
length-joined [] last = omega arith
length-joined ((key, fragment op s) ∷ ps) last =
    omega (arith, length-append s (joined ps last), length-joined ps last)
length-joined ((key, ping s) ∷ ps) last = length-joined ps last
length-joined ((key, pong s) ∷ ps) last = length-joined ps last

module _ (limit : ℕ) (key : Option Text) (op : ℕ) (last rest : Text) (d : IsData op)
    (sent : IsSent key last) where
  abbrev whole_stream : List (Option Text × Piece) → Text
  whole_stream ps = stream ps (frame_bytes (fin_bit true) key op last ++ rest)

  read_loop-stream :
      (fuel : ℕ) (ps : List (Option Text × Piece)) (out payload : Text) (first : Option ℕ)
      → All IsPiece ps
      → length ps < fuel
      → length payload + length (joined ps last) ≤ limit
      → read_loop fuel limit (server (whole_stream ps) out) payload first
        ≡ some (
          finish (opcode_of first ps op) (payload ++ joined ps last),
          server rest (answers out ps),
        )
  read_loop-stream zero ps out payload first ok_ps lt fits = absurd (omega arith)
  read_loop-stream (suc fuel) [] out payload first ok_ps lt fits =
      loop_data fuel limit key last rest out payload first sent true op d fits
  read_loop-stream (suc fuel) ((k, fragment o s) ∷ ps) out payload first ((sn, dn), ok_ps) lt fits =
      loop_data fuel limit k s (whole_stream ps) out payload first sn false o dn
        (omega (arith, length-append s (joined ps last)))
      ∙ read_loop-stream fuel ps out (payload ++ s) (some (first_opcode first o)) ok_ps
          (omega arith) (omega (arith, length-append s (joined ps last), length-append payload s))
      ∙ rw (append_assoc payload s (joined ps last))
  read_loop-stream (suc fuel) ((k, ping s) ∷ ps) out payload first ((sn, dn), ok_ps) lt fits =
      loop_ping fuel limit k s (whole_stream ps) out payload first sn
      ∙ read_loop-stream fuel ps (out ++ write_frame none op_pong s) payload first ok_ps
          (omega arith) fits
  read_loop-stream (suc fuel) ((k, pong s) ∷ ps) out payload first ((sn, dn), ok_ps) lt fits =
      loop_pong fuel limit k s (whole_stream ps) out payload first sn
      ∙ read_loop-stream fuel ps out payload first ok_ps (omega arith) fits

length-piece_bytes : (p : Option Text × Piece) → 1 ≤ length (piece_bytes p)
unfolding frame_bytes
length-piece_bytes (key, fragment op s) = omega arith
length-piece_bytes (key, ping s) = omega arith
length-piece_bytes (key, pong s) = omega arith

length-stream :
    (ps : List (Option Text × Piece)) (rest : Text)
    → length ps + length rest ≤ length (stream ps rest)
length-stream [] rest = omega arith
length-stream (p ∷ ps) rest = omega (
  arith,
  length-append (piece_bytes p) (stream ps rest),
  length-piece_bytes p,
  length-stream ps rest,
)

-- A server that is sent a message in fragments, masked or not, with pings and pongs in between, gets
-- the payloads joined under the first frame's opcode, has answered each ping with a pong, and has
-- read to the end of the last frame. The message must be text or binary, and within the limit.
pub read_message-stream :
    (limit : ℕ) (key : Option Text) (op : ℕ) (last rest out : Text)
    (ps : List (Option Text × Piece))
    → IsData op
    → IsSent key last
    → All IsPiece ps
    → length (joined ps last) ≤ limit
    → (opcode_of none ps op ≡ op_text) ⊎ (opcode_of none ps op ≡ op_binary)
    → read_message limit (server (stream ps (write_frame key op last ++ rest)) out)
      ≡ some (ok (joined ps last, opcode_of none ps op), server rest (answers out ps))
unfolding read_message write_frame
read_message-stream limit key op last rest out ps d sent ok_ps fits data_op =
    read_loop-stream limit key op last rest d sent (suc _) ps out [] none ok_ps
      (omega (arith, length-stream ps (frame_bytes 0x80 key op last ++ rest))) (omega arith)
    ∙ rw finished
  where
    finished :
        finish (opcode_of none ps op) (joined ps last) ≡ ok (joined ps last, opcode_of none ps op)
    finished = unfold finish in ground arith
