-- ===== src/Ws/Message.antt =====
-- ReadMessage, WriteMessage, WriteBinary and Close on a connection.
use bitphase_file_share.Prelude.{
  ℕ, zero, suc, ◌+◌, ◌||◌, List, [], ◌∷◌, ◌++◌, Option, none, some, ltb, ◌==◌, if◌then◌else◌,
  length, take, Text, bytes, Result, ok, err,
}
use bitphase_file_share.Ws.Frame.{
  Frame, read_frame, write_frame, eof, op_text, op_binary, op_close, op_ping, op_pong,
}

-- `input` is what the peer sent and was not read yet, `output` what was written. `keys` is none for a
-- server, which never masks, and the random keys to come for a client. A write fails if
-- `write_error` says so; the callers then drop the connection.
pub record WsConn : Type 0 where
  pub input : Text
  pub output : Text
  pub keys : Option (List Text)
  pub write_error : Option Text

abbrev pub Sent : Type 0
Sent = Result (Unit {0}) × WsConn

abbrev pub no_random : Text
no_random = bytes "unexpected EOF"

unfoldable pub send : Text → WsConn → Sent
send b c = elim c.write_error [
  | some e ↦ (err e, c)
  | none ↦ (ok tt, record c { output = c.output ++ b })
]

abbrev pub send_with : ℕ → Text → WsConn → Option (List Text) → Sent
send_with opcode payload c none = send (write_frame none opcode payload) c
send_with opcode payload c (some []) = (err no_random, c)
send_with opcode payload c (some (key ∷ keys)) =
    send (write_frame (some key) opcode payload) (record c { keys = some keys })

-- writeFrame
unfoldable pub send_frame : ℕ → Text → WsConn → Sent
send_frame opcode payload c = send_with opcode payload c c.keys

unfoldable pub write_message : Text → WsConn → Sent
unfolding send_frame send
write_message payload c = send_frame op_text payload c

unfoldable pub write_binary : Text → WsConn → Sent
unfolding send_frame send
write_binary payload c = send_frame op_binary payload c

-- A complete message, or the error that ends the connection; `none` would mean that the fuel of the
-- loop ran out.
abbrev pub Received : Type 0
Received = Option (Result (Text × ℕ) × WsConn)

abbrev pub message_too_large : Text
message_too_large = bytes "message too large"

abbrev pub unsupported_opcode : Text
unsupported_opcode = bytes "unsupported opcode"

abbrev pub first_opcode : Option ℕ → ℕ → ℕ
first_opcode none opcode = opcode
first_opcode (some first) opcode = first

unfoldable pub finish : ℕ → Text → Result (Text × ℕ)
finish first payload =
    if first == op_text || first == op_binary then ok (payload, first) else err unsupported_opcode

abbrev pub Loop : Type 0
Loop = WsConn → Text → Option ℕ → Received

-- A frame that is no control frame; `again` is the rest of the loop.
unfoldable pub collect : Loop → ℕ → Frame → WsConn → Text → Option ℕ → Received
collect again limit frame c payload first =
    let opcode = first_opcode first frame.opcode in
    let whole = payload ++ frame.payload in
    if ltb limit (length payload + length frame.payload)
    then some (err message_too_large, c)
    else if frame.fin
    then some (finish opcode whole, c)
    else again c whole (some opcode)

abbrev pub after_pong : Loop → Text → Option ℕ → Sent → Received
after_pong again payload first (err e, c) = some (err e, c)
after_pong again payload first (ok _, c) = again c payload first

-- A ping is answered, a pong is passed over, and a close ends the connection.
unfoldable pub on_frame : Loop → ℕ → Frame → WsConn → Text → Option ℕ → Received
on_frame again limit frame c payload first =
    if frame.opcode == op_ping
    then after_pong again payload first (send_frame op_pong frame.payload c)
    else if frame.opcode == op_pong
    then again c payload first
    else if frame.opcode == op_close
    then some (err eof, c)
    else collect again limit frame c payload first

abbrev pub on_read : Loop → ℕ → WsConn → Text → Option ℕ → Result (Frame × Text) → Received
on_read again limit c payload first (err e) = some (err e, c)
on_read again limit c payload first (ok (frame, rest)) =
    on_frame again limit frame (record c { input = rest }) payload first

unfoldable pub read_loop : ℕ → ℕ → Loop
read_loop zero limit c payload first = none
read_loop (suc fuel) limit c payload first =
    on_read (read_loop fuel limit) limit c payload first (read_frame c.input)

-- `limit` is the package variable maxMessageSize. Every round reads at least two bytes.
unfoldable pub read_message : ℕ → WsConn → Received
read_message limit c = read_loop (suc (length c.input)) limit c [] none

-- The result of ReadMessage; that the fuel lasts is a theorem, so the first clause is never used.
abbrev pub received : WsConn → Received → Result (Text × ℕ) × WsConn
received c none = (err (bytes "out of fuel"), c)
received c (some r) = r

unfoldable pub receive : ℕ → WsConn → Result (Text × ℕ) × WsConn
unfolding read_message
receive limit c = received c (read_message limit c)

-- Close: an error of the last frame is dropped. Nothing is written any more, and of the peer's bytes
-- only those in the reader's buffer can still be read, of which there are `buffered`.
abbrev pub closed : Text
closed = bytes "use of closed network connection"

unfoldable pub close : ℕ → WsConn → WsConn
unfolding send_frame send
close buffered c = record (send_frame op_close [] c).1 {
  input = take buffered c.input;
  write_error = some closed;
}
