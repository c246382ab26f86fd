-- ===== src/Ws/Examples.antt =====
-- The theorems on the framing at concrete streams.
use bitphase_file_share.Prelude.{
  ◌≡◌, refl, inl, true, List, [], ◌∷◌, ◌++◌, Option, none, some, arith, All, Text, ok,
}
use bitphase_file_share.Ws.Frame.{read_frame, frame_bytes, write_frame, op_continuation, op_text}
use bitphase_file_share.Ws.RoundTrip.{fin_bit, read_frame-frame_bytes}
use bitphase_file_share.Ws.Message.{read_message}
use bitphase_file_share.Ws.Total.{Ends, read_message-Ends}
use bitphase_file_share.Ws.Reassembly.{
  Piece, fragment, ping, IsPiece, IsSent, IsData, server, stream, joined, answers, opcode_of,
  read_message-stream,
}

abbrev mask : Option Text
mask = some (1 ∷ 2 ∷ 3 ∷ 254 ∷ [])

abbrev hello : Text
hello = 104 ∷ 101 ∷ 108 ∷ 108 ∷ 111 ∷ []

IsSent-hello : IsSent mask hello
IsSent-hello = ((refl, ground arith), ground arith, omega arith)

read_frame-frame_bytes_example :
    read_frame (frame_bytes (fin_bit true) mask op_text hello ++ (7 ∷ []))
    ≡ ok (record { fin = true; opcode = op_text; payload = hello }, 7 ∷ [])
read_frame-frame_bytes_example =
    read_frame-frame_bytes true mask op_text hello (7 ∷ []) (omega arith) IsSent-hello.0
      IsSent-hello.1 IsSent-hello.2

-- A fragment and a ping.
abbrev pieces : List (Option Text × Piece)
pieces = (mask, fragment op_text hello) ∷ (mask, ping hello) ∷ []

read_message-Ends_example : Ends 4 (read_message 4 (server (stream pieces []) []))
read_message-Ends_example = read_message-Ends 4 (server (stream pieces []) [])

IsData-op_text : IsData op_text
IsData-op_text = (omega arith, ground arith, ground arith, ground arith)

IsData-op_continuation : IsData op_continuation
IsData-op_continuation = (omega arith, ground arith, ground arith, ground arith)

sent_pieces : All IsPiece pieces
sent_pieces = ((IsSent-hello, IsData-op_text), ((IsSent-hello, tt), tt))

read_message-stream_example :
    read_message 10 (server (stream pieces (write_frame mask op_continuation hello ++ (9 ∷ []))) [])
    ≡ some (
      ok (joined pieces hello, opcode_of none pieces op_continuation),
      server (9 ∷ []) (answers [] pieces),
    )
read_message-stream_example =
    read_message-stream 10 mask op_continuation hello (9 ∷ []) [] pieces IsData-op_continuation
      IsSent-hello sent_pieces (omega arith) (inl refl)
