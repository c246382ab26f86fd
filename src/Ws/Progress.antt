-- ===== src/Ws/Progress.antt =====
-- ReadMessage takes bytes off the stream: fewer are left after a message than before it.
use bitphase_file_share.Prelude.{
  ℕ, zero, suc, ◌+◌, ◌≤◌, ◌<◌, ◌≡◌, refl, ap, Bool-cases, Result-cases, inl, inr, [], ◌++◌, Option,
  none, some, arith, ltb, ◌==◌, length, Text, Result, ok, err,
}
use bitphase_file_share.Ws.Frame.{Frame, read_frame, op_ping, op_pong, op_close}
use bitphase_file_share.Ws.Message.{
  WsConn, Sent, send_frame, Received, Loop, first_opcode, collect, after_pong, on_frame, read_loop,
  read_message, received, receive,
}
use bitphase_file_share.Ws.Total.{read_frame-ok, input-send_with}

-- At most `bound` bytes are left.
abbrev pub IsWithin : ℕ → Received → Type 0
IsWithin bound none = ⊥
IsWithin bound (some (r, c)) = length c.input ≤ bound

IsWithin-le : (a b : ℕ) (r : Received) → a ≤ b → IsWithin a r → IsWithin b r
IsWithin-le a b none le h = h
IsWithin-le a b (some (r, c)) le h = omega (arith, le, h)

module _ (limit bound : ℕ) (again : Loop)
    (within : (c : WsConn) (payload : Text) (first : Option ℕ)
      → length c.input ≤ bound
      → IsWithin bound (again c payload first)) where
  collect-IsWithin :
      (frame : Frame) (c : WsConn) (payload : Text) (first : Option ℕ)
      → length c.input ≤ bound
      → IsWithin bound (collect again limit frame c payload first)
  unfolding collect
  collect-IsWithin frame c payload first h =
      elim (Bool-cases (ltb limit (length payload + length frame.payload))) [
        | inl large ↦ rw large h
        | inr small ↦ elim (Bool-cases frame.fin) [
          | inl last ↦ rw (small, last) h
          | inr more ↦
              rw (small, more)
                (within c (payload ++ frame.payload) (some (first_opcode first frame.opcode)) h)
        ]
      ]

  after_pong-IsWithin :
      (payload : Text) (first : Option ℕ) (sent : Sent)
      → length sent.1.input ≤ bound
      → IsWithin bound (after_pong again payload first sent)
  after_pong-IsWithin payload first (err e, c) h = h
  after_pong-IsWithin payload first (ok _, c) h = within c payload first h

  on_frame-IsWithin :
      (frame : Frame) (c : WsConn) (payload : Text) (first : Option ℕ)
      → length c.input ≤ bound
      → IsWithin bound (on_frame again limit frame c payload first)
  unfolding on_frame send_frame
  on_frame-IsWithin frame c payload first h = elim (Bool-cases (frame.opcode == op_ping)) [
    | inl ping ↦ rw ping (
        after_pong-IsWithin payload first _ (
          omega
            (arith, ap (λ (t : Text). length t) (input-send_with op_pong frame.payload c c.keys))))
    | inr a ↦ elim (Bool-cases (frame.opcode == op_pong)) [
      | inl pong ↦ rw (a, pong) (within c payload first h)
      | inr b ↦ elim (Bool-cases (frame.opcode == op_close)) [
        | inl close ↦ rw (a, b, close) h
        | inr d ↦ rw (a, b, d) (collect-IsWithin frame c payload first h)
      ]
    ]
  ]

-- Within the bound after an error, and below it after a message.
abbrev pub IsProgress : ℕ → Received → Type 0
IsProgress bound none = ⊥
IsProgress bound (some (err e, c)) = length c.input ≤ bound
IsProgress bound (some (ok p, c)) = length c.input < bound

IsProgress-of_within : (a b : ℕ) (r : Received) → a < b → IsWithin a r → IsProgress b r
IsProgress-of_within a b none lt h = h
IsProgress-of_within a b (some (err e, c)) lt h = omega (arith, lt, h)
IsProgress-of_within a b (some (ok p, c)) lt h = omega (arith, lt, h)

IsWithin-of_progress : (b : ℕ) (r : Received) → IsProgress b r → IsWithin b r
IsWithin-of_progress b none h = h
IsWithin-of_progress b (some (err e, c)) h = h
IsWithin-of_progress b (some (ok p, c)) h = omega (arith, h)

read_loop-IsProgress :
    (fuel limit : ℕ) (c : WsConn) (payload : Text) (first : Option ℕ)
    → length c.input < fuel
    → IsProgress (length c.input) (read_loop fuel limit c payload first)
unfolding read_loop
read_loop-IsProgress zero limit c payload first h = absurd (omega (arith, h))
read_loop-IsProgress (suc fuel) limit c payload first h = elim (Result-cases (read_frame c.input)) [
  | inr (e, failed) ↦ rw failed (omega arith)
  | inl ((frame, rest), read) ↦
      let took = (read_frame-ok c.input frame rest read).0 in
      rw read (
        IsProgress-of_within (length rest) (length c.input) _ (omega (arith, took)) (
          on_frame-IsWithin limit (length rest) (read_loop fuel limit)
            (λ c' p f le. IsWithin-le (length c'.input) (length rest) _ le (
              IsWithin-of_progress (length c'.input) _
                (read_loop-IsProgress fuel limit c' p f (omega (arith, took, le, h)))))
            frame (record c { input = rest }) payload first (omega arith)))
]

-- The message and the connection after it.
abbrev pub Taken : ℕ → Result (Text × ℕ) × WsConn → Type 0
Taken bound (err e, c) = length c.input ≤ bound
Taken bound (ok p, c) = length c.input < bound

receive_of :
    (bound : ℕ) (c : WsConn) (r : Received) → IsProgress bound r → Taken bound (received c r)
receive_of bound c none h = absurd h
receive_of bound c (some (err e, c')) h = h
receive_of bound c (some (ok p, c')) h = h

pub receive-Taken : (limit : ℕ) (c : WsConn) → Taken (length c.input) (receive limit c)
unfolding receive read_message
receive-Taken limit c =
    receive_of (length c.input) c _
      (read_loop-IsProgress (suc (length c.input)) limit c [] none (omega arith))

received-some :
    (bound : ℕ) (c : WsConn) (r : Received) → IsProgress bound r → r ≡ some (received c r)
received-some bound c none h = absurd h
received-some bound c (some p) h = refl

-- The fuel of ReadMessage never runs out.
pub read_message-receive : (limit : ℕ) (c : WsConn) → read_message limit c ≡ some (receive limit c)
unfolding receive read_message
read_message-receive limit c =
    received-some (length c.input) c _
      (read_loop-IsProgress (suc (length c.input)) limit c [] none (omega arith))
