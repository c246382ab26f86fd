-- ===== src/Ws/Total.antt =====
-- Every read of a frame takes bytes off the stream, so ReadMessage ends; and it never returns more
-- than the limit.
use Prim.Native.Nat.{bit_and}
use bitphase_file_share.Ws.Bits.{be_value}
use bitphase_file_share.Prelude.{
  ℕ, zero, suc, ◌+◌, ◌≤◌, ◌<◌, ◌≡◌, ◌⊎◌, refl, ap, Bool, true, false, ◌||◌, Bool-cases,
  Result-cases, inl, inr, List, [], ◌∷◌, ◌++◌, Option, none, some, arith, ltb, leb, ◌==◌, length,
  length-append, take, drop, length-drop, length-take, Text, Result, ok, err, ◌>>=◌, >>=-eq-ok,
}
use bitphase_file_share.Ws.Frame.{
  Frame, max_frame_size, read_full, read_length, read_key, unmask, read_body, read_frame, byte_at,
  op_ping, op_pong, op_close, op_text, op_binary,
}
use bitphase_file_share.Ws.RoundTrip.{length-xor_key}
use bitphase_file_share.Ws.Message.{
  WsConn, Sent, send, send_with, send_frame, Received, Loop, first_opcode, finish, collect,
  after_pong, on_frame, read_loop, read_message,
}

-- What a successful read returns and leaves.
read_full-ok :
    (n : ℕ) (input s rest : Text)
    → read_full n input ≡ ok (s, rest)
    → (length s ≡ n) × (length input ≡ n + length rest)
unfolding read_full
read_full-ok n input s rest h = elim (Bool-cases (leb n (length input))) [
  | inl enough ↦
      let e : ok (take n input, drop n input) ≡ ok (s, rest) = rw enough at h in
      ground (arith, e, enough, length-take n input, length-drop n input)
  | inr short ↦ cc (rw short at h)
]

abbrev extended : Text × Text → Result (ℕ × Text)
extended p = ok (be_value 0 p.0, p.1)

extended-ok :
    (k : ℕ) (input : Text) (n : ℕ) (rest : Text)
    → (read_full k input >>= extended) ≡ ok (n, rest)
    → length rest ≤ length input
extended-ok k input n rest h =
    let ((ext, after), e, f) = >>=-eq-ok (read_full k input) extended h in
    ground (arith, f, read_full-ok k input ext after e)

read_length-ok :
    (l : ℕ) (input : Text) (n : ℕ) (rest : Text)
    → read_length l input ≡ ok (n, rest)
    → length rest ≤ length input
unfolding read_length
read_length-ok l input n rest h = elim (Bool-cases (l == 126)) [
  | inl two ↦ extended-ok 2 input n rest (rw two at h)
  | inr other ↦ elim (Bool-cases (l == 127)) [
    | inl eight ↦ extended-ok 8 input n rest (rw (other, eight) at h)
    | inr plain ↦ let e : ok (l, input) ≡ ok (n, rest) = rw (other, plain) at h in ground (arith, e)
  ]
]

read_key-ok :
    (masked : Bool) (input key rest : Text)
    → read_key masked input ≡ ok (key, rest)
    → length rest ≤ length input
unfolding read_key
read_key-ok true input key rest h = omega (arith, read_full-ok 4 input key rest h)
read_key-ok false input key rest h = ground arith

length-unmask : (masked : Bool) (key s : Text) → length (unmask masked key s) ≡ length s
length-unmask true key s = length-xor_key 0 key s
length-unmask false key s = refl

read_body-ok :
    (fin : Bool) (op : ℕ) (masked : Bool) (n : ℕ) (input : Text) (frame : Frame) (rest : Text)
    → read_body fin op masked n input ≡ ok (frame, rest)
    → (length rest ≤ length input) × (length frame.payload ≤ max_frame_size)
unfolding read_body
read_body-ok fin op masked n input frame rest h = elim (Bool-cases (ltb max_frame_size n)) [
  | inl large ↦ cc (rw large at h)
  | inr small ↦
      let ((key, rest'), e, f) = >>=-eq-ok (read_key masked input) _ (rw small at h) in
      let ((payload, after), g, k) = >>=-eq-ok (read_full n rest') _ f in
      ground (
        arith,
        k,
        small,
        read_key-ok masked input key rest' e,
        read_full-ok n rest' payload after g,
        length-unmask masked key payload,
      )
]

-- A frame takes two bytes at least, and its payload is within the limit.
pub read_frame-ok :
    (input : Text) (frame : Frame) (rest : Text)
    → read_frame input ≡ ok (frame, rest)
    → (length rest + 2 ≤ length input) × (length frame.payload ≤ max_frame_size)
unfolding read_frame
read_frame-ok input frame rest h =
    let ((header, rest₁), e, f) = >>=-eq-ok (read_full 2 input) _ h in
    let ((n, rest₂), g, k) = >>=-eq-ok (read_length (bit_and (byte_at header 1) 0x7F) rest₁) _ f in
    let body = read_body-ok _ _ _ n rest₂ frame rest k in
    (
      omega (arith, body, read_full-ok 2 input header rest₁ e, read_length-ok _ rest₁ n rest₂ g),
      body.1,
    )

input-send : (b : Text) (c : WsConn) → (send b c).1.input ≡ c.input
unfolding send
input-send b c = ground arith

pub input-send_with :
    (op : ℕ) (payload : Text) (c : WsConn) (keys : Option (List Text))
    → (send_with op payload c keys).1.input ≡ c.input
input-send_with op payload c none = input-send _ c
input-send_with op payload c (some []) = refl
input-send_with op payload c (some (key ∷ keys)) = input-send _ (record c { keys = some keys })

-- The loop ends, with an error or with a message of a data opcode within the limit.
abbrev pub Ends : ℕ → Received → Type 0
Ends limit none = ⊥
Ends limit (some (err e, c)) = Unit
Ends limit (some (ok (payload, opcode), c)) =
    (length payload ≤ limit) × ((opcode ≡ op_text) ⊎ (opcode ≡ op_binary))

finish-Ends :
    (limit first : ℕ) (payload : Text) (c : WsConn)
    → length payload ≤ limit
    → Ends limit (some (finish first payload, c))
unfolding finish
finish-Ends limit first payload c h = elim (Bool-cases (first == op_text || first == op_binary)) [
  | inl data_frame ↦ rw data_frame (h, ground arith)
  | inr other ↦ rw other tt
]

module _ (limit bound : ℕ) (again : Loop)
    (ends : (c : WsConn) (payload : Text) (first : Option ℕ)
      → length c.input ≤ bound
      → Ends limit (again c payload first)) where
  collect-Ends :
      (frame : Frame) (c : WsConn) (payload : Text) (first : Option ℕ)
      → length c.input ≤ bound
      → Ends limit (collect again limit frame c payload first)
  unfolding collect
  collect-Ends frame c payload first h =
      elim (Bool-cases (ltb limit (length payload + length frame.payload))) [
        | inl large ↦ rw large tt
        | inr small ↦
            let whole = payload ++ frame.payload in
            let opcode = first_opcode first frame.opcode in
            elim (Bool-cases frame.fin) [
              | inl last ↦
                  rw (small, last)
                    (finish-Ends limit opcode whole c
                      (ground (arith, small, length-append payload frame.payload)))
              | inr more ↦ rw (small, more) (ends c whole (some opcode) h)
            ]
      ]

  after_pong-Ends :
      (payload : Text) (first : Option ℕ) (sent : Sent)
      → length sent.1.input ≤ bound
      → Ends limit (after_pong again payload first sent)
  after_pong-Ends payload first (err e, c) h = tt
  after_pong-Ends payload first (ok _, c) h = ends c payload first h

  on_frame-Ends :
      (frame : Frame) (c : WsConn) (payload : Text) (first : Option ℕ)
      → length c.input ≤ bound
      → Ends limit (on_frame again limit frame c payload first)
  unfolding on_frame send_frame
  on_frame-Ends frame c payload first h = elim (Bool-cases (frame.opcode == op_ping)) [
    | inl ping ↦ rw ping (
        after_pong-Ends payload first _ (
          omega
            (arith, ap (λ (t : Text). length t) (input-send_with op_pong frame.payload c c.keys))))
    | inr a ↦ elim (Bool-cases (frame.opcode == op_pong)) [
      | inl pong ↦ rw (a, pong) (ends c payload first h)
      | inr b ↦ elim (Bool-cases (frame.opcode == op_close)) [
        | inl close ↦ rw (a, b, close) tt
        | inr d ↦ rw (a, b, d) (collect-Ends frame c payload first h)
      ]
    ]
  ]

read_loop-Ends :
    (fuel limit : ℕ) (c : WsConn) (payload : Text) (first : Option ℕ)
    → length c.input < fuel
    → Ends limit (read_loop fuel limit c payload first)
unfolding read_loop
read_loop-Ends zero limit c payload first h = absurd (omega arith)
read_loop-Ends (suc fuel) limit c payload first h = elim (Result-cases (read_frame c.input)) [
  | inr (e, failed) ↦ rw failed tt
  | inl ((frame, rest), read) ↦ rw read (
      on_frame-Ends limit (length rest) (read_loop fuel limit)
        (λ c' p f lt.
          read_loop-Ends fuel limit c' p f (omega (arith, read_frame-ok c.input frame rest read)))
        frame (record c { input = rest }) payload first (omega arith))
]

-- Whatever bytes come in, ReadMessage ends, and a message that it returns is text or binary and not
-- longer than the limit.
pub read_message-Ends : (limit : ℕ) (c : WsConn) → Ends limit (read_message limit c)
unfolding read_message
read_message-Ends limit c = read_loop-Ends (suc (length c.input)) limit c [] none (omega arith)
