-- ===== src/Session/Loop.antt =====
-- handleWS of server.go behind authenticate: the read loop and the timer that ends a session.
use bitphase_file_share.Prelude.{
  ℕ, zero, suc, Bool, true, false, Option, none, some, ◌==◌, if◌then◌else◌, length, Text, bytes,
  ◌++◌, ℤ, leb_ℤ, Result, ok, err,
}
use bitphase_file_share.Ws.Frame.{op_text}
use bitphase_file_share.Ws.Message.{WsConn, write_message, receive, close}
use bitphase_file_share.Store.Disk.{Io}
use bitphase_file_share.Server.{unix}
use bitphase_file_share.KeySource.{em_dash}
use bitphase_file_share.Session.Envelope.{blank}
use bitphase_file_share.Session.Action.{Peer}
use bitphase_file_share.Session.Dispatch.{SessionCodec, marshal_or_nil, dispatch}

-- The time of a round of the loop and what the disk does in it. `buffered` is how many bytes the
-- reader holds.
pub record Tick : Type 0 where
  pub now : ℕ
  pub io : Io
  pub buffered : ℕ

abbrev pub expired_message : Text
expired_message =
    bytes "access token expired "
    ++ (em_dash ++ bytes " renew your subscription and reconnect with the new token")

-- The function of the timer: the client is told, and the connection is closed.
unfoldable pub fire : SessionCodec → ℕ → Peer → Peer
fire codec buffered p =
    let told =
      (write_message
        (marshal_or_nil codec.envelope
          (record blank { type = bytes "session_expired"; error = expired_message }))
        p.ws).1 in
    record p { ws = close buffered told }

-- The timer is `some` of the token's expiry until it fires, which it does between two messages.
unfoldable pub run_timer : SessionCodec → Tick → Option ℤ → Peer → Option ℤ × Peer
run_timer codec tick none p = (none, p)
run_timer codec tick (some expires_at) p =
    if leb_ℤ expires_at (unix tick.now)
    then (none, fire codec tick.buffered p)
    else (some expires_at, p)

abbrev pub goes_on : Result (Unit {0}) × Peer → Bool × Peer
goes_on (ok _, p) = (true, p)
goes_on (err e, p) = (false, p)

-- What a text message does; one that is no envelope is passed over.
unfoldable pub on_text : SessionCodec → Tick → Text → Text → Peer → Bool × Peer
on_text codec tick pubkey raw p = elim (codec.envelope.unmarshal raw) [
  | none ↦ (true, p)
  | some env ↦ goes_on (dispatch codec tick.now tick.io pubkey env p)
]

unfoldable pub on_message :
    SessionCodec → Tick → Text → Peer → Result (Text × ℕ) × WsConn → Bool × Peer
on_message codec tick pubkey p (err e, c) = (false, record p { ws = c })
on_message codec tick pubkey p (ok (raw, opcode), c) =
    if opcode == op_text
    then on_text codec tick pubkey raw (record p { ws = c })
    else (true, record p { ws = c })

-- One round; `false` leaves the loop.
unfoldable pub round : SessionCodec → Tick → Text → Peer → Bool × Peer
round codec tick pubkey p = on_message codec tick pubkey p (receive codec.max_message_size p.ws)

-- The deferred Close.
abbrev pub hang_up : Peer → Peer
hang_up p = record p { ws = close 0 p.ws }

-- `again` is the rest of the loop.
abbrev pub next : (Option ℤ → Peer → Option Peer) → Option ℤ → Bool × Peer → Option Peer
next again timer (true, p) = again timer p
next again timer (false, p) = some p

module _ (codec : SessionCodec) (pubkey : Text) (world : ℕ → Tick) where
  -- `k` counts the rounds.
  unfoldable pub loop : ℕ → ℕ → Option ℤ → Peer → Option Peer
  loop zero k timer p = none
  loop (suc fuel) k timer p =
      let (timer', p') = run_timer codec (world k) timer p in
      next (loop fuel (suc k)) timer' (round codec (world k) pubkey p')

  -- A round that goes on has read a byte at least.
  unfoldable pub serve_session : ℤ → Peer → Option Peer
  serve_session expires_at p = elim (loop (suc (length p.ws.input)) 0 (some expires_at) p) [
    | none ↦ none
    | some p' ↦ some (hang_up p')
  ]
