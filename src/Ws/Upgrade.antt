-- ===== src/Ws/Upgrade.antt =====
-- upgradeWebSocket of ws.go: the server's side of the opening handshake.
use bitphase_file_share.Prelude.{
  ℕ, Bool, ◌+◌, not, ◌&&◌, [], ◌∷◌, ◌++◌, Option, none, some, leb, ◌==◌, if◌then◌else◌, Text, bytes,
  text_eq, Result, ok, err, ◌>>=◌, fail_if,
}
use bitphase_file_share.Ws.Message.{WsConn}

-- crypto/sha1, and base64.StdEncoding.
pub record HandshakeLib : Type 0 where
  pub sha1 : Text → Text
  pub encode_base64 : Text → Text

-- What the handshake reads of a request, and what becomes of its connection: the bytes behind the
-- request, or why it is not handed over, and why the response could not be written.
pub record UpgradeRequest : Type 0 where
  pub upgrade : Text
  pub key : Text
  pub hijacked : Result Text
  pub write_error : Option Text

abbrev pub lower : ℕ → ℕ
lower c = if leb b'A' c && leb c b'Z' then c + 32 else c

-- The letters in lower case. Two characters beyond ASCII fold to a letter: U+017F to s, U+212A to k.
unfoldable pub fold : Text → Text
fold [] = []
fold (c ∷ []) = lower c ∷ []
fold (c ∷ d ∷ []) = if c == 0xC5 && d == 0xBF then b's' ∷ [] else lower c ∷ lower d ∷ []
fold (c ∷ d ∷ e ∷ s) =
    if c == 0xC5 && d == 0xBF
    then b's' ∷ fold (e ∷ s)
    else if c == 0xE2 && d == 0x84 && e == 0xAA
    then b'k' ∷ fold s
    else lower c ∷ fold (d ∷ e ∷ s)

-- strings.EqualFold for a `t` in ASCII
abbrev pub equal_fold : Text → Text → Bool
equal_fold s t = text_eq (fold s) (fold t)

abbrev pub ws_magic_guid : Text
ws_magic_guid = bytes "258EAFA5-E914-47DA-95CA-C5AB0DC85B11"

unfoldable pub compute_accept_key : HandshakeLib → Text → Text
compute_accept_key lib key = lib.encode_base64 (lib.sha1 (key ++ ws_magic_guid))

abbrev pub crlf : Text
crlf = 13 ∷ 10 ∷ []

abbrev pub switching : Text → Text
switching accept =
    bytes "HTTP/1.1 101 Switching Protocols"
    ++ crlf
    ++ (bytes "Upgrade: websocket" ++ crlf)
    ++ (bytes "Connection: Upgrade" ++ crlf)
    ++ (bytes "Sec-WebSocket-Accept: " ++ accept ++ crlf ++ crlf)

-- The connection, with the response on it.
abbrev pub switched : HandshakeLib → UpgradeRequest → Text → Result WsConn
switched lib req input = elim req.write_error [
  | some e ↦ err e
  | none ↦ ok (record {
    input = input;
    output = switching (compute_accept_key lib req.key);
    keys = none;
    write_error = none;
  })
]

unfoldable pub upgrade_web_socket : HandshakeLib → UpgradeRequest → Result WsConn
upgrade_web_socket lib req =
    fail_if (not (equal_fold req.upgrade (bytes "websocket")))
      (bytes "not a websocket upgrade request")
      (fail_if (text_eq req.key []) (bytes "missing Sec-WebSocket-Key")
        (do input ← req.hijacked; switched lib req input))
