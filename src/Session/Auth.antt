-- ===== src/Session/Auth.antt =====
-- authenticate of server.go, and handleWS as a whole.
pub mod Steps
pub mod Challenge
pub mod Proved
pub mod Apart
use bitphase_file_share.Prelude.{
  ℕ, Bool, true, false, not, [], ◌∷◌, ◌++◌, Option, none, some, if◌then◌else◌, Text, bytes, text_eq,
  ℤ, Result, ok, err,
}
use bitphase_file_share.Ws.Upgrade.{HandshakeLib, UpgradeRequest, upgrade_web_socket}
use bitphase_file_share.Store.Ops.{Store}
use bitphase_file_share.Ws.Message.{WsConn, write_message, receive}
use bitphase_file_share.Token.{ClientToken, verify_token}
use bitphase_file_share.KeySource.{current}
use bitphase_file_share.Server.{FileShareServer, unix}
use bitphase_file_share.Session.Envelope.{Envelope, blank}
use bitphase_file_share.Session.Action.{Peer, Action, raise, lift, on_ws, pure, ◌>>=◌, ◌>>◌}
use bitphase_file_share.Session.Dispatch.{SessionCodec, marshal_or_nil}
use bitphase_file_share.Session.Loop.{Tick, hang_up, serve_session}
use bitphase_file_share.Session.Handshake.{
  AuthCodec, Draws, parse_hello, make_challenge, parse_response,
}

-- The errors of the write and of json.Marshal are dropped.
abbrev pub say : SessionCodec → Envelope → Action (Unit {0})
say codec env p = (ok tt, (on_ws (write_message (marshal_or_nil codec.envelope env)) p).1)

module _ {A : Type 0} where
  abbrev pub auth_error : SessionCodec → Text → Text → Action A
  auth_error codec message e = do
    say codec (record blank { type = bytes "auth_error"; error = message })
    raise e

  -- Ends with an `auth_error` message if the result is an error.
  abbrev pub or_reject : SessionCodec → Result A → Action A
  or_reject codec (ok a) = pure a
  or_reject codec (err e) = auth_error codec (bytes "access token rejected: " ++ e) e

-- The token of a hello, by the broker's key of the moment.
unfoldable pub check_hello : AuthCodec → ℤ → FileShareServer → Envelope → Action ClientToken
check_hello codec now fs hello = do
  broker_pub ← or_reject codec.session (current now fs.broker_pub)
  or_reject codec.session (verify_token codec.token broker_pub now hello.token fs.min_tier false)

-- subtle.ConstantTimeCompare
unfoldable pub compare_response : SessionCodec → Text → Envelope → Action (Unit {0})
compare_response codec challenge resp =
    if text_eq resp.response challenge
    then pure tt
    else auth_error codec (bytes "challenge mismatch") (bytes "challenge response did not match")

abbrev pub auth_ok : Envelope
auth_ok = record blank { type = bytes "auth_ok"; is_ok = true }

-- What follows an accepted token: the client proves that it has the key that it named.
unfoldable pub prove_identity : AuthCodec → Draws → Envelope → Action (Unit {0})
prove_identity codec draws hello = do
  (challenge, message) ← lift (make_challenge codec draws hello)
  on_ws (write_message message)
  answer ← on_ws (receive codec.session.max_message_size)
  resp ← lift (parse_response codec.session answer)
  compare_response codec.session challenge resp
  b ← lift (codec.session.envelope.marshal auth_ok)
  on_ws (write_message b)

-- Returns the client's key and its token. `now` is when the token is checked.
unfoldable pub authenticate : AuthCodec → ℕ → Draws → FileShareServer → Action (Text × ClientToken)
authenticate codec now draws fs = do
  first ← on_ws (receive codec.session.max_message_size)
  hello ← lift (parse_hello codec.session first)
  tok ← check_hello codec (unix now) fs hello
  prove_identity codec draws hello
  pure (hello.pub_key, tok)

-- A client that is not authenticated is cut off.
abbrev pub after_auth : AuthCodec → (ℕ → Tick) → Result (Text × ClientToken) × Peer → Option Peer
after_auth codec world (err e, p) = some (hang_up p)
after_auth codec world (ok (pubkey, tok), p) =
    serve_session codec.session pubkey world tok.expires_at p

-- A connection from its first message to its end. `none` would mean that fuel ran out.
unfoldable pub serve_peer :
    AuthCodec → ℕ → Draws → (ℕ → Tick) → FileShareServer → Peer → Option Peer
serve_peer codec now draws world fs p = after_auth codec world (authenticate codec now draws fs p)

abbrev pub store_of : Option Peer → Option Store
store_of none = none
store_of (some p) = some p.store

-- A request that is not upgraded is at its end.
abbrev pub after_upgrade :
    AuthCodec → ℕ → Draws → (ℕ → Tick) → FileShareServer → Result WsConn → Option Store
after_upgrade codec now draws world fs (err e) = some fs.store
after_upgrade codec now draws world fs (ok c) =
    store_of (serve_peer codec now draws world fs (record { ws = c; store = fs.store }))

-- What a request leaves of the store.
unfoldable pub handle_ws :
    HandshakeLib
    → AuthCodec
    → ℕ
    → Draws
    → (ℕ → Tick)
    → FileShareServer
    → UpgradeRequest
    → Option Store
handle_ws lib codec now draws world fs req =
    after_upgrade codec now draws world fs (upgrade_web_socket lib req)
