-- ===== src/Lib.antt =====
-- file-share, the encrypted file transfer relay: clients upload opaque chunks under a transfer
-- identifier, and a recipient, or whoever holds a share link, downloads them until they are deleted.
--
-- Parts and how they interact. The server (server.go) answers a WebSocket protocol for identified
-- clients and an HTTP surface for share links; both work on one store (store.go), which keeps the
-- metadata of every transfer in memory and on disk and the chunks on disk.
--
-- Prelude: shared types. A Go string is its bytes (Text), a map with string keys is an association
-- list that holds a key once (Map), a map[int]bool is the list of its keys (IntSet), an int is ℤ,
-- and a (value, error) pair is Result, whose error is the message.
-- Strconv: what the code uses of strconv and strings (Itoa, Atoi, CutSuffix).
-- Store: store.go. Store.Meta has transferMeta and validTransferID; Store.Disk the calls of the
-- operating system on the data directory; Store.Ops every method of store, named as in the source
-- (createTransfer is create_transfer, and so on); Store.Load is newStore and loadExisting. The
-- other modules below Store hold proofs; Store.Contract says of each call what it may do to the
-- metadata, and Store.Burn what a served chunk does to its transfer and to the others.
--
-- Ws: ws.go. Ws.Frame has readFrame and writeFrame on byte lists, Ws.Message the connection,
-- ReadMessage, WriteMessage, WriteBinary and Close, Ws.Upgrade the server's side of the opening
-- handshake. dialWebSocket, which only the tests use, is not modelled. The bytes that a client sends
-- are a finite list, so a client that stays silent on an open connection reads as the end of the
-- stream. The writes of an upgraded connection succeed until it is closed.
-- Token: token.go, verifyToken. KeySource: delegate.go, the key that verifyToken is given and the
-- certificate chain behind it; a round of the background refresh is one element of a list.
-- base64, Ed25519, JSON and the requests to the broker are parameters.
--
-- Server: the state of server.go, its random tokens (Base64 is base64.RawURLEncoding) and bodies of
-- requests. Link: the share-link handlers of server.go (handleLinkStart is handle_link_start, and
-- so on) and withLinkCORS; Link.Routes is the part of main.go that routes to them; what
-- net/http answers by itself to a method that no route is registered for is an argument. A response that
-- is encoded as JSON stands as its value, and whether a response was sent is an argument.
--
-- Crypto: crypto.go over parameters for HMAC, AES-GCM and X25519 (open is open_sealed).
-- Session: the WebSocket protocol of server.go. Session.Envelope is wsEnvelope of types.go;
-- Session.Action is what a handler is: a step on the connection and the store that may fail, and
-- keeps what was done before. Session.Dispatch is dispatch with a definition for each message,
-- Session.Loop the loop of handleWS and the timer of the token's expiry, Session.Handshake and
-- Session.Auth are authenticate and handleWS as a whole. The timer fires between two messages; when
-- it does, Tick says how many bytes the reader holds, which can still be read after the
-- connection was closed. The JSON of control messages and the random draws are parameters. Log
-- lines are left out.
--
-- Log: logging.go, the rotated file (rotatingFile), envInt, and how initLogging opens the file. Its
-- Io says which calls on the directory of the log fail. What log and slog do is not modelled.
-- Startup: main.go, from the flags to the server that is served.
--
-- Time is an argument in nanoseconds since 1970. What the disk refuses, and what a refused call leaves
-- behind, is the argument Io. encoding/json on the
-- metadata is the parameter MetaJson. Locks are not modelled: each method runs alone.
-- Fuel: digits_of takes one more than the number it prints; read_message takes one more than the
-- bytes of the stream, of which each round reads two at least, and the loop of a session takes as
-- many, as a round that goes on has read one. hkdf takes one more than the bytes asked for.
pub mod Prelude
pub mod Strconv
pub mod Base64
pub mod Store
pub mod Ws
pub mod Token
pub mod KeySource
pub mod Server
pub mod Link
pub mod Session
pub mod Crypto
pub mod Log
pub mod Startup
