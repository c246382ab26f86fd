-- ===== src/Session/Handshake.antt =====
-- The parts of authenticate in server.go that talk to nobody: the client's first message, the
-- challenge, and the client's answer.
use bitphase_file_share.Prelude.{
  ℕ, not, ◌||◌, [], none, some, ◌==◌, Text, bytes, text_eq, Result, ok, err, ◌>>=◌, or_error,
  fail_if,
}
use bitphase_file_share.Ws.Frame.{op_text}
use bitphase_file_share.Token.{TokenCodec}
use bitphase_file_share.Crypto.{CryptoLib, derive_auth_key, seal}
use bitphase_file_share.Session.Envelope.{Envelope, blank}
use bitphase_file_share.Session.Dispatch.{SessionCodec}

-- What authenticate calls of the libraries.
pub record AuthCodec : Type 0 where
  pub session : SessionCodec
  pub token : TokenCodec
  pub crypto : CryptoLib

-- What the random source gives for the key pair, the challenge, and a nonce of a size.
pub record Draws : Type 0 where
  pub private_key : Result Text
  pub challenge : Result Text
  pub nonce : ℕ → Result Text

abbrev pub bad_hello : Text
bad_hello = bytes "expected a hello message with a pubkey"

-- The first message.
unfoldable pub parse_hello : SessionCodec → Text × ℕ → Result Envelope
parse_hello codec (raw, opcode) =
    fail_if (not (opcode == op_text)) (bytes "expected a text hello frame")
      (elim (codec.envelope.unmarshal raw) [
        | none ↦ err bad_hello
        | some hello ↦
            fail_if (not (text_eq hello.type (bytes "hello")) || text_eq hello.pub_key []) bad_hello
              (ok hello)
      ])

abbrev pub challenge_of : Text → Text × Text → Envelope
challenge_of ephemeral_pub (nonce, ciphertext) = record blank {
  type = bytes "challenge";
  server_ephemeral_pub = ephemeral_pub;
  nonce = nonce;
  ciphertext = ciphertext;
}

-- The challenge, sealed for the client's key, and its message.
unfoldable pub make_challenge : AuthCodec → Draws → Envelope → Result (Text × Text)
make_challenge codec draws hello = do
  raw ← or_error (codec.token.decode_base64 hello.pub_key) (bytes "illegal base64 data")
  client_pub ← codec.crypto.new_public_key raw
  ephemeral ← draws.private_key
  shared ← codec.crypto.ecdh ephemeral client_pub
  auth_key ← or_error (derive_auth_key codec.crypto shared) (bytes "out of fuel")
  challenge ← draws.challenge
  box ← seal codec.crypto draws.nonce auth_key challenge
  message ← codec.session.envelope.marshal (challenge_of (codec.crypto.public_key ephemeral) box)
  ok (challenge, message)

abbrev pub bad_response : Text
bad_response = bytes "expected a challenge_response message"

-- The second message.
unfoldable pub parse_response : SessionCodec → Text × ℕ → Result Envelope
parse_response codec (raw, opcode) =
    fail_if (not (opcode == op_text)) (bytes "expected a text challenge_response frame")
      (elim (codec.envelope.unmarshal raw) [
        | none ↦ err bad_response
        | some resp ↦
            fail_if (not (text_eq resp.type (bytes "challenge_response"))) bad_response (ok resp)
      ])
