-- ===== src/Session/Examples/Login.antt =====
-- The theorems on authentication at a concrete client.
mod Opened
use bitphase_file_share.Prelude.{
  ◌≡◌, none, refl, true, [], ◌++◌, some, if◌then◌else◌, text_eq, int_eq, ok, bytes, pos,
}
use bitphase_file_share.Ws.Frame.{
  write_frame, op_text, read_frame, read_full, read_length, read_key, read_body, xor_key,
  length_bytes, frame_bytes,
}
use bitphase_file_share.Ws.Bits.{be_value, be_bytes}
use bitphase_file_share.Ws.Message.{
  send, send_frame, write_message, receive, read_message, read_loop, on_frame, collect, finish,
}
use bitphase_file_share.Ws.Upgrade.{HandshakeLib, UpgradeRequest, fold}
use bitphase_file_share.Store.Ops.{Store}
use bitphase_file_share.Token.{
  ClientToken, verify_token, cut_dot, check_claims, tier_rank, plan_refused,
}
use bitphase_file_share.KeySource.{current}
use bitphase_file_share.Server.{FileShareServer}
use bitphase_file_share.Crypto.{CryptoLib, derive_auth_key, hkdf, expand, seal, zeros}
use bitphase_file_share.Store.Invariant.{IsWellFormed}
use bitphase_file_share.Store.Apart.{IsApart}
use bitphase_file_share.Session.Envelope.{Envelope, blank}
use bitphase_file_share.Session.Action.{Peer}
use bitphase_file_share.Session.Healthy.{online}
use bitphase_file_share.Session.Handshake.{
  AuthCodec, Draws, parse_hello, make_challenge, parse_response,
}
use bitphase_file_share.Session.Auth.{
  check_hello, compare_response, prove_identity, authenticate, handle_ws,
}
use bitphase_file_share.Session.Auth.Proved.{IsProved, authenticate-IsProved}
use bitphase_file_share.Session.Auth.Apart.{handle_ws-IsApart}
use bitphase_file_share.Session.Examples.{
  codec, al, share, share_meta, filled, filled-IsWellFormed, found_share, mask, world,
}

abbrev hello : Envelope
hello = record blank { type = bytes "hello"; pub_key = al; token = bytes "al.broker" }

abbrev answer : Envelope
answer = record blank { type = bytes "challenge_response"; response = bytes "secret" }

abbrev al_token : ClientToken
al_token = record {
  client_id = al;
  tier = bytes "paid";
  plan = [];
  issued_at = pos 0;
  expires_at = pos 9;
}

-- A MAC that gives zeros, and a box that shows its content.
abbrev toy_crypto : CryptoLib
toy_crypto = record {
  hmac_sha256 = λ key message. zeros 32;
  new_gcm = λ key. ok (record {
    nonce_size = 12;
    seal_with = λ nonce plaintext. plaintext;
    open_with = λ nonce ciphertext. ok ciphertext;
  });
  new_public_key = λ raw. ok raw;
  public_key = λ key. key;
  ecdh = λ key other. ok (key ++ other);
}

abbrev login_codec : AuthCodec
login_codec = record {
  session = record codec {
    envelope = record {
      marshal = λ env. ok env.type;
      unmarshal = λ raw. some (if text_eq raw (bytes "h") then hello else answer);
    };
  };
  token = record {
    decode_base64 = λ s. some s;
    verify = λ broker_pub payload sig. text_eq sig broker_pub;
    unmarshal_token = λ payload. some al_token;
  };
  crypto = toy_crypto;
}

abbrev draws : Draws
draws = record {
  private_key = ok (bytes "e");
  challenge = ok (bytes "secret");
  nonce = λ n. ok (zeros n);
}

abbrev fs : FileShareServer
fs = record {
  store = filled;
  broker_pub = record { key = bytes "broker"; expires_at = pos 0 };
  min_tier = bytes "paid";
}

abbrev login : Peer
login =
    online filled (write_frame mask op_text (bytes "h") ++ write_frame mask op_text (bytes "r")) []

let_in :
    authenticate login_codec 4 draws fs login
    ≡ (ok (al, al_token), (authenticate login_codec 4 draws fs login).1)
unfolding authenticate check_hello prove_identity compare_response parse_hello make_challenge
    parse_response derive_auth_key hkdf expand seal verify_token cut_dot check_claims tier_rank
    plan_refused current text_eq receive read_message read_loop on_frame collect finish read_frame
    read_full read_length read_key read_body xor_key be_value write_message send_frame send
    write_frame frame_bytes length_bytes be_bytes int_eq
let_in = refl

authenticate-IsProved_example : IsProved login_codec 4 draws fs login al al_token
authenticate-IsProved_example =
    authenticate-IsProved login_codec 4 draws fs login (authenticate login_codec 4 draws fs login).1
      al al_token (λ key message. refl) let_in

abbrev toy_lib : HandshakeLib
toy_lib = record { sha1 = λ s. s; encode_base64 = λ s. s }

-- The client's two messages come behind the request.
abbrev upgrade_request : UpgradeRequest
upgrade_request = record {
  upgrade = bytes "WebSocket";
  key = bytes "key";
  hijacked = ok login.ws.input;
  write_error = none;
}

upgraded : text_eq (fold upgrade_request.upgrade) (fold (bytes "websocket")) ≡ true
unfolding text_eq fold
upgraded = refl

handle_ws-IsApart_example :
    (s : Store) × (handle_ws toy_lib login_codec 4 draws world fs upgrade_request ≡ some s)
    × IsApart share filled s
    × IsWellFormed s
handle_ws-IsApart_example =
    handle_ws-IsApart toy_lib login_codec 4 draws world fs upgrade_request share share_meta
      filled-IsWellFormed found_share refl
