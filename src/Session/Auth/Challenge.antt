-- ===== src/Session/Auth/Challenge.antt =====
-- What the challenge is, and who can open it.
use bitphase_file_share.Prelude.{
  ℕ, ◌≡◌, ◌∙◌, ap, sym, not, some, arith, false, ◌==◌, length, Text, bytes, Result, ok, >>=-eq-ok,
  or_error, or_error-ok, fail_if,
}
use bitphase_file_share.Crypto.{Aead, CryptoLib, auth_key_info, derive_auth_key, seal, open_sealed}
use bitphase_file_share.Crypto.Hkdf.{reference, hkdf-reference}
use bitphase_file_share.Session.Envelope.{Envelope, EnvelopeJson, blank}
use bitphase_file_share.Session.Handshake.{AuthCodec, Draws, make_challenge, challenge_of}

-- The MAC gives 32 bytes.
abbrev pub IsMac : CryptoLib → Type 0
IsMac lib = (key message : Text) → length (lib.hmac_sha256 key message) ≡ 32

-- The message is a challenge that is sealed, with a nonce of the cipher's size, under the HKDF of RFC
-- 5869 of what the server's fresh key and the client's key agree on.
pub record IsSealed (codec : AuthCodec) (draws : Draws) (pubkey challenge message : Text)
    : Type 0 where
  pub raw : Text
  pub client_pub : Text
  pub ephemeral : Text
  pub shared : Text
  pub aead : Aead
  pub nonce : Text
  pub decoded : codec.token.decode_base64 pubkey ≡ some raw
  pub client_key : codec.crypto.new_public_key raw ≡ ok client_pub
  pub server_key : draws.private_key ≡ ok ephemeral
  pub agreed : codec.crypto.ecdh ephemeral client_pub ≡ ok shared
  pub keyed :
      codec.crypto.new_gcm (reference codec.crypto shared (bytes "bitphase-fileshare-auth-v1") 32)
      ≡ ok aead
  pub drawn : draws.challenge ≡ ok challenge
  pub drawn_nonce : draws.nonce aead.nonce_size ≡ ok nonce
  pub marshalled :
      codec.session.envelope.marshal (record blank {
        type = bytes "challenge";
        server_ephemeral_pub = codec.crypto.public_key ephemeral;
        nonce = nonce;
        ciphertext = aead.seal_with nonce challenge;
      })
      ≡ ok message

pub derive_auth_key-reference :
    (lib : CryptoLib) (shared : Text)
    → IsMac lib
    → derive_auth_key lib shared
      ≡ some (reference lib shared (bytes "bitphase-fileshare-auth-v1") 32)
unfolding derive_auth_key
derive_auth_key-reference lib shared mac =
    (hkdf-reference lib shared auth_key_info 32 mac (omega arith)).0

seal-ok :
    (lib : CryptoLib) (drawn : ℕ → Result Text) (key plaintext nonce ciphertext : Text)
    → seal lib drawn key plaintext ≡ ok (nonce, ciphertext)
    → (aead : Aead) × (lib.new_gcm key ≡ ok aead)
      × (drawn aead.nonce_size ≡ ok nonce)
      × (ciphertext ≡ aead.seal_with nonce plaintext)
unfolding seal
seal-ok lib drawn key plaintext nonce ciphertext h =
    let (aead, e, h₁) = >>=-eq-ok (lib.new_gcm key) _ h in
    let (n, f, h₂) = >>=-eq-ok (drawn aead.nonce_size) _ h₁ in
    let same : n ≡ nonce = ground (arith, h₂) in
    let boxed : aead.seal_with n plaintext ≡ ciphertext = ground (arith, h₂) in
    (aead, e, f ∙ ap ok same, rw same at (sym boxed))

new_gcm-reference :
    (lib : CryptoLib) (shared auth_key : Text) (aead : Aead)
    → IsMac lib
    → derive_auth_key lib shared ≡ some auth_key
    → lib.new_gcm auth_key ≡ ok aead
    → lib.new_gcm (reference lib shared (bytes "bitphase-fileshare-auth-v1") 32) ≡ ok aead
new_gcm-reference lib shared auth_key aead mac derived gcm =
    let expected = derive_auth_key-reference lib shared mac in
    let key : auth_key ≡ reference lib shared (bytes "bitphase-fileshare-auth-v1") 32 =
      ground (arith, derived, expected) in
    rw key at gcm

marshalled-as :
    (j : EnvelopeJson) (server_pub nonce a b text message : Text)
    → a ≡ b
    → text ≡ message
    → j.marshal (challenge_of server_pub (nonce, a)) ≡ ok text
    → j.marshal (challenge_of server_pub (nonce, b)) ≡ ok message
marshalled-as j server_pub nonce a b text message same read h = rw (same, read) at h

seals-same :
    (aead : Aead) (nonce a b ciphertext : Text)
    → a ≡ b
    → ciphertext ≡ aead.seal_with nonce a
    → ciphertext ≡ aead.seal_with nonce b
seals-same aead nonce a b ciphertext same h = rw same at h

ok-as : (r : Result Text) (a b : Text) → a ≡ b → r ≡ ok a → r ≡ ok b
ok-as r a b same h = rw same at h

pub make_challenge-IsSealed :
    (codec : AuthCodec) (draws : Draws) (hello : Envelope) (challenge message : Text)
    → IsMac codec.crypto
    → make_challenge codec draws hello ≡ ok (challenge, message)
    → IsSealed codec draws hello.pub_key challenge message
unfolding make_challenge
make_challenge-IsSealed codec draws hello challenge message mac h =
    let lib = codec.crypto in
    let decoded = codec.token.decode_base64 hello.pub_key in
    let (raw, e₁, h₁) = >>=-eq-ok (or_error decoded (bytes "illegal base64 data")) _ h in
    let (client_pub, e₂, h₂) = >>=-eq-ok (lib.new_public_key raw) _ h₁ in
    let (ephemeral, e₃, h₃) = >>=-eq-ok draws.private_key _ h₂ in
    let (shared, e₄, h₄) = >>=-eq-ok (lib.ecdh ephemeral client_pub) _ h₃ in
    let (auth_key, e₅, h₅) =
      >>=-eq-ok (or_error (derive_auth_key lib shared) (bytes "out of fuel")) _ h₄ in
    let (drawn, e₆, h₆) = >>=-eq-ok draws.challenge _ h₅ in
    let ((nonce, ciphertext), e₇, h₇) = >>=-eq-ok (seal lib draws.nonce auth_key drawn) _ h₆ in
    let ephemeral_pub = lib.public_key ephemeral in
    let (text, e₈, h₈) =
      >>=-eq-ok (codec.session.envelope.marshal (challenge_of ephemeral_pub (nonce, ciphertext))) _
        h₇ in
    let (aead, gcm, drawn_nonce, boxed) =
      seal-ok lib draws.nonce auth_key drawn nonce ciphertext e₇ in
    let derived = or_error-ok (derive_auth_key lib shared) (bytes "out of fuel") auth_key e₅ in
    let one : drawn ≡ challenge = ground (arith, h₈) in
    let two : text ≡ message = ground (arith, h₈) in
    record {
      raw = raw;
      client_pub = client_pub;
      ephemeral = ephemeral;
      shared = shared;
      aead = aead;
      nonce = nonce;
      decoded = or_error-ok decoded (bytes "illegal base64 data") raw e₁;
      client_key = e₂;
      server_key = e₃;
      agreed = e₄;
      keyed = new_gcm-reference lib shared auth_key aead mac derived gcm;
      drawn = ok-as draws.challenge drawn challenge one e₆;
      drawn_nonce = drawn_nonce;
      marshalled =
          marshalled-as codec.session.envelope ephemeral_pub nonce ciphertext
            (aead.seal_with nonce challenge) text message
            (seals-same aead nonce drawn challenge ciphertext one boxed) two e₈;
    }

pub IsSealed-for :
    (codec : AuthCodec) (draws : Draws) (a b challenge message : Text)
    → a ≡ b
    → IsSealed codec draws a challenge message
    → IsSealed codec draws b challenge message
IsSealed-for codec draws a b challenge message same h = rw same at h

-- What a nonce of the right size sealed is opened to what it was.
abbrev pub IsAead : Aead → Type 0
IsAead a =
    (nonce plaintext : Text)
    → length nonce ≡ a.nonce_size
    → a.open_with nonce (a.seal_with nonce plaintext) ≡ ok plaintext

-- What the libraries promise: both sides of a key exchange agree, the cipher opens what it sealed, a
-- draw has the size asked for, and a challenge reads back.
pub record IsLawful (codec : AuthCodec) (draws : Draws) : Type 0 where
  pub mac : IsMac codec.crypto
  pub agrees :
      (a b shared : Text)
      → codec.crypto.ecdh a (codec.crypto.public_key b) ≡ ok shared
      → codec.crypto.ecdh b (codec.crypto.public_key a) ≡ ok shared
  pub opens : (key : Text) (aead : Aead) → codec.crypto.new_gcm key ≡ ok aead → IsAead aead
  pub sized : (n : ℕ) (b : Text) → draws.nonce n ≡ ok b → length b ≡ n
  pub reads :
      (server_pub nonce ciphertext message : Text)
      → codec.session.envelope.marshal (challenge_of server_pub (nonce, ciphertext)) ≡ ok message
      → codec.session.envelope.unmarshal message
        ≡ some (challenge_of server_pub (nonce, ciphertext))

-- What the holder of a private key reads in a message.
pub record IsOpened (codec : AuthCodec) (private_key challenge message : Text) : Type 0 where
  pub env : Envelope
  pub shared : Text
  pub auth_key : Text
  pub read : codec.session.envelope.unmarshal message ≡ some env
  pub agreed : codec.crypto.ecdh private_key env.server_ephemeral_pub ≡ ok shared
  pub derived : derive_auth_key codec.crypto shared ≡ some auth_key
  pub opened : open_sealed codec.crypto auth_key env.nonce env.ciphertext ≡ ok challenge

open_sealed-seal_with :
    (lib : CryptoLib) (key nonce plaintext : Text) (aead : Aead)
    → lib.new_gcm key ≡ ok aead
    → length nonce ≡ aead.nonce_size
    → IsAead aead
    → open_sealed lib key nonce (aead.seal_with nonce plaintext) ≡ ok plaintext
unfolding open_sealed
open_sealed-seal_with lib key nonce plaintext aead gcm long law =
    let right : not (length nonce == aead.nonce_size) ≡ false = ground (arith, long) in
    rw gcm (rw (right, fail_if) (law nonce plaintext long))

-- The holder of the private key of a hello finds in the message that answers it all that is needed:
-- the key exchange with the server's key of the message, the key that is derived from it, and what
-- open gives for the nonce and the ciphertext of the message, which is the challenge that was drawn.
-- The libraries keep what they promise.
pub make_challenge-IsOpened :
    (codec : AuthCodec) (draws : Draws) (hello : Envelope)
    (private_key raw challenge message : Text)
    → IsLawful codec draws
    → codec.token.decode_base64 hello.pub_key ≡ some raw
    → codec.crypto.new_public_key raw ≡ ok (codec.crypto.public_key private_key)
    → make_challenge codec draws hello ≡ ok (challenge, message)
    → (draws.challenge ≡ ok challenge) × IsOpened codec private_key challenge message
make_challenge-IsOpened codec draws hello private_key raw challenge message law decoded parsed h =
    let lib = codec.crypto in
    let box = make_challenge-IsSealed codec draws hello challenge message law.mac h in
    let one : box.raw ≡ raw = ground (arith, decoded, box.decoded) in
    let pub_key : lib.new_public_key raw ≡ ok box.client_pub = rw one at box.client_key in
    let two : box.client_pub ≡ lib.public_key private_key = ground (arith, parsed, pub_key) in
    let forth : lib.ecdh box.ephemeral (lib.public_key private_key) ≡ ok box.shared =
      rw two at box.agreed in
    (
      box.drawn,
      record {
        env = record blank {
          type = bytes "challenge";
          server_ephemeral_pub = lib.public_key box.ephemeral;
          nonce = box.nonce;
          ciphertext = box.aead.seal_with box.nonce challenge;
        };
        shared = box.shared;
        auth_key = reference lib box.shared (bytes "bitphase-fileshare-auth-v1") 32;
        read =
            law.reads (lib.public_key box.ephemeral) box.nonce
              (box.aead.seal_with box.nonce challenge) message box.marshalled;
        agreed = law.agrees box.ephemeral private_key box.shared forth;
        derived = derive_auth_key-reference lib box.shared law.mac;
        opened =
            open_sealed-seal_with lib _ box.nonce challenge box.aead box.keyed
              (law.sized box.aead.nonce_size box.nonce box.drawn_nonce)
              (law.opens _ box.aead box.keyed);
      },
    )
