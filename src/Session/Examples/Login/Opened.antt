-- ===== src/Session/Examples/Login/Opened.antt =====
-- The theorem on the challenge at a client that has its key.
use bitphase_file_share.Prelude.{
  ℕ, zero, suc, ◌+◌, ◌≡◌, refl, ap, [], ◌∷◌, ◌++◌, none, some, Option, arith, length, take, drop,
  Text, bytes, ok,
}
use bitphase_file_share.Crypto.{Aead, derive_auth_key, hkdf, expand, seal, zeros}
use bitphase_file_share.Session.Envelope.{Envelope}
use bitphase_file_share.Session.Handshake.{AuthCodec, make_challenge, challenge_of}
use bitphase_file_share.Session.Auth.Challenge.{IsLawful, IsOpened, make_challenge-IsOpened}
use bitphase_file_share.Session.Examples.{codec, al}
use bitphase_file_share.Session.Examples.Login.{login_codec, draws, hello}

drop-front : (s t : Text) → drop (length s) (s ++ t) ≡ t
drop-front [] t = refl
drop-front (c ∷ s) t = drop-front s t

take-front : (s t : Text) → take (length s) (s ++ t) ≡ s
take-front [] t = refl
take-front (c ∷ s) t = ap (λ r. c ∷ r) (take-front s t)

length-zeros : (n : ℕ) → length (zeros n) ≡ n
length-zeros zero = refl
length-zeros (suc n) = omega (arith, length-zeros n)

-- A box that puts the nonce before its content.
abbrev box : Aead
box = record {
  nonce_size = 12;
  seal_with = λ nonce plaintext. nonce ++ plaintext;
  open_with = λ nonce ciphertext. ok (drop (length nonce) ciphertext);
}

-- The challenge's fields, behind the lengths of the first two.
abbrev write_fields : Envelope → Text
write_fields env =
    length env.server_ephemeral_pub
    ∷ length env.nonce
    ∷ (env.server_ephemeral_pub ++ (env.nonce ++ env.ciphertext))

abbrev read_fields : Text → Option Envelope
read_fields [] = none
read_fields (a ∷ []) = none
read_fields (a ∷ b ∷ s) = some (challenge_of (take a s) (take b (drop a s), drop b (drop a s)))

abbrev lawful_codec : AuthCodec
lawful_codec = record login_codec {
  session = record codec {
    envelope = record { marshal = λ env. ok (write_fields env); unmarshal = read_fields };
  };
  crypto = record {
    hmac_sha256 = λ key message. zeros 32;
    new_gcm = λ key. ok box;
    new_public_key = λ raw. ok raw;
    public_key = λ key. key;
    ecdh = λ key other. ok ((length key + length other) ∷ []);
  };
}

reads-write_fields :
    (server_pub nonce ciphertext message : Text)
    → ok (write_fields (challenge_of server_pub (nonce, ciphertext))) ≡ ok message
    → read_fields message ≡ some (challenge_of server_pub (nonce, ciphertext))
reads-write_fields server_pub nonce ciphertext message h =
    let one : write_fields (challenge_of server_pub (nonce, ciphertext)) ≡ message =
      ground (arith, h) in
    let front = take-front server_pub (nonce ++ ciphertext) in
    let behind = drop-front server_pub (nonce ++ ciphertext) in
    rw⁻¹ one
      (rw (front, behind) (rw (take-front nonce ciphertext, drop-front nonce ciphertext) refl))

lawful_codec-IsLawful : IsLawful lawful_codec draws
lawful_codec-IsLawful = record {
  mac = λ key message. refl;
  agrees = λ a b shared h. ground (arith, h);
  opens = λ key aead h nonce plaintext sized. ground (arith, h, drop-front nonce plaintext);
  sized = λ n b h. ground (arith, h, length-zeros n);
  reads = reads-write_fields;
}

abbrev challenge_message : Text
challenge_message = write_fields (challenge_of (bytes "e") (zeros 12, zeros 12 ++ bytes "secret"))

was_made : make_challenge lawful_codec draws hello ≡ ok (bytes "secret", challenge_message)
unfolding make_challenge derive_auth_key hkdf expand seal
was_made = refl

make_challenge-IsOpened_example :
    (ok (bytes "secret") ≡ ok (bytes "secret"))
    × IsOpened lawful_codec al (bytes "secret") challenge_message
make_challenge-IsOpened_example =
    make_challenge-IsOpened lawful_codec draws hello al al (bytes "secret") challenge_message
      lawful_codec-IsLawful refl refl was_made
