-- ===== src/Crypto.antt =====
-- crypto.go: the cryptography of the connection handshake. The primitives are parameters.
pub mod Hkdf
mod Examples
use bitphase_file_share.Prelude.{
  ℕ, zero, suc, ◌+◌, ◌%◌, ◌^◌, [], ◌∷◌, ◌++◌, Option, none, some, ltb, not, ◌==◌, if◌then◌else◌,
  length, take, Text, bytes, Result, ok, err, ◌>>=◌, fail_if,
}

-- A cipher.AEAD.
pub record Aead : Type 0 where
  pub nonce_size : ℕ
  pub seal_with : Text → Text → Text
  pub open_with : Text → Text → Result Text

-- crypto/hmac over crypto/sha256, crypto/aes with cipher.NewGCM, and crypto/ecdh on X25519. A private
-- key is what its bytes are.
pub record CryptoLib : Type 0 where
  pub hmac_sha256 : Text → Text → Text
  pub new_gcm : Text → Result Aead
  pub new_public_key : Text → Result Text
  pub public_key : Text → Text
  pub ecdh : Text → Text → Result Text

abbrev pub auth_key_info : Text
auth_key_info = bytes "bitphase-fileshare-auth-v1"

abbrev pub aead_key_size : ℕ
aead_key_size = 32

abbrev pub zeros : ℕ → Text
zeros zero = []
zeros (suc n) = 0 ∷ zeros n

-- One output of the MAC; `counter` is a byte.
abbrev pub next_block : CryptoLib → Text → Text → ℕ → Text → Text
next_block lib prk info counter prev = lib.hmac_sha256 prk (prev ++ info ++ counter ∷ [])

-- The loop, on fuel; `none` would mean that the fuel ran out.
unfoldable pub expand : CryptoLib → ℕ → Text → Text → ℕ → ℕ → Text → Text → Option Text
expand lib zero prk info size counter prev out = none
expand lib (suc fuel) prk info size counter prev out =
    let block = next_block lib prk info counter prev in
    let rest = expand lib fuel prk info size ((counter + 1) % 2 ^ 8) block (out ++ block) in
    if ltb (length out) size then rest else some (take size out)

-- A round adds the bytes of one MAC to the output.
unfoldable pub hkdf : CryptoLib → Text → Text → ℕ → Option Text
hkdf lib secret info size =
    expand lib (suc size) (lib.hmac_sha256 (zeros 32) secret) info size 1 [] []

unfoldable pub derive_auth_key : CryptoLib → Text → Option Text
derive_auth_key lib shared = hkdf lib shared auth_key_info aead_key_size

-- `drawn` is what the random source gives for a nonce of that size.
unfoldable pub seal : CryptoLib → (ℕ → Result Text) → Text → Text → Result (Text × Text)
seal lib drawn key plaintext = do
  aead ← lib.new_gcm key
  nonce ← drawn aead.nonce_size
  ok (nonce, aead.seal_with nonce plaintext)

unfoldable pub open_sealed : CryptoLib → Text → Text → Text → Result Text
open_sealed lib key nonce ciphertext = do
  aead ← lib.new_gcm key
  fail_if (not (length nonce == aead.nonce_size)) (bytes "bad nonce size")
      (aead.open_with nonce ciphertext)
