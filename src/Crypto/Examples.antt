-- ===== src/Crypto/Examples.antt =====
-- The theorem on the derivation of keys at a library of toys.
use bitphase_file_share.Prelude.{◌≡◌, refl, ◌++◌, some, arith, length, bytes, ok, err}
use bitphase_file_share.Crypto.{CryptoLib, zeros, hkdf, auth_key_info}
use bitphase_file_share.Crypto.Hkdf.{reference, hkdf-reference}

-- The MAC gives zeros; nothing is sealed.
abbrev toys : CryptoLib
toys = record {
  hmac_sha256 = λ key message. zeros 32;
  new_gcm = λ key. err (bytes "none");
  new_public_key = λ raw. ok raw;
  public_key = λ key. key;
  ecdh = λ key other. ok (key ++ other);
}

hkdf-reference_example :
    (hkdf toys (bytes "shared") auth_key_info 80
      ≡ some (reference toys (bytes "shared") auth_key_info 80))
    × (length (reference toys (bytes "shared") auth_key_info 80) ≡ 80)
hkdf-reference_example =
    hkdf-reference toys (bytes "shared") auth_key_info 80 (λ key message. refl) (omega arith)
