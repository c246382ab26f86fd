-- ===== src/KeySource.antt =====
-- delegate.go: the key that tokens are verified with, fixed or certified by a pinned root.
pub mod Certified
mod Examples
use bitphase_file_share.Prelude.{
  ℕ, ◌≡◌, Bool, true, false, not, ◌&&◌, ◌||◌, List, [], ◌∷◌, ◌++◌, Option, none, some, ◌==◌,
  if◌then◌else◌, length, Text, bytes, text_eq, ℤ, pos, int_eq, ltb_ℤ, Result, ok, err, ◌>>=◌,
  or_error, fail_if,
}
use bitphase_file_share.Strconv.{itoa}

pub record DelegateCert : Type 0 where
  pub delegate_pub_key : Text
  pub root_pub_key : Text
  pub issued_at : ℤ
  pub expires_at : ℤ

-- An expiry of 0 means none.
pub record KeySource : Type 0 where
  pub key : Text
  pub expires_at : ℤ

-- What delegate.go calls of encoding/base64, crypto/ed25519 and encoding/json; the error of
-- json.Unmarshal is its message.
pub record CertCodec : Type 0 where
  pub decode_base64 : Text → Option Text
  pub encode_base64 : Text → Text
  pub verify : Text → Text → Text → Bool
  pub unmarshal_cert : Text → Result DelegateCert

pub record Response : Type 0 where
  pub status_code : ℕ
  pub status : Text
  pub signature : Text
  pub body : Result Text

unfoldable pub new_static_key_source : Text → KeySource
new_static_key_source key = record { key = key; expires_at = pos 0 }

-- The dash of the messages, in UTF-8.
abbrev pub em_dash : Text
em_dash = 0xE2 ∷ 0x80 ∷ 0x94 ∷ []

abbrev pub cert_expired : Text
cert_expired =
    bytes "cached delegate certificate has expired and could not be refreshed "
    ++ (em_dash ++ bytes " refusing to verify")

unfoldable pub current : ℤ → KeySource → Result Text
current now src =
    fail_if (not (int_eq src.expires_at (pos 0)) && ltb_ℤ src.expires_at now) cert_expired
      (ok src.key)

unfoldable pub set_key : Text → ℤ → KeySource → KeySource
set_key key expires_at src = record { key = key; expires_at = expires_at }

-- fmt.Errorf("...%w", err)
abbrev pub wrap_error {ℓ} : {A : Type ℓ} → Text → Result A → Result A
wrap_error context (ok a) = ok a
wrap_error context (err e) = err (context ++ e)

abbrev pub not_json : Text
not_json = bytes "delegate cert is not valid JSON: "

abbrev pub fetching : Text
fetching = bytes "fetching delegate cert: "

abbrev pub resolving : Text
resolving = bytes "resolving initial delegate key: "

abbrev pub public_key_size : ℕ
public_key_size = 32

-- A decoded public key of the right size.
unfoldable pub checked_key : Option Text → Result Text
checked_key none = err (bytes "delegate cert's delegate_pubkey is not a valid Ed25519 public key")
checked_key (some key) =
    fail_if (not (length key == public_key_size))
      (bytes "delegate cert's delegate_pubkey is not a valid Ed25519 public key") (ok key)

-- The checks on the certificate, once its signature is verified.
unfoldable pub check_cert : CertCodec → ℤ → Text → DelegateCert → Result (Text × ℤ)
check_cert codec now root cert =
    fail_if (not (text_eq cert.root_pub_key (codec.encode_base64 root)))
      (bytes "delegate cert was minted for a different root pubkey than the one pinned here")
      (fail_if (ltb_ℤ now cert.issued_at || ltb_ℤ cert.expires_at now)
        (bytes "delegate cert is not currently valid (issued_at="
          ++ itoa cert.issued_at
          ++ bytes " expires_at="
          ++ itoa cert.expires_at
          ++ bytes " now="
          ++ itoa now
          ++ bytes ")")
        (do
          key ← checked_key (codec.decode_base64 cert.delegate_pub_key)
          ok (key, cert.expires_at)))

-- The checks on the body of a response.
unfoldable pub check_body : CertCodec → ℤ → Text → Response → Text → Result (Text × ℤ)
check_body codec now root resp body =
    fail_if (not (resp.status_code == 200))
      (bytes "delegate cert request failed: " ++ resp.status ++ bytes ": " ++ body)
      do
        sig ←
            or_error (codec.decode_base64 resp.signature)
              (bytes "missing/invalid X-Signature header on delegate cert")
        fail_if (not (codec.verify root body sig))
            (bytes
                "delegate certificate signature verification FAILED against the pinned root pubkey "
              ++ (em_dash ++ bytes " refusing to trust it"))
            (do
              cert ← wrap_error not_json (codec.unmarshal_cert body)
              check_cert codec now root cert)

-- `fetched` is what the request to the broker returned.
unfoldable pub resolve_delegate_key : CertCodec → ℤ → Text → Result Response → Result (Text × ℤ)
resolve_delegate_key codec now root fetched = do
  resp ← wrap_error fetching fetched
  body ← resp.body
  check_body codec now root resp body

-- The first certificate is fetched at startup, and an error ends the program.
unfoldable pub new_delegate_key_source : CertCodec → ℤ → Text → Result Response → Result KeySource
new_delegate_key_source codec now root fetched = do
  (key, expires_at) ← wrap_error resolving (resolve_delegate_key codec now root fetched)
  ok (record { key = key; expires_at = expires_at })

abbrev pub after_refresh : KeySource → Result (Text × ℤ) → KeySource
after_refresh src (err e) = src
after_refresh src (ok (key, expires_at)) = set_key key expires_at src

-- One round of the background loop: an error keeps the key.
unfoldable pub refresh : CertCodec → Text → KeySource → ℤ × Result Response → KeySource
refresh codec root src (now, fetched) =
    after_refresh src (resolve_delegate_key codec now root fetched)

unfoldable pub refresh_all : CertCodec → Text → KeySource → List (ℤ × Result Response) → KeySource
refresh_all codec root src [] = src
refresh_all codec root src (tick ∷ ticks) =
    refresh_all codec root (refresh codec root src tick) ticks
