-- ===== src/KeySource/Examples.antt =====
-- The theorem on the key source at a concrete codec.
use bitphase_file_share.Prelude.{
  ◌≡◌, refl, arith, [], ◌∷◌, List, some, Text, bytes, text_eq, ℤ, pos, ◌≤ℤ◌, int_eq, Result, ok,
  err,
}
use bitphase_file_share.KeySource.{
  KeySource, CertCodec, Response, current, resolve_delegate_key, new_delegate_key_source,
  refresh_all, refresh, check_body, check_cert, checked_key, set_key,
}
use bitphase_file_share.KeySource.Certified.{IsCertified, current-IsCurrent}

-- The body is the delegate's key, and the signature is the root's.
abbrev plain_codec : CertCodec
plain_codec = record {
  decode_base64 = λ s. some s;
  encode_base64 = λ s. s;
  verify = λ root body sig. text_eq sig root;
  unmarshal_cert = λ body. ok (record {
    delegate_pub_key = body;
    root_pub_key = bytes "root";
    issued_at = pos 10;
    expires_at = pos 90;
  });
}

abbrev first_key : Text
first_key = bytes "0123456789abcdef0123456789abcdef"

abbrev second_key : Text
second_key = bytes "fedcba9876543210fedcba9876543210"

abbrev answer : Text → Result Response
answer key =
    ok (record {
      status_code = 200;
      status = bytes "200 OK";
      signature = bytes "root";
      body = ok key;
    })

abbrev held : KeySource
held = record { key = first_key; expires_at = pos 90 }

-- The first refresh fails and the second brings a new key.
abbrev rounds : List (ℤ × Result Response)
rounds = (pos 20, err (bytes "timeout")) ∷ (pos 30, answer second_key) ∷ []

started : new_delegate_key_source plain_codec (pos 10) (bytes "root") (answer first_key) ≡ ok held
unfolding new_delegate_key_source resolve_delegate_key check_body text_eq check_cert checked_key
started = refl

second_key_in_use :
    current (pos 90) (refresh_all plain_codec (bytes "root") held rounds) ≡ ok second_key
unfolding current refresh_all resolve_delegate_key int_eq refresh check_body text_eq check_cert
    checked_key set_key
second_key_in_use = refl

current-IsCurrent_example :
    (expires_at : ℤ) × IsCertified plain_codec (bytes "root") second_key expires_at
    × (pos 90 ≤ℤ expires_at)
current-IsCurrent_example =
    current-IsCurrent plain_codec (bytes "root") second_key (pos 10) (pos 90) (answer first_key)
      rounds held (ground arith) (ground arith, (ground arith, tt)) started second_key_in_use
