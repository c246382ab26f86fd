-- ===== src/Token.antt =====
-- token.go: access tokens, checked offline against the broker's public key.
pub mod Accepted
mod Examples
use bitphase_file_share.Prelude.{
  ℕ, zero, suc, ◌≡◌, Bool, true, false, not, ◌&&◌, ◌||◌, List, [], ◌∷◌, ◌++◌, Option, none, some,
  ltb, ◌==◌, if◌then◌else◌, Text, bytes, text_eq, ℤ, pos, ltb_ℤ, Result, ok, err, ◌>>=◌, or_error,
  fail_if,
}

-- Times are Unix seconds.
pub record ClientToken : Type 0 where
  pub client_id : Text
  pub tier : Text
  pub plan : Text
  pub issued_at : ℤ
  pub expires_at : ℤ

-- What token.go calls of encoding/base64, crypto/ed25519 and encoding/json.
pub record TokenCodec : Type 0 where
  pub decode_base64 : Text → Option Text
  pub verify : Text → Text → Text → Bool
  pub unmarshal_token : Text → Option ClientToken

-- strings.Cut(token, ".")
unfoldable pub cut_dot : Text → Option (Text × Text)
cut_dot [] = none
cut_dot (c ∷ s) =
    if c == b'.'
    then some ([], s)
    else elim (cut_dot s) [ none ↦ none | some (before, after) ↦ some (c ∷ before, after) ]

-- A tier that the map tierRank does not have counts as 0.
unfoldable pub tier_rank : Text → ℕ
tier_rank tier = if text_eq tier (bytes "paid") then 1 else 0

unfoldable pub plan_refused : Bool → Text → Bool
plan_refused allow_vpn plan =
    not (text_eq plan [])
    && not (text_eq plan (bytes "full"))
    && not (allow_vpn && text_eq plan (bytes "vpn"))

unfoldable pub check_claims : ℤ → Text → Bool → ClientToken → Result ClientToken
check_claims now min_tier allow_vpn tok =
    fail_if (ltb (tier_rank tok.tier) (tier_rank min_tier))
      (bytes "token tier "
        ++ tok.tier
        ++ bytes " is below the required "
        ++ min_tier
        ++ bytes " tier")
      (fail_if (plan_refused allow_vpn tok.plan)
        (bytes "token plan " ++ tok.plan ++ bytes " does not include this service")
        (fail_if (ltb_ℤ tok.expires_at now) (bytes "token expired") (ok tok)))

unfoldable pub verify_token : TokenCodec → Text → ℤ → Text → Text → Bool → Result ClientToken
verify_token codec broker_pub now token min_tier allow_vpn = do
  (payload_b64, sig_b64) ←
      or_error (cut_dot token) (bytes "malformed token: expected <payload>.<signature>")
  payload ← or_error (codec.decode_base64 payload_b64) (bytes "malformed token payload encoding")
  sig ← or_error (codec.decode_base64 sig_b64) (bytes "malformed token signature encoding")
  fail_if (not (codec.verify broker_pub payload sig)) (bytes "token signature verification failed")
      do
        tok ← or_error (codec.unmarshal_token payload) (bytes "malformed token claims")
        check_claims now min_tier allow_vpn tok
