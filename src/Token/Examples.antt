-- ===== src/Token/Examples.antt =====
-- The theorems on tokens at a concrete codec.
use bitphase_file_share.Prelude.{◌≡◌, ◌↔◌, refl, true, some, bytes, text_eq, pos, ok}
use bitphase_file_share.Token.{
  ClientToken, TokenCodec, verify_token, cut_dot, check_claims, tier_rank, plan_refused,
}
use bitphase_file_share.Token.Accepted.{IsSigned, IsEntitled, verify_token_iff}

-- The payload names the client, and the signature is the broker's name.
abbrev vpn_codec : TokenCodec
vpn_codec = record {
  decode_base64 = λ s. some s;
  verify = λ broker_pub payload sig. text_eq sig broker_pub;
  unmarshal_token = λ payload. some (record {
    client_id = payload;
    tier = bytes "paid";
    plan = bytes "vpn";
    issued_at = pos 1;
    expires_at = pos 50;
  });
}

abbrev bob : ClientToken
bob = record {
  client_id = bytes "bob";
  tier = bytes "paid";
  plan = bytes "vpn";
  issued_at = pos 1;
  expires_at = pos 50;
}

verify_token_iff_example :
    (verify_token vpn_codec (bytes "broker") (pos 50) (bytes "bob.broker") (bytes "paid") true
      ≡ ok bob)
    ↔ (IsSigned vpn_codec (bytes "broker") (bytes "bob.broker") bob
        × IsEntitled (pos 50) (bytes "paid") true bob)
verify_token_iff_example =
    verify_token_iff vpn_codec (bytes "broker") (pos 50) (bytes "bob.broker") (bytes "paid") true
      bob

bob_accepted :
    verify_token vpn_codec (bytes "broker") (pos 50) (bytes "bob.broker") (bytes "paid") true
    ≡ ok bob
unfolding verify_token cut_dot text_eq check_claims tier_rank plan_refused
bob_accepted = refl
