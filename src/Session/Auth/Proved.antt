-- ===== src/Session/Auth/Proved.antt =====
-- Who is let in.
use bitphase_file_share.Prelude.{
  ℕ, ◌≡◌, ◌≢◌, sym, ◌∙◌, ap, false, [], some, bytes, pos, ◌⊎◌, ◌≤ℤ◌, Text, ok, err,
}
use bitphase_file_share.Ws.Message.{write_message, receive}
use bitphase_file_share.Token.{ClientToken, TokenCodec}
use bitphase_file_share.Token.Accepted.{IsSigned, IsEntitled, verify_token_iff}
use bitphase_file_share.Server.{FileShareServer, unix}
use bitphase_file_share.Session.Envelope.{Envelope}
use bitphase_file_share.Session.Action.{Peer, lift, on_ws}
use bitphase_file_share.Session.Handshake.{AuthCodec, Draws, parse_hello}
use bitphase_file_share.Session.Auth.{check_hello, prove_identity, authenticate}
use bitphase_file_share.Session.Auth.Challenge.{
  IsMac, IsSealed, IsSealed-for, make_challenge-IsSealed,
}
use bitphase_file_share.Session.Auth.Steps.{
  IsHello, current-ok, bind-eq-ok, parse_hello-ok, check_hello-ok, lift-ok, prove_identity-ok,
}

-- What the client has shown: its first message was a hello under the key, with a token that the
-- broker's key of the moment accepts, and what it sent after the challenge had been written, sealed
-- for the key, is the challenge.
pub record IsProved (codec : AuthCodec) (now : ℕ) (draws : Draws) (fs : FileShareServer) (p : Peer)
    (pubkey : Text) (tok : ClientToken) : Type 0 where
  pub first : Text
  pub hello : Envelope
  pub challenge : Text
  pub message : Text
  pub answer : Text
  pub resp : Envelope
  pub heard : (receive codec.session.max_message_size p.ws).0 ≡ ok (first, 1)
  pub greeted : IsHello codec.session first hello
  pub known : hello.pub_key ≡ pubkey
  pub named : pubkey ≢ []
  pub unexpired : (fs.broker_pub.expires_at ≡ pos 0) ⊎ (unix now ≤ℤ fs.broker_pub.expires_at)
  pub signed : IsSigned codec.token fs.broker_pub.key hello.token tok
  pub entitled : IsEntitled (unix now) fs.min_tier false tok
  pub sealed : IsSealed codec draws pubkey challenge message
  pub answered :
      (receive codec.session.max_message_size
        (write_message message (receive codec.session.max_message_size p.ws).1).1).0
      ≡ ok (answer, 1)
  pub parsed : codec.session.envelope.unmarshal answer ≡ some resp
  pub typed : resp.type ≡ bytes "challenge_response"
  pub solved : resp.response ≡ challenge

IsSigned-by :
    (codec : TokenCodec) (a b token : Text) (tok : ClientToken)
    → a ≡ b
    → IsSigned codec a token tok
    → IsSigned codec b token tok
IsSigned-by codec a b token tok same h = rw same at h

-- Nobody is let in under no key.
pub authenticate-named :
    (codec : AuthCodec) (now : ℕ) (draws : Draws) (fs : FileShareServer) (p q : Peer)
    (pubkey : Text) (tok : ClientToken)
    → authenticate codec now draws fs p ≡ (ok (pubkey, tok), q)
    → pubkey ≢ []
unfolding authenticate
authenticate-named codec now draws fs p q pubkey tok h =
    let limit = codec.session.max_message_size in
    let ((first, opcode), p₁, e₁, h₁) = bind-eq-ok (on_ws (receive limit)) _ p q (pubkey, tok) h in
    let (hello, p₂, e₂, h₂) =
      bind-eq-ok (lift (parse_hello codec.session (first, opcode))) _ p₁ q (pubkey, tok) h₁ in
    let (greeted, same₂) = lift-ok (parse_hello codec.session (first, opcode)) p₁ p₂ hello e₂ in
    let (t, p₃, e₃, h₃) =
      bind-eq-ok (check_hello codec (unix now) fs hello) _ p₂ q (pubkey, tok) h₂ in
    let (u, p₄, e₄, h₄) = bind-eq-ok (prove_identity codec draws hello) _ p₃ q (pubkey, tok) h₃ in
    let one : hello.pub_key ≡ pubkey =
      ap (λ x. elim x.0 [ ok y ↦ y.0 | err e ↦ hello.pub_key ]) h₄ in
    rw one at (parse_hello-ok codec.session first opcode hello greeted).1.named

-- A client that is let in under a key has sent, as its first message, a hello with that key and a
-- token that the broker's key of the moment has signed, that has not expired, whose tier is enough
-- and whose plan is not one of a VPN; and after the server had drawn a challenge and written it,
-- sealed under the HKDF of RFC 5869 of what its fresh key and that key agree on, the client answered
-- with a response that is the challenge. The MAC gives 32 bytes.
pub authenticate-IsProved :
    (codec : AuthCodec) (now : ℕ) (draws : Draws) (fs : FileShareServer) (p q : Peer)
    (pubkey : Text) (tok : ClientToken)
    → IsMac codec.crypto
    → authenticate codec now draws fs p ≡ (ok (pubkey, tok), q)
    → IsProved codec now draws fs p pubkey tok
unfolding authenticate
authenticate-IsProved codec now draws fs p q pubkey tok mac h =
    let limit = codec.session.max_message_size in
    let ((first, opcode), p₁, e₁, h₁) = bind-eq-ok (on_ws (receive limit)) _ p q (pubkey, tok) h in
    let (hello, p₂, e₂, h₂) =
      bind-eq-ok (lift (parse_hello codec.session (first, opcode))) _ p₁ q (pubkey, tok) h₁ in
    let (greeted, same₂) = lift-ok (parse_hello codec.session (first, opcode)) p₁ p₂ hello e₂ in
    let (text, greeting) = parse_hello-ok codec.session first opcode hello greeted in
    let (t, p₃, e₃, h₃) =
      bind-eq-ok (check_hello codec (unix now) fs hello) _ p₂ q (pubkey, tok) h₂ in
    let (broker_pub, keyed, verified, same₃) =
      check_hello-ok codec (unix now) fs hello p₂ p₃ t e₃ in
    let (same_key, unexpired) = current-ok (unix now) fs.broker_pub broker_pub keyed in
    let (u, p₄, e₄, h₄) = bind-eq-ok (prove_identity codec draws hello) _ p₃ q (pubkey, tok) h₃ in
    let one : hello.pub_key ≡ pubkey =
      ap (λ x. elim x.0 [ ok y ↦ y.0 | err e ↦ hello.pub_key ]) h₄ in
    let two : t ≡ tok = ap (λ x. elim x.0 [ ok y ↦ y.1 | err e ↦ t ]) h₄ in
    let (signed, entitled) =
      (verify_token_iff codec.token broker_pub (unix now) hello.token fs.min_tier false tok).0
        (rw two at verified) in
    let solved = prove_identity-ok codec draws hello p₃ p₄ u e₄ in
    let read : (receive limit p.ws).1 ≡ p₃.ws =
      ap (λ r. r.1.ws) e₁ ∙ ap (λ (x : Peer). x.ws) (sym (same₃ ∙ same₂)) in
    record {
      first = first;
      hello = hello;
      challenge = solved.challenge;
      message = solved.message;
      answer = solved.answer;
      resp = solved.resp;
      heard = ap (λ r. r.0) e₁ ∙ ap (λ k. ok (first, k)) text;
      greeted = greeting;
      known = one;
      named = rw one at greeting.named;
      unexpired = unexpired;
      signed =
          IsSigned-by codec.token broker_pub fs.broker_pub.key hello.token tok (sym same_key)
            signed;
      entitled = entitled;
      sealed = IsSealed-for codec draws hello.pub_key pubkey solved.challenge solved.message one (
          make_challenge-IsSealed codec draws hello solved.challenge solved.message mac
            solved.made);
      answered = rw read solved.answered;
      parsed = solved.parsed;
      typed = solved.typed;
      solved = solved.solved;
    }
