-- ===== src/Session/Auth/Steps.antt =====
-- What each step of authenticate means when it succeeds.
use bitphase_file_share.Prelude.{
  ℕ, ◌≡◌, ◌≢◌, inl, inr, refl, ◌∙◌, ap, false, not, ◌||◌, [], arith, ◌==◌, Text, bytes, text_eq,
  text_eq_iff, ℤ, Result, ok, err, fail_if-ok, some, ◌⊎◌, pos, int_eq, int_eq_iff, ltb_ℤ, ◌≤ℤ◌,
  ◌&&◌, Bool-cases, Option-cases,
}
use bitphase_file_share.Ws.Message.{write_message, receive}
use bitphase_file_share.Token.{ClientToken, verify_token}
use bitphase_file_share.KeySource.{KeySource, current, cert_expired}
use bitphase_file_share.Server.{FileShareServer}
use bitphase_file_share.Session.Envelope.{Envelope}
use bitphase_file_share.Session.Action.{Peer, Action, lift, on_ws, continue, ◌>>=◌}
use bitphase_file_share.Session.Dispatch.{SessionCodec}
use bitphase_file_share.Session.Handshake.{
  AuthCodec, Draws, bad_hello, bad_response, parse_hello, make_challenge, parse_response,
}
use bitphase_file_share.Session.Auth.{or_reject, check_hello, compare_response, prove_identity}

-- Inversion of an action that succeeded.
pub bind-eq-ok :
    {A B : Type 0} (m : Action A) (f : A → Action B) (p q : Peer) (b : B)
    → (m >>= f) p ≡ (ok b, q)
    → (a : A) × (p' : Peer) × (m p ≡ (ok a, p')) × (f a p' ≡ (ok b, q))
bind-eq-ok {A = A} {B = B} m f p q b h = inverted (m p) h
  where
    inverted :
        (r : Result A × Peer)
        → continue r.0 f r.1 ≡ (ok b, q)
        → (a : A) × (p' : Peer) × (r ≡ (ok a, p')) × (f a p' ≡ (ok b, q))
    inverted (ok a, p') k = (a, p', refl, k)
    inverted (err e, p') k = cc

-- The text of a hello under a key.
pub record IsHello (codec : SessionCodec) (raw : Text) (hello : Envelope) : Type 0 where
  pub parsed : codec.envelope.unmarshal raw ≡ some hello
  pub typed : hello.type ≡ bytes "hello"
  pub named : hello.pub_key ≢ []

pub parse_hello-ok :
    (codec : SessionCodec) (raw : Text) (opcode : ℕ) (hello : Envelope)
    → parse_hello codec (raw, opcode) ≡ ok hello
    → (opcode ≡ 1) × IsHello codec raw hello
unfolding parse_hello
parse_hello-ok codec raw opcode hello h =
    let (text, h₁) = fail_if-ok (not (opcode == 1)) _ _ hello h in
    elim (Option-cases (codec.envelope.unmarshal raw)) [
      | inl e ↦ cc (rw e at h₁)
      | inr (env, e) ↦
          let (test, same) =
            fail_if-ok (not (text_eq env.type (bytes "hello")) || text_eq env.pub_key []) bad_hello
              (ok env) hello (rw e at h₁) in
          let one : env ≡ hello = ground (arith, same) in
          let typed : env.type ≡ bytes "hello" =
            ground (arith, test, text_eq_iff env.type (bytes "hello")) in
          let named : env.pub_key ≢ [] = ground (arith, test, text_eq_iff env.pub_key []) in
          (
            ground (arith, text),
            record { parsed = e ∙ ap some one; typed = rw one at typed; named = rw one at named },
          )
    ]

pub parse_response-ok :
    (codec : SessionCodec) (raw : Text) (opcode : ℕ) (resp : Envelope)
    → parse_response codec (raw, opcode) ≡ ok resp
    → (opcode ≡ 1)
      × (codec.envelope.unmarshal raw ≡ some resp)
      × (resp.type ≡ bytes "challenge_response")
unfolding parse_response
parse_response-ok codec raw opcode resp h =
    let (text, h₁) = fail_if-ok (not (opcode == 1)) _ _ resp h in
    elim (Option-cases (codec.envelope.unmarshal raw)) [
      | inl e ↦ cc (rw e at h₁)
      | inr (env, e) ↦
          let (test, same) =
            fail_if-ok (not (text_eq env.type (bytes "challenge_response"))) bad_response (ok env)
              resp (rw e at h₁) in
          let one : env ≡ resp = ground (arith, same) in
          let typed : env.type ≡ bytes "challenge_response" =
            ground (arith, test, text_eq_iff env.type (bytes "challenge_response")) in
          (ground (arith, text), e ∙ ap some one, rw one at typed)
    ]

or_reject-ok :
    {A : Type 0} (codec : SessionCodec) (r : Result A) (p q : Peer) (a : A)
    → or_reject codec r p ≡ (ok a, q)
    → (r ≡ ok a) × (q ≡ p)
or_reject-ok codec (ok b) p q a h = (ground (arith, h), ground (arith, h))
or_reject-ok codec (err e) p q a h = cc

compare_response-ok :
    (codec : SessionCodec) (challenge : Text) (resp : Envelope) (p q : Peer) (u : Unit {0})
    → compare_response codec challenge resp p ≡ (ok u, q)
    → resp.response ≡ challenge
unfolding compare_response
compare_response-ok codec challenge resp p q u h =
    elim (Bool-cases (text_eq resp.response challenge)) [
      | inl same ↦ (text_eq_iff resp.response challenge).0 same
      | inr other ↦ cc (rw (other, compare_response) at h)
    ]

pub current-ok :
    (now : ℤ) (src : KeySource) (key : Text)
    → current now src ≡ ok key
    → (src.key ≡ key) × ((src.expires_at ≡ pos 0) ⊎ (now ≤ℤ src.expires_at))
unfolding current
current-ok now src key h =
    let (test, same) =
      fail_if-ok (not (int_eq src.expires_at (pos 0)) && ltb_ℤ src.expires_at now) cert_expired
        (ok src.key) key h in
    (ground (arith, same), ground (arith, test, int_eq_iff src.expires_at (pos 0)))

pub check_hello-ok :
    (codec : AuthCodec) (now : ℤ) (fs : FileShareServer) (hello : Envelope) (p q : Peer)
    (tok : ClientToken)
    → check_hello codec now fs hello p ≡ (ok tok, q)
    → (broker_pub : Text) × (current now fs.broker_pub ≡ ok broker_pub)
      × (verify_token codec.token broker_pub now hello.token fs.min_tier false ≡ ok tok)
      × (q ≡ p)
unfolding check_hello
check_hello-ok codec now fs hello p q tok h =
    let (broker_pub, p₁, e₁, h₁) =
      bind-eq-ok (or_reject codec.session (current now fs.broker_pub)) _ p q tok h in
    let (key, same₁) = or_reject-ok codec.session (current now fs.broker_pub) p p₁ broker_pub e₁ in
    let (verified, same₂) = or_reject-ok codec.session _ p₁ q tok h₁ in
    (broker_pub, key, verified, same₂ ∙ same₁)

-- What a client does after its token was accepted.
pub record IsSolved (codec : AuthCodec) (draws : Draws) (hello : Envelope) (p : Peer) : Type 0 where
  pub challenge : Text
  pub message : Text
  pub answer : Text
  pub resp : Envelope
  pub made : make_challenge codec draws hello ≡ ok (challenge, message)
  pub answered :
      (receive codec.session.max_message_size (write_message message p.ws).1).0 ≡ ok (answer, 1)
  pub parsed : codec.session.envelope.unmarshal answer ≡ some resp
  pub typed : resp.type ≡ bytes "challenge_response"
  pub solved : resp.response ≡ challenge

pub lift-ok :
    {A : Type 0} (r : Result A) (p q : Peer) (a : A) → lift r p ≡ (ok a, q) → (r ≡ ok a) × (q ≡ p)
lift-ok r p q a h = (ap (λ x. x.0) h, ground (arith, h))

pub prove_identity-ok :
    (codec : AuthCodec) (draws : Draws) (hello : Envelope) (p q : Peer) (u : Unit {0})
    → prove_identity codec draws hello p ≡ (ok u, q)
    → IsSolved codec draws hello p
unfolding prove_identity
prove_identity-ok codec draws hello p q u h =
    let limit = codec.session.max_message_size in
    let ((challenge, message), p₁, e₁, h₁) =
      bind-eq-ok (lift (make_challenge codec draws hello)) _ p q u h in
    let (made, same₁) = lift-ok (make_challenge codec draws hello) p p₁ (challenge, message) e₁ in
    let (u₂, p₂, e₂, h₂) = bind-eq-ok (on_ws (write_message message)) _ p₁ q u h₁ in
    let ((answer, opcode), p₃, e₃, h₃) = bind-eq-ok (on_ws (receive limit)) _ p₂ q u h₂ in
    let (resp, p₄, e₄, h₄) =
      bind-eq-ok (lift (parse_response codec.session (answer, opcode))) _ p₃ q u h₃ in
    let (accepted, same₄) = lift-ok (parse_response codec.session (answer, opcode)) p₃ p₄ resp e₄ in
    let (text, parsed, typed) = parse_response-ok codec.session answer opcode resp accepted in
    let (u₅, p₅, e₅, h₅) = bind-eq-ok (compare_response codec.session challenge resp) _ p₄ q u h₄ in
    let written : (write_message message p.ws).1 ≡ p₂.ws = rw same₁ at (ap (λ r. r.1.ws) e₂) in
    let got : (receive limit p₂.ws).0 ≡ ok (answer, 1) =
      ap (λ r. r.0) e₃ ∙ ap (λ k. ok (answer, k)) text in
    record {
      challenge = challenge;
      message = message;
      answer = answer;
      resp = resp;
      made = made;
      answered = rw written got;
      parsed = parsed;
      typed = typed;
      solved = compare_response-ok codec.session challenge resp p₄ p₅ u₅ e₅;
    }
