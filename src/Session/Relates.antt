-- ===== src/Session/Relates.antt =====
-- What an action does to its peer, rule by rule.
use bitphase_file_share.Prelude.{ℕ, ◌≡◌, ◌≤◌, refl, ◌∙◌, arith, length, Text, Result, ok, err, ap}
use bitphase_file_share.Ws.Message.{WsConn, send_frame, write_message, write_binary, receive}
use bitphase_file_share.Ws.Total.{input-send_with}
use bitphase_file_share.Ws.Progress.{Taken, receive-Taken}
use bitphase_file_share.Session.Envelope.{Envelope}
use bitphase_file_share.Session.Action.{Peer, Action, lift, on_ws, continue, ◌>>=◌}
use bitphase_file_share.Session.Dispatch.{SessionCodec, reply}

-- Every run goes from a peer to one that it is related to.
abbrev pub Relates : (Peer → Peer → Type 0) → {A : Type 0} → Action A → Type 0
Relates R m = (p : Peer) → R p (m p).1

module _ (R : Peer → Peer → Type 0) (reflexive : (p : Peer) → R p p)
    (transitive : (p q r : Peer) → R p q → R q r → R p r) where
  pub continue-Relates :
      {A B : Type 0} (r : Result A) (f : A → Action B) (p q : Peer)
      → R p q
      → ((a : A) → Relates R (f a))
      → R p (continue r f q).1
  continue-Relates (ok a) f p q h k = transitive p q (f a q).1 h (k a q)
  continue-Relates (err e) f p q h k = h

  pub bind-Relates :
      {A B : Type 0} (m : Action A) (f : A → Action B)
      → Relates R m
      → ((a : A) → Relates R (f a))
      → Relates R (m >>= f)
  bind-Relates m f h k p = continue-Relates (m p).0 f p (m p).1 (h p) k

-- No action puts bytes back.
abbrev pub Reads : Peer → Peer → Type 0
Reads p q = length q.ws.input ≤ length p.ws.input

pub Reads-refl : (p : Peer) → Reads p p
Reads-refl p = omega arith

pub Reads-trans : (p q r : Peer) → Reads p q → Reads q r → Reads p r
Reads-trans p q r h k = omega (arith, h, k)

-- The store is left alone.
abbrev pub Spares : Peer → Peer → Type 0
Spares p q = q.store ≡ p.store

pub Spares-refl : (p : Peer) → Spares p p
Spares-refl p = refl

pub Spares-trans : (p q r : Peer) → Spares p q → Spares q r → Spares p r
Spares-trans p q r h k = k ∙ h

pub input-write_message : (b : Text) (c : WsConn) → (write_message b c).1.input ≡ c.input
unfolding write_message send_frame
input-write_message b c = input-send_with _ b c c.keys

pub input-write_binary : (b : Text) (c : WsConn) → (write_binary b c).1.input ≡ c.input
unfolding write_binary send_frame
input-write_binary b c = input-send_with _ b c c.keys

pub write_message-Reads : (b : Text) → Relates Reads (on_ws (write_message b))
write_message-Reads b p = omega (arith, ap (λ (t : Text). length t) (input-write_message b p.ws))

pub write_binary-Reads : (b : Text) → Relates Reads (on_ws (write_binary b))
write_binary-Reads b p = omega (arith, ap (λ (t : Text). length t) (input-write_binary b p.ws))

Taken-le : (bound : ℕ) (r : Result (Text × ℕ) × WsConn) → Taken bound r → length r.1.input ≤ bound
Taken-le bound (err e, c) h = h
Taken-le bound (ok p, c) h = omega (arith, h)

pub receive-Reads : (limit : ℕ) → Relates Reads (on_ws (receive limit))
receive-Reads limit p = Taken-le (length p.ws.input) _ (receive-Taken limit p.ws)

pub reply-Reads : (codec : SessionCodec) (env : Envelope) → Relates Reads (reply codec env)
unfolding reply
reply-Reads codec env =
    bind-Relates Reads Reads-refl Reads-trans (lift (codec.envelope.marshal env)) _ Reads-refl
      write_message-Reads

pub reply-Spares : (codec : SessionCodec) (env : Envelope) → Relates Spares (reply codec env)
unfolding reply
reply-Spares codec env =
    bind-Relates Spares Spares-refl Spares-trans (lift (codec.envelope.marshal env)) _ Spares-refl
      (λ b p. refl)
