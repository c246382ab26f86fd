-- ===== src/Session/Healthy.antt =====
-- A connection on which writes succeed, and JSON that can be written.
use bitphase_file_share.Prelude.{◌≡◌, refl, ◌∙◌, ap, ◌++◌, none, Text, Result, ok}
use bitphase_file_share.Ws.Frame.{write_frame, op_text, op_binary}
use bitphase_file_share.Ws.Message.{send, send_frame, write_message, write_binary}
use bitphase_file_share.Ws.Reassembly.{server}
use bitphase_file_share.Store.Ops.{Store}
use bitphase_file_share.Session.Envelope.{Envelope, EnvelopeJson}
use bitphase_file_share.Session.Action.{Peer, Action, lift, on_ws, continue, ◌>>=◌}
use bitphase_file_share.Session.Dispatch.{SessionCodec, marshal_or_nil, reply}

-- A server's connection that is up.
abbrev pub online : Store → Text → Text → Peer
online s input out = record { ws = server input out; store = s }

-- json.Marshal fails on no control message, and gives `text`.
abbrev pub IsMarshal : EnvelopeJson → (Envelope → Text) → Type 0
IsMarshal j text = (env : Envelope) → j.marshal env ≡ ok (text env)

-- The frame of a control message.
abbrev pub text_frame : (Envelope → Text) → Envelope → Text
text_frame text env = write_frame none op_text (text env)

pub bind-ok :
    {A B : Type 0} (m : Action A) (f : A → Action B) (p q : Peer) (a : A)
    → m p ≡ (ok a, q)
    → (m >>= f) p ≡ f a q
bind-ok {A = A} m f p q a h = ap (λ (r : Result A × Peer). continue r.0 f r.1) h

pub marshal_or_nil_lem :
    (j : EnvelopeJson) (text : Envelope → Text) (env : Envelope)
    → IsMarshal j text
    → marshal_or_nil j env ≡ text env
marshal_or_nil_lem j text env m = rw (m env, marshal_or_nil) refl

module _ (s : Store) (input out b : Text) where
  pub write_message-online :
      on_ws (write_message b) (online s input out)
      ≡ (ok tt, online s input (out ++ write_frame none op_text b))
  unfolding write_message send_frame send
  write_message-online = refl

  pub write_binary-online :
      on_ws (write_binary b) (online s input out)
      ≡ (ok tt, online s input (out ++ write_frame none op_binary b))
  unfolding write_binary send_frame send
  write_binary-online = refl

pub reply-online :
    (codec : SessionCodec) (text : Envelope → Text) (env : Envelope) (s : Store) (input out : Text)
    → IsMarshal codec.envelope text
    → reply codec env (online s input out) ≡ (ok tt, online s input (out ++ text_frame text env))
unfolding reply
reply-online codec text env s input out m =
    bind-ok (lift (codec.envelope.marshal env)) (λ b. on_ws (write_message b)) (online s input out)
      (online s input out) (text env) (ap (λ r. (r, online s input out)) (m env))
    ∙ write_message-online s input out (text env)
