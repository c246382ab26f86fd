-- ===== src/Session/History.antt =====
-- A whole session: it ends, and it has changed the store by calls that the client may make.
use bitphase_file_share.Prelude.{
  ℕ, zero, suc, ◌≡◌, ◌≤◌, ◌<◌, inl, inr, refl, Bool, true, false, List, [], ◌∷◌, Option, none, some,
  arith, ◌==◌, length, length-take, Text, bytes, ℤ, leb_ℤ, Result, ok, err, Bool-cases,
  Option-cases, ap,
}
use bitphase_file_share.Ws.Frame.{op_text}
use bitphase_file_share.Ws.Message.{WsConn, write_message, close}
use bitphase_file_share.Ws.Progress.{Taken, receive-Taken}
use bitphase_file_share.Store.Meta.{MetaJson}
use bitphase_file_share.Store.Ops.{Store}
use bitphase_file_share.Store.Run.{Event, step_call, run}
use bitphase_file_share.Server.{unix}
use bitphase_file_share.Session.Envelope.{blank}
use bitphase_file_share.Session.Action.{Peer}
use bitphase_file_share.Session.Dispatch.{SessionCodec, dispatch, marshal_or_nil}
use bitphase_file_share.Session.Loop.{
  Tick, fire, expired_message, run_timer, goes_on, on_text, on_message, round, next, loop, hang_up,
  serve_session,
}
use bitphase_file_share.Session.Relates.{Reads, input-write_message}
use bitphase_file_share.Session.Reads.{dispatch-Reads}
use bitphase_file_share.Session.Permitted.{IsPermitted, Permits, dispatch-Permits}

-- Each event of the history was a call that the client might make when it happened.
abbrev pub ArePermitted : MetaJson → Text → List Event → Store → Type 0
ArePermitted j pubkey [] s = Unit
ArePermitted j pubkey (e ∷ es) s =
    IsPermitted pubkey e.call s × ArePermitted j pubkey es (step_call j e.now e.io e.call s)

abbrev pub Evolves : MetaJson → Text → Store → Store → Type 0
Evolves j pubkey s s' = (es : List Event) × ArePermitted j pubkey es s × (s' ≡ run j es s)

Evolves-step :
    (codec : SessionCodec) (tick : Tick) (pubkey : Text) (s₀ s₁ s₂ : Store)
    → Permits codec.meta tick.now tick.io pubkey s₀ s₁
    → Evolves codec.meta pubkey s₁ s₂
    → Evolves codec.meta pubkey s₀ s₂
unfolding run
Evolves-step codec tick pubkey s₀ s₁ s₂ (inl same) h = rw same at h
Evolves-step codec tick pubkey s₀ s₁ s₂ (inr (c, permitted, made)) h =
    let (es, all, e) = rw made at h in
    (record { now = tick.now; io = tick.io; call = c } ∷ es, (permitted, all), e)

input-close : (buffered : ℕ) (c : WsConn) → length (close buffered c).input ≤ length c.input
unfolding close
input-close buffered c = omega (arith, length-take buffered c.input)

-- What a round does: it reads, and makes at most one permitted call; a round that goes on has read
-- one byte at least.
pub record IsRound (codec : SessionCodec) (tick : Tick) (pubkey : Text) (p : Peer) (r : Bool × Peer)
    : Type 0 where
  pub reads : r.0 ≡ true → length r.1.ws.input < length p.ws.input
  pub permits : Permits codec.meta tick.now tick.io pubkey p.store r.1.store

module _ (codec : SessionCodec) (tick : Tick) (pubkey : Text) where
  store-goes_on : (r : Result (Unit {0}) × Peer) → (goes_on r).1 ≡ r.1
  store-goes_on (ok u, p) = refl
  store-goes_on (err e, p) = refl

  on_text-IsRound :
      (raw : Text) (p : Peer) (c : WsConn)
      → length c.input < length p.ws.input
      → IsRound codec tick pubkey p (on_text codec tick pubkey raw (record p { ws = c }))
  unfolding on_text
  on_text-IsRound raw p c lt = elim (Option-cases (codec.envelope.unmarshal raw)) [
    | inl e ↦ rw (e, on_text) (record { reads = λ h. lt; permits = inl refl })
    | inr (env, e) ↦
        let q : Peer = record p { ws = c } in
        let step = dispatch codec tick.now tick.io pubkey env q in
        let after : (goes_on step).1 ≡ step.1 = store-goes_on step in
        rw (e, on_text)
          (record {
            reads = λ h.
                rw after (omega (arith, lt, dispatch-Reads codec tick.now tick.io pubkey env q));
            permits = rw after (dispatch-Permits codec tick.now tick.io pubkey env q);
          })
  ]

  on_message-IsRound :
      (p : Peer) (r : Result (Text × ℕ) × WsConn)
      → Taken (length p.ws.input) r
      → IsRound codec tick pubkey p (on_message codec tick pubkey p r)
  unfolding on_message
  on_message-IsRound p (err e, c) h = record { reads = λ f. cc; permits = inl refl }
  on_message-IsRound p (ok (raw, opcode), c) h = elim (Bool-cases (opcode == op_text)) [
    | inl text ↦ rw (text, on_message) (on_text-IsRound raw p c h)
    | inr other ↦ rw (other, on_message) (record { reads = λ f. h; permits = inl refl })
  ]

  pub round-IsRound : (p : Peer) → IsRound codec tick pubkey p (round codec tick pubkey p)
  unfolding round
  round-IsRound p = on_message-IsRound p _ (receive-Taken codec.max_message_size p.ws)

  fire-Reads : (p : Peer) → Reads p (fire codec tick.buffered p)
  unfolding fire
  fire-Reads p =
      let told =
        write_message
          (marshal_or_nil codec.envelope
            (record blank { type = bytes "session_expired"; error = expired_message }))
          p.ws in
      omega (
        arith,
        input-close tick.buffered told.1,
        ap (λ (t : Text). length t)
            (input-write_message
              (marshal_or_nil codec.envelope
                (record blank { type = bytes "session_expired"; error = expired_message }))
              p.ws),
      )

  pub run_timer-Reads :
      (timer : Option ℤ) (p : Peer)
      → Reads p (run_timer codec tick timer p).1
        × ((run_timer codec tick timer p).1.store ≡ p.store)
  unfolding run_timer
  run_timer-Reads none p = (omega arith, refl)
  run_timer-Reads (some expires_at) p = elim (Bool-cases (leb_ℤ expires_at (unix tick.now))) [
    | inl due ↦ rw (due, run_timer) (fire-Reads p, unfold fire in refl)
    | inr early ↦ rw (early, run_timer) (omega arith, refl)
  ]

-- The session that comes back, and its history.
abbrev pub IsServed : MetaJson → Text → Peer → Option Peer → Type 0
IsServed j pubkey p none = ⊥
IsServed j pubkey p (some q) = Evolves j pubkey p.store q.store

module _ (codec : SessionCodec) (pubkey : Text) (world : ℕ → Tick) where
  IsServed-step :
      (tick : Tick) (p q : Peer) (r : Option Peer)
      → Permits codec.meta tick.now tick.io pubkey p.store q.store
      → IsServed codec.meta pubkey q r
      → IsServed codec.meta pubkey p r
  IsServed-step tick p q none step h = h
  IsServed-step tick p q (some s) step h =
      Evolves-step codec tick pubkey p.store q.store s.store step h

  next-IsServed :
      (tick : Tick) (again : Option ℤ → Peer → Option Peer) (timer : Option ℤ) (p : Peer)
      (r : Bool × Peer)
      → Permits codec.meta tick.now tick.io pubkey p.store r.1.store
      → (r.0 ≡ true → IsServed codec.meta pubkey r.1 (again timer r.1))
      → IsServed codec.meta pubkey p (next again timer r)
  unfolding run
  next-IsServed tick again timer p (true, q) step more = IsServed-step tick p q _ step (more refl)
  next-IsServed tick again timer p (false, q) step more =
      IsServed-step tick p q (some q) step ([], tt, refl)

  loop-IsServed :
      (fuel k : ℕ) (timer : Option ℤ) (p : Peer)
      → length p.ws.input < fuel
      → IsServed codec.meta pubkey p (loop codec pubkey world fuel k timer p)
  unfolding loop
  loop-IsServed zero k timer p lt = absurd (omega (arith, lt))
  loop-IsServed (suc fuel) k timer p lt =
      let (timer', p') = run_timer codec (world k) timer p in
      let (fewer, same) = run_timer-Reads codec (world k) pubkey timer p in
      let step = round-IsRound codec (world k) pubkey p' in
      next-IsServed (world k) (loop codec pubkey world fuel (suc k)) timer' p
        (round codec (world k) pubkey p') (rw same at step.permits)
        (λ on. loop-IsServed fuel (suc k) timer' _ (omega (arith, lt, fewer, step.reads on)))

-- Whatever bytes a client sends and whatever the disk does, the session of an authenticated client
-- ends, and the store has gone through a history of calls each of which this client might make when
-- it was made.
pub serve_session-Evolves :
    (codec : SessionCodec) (pubkey : Text) (world : ℕ → Tick) (expires_at : ℤ) (p : Peer)
    → (q : Peer) × (serve_session codec pubkey world expires_at p ≡ some q)
      × Evolves codec.meta pubkey p.store q.store
unfolding serve_session
serve_session-Evolves codec pubkey world expires_at p =
    hung_up (loop codec pubkey world (suc (length p.ws.input)) 0 (some expires_at) p) (
      loop-IsServed codec pubkey world (suc (length p.ws.input)) 0 (some expires_at) p
        (omega arith))
  where
    hung_up :
        (r : Option Peer)
        → IsServed codec.meta pubkey p r
        → (q : Peer) × (elim r [ none ↦ none | some p' ↦ some (hang_up p') ] ≡ some q)
          × Evolves codec.meta pubkey p.store q.store
    hung_up none h = absurd h
    hung_up (some q) h = (record q { ws = close 0 q.ws }, refl, h)
