-- ===== src/Session/Expiry.antt =====
-- An expired token ends a session.
use bitphase_file_share.Prelude.{
  ℕ, zero, suc, ◌≡◌, ◌<◌, inl, inr, refl, ap, ◌∙◌, Bool, true, false, List, [], ◌∷◌, Option, none,
  some, arith, length, All, Text, ℤ, leb_ℤ, ◌<ℤ◌, err, Bool-cases,
}
use bitphase_file_share.Ws.Frame.{read_full, read_frame, eof}
use bitphase_file_share.Ws.Message.{WsConn, read_loop, read_message, receive, close}
use bitphase_file_share.Store.Meta.{MetaJson}
use bitphase_file_share.Store.Ops.{Store}
use bitphase_file_share.Store.Run.{Event, run}
use bitphase_file_share.Server.{unix}
use bitphase_file_share.Session.Action.{Peer}
use bitphase_file_share.Session.Dispatch.{SessionCodec}
use bitphase_file_share.Session.Loop.{
  Tick, fire, run_timer, on_message, round, next, loop, hang_up, serve_session,
}
use bitphase_file_share.Session.Permitted.{Permits}
use bitphase_file_share.Session.History.{ArePermitted, round-IsRound}

-- A permitted history whose events all happened before the expiry.
abbrev pub EvolvesBefore : MetaJson → Text → ℤ → Store → Store → Type 0
EvolvesBefore j pubkey expires_at s s' =
    (es : List Event) × ArePermitted j pubkey es s
    × All (λ e. unix e.now <ℤ expires_at) es
    × (s' ≡ run j es s)

abbrev pub IsServedBefore : MetaJson → Text → ℤ → Store → Option Peer → Type 0
IsServedBefore j pubkey expires_at s none = ⊥
IsServedBefore j pubkey expires_at s (some q) = EvolvesBefore j pubkey expires_at s q.store

receive-empty : (limit : ℕ) (c : WsConn) → c.input ≡ [] → receive limit c ≡ (err eof, c)
unfolding receive read_message read_loop read_frame read_full
receive-empty limit c e = let failed : read_frame c.input ≡ err eof = rw e refl in rw failed refl

module _ (codec : SessionCodec) (pubkey : Text) where
  round-stops : (tick : Tick) (p : Peer) → p.ws.input ≡ [] → round codec tick pubkey p ≡ (false, p)
  unfolding round on_message
  round-stops tick p e = rw (receive-empty codec.max_message_size p.ws e) refl

  input-fire :
      (tick : Tick) (p : Peer) → tick.buffered ≡ 0 → (fire codec tick.buffered p).ws.input ≡ []
  unfolding fire close
  input-fire tick p e = rw e refl

  module _ (expires_at : ℤ) where
    EvolvesBefore-step :
        (tick : Tick) (s₀ s₁ : Store) (r : Option Peer)
        → unix tick.now <ℤ expires_at
        → Permits codec.meta tick.now tick.io pubkey s₀ s₁
        → IsServedBefore codec.meta pubkey expires_at s₁ r
        → IsServedBefore codec.meta pubkey expires_at s₀ r
    unfolding run
    EvolvesBefore-step tick s₀ s₁ none early step h = h
    EvolvesBefore-step tick s₀ s₁ (some q) early (inl same) h = rw same at h
    EvolvesBefore-step tick s₀ s₁ (some q) early (inr (c, permitted, made)) h =
        let (es, all, times, e) = rw made at h in
        (
          record { now = tick.now; io = tick.io; call = c } ∷ es,
          (permitted, all),
          (early, times),
          e,
        )

module _ (codec : SessionCodec) (pubkey : Text) (world : ℕ → Tick)
    (unbuffered : (k : ℕ) → (world k).buffered ≡ 0) (expires_at : ℤ) where
  -- The timer has fired: what it left is not read.
  loop-due :
      (fuel k : ℕ) (p : Peer)
      → leb_ℤ expires_at (unix (world k).now) ≡ true
      → loop codec pubkey world (suc fuel) k (some expires_at) p
        ≡ some (fire codec (world k).buffered p)
  unfolding loop
  loop-due fuel k p due =
      let fired = fire codec (world k).buffered p in
      let quiet =
        round-stops codec pubkey (world k) fired
          (input-fire codec pubkey (world k) p (unbuffered k)) in
      let timer : run_timer codec (world k) (some expires_at) p ≡ (none, fired) =
        unfold run_timer in rw (due, run_timer) refl in
      ap (λ t. next (loop codec pubkey world fuel (suc k)) t.0 (round codec (world k) pubkey t.1))
        timer
      ∙ ap (λ r. next (loop codec pubkey world fuel (suc k)) none r) quiet

  loop-early :
      (fuel k : ℕ) (p : Peer)
      → leb_ℤ expires_at (unix (world k).now) ≡ false
      → loop codec pubkey world (suc fuel) k (some expires_at) p
        ≡ next
            (loop codec pubkey world fuel (suc k))
            (some expires_at)
            (round codec (world k) pubkey p)
  unfolding loop
  loop-early fuel k p early =
      let timer : run_timer codec (world k) (some expires_at) p ≡ (some expires_at, p) =
        unfold run_timer in rw (early, run_timer) refl in
      ap (λ t. next (loop codec pubkey world fuel (suc k)) t.0 (round codec (world k) pubkey t.1))
        timer

  next-IsServedBefore :
      (k : ℕ) (again : Option ℤ → Peer → Option Peer) (p : Peer) (r : Bool × Peer)
      → unix (world k).now <ℤ expires_at
      → Permits codec.meta (world k).now (world k).io pubkey p.store r.1.store
      → (r.0 ≡ true
          → IsServedBefore codec.meta pubkey expires_at r.1.store (again (some expires_at) r.1))
      → IsServedBefore codec.meta pubkey expires_at p.store (next again (some expires_at) r)
  unfolding run
  next-IsServedBefore k again p (true, q) time step more =
      EvolvesBefore-step codec pubkey expires_at (world k) p.store q.store _ time step (more refl)
  next-IsServedBefore k again p (false, q) time step more =
      EvolvesBefore-step codec pubkey expires_at (world k) p.store q.store (some q) time step
        ([], tt, tt, refl)

  loop-IsServedBefore :
      (fuel k : ℕ) (p : Peer)
      → length p.ws.input < fuel
      → IsServedBefore codec.meta pubkey expires_at p.store
          (loop codec pubkey world fuel k (some expires_at) p)
  loop-IsServedBefore zero k p lt = absurd (omega (arith, lt))
  loop-IsServedBefore (suc fuel) k p lt =
      elim (Bool-cases (leb_ℤ expires_at (unix (world k).now))) [
        | inl due ↦ rw (loop-due fuel k p due) (unfold fire run in ([], tt, tt, refl))
        | inr early ↦
            let step = round-IsRound codec (world k) pubkey p in
            let q = (round codec (world k) pubkey p).1 in
            rw (loop-early fuel k p early) (
              next-IsServedBefore k (loop codec pubkey world fuel (suc k)) p
                (round codec (world k) pubkey p) (ground (arith, early)) step.permits
                (λ on. loop-IsServedBefore fuel (suc k) q (omega (arith, lt, step.reads on))))
      ]

-- When no message waits in the reader's buffer as the timer fires, a session has changed the store
-- only by calls that the client might make and that were made before its token expired.
pub serve_session-EvolvesBefore :
    (codec : SessionCodec) (pubkey : Text) (world : ℕ → Tick) (expires_at : ℤ) (p : Peer)
    → ((k : ℕ) → (world k).buffered ≡ 0)
    → (q : Peer) × (serve_session codec pubkey world expires_at p ≡ some q)
      × EvolvesBefore codec.meta pubkey expires_at p.store q.store
unfolding serve_session
serve_session-EvolvesBefore codec pubkey world expires_at p unbuffered =
    hung_up (loop codec pubkey world (suc (length p.ws.input)) 0 (some expires_at) p) (
      loop-IsServedBefore codec pubkey world unbuffered expires_at (suc (length p.ws.input)) 0 p
        (omega arith))
  where
    hung_up :
        (r : Option Peer)
        → IsServedBefore codec.meta pubkey expires_at p.store r
        → (q : Peer) × (elim r [ none ↦ none | some p' ↦ some (hang_up p') ] ≡ some q)
          × EvolvesBefore codec.meta pubkey expires_at p.store q.store
    hung_up none h = absurd h
    hung_up (some q) h = (hang_up q, refl, h)
