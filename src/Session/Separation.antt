-- ===== src/Session/Separation.antt =====
-- The WebSocket protocol and the share links keep out of each other's transfers.
use bitphase_file_share.Prelude.{
  ℕ, ◌≡◌, ◌≢◌, inl, inr, ◌∙◌, Bool, true, List, [], ◌∷◌, some, arith, Text, text_eq, text_eq_iff,
  lookup, ℤ, Bool-cases,
}
use bitphase_file_share.Store.Meta.{TransferMeta, MetaJson, link_mode}
use bitphase_file_share.Store.Disk.{Io}
use bitphase_file_share.Store.Ops.{Store, get_meta, create_transfer}
use bitphase_file_share.Store.Invariant.{IsWellFormed}
use bitphase_file_share.Store.Run.{
  Event, Call, create, create_link, touch, put_chunk, serve, remove, purge, step_call, run,
  step_call-IsWellFormed, run-IsWellFormed,
}
use bitphase_file_share.Store.Apart.{
  IsApart, IsApart-refl, IsApart-trans, create_transfer-IsApart, write_chunk-IsApart,
  delete_transfer-IsApart,
}
use bitphase_file_share.Session.Action.{Peer}
use bitphase_file_share.Session.Dispatch.{SessionCodec, is_sender, is_recipient}
use bitphase_file_share.Session.Loop.{Tick, serve_session}
use bitphase_file_share.Session.Permitted.{IsPermitted}
use bitphase_file_share.Session.History.{ArePermitted, serve_session-Evolves}

is_sender-found :
    (pubkey id : Text) (s : Store) (m : TransferMeta)
    → lookup id s.meta ≡ some m
    → is_sender pubkey id s ≡ true
    → m.from ≡ pubkey
unfolding is_sender get_meta
is_sender-found pubkey id s m e h =
    ground (arith, text_eq_iff m.from pubkey, rw (e, is_sender) at h)

is_recipient-found :
    (pubkey id : Text) (s : Store) (m : TransferMeta)
    → lookup id s.meta ≡ some m
    → is_recipient pubkey id s ≡ true
    → m.to ≡ pubkey
unfolding is_recipient get_meta
is_recipient-found pubkey id s m e h =
    ground (arith, text_eq_iff m.to pubkey, rw (e, is_recipient) at h)

-- A transfer that is there is not created again.
create-IsApart :
    (j : MetaJson) (now : ℕ) (io : Io) (other from to : Text) (total : ℤ) (shareable : Bool)
    (id : Text) (s : Store) (m : TransferMeta)
    → lookup id s.meta ≡ some m
    → IsApart id s (create_transfer j io now other from to total shareable s).1
create-IsApart j now io other from to total shareable id s m e =
    elim (Bool-cases (text_eq other id)) [
      | inr ne ↦ create_transfer-IsApart j io now other id s ne from to total shareable
      | inl same ↦
          let here : other ≡ id = (text_eq_iff other id).0 same in
          let taken : lookup other s.meta ≡ some m = rw here e in
          unfold create_transfer in rw (taken, create_transfer) (IsApart-refl id s)
    ]

module _ (j : MetaJson) (pubkey : Text) (named : pubkey ≢ []) (id : Text) where
  -- A share link has no sender and no recipient, and so no client is one.
  step_call-IsApart :
      (now : ℕ) (io : Io) (c : Call) (s : Store) (link : TransferMeta)
      → IsWellFormed s
      → lookup id s.meta ≡ some link
      → link.mode ≡ link_mode
      → IsPermitted pubkey c s
      → IsApart id s (step_call j now io c s)
  unfolding step_call
  step_call-IsApart now io (create other from to total shareable) s link wf e mode h =
      create-IsApart j now io other from to total shareable id s link e
  step_call-IsApart now io (put_chunk other i content) s link wf e mode h =
      elim (Bool-cases (text_eq other id)) [
        | inr ne ↦
            write_chunk-IsApart j io now other id s ne (λ m k. (wf.known other m k).keyed) i content
        | inl same ↦
            let here : other ≡ id = (text_eq_iff other id).0 same in
            let sender = is_sender-found pubkey id s link e (rw here at h) in
            absurd (ground (arith, sender, named, mode, (wf.known id link e).moded))
      ]
  step_call-IsApart now io (remove other) s link wf e mode h =
      elim (Bool-cases (text_eq other id)) [
        | inr ne ↦ delete_transfer-IsApart j io now other id s ne
        | inl same ↦
            let here : other ≡ id = (text_eq_iff other id).0 same in
            let recipient = is_recipient-found pubkey id s link e (rw here at h.0) in
            absurd (ground (arith, recipient, named, mode, (wf.known id link e).moded))
      ]
  step_call-IsApart now io (create_link other token total one_time) s link wf e mode h = absurd h
  step_call-IsApart now io (touch other) s link wf e mode h = absurd h
  step_call-IsApart now io (serve other i) s link wf e mode h = absurd h
  step_call-IsApart now io purge s link wf e mode h = absurd h

  run-IsApart :
      (es : List Event) (s : Store) (link : TransferMeta)
      → IsWellFormed s
      → lookup id s.meta ≡ some link
      → link.mode ≡ link_mode
      → ArePermitted j pubkey es s
      → IsApart id s (run j es s)
  unfolding run
  run-IsApart [] s link wf e mode h = IsApart-refl id s
  run-IsApart (ev ∷ es) s link wf e mode (h, rest) =
      let step = step_call-IsApart ev.now ev.io ev.call s link wf e mode h in
      IsApart-trans step (
        run-IsApart es (step_call j ev.now ev.io ev.call s) link
          (step_call-IsWellFormed j ev.now ev.io ev.call s wf) (step.meta ∙ e) mode rest)

-- Whatever a client with an identity sends over a whole session, every share link keeps its
-- metadata, its indices and its files, and the store stays well formed.
pub serve_session-IsApart :
    (codec : SessionCodec) (pubkey : Text) (world : ℕ → Tick) (expires_at : ℤ) (p q : Peer)
    (id : Text) (link : TransferMeta)
    → pubkey ≢ []
    → IsWellFormed p.store
    → lookup id p.store.meta ≡ some link
    → link.mode ≡ link_mode
    → serve_session codec pubkey world expires_at p ≡ some q
    → IsApart id p.store q.store × IsWellFormed q.store
serve_session-IsApart codec pubkey world expires_at p q id link named wf e mode served =
    let (q', same, (es, permitted, ran)) = serve_session-Evolves codec pubkey world expires_at p in
    let one : q ≡ q' = ground (arith, served, same) in
    rw (one, ran)
      (
        run-IsApart codec.meta pubkey named id es p.store link wf e mode permitted,
        run-IsWellFormed codec.meta es p.store wf,
      )
