-- ===== src/Session/Permitted.antt =====
-- A message of a client makes at most one call that changes the store, and only one that the client
-- may make.
use bitphase_file_share.Prelude.{
  ℕ, ◌≡◌, ◌⊎◌, inl, inr, refl, ◌∙◌, true, false, ◌||◌, List, [], ◌∷◌, ◌==◌, Text, text_eq, ℤ, pos,
  leb_ℤ, Result, ok, err, Bool-cases,
}
use bitphase_file_share.Ws.Frame.{op_binary}
use bitphase_file_share.Ws.Message.{write_message, receive}
use bitphase_file_share.Store.Meta.{MetaJson, valid_transfer_id}
use bitphase_file_share.Store.Disk.{Io, Done}
use bitphase_file_share.Store.Ops.{Store, create_transfer, read_chunk, received_indices}
use bitphase_file_share.Store.Run.{
  Call, create, create_link, touch, put_chunk, serve, remove, purge, step_call,
}
use bitphase_file_share.Session.Envelope.{Envelope}
use bitphase_file_share.Session.Action.{Peer, Action, look, on_ws, continue}
use bitphase_file_share.Session.Dispatch.{
  SessionCodec, reply, Request, start_upload, chunk, status, list, download, complete, unknown,
  request_of, is_sender, is_recipient, is_shareable, on_start_upload, after_write, on_frame,
  on_chunk, on_status, on_list, send_chunk, send_chunks, on_download, on_complete, on_request,
  dispatch,
}
use bitphase_file_share.Session.Relates.{
  Relates, bind-Relates, Spares, Spares-refl, Spares-trans, reply-Spares,
}

-- A client creates transfers from itself, writes chunks of transfers that it sends, and deletes what
-- it receives unless that is shareable.
abbrev pub IsPermitted : Text → Call → Store → Type 0
IsPermitted pubkey (create id from to total shareable) s = from ≡ pubkey
IsPermitted pubkey (create_link id token total one_time) s = ⊥
IsPermitted pubkey (touch id) s = ⊥
IsPermitted pubkey (put_chunk id i content) s = is_sender pubkey id s ≡ true
IsPermitted pubkey (serve id i) s = ⊥
IsPermitted pubkey (remove id) s = (is_recipient pubkey id s ≡ true) × (is_shareable id s ≡ false)
IsPermitted pubkey purge s = ⊥

module _ (j : MetaJson) (now : ℕ) (io : Io) (pubkey : Text) where
  -- From one store to the next: nothing, or one permitted call.
  abbrev pub Permits : Store → Store → Type 0
  Permits s s' = (s' ≡ s) ⊎ ((c : Call) × IsPermitted pubkey c s × (s' ≡ step_call j now io c s))

module _ (codec : SessionCodec) (now : ℕ) (io : Io) (pubkey : Text) where
  abbrev IsAllowed : Action (Unit {0}) → Type 0
  IsAllowed m = (p : Peer) → Permits codec.meta now io pubkey p.store (m p).1.store

  then_reply :
      (r : Done) (env : Envelope) (p : Peer)
      → (continue r (λ (u : Unit {0}). reply codec env) p).1.store ≡ p.store
  then_reply (ok u) env p = reply-Spares codec env p
  then_reply (err e) env p = refl

  on_start_upload-IsAllowed : (env : Envelope) → IsAllowed (on_start_upload codec now io pubkey env)
  on_start_upload-IsAllowed env p =
      elim (Bool-cases
        (text_eq env.transfer_id [] || text_eq env.to [] || leb_ℤ env.total_chunks (pos 0))) [
          | inl bad ↦
              inl (unfold on_start_upload in rw (bad, on_start_upload) (reply-Spares codec _ p))
          | inr good ↦ elim (Bool-cases (valid_transfer_id env.transfer_id)) [
            | inr bad ↦ inl (
                unfold on_start_upload in
                rw (good, on_start_upload) (rw (bad, on_start_upload) (reply-Spares codec _ p)))
            | inl valid ↦
                let call = create env.transfer_id pubkey env.to env.total_chunks env.shareable in
                inr (
                  call,
                  refl,
                  unfold on_start_upload step_call in
                      rw (good, on_start_upload)
                        (rw (valid, on_start_upload)
                          (then_reply
                            (create_transfer codec.meta io now env.transfer_id pubkey env.to
                              env.total_chunks env.shareable p.store).0
                            _ _)),
                )
          ]
        ]

  after_write-Spares :
      (env : Envelope) (r : Done) → Relates Spares (after_write codec now io pubkey env r)
  after_write-Spares env (ok _) = reply-Spares codec _
  after_write-Spares env (err e) = reply-Spares codec _

  on_frame-IsAllowed :
      (env : Envelope) (message : Text × ℕ) (p : Peer)
      → is_sender pubkey env.transfer_id p.store ≡ true
      → Permits codec.meta now io pubkey p.store
          (on_frame codec now io pubkey env message p).1.store
  on_frame-IsAllowed env (raw, opcode) p sender = elim (Bool-cases (opcode == op_binary)) [
    | inl binary ↦
        let call = put_chunk env.transfer_id env.index raw in
        inr (
          call,
          sender,
          unfold on_frame step_call in rw (binary, on_frame) (after_write-Spares env _ _),
        )
    | inr other ↦ inl (unfold on_frame in rw (other, on_frame) refl)
  ]

  on_received-IsAllowed :
      (env : Envelope) (r : Result (Text × ℕ)) (p : Peer)
      → is_sender pubkey env.transfer_id p.store ≡ true
      → Permits codec.meta now io pubkey p.store
          (continue r (on_frame codec now io pubkey env) p).1.store
  on_received-IsAllowed env (ok message) p sender = on_frame-IsAllowed env message p sender
  on_received-IsAllowed env (err e) p sender = inl refl

  on_chunk-IsAllowed : (env : Envelope) → IsAllowed (on_chunk codec now io pubkey env)
  on_chunk-IsAllowed env p = elim (Bool-cases (text_eq env.transfer_id [])) [
    | inl none_given ↦ inl (unfold on_chunk in rw (none_given, on_chunk) (reply-Spares codec _ p))
    | inr given ↦ elim (Bool-cases (is_sender pubkey env.transfer_id p.store)) [
      | inr other ↦
          inl (
            unfold on_chunk in rw (given, on_chunk) (rw (other, on_chunk) (reply-Spares codec _ p)))
      | inl sender ↦
          unfold on_chunk in
          rw (given, on_chunk)
            (rw (sender, on_chunk)
              (on_received-IsAllowed env (receive codec.max_message_size p.ws).0
                (record p { ws = (receive codec.max_message_size p.ws).1 }) sender))
    ]
  ]

  on_status-Spares : (env : Envelope) → Relates Spares (on_status codec now io pubkey env)
  unfolding on_status
  on_status-Spares env p = elim (Bool-cases (text_eq env.transfer_id [])) [
    | inl none_given ↦ rw (none_given, on_status) (reply-Spares codec _ p)
    | inr given ↦
        elim (Bool-cases (
          is_sender pubkey env.transfer_id p.store
          || is_recipient pubkey env.transfer_id p.store)) [
            | inl party ↦ rw (given, on_status) (rw (party, on_status) (reply-Spares codec _ p))
            | inr other ↦ rw (given, on_status) (rw (other, on_status) (reply-Spares codec _ p))
          ]
  ]

  send_chunk-Spares : (id : Text) (i : ℤ) → Relates Spares (send_chunk codec now io pubkey id i)
  unfolding send_chunk
  send_chunk-Spares id i =
      bind-Relates Spares Spares-refl Spares-trans (look (read_chunk io id i)) _ Spares-refl
        (λ content.
          bind-Relates Spares Spares-refl Spares-trans (on_ws (write_message _)) _ (λ p. refl)
            (λ u p. refl))

  pub send_chunks-Spares :
      (id : Text) (is : List ℤ) → Relates Spares (send_chunks codec now io pubkey id is)
  unfolding send_chunks
  send_chunks-Spares id [] = λ p. refl
  send_chunks-Spares id (i ∷ is) =
      bind-Relates Spares Spares-refl Spares-trans (send_chunk codec now io pubkey id i) _
        (send_chunk-Spares id i) (λ u. send_chunks-Spares id is)

  on_download-Spares : (env : Envelope) → Relates Spares (on_download codec now io pubkey env)
  unfolding on_download
  on_download-Spares env p = elim (Bool-cases (is_recipient pubkey env.transfer_id p.store)) [
    | inr other ↦ rw (other, on_download) (reply-Spares codec _ p)
    | inl recipient ↦
        let indices = received_indices env.transfer_id p.store in
        rw (recipient, on_download)
          (then_reply (send_chunks codec now io pubkey env.transfer_id indices p).0 _ _
            ∙ send_chunks-Spares env.transfer_id indices p)
  ]

  on_complete-IsAllowed : (env : Envelope) → IsAllowed (on_complete codec now io pubkey env)
  on_complete-IsAllowed env p = elim (Bool-cases (is_recipient pubkey env.transfer_id p.store)) [
    | inr other ↦ inl (unfold on_complete in rw (other, on_complete) (reply-Spares codec _ p))
    | inl recipient ↦ elim (Bool-cases (is_shareable env.transfer_id p.store)) [
      | inl kept ↦
          inl (unfold on_complete in rw (recipient, on_complete) (rw (kept, on_complete) refl))
      | inr own ↦
          let call = remove env.transfer_id in
          inr (
            call,
            (recipient, own),
            unfold on_complete step_call in
                rw (recipient, on_complete) (rw (own, on_complete) refl),
          )
    ]
  ]

  on_request-IsAllowed :
      (env : Envelope) (r : Request) → IsAllowed (on_request codec now io pubkey env r)
  unfolding on_request
  on_request-IsAllowed env start_upload = on_start_upload-IsAllowed env
  on_request-IsAllowed env chunk = on_chunk-IsAllowed env
  on_request-IsAllowed env status = λ p. inl (on_status-Spares env p)
  on_request-IsAllowed env list = λ p. inl (unfold on_list in reply-Spares codec _ p)
  on_request-IsAllowed env download = λ p. inl (on_download-Spares env p)
  on_request-IsAllowed env complete = on_complete-IsAllowed env
  on_request-IsAllowed env unknown = λ p. inl refl

  -- Whatever an authenticated client sends, the store is left as it is or changes by one call that
  -- this client may make: it creates a transfer from itself, writes a chunk of a transfer that it
  -- sends, or deletes one that it receives and that is not shareable.
  pub dispatch-Permits :
      (env : Envelope) (p : Peer)
      → Permits codec.meta now io pubkey p.store (dispatch codec now io pubkey env p).1.store
  unfolding dispatch
  dispatch-Permits env p = on_request-IsAllowed env (request_of env.type) p
