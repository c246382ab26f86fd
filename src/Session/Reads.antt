-- ===== src/Session/Reads.antt =====
-- No message puts bytes back on the stream, so a session ends.
use bitphase_file_share.Prelude.{
  ℕ, inl, inr, Bool, true, false, ◌||◌, List, [], ◌∷◌, arith, ◌==◌, if◌then◌else◌, Text, text_eq, ℤ,
  pos, leb_ℤ, ok, err, Bool-cases,
}
use bitphase_file_share.Ws.Frame.{op_binary}
use bitphase_file_share.Ws.Message.{write_message, receive}
use bitphase_file_share.Store.Meta.{valid_transfer_id}
use bitphase_file_share.Store.Disk.{Io, Done}
use bitphase_file_share.Store.Ops.{create_transfer, read_chunk, received_indices}
use bitphase_file_share.Session.Envelope.{Envelope}
use bitphase_file_share.Session.Action.{Peer, Action, look, on_ws, continue, ◌>>=◌}
use bitphase_file_share.Session.Dispatch.{
  SessionCodec, reply, Request, start_upload, chunk, status, list, download, complete, unknown,
  request_of, is_sender, is_recipient, is_shareable, on_start_upload, after_write, on_frame,
  on_chunk, on_status, on_list, send_chunk, send_chunks, on_download, on_complete, on_request,
  dispatch,
}
use bitphase_file_share.Session.Relates.{
  Relates, bind-Relates, Reads, Reads-refl, Reads-trans, reply-Reads, receive-Reads,
  write_message-Reads, write_binary-Reads,
}

module _ {A B : Type 0} where
  bind-Reads :
      (m : Action A) (f : A → Action B)
      → Relates Reads m
      → ((a : A) → Relates Reads (f a))
      → Relates Reads (m >>= f)
  bind-Reads = bind-Relates Reads Reads-refl Reads-trans

if-Reads :
    (b : Bool) (m n : Action (Unit {0}))
    → Relates Reads m
    → Relates Reads n
    → (p : Peer) → Reads p (if b then m p else n p).1
if-Reads true m n h k p = h p
if-Reads false m n h k p = k p

module _ (codec : SessionCodec) (now : ℕ) (io : Io) (pubkey : Text) where
  abbrev Quiet : Action (Unit {0}) → Type 0
  Quiet = Relates Reads

  after_write-Reads : (env : Envelope) (r : Done) → Quiet (after_write codec now io pubkey env r)
  after_write-Reads env (ok u) = reply-Reads codec _
  after_write-Reads env (err e) = reply-Reads codec _

  on_start_upload-Reads : (env : Envelope) → Quiet (on_start_upload codec now io pubkey env)
  on_start_upload-Reads env p =
      elim (Bool-cases
        (text_eq env.transfer_id [] || text_eq env.to [] || leb_ℤ env.total_chunks (pos 0))) [
          | inl bad ↦ unfold on_start_upload in rw (bad, on_start_upload) (reply-Reads codec _ p)
          | inr good ↦ elim (Bool-cases (valid_transfer_id env.transfer_id)) [
            | inr bad ↦
                unfold on_start_upload in
                rw (good, on_start_upload) (rw (bad, on_start_upload) (reply-Reads codec _ p))
            | inl valid ↦
                let create =
                  create_transfer codec.meta io now env.transfer_id pubkey env.to env.total_chunks
                    env.shareable in
                unfold on_start_upload in
                rw (good, on_start_upload)
                  (rw (valid, on_start_upload)
                    (then_reply (create p.store).0 _ (record p { store = (create p.store).1 })))
          ]
        ]
    where
      then_reply :
          (r : Done) (e : Envelope) (q : Peer)
          → Reads q (continue r (λ (u : Unit {0}). reply codec e) q).1
      then_reply (ok u) e q = reply-Reads codec e q
      then_reply (err x) e q = omega arith

  on_frame-Reads :
      (env : Envelope) (message : Text × ℕ) → Quiet (on_frame codec now io pubkey env message)
  on_frame-Reads env (raw, opcode) p = elim (Bool-cases (opcode == op_binary)) [
    | inl binary ↦ unfold on_frame in rw (binary, on_frame) (after_write-Reads env _ _)
    | inr other ↦ unfold on_frame in rw (other, on_frame) (omega arith)
  ]

  on_chunk-Reads : (env : Envelope) → Quiet (on_chunk codec now io pubkey env)
  on_chunk-Reads env p = elim (Bool-cases (text_eq env.transfer_id [])) [
    | inl none_given ↦ unfold on_chunk in rw (none_given, on_chunk) (reply-Reads codec _ p)
    | inr given ↦ elim (Bool-cases (is_sender pubkey env.transfer_id p.store)) [
      | inr other ↦
          unfold on_chunk in rw (given, on_chunk) (rw (other, on_chunk) (reply-Reads codec _ p))
      | inl sender ↦
          unfold on_chunk in
          rw (given, on_chunk)
            (rw (sender, on_chunk)
              (bind-Reads (on_ws (receive codec.max_message_size))
                (on_frame codec now io pubkey env) (receive-Reads codec.max_message_size)
                (on_frame-Reads env) p))
    ]
  ]

  on_status-Reads : (env : Envelope) → Quiet (on_status codec now io pubkey env)
  unfolding on_status
  on_status-Reads env p = elim (Bool-cases (text_eq env.transfer_id [])) [
    | inl none_given ↦ rw (none_given, on_status) (reply-Reads codec _ p)
    | inr given ↦
        elim (Bool-cases (
          is_sender pubkey env.transfer_id p.store
          || is_recipient pubkey env.transfer_id p.store)) [
            | inl party ↦ rw (given, on_status) (rw (party, on_status) (reply-Reads codec _ p))
            | inr other ↦ rw (given, on_status) (rw (other, on_status) (reply-Reads codec _ p))
          ]
  ]

  send_chunk-Reads : (id : Text) (i : ℤ) → Relates Reads (send_chunk codec now io pubkey id i)
  unfolding send_chunk
  send_chunk-Reads id i = bind-Reads (look (read_chunk io id i)) _ Reads-refl (λ content.
      bind-Reads (on_ws (write_message _)) _ (write_message-Reads _)
        (λ u. write_binary-Reads content))

  send_chunks-Reads :
      (id : Text) (is : List ℤ) → Relates Reads (send_chunks codec now io pubkey id is)
  unfolding send_chunks
  send_chunks-Reads id [] = Reads-refl
  send_chunks-Reads id (i ∷ is) =
      bind-Reads (send_chunk codec now io pubkey id i) _ (send_chunk-Reads id i)
        (λ u. send_chunks-Reads id is)

  on_download-Reads : (env : Envelope) → Quiet (on_download codec now io pubkey env)
  unfolding on_download
  on_download-Reads env p = elim (Bool-cases (is_recipient pubkey env.transfer_id p.store)) [
    | inr other ↦ rw (other, on_download) (reply-Reads codec _ p)
    | inl recipient ↦
        let indices = received_indices env.transfer_id p.store in
        rw (recipient, on_download)
          (bind-Reads (send_chunks codec now io pubkey env.transfer_id indices) _
            (send_chunks-Reads env.transfer_id indices) (λ u. reply-Reads codec _) p)
  ]

  on_complete-Reads : (env : Envelope) → Quiet (on_complete codec now io pubkey env)
  on_complete-Reads env p = elim (Bool-cases (is_recipient pubkey env.transfer_id p.store)) [
    | inr other ↦ unfold on_complete in rw (other, on_complete) (reply-Reads codec _ p)
    | inl recipient ↦ elim (Bool-cases (is_shareable env.transfer_id p.store)) [
      | inl kept ↦
          unfold on_complete in rw (recipient, on_complete) (rw (kept, on_complete) (omega arith))
      | inr own ↦
          unfold on_complete in rw (recipient, on_complete) (rw (own, on_complete) (omega arith))
    ]
  ]

  on_request-Reads : (env : Envelope) (r : Request) → Quiet (on_request codec now io pubkey env r)
  unfolding on_request
  on_request-Reads env start_upload = on_start_upload-Reads env
  on_request-Reads env chunk = on_chunk-Reads env
  on_request-Reads env status = on_status-Reads env
  on_request-Reads env list = λ p. unfold on_list in reply-Reads codec _ p
  on_request-Reads env download = on_download-Reads env
  on_request-Reads env complete = on_complete-Reads env
  on_request-Reads env unknown = Reads-refl

  pub dispatch-Reads : (env : Envelope) → Relates Reads (dispatch codec now io pubkey env)
  unfolding dispatch
  dispatch-Reads env = on_request-Reads env (request_of env.type)
