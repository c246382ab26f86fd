-- ===== src/Session/Upload.antt =====
-- A client that keeps to the protocol gets its chunks stored.
use bitphase_file_share.Prelude.{
  ℕ, ◌≡◌, ◌≢◌, ◌≤◌, ◌<◌, refl, ◌∙◌, ap, inr, true, false, ◌||◌, List, [], ◌∷◌, ◌++◌, Option, none,
  some, arith, length, Text, bytes, text_eq, text_eq_iff, lookup, pos, leb_ℤ, ◌≤ℤ◌, All, ok,
}
use bitphase_file_share.Ws.Frame.{write_frame, op_binary}
use bitphase_file_share.Ws.Message.{receive}
use bitphase_file_share.Ws.Reassembly.{
  Piece, IsData, IsSent, IsPiece, stream, joined, answers, opcode_of, server, read_message-stream,
}
use bitphase_file_share.Store.Meta.{TransferMeta, direct_meta, valid_transfer_id}
use bitphase_file_share.Store.Disk.{Io, Done, chunk_name}
use bitphase_file_share.Store.Ops.{
  Store, get_meta, out_of_range, sender_count, create_transfer, write_chunk, read_chunk,
}
use bitphase_file_share.Store.Invariant.{IsWellFormed}
use bitphase_file_share.Store.Chunks.{write_chunk-read_chunk}
use bitphase_file_share.Store.Success.{IsCalm, create_transfer-calm, write_chunk-calm}
use bitphase_file_share.Session.Envelope.{Envelope, blank}
use bitphase_file_share.Session.Action.{update, on_ws}
use bitphase_file_share.Session.Dispatch.{
  SessionCodec, reply, start_upload, chunk, request_of, is_sender, on_start_upload, after_write,
  on_frame, on_chunk, on_request, dispatch,
}
use bitphase_file_share.Session.Healthy.{online, IsMarshal, text_frame, bind-ok, reply-online}

abbrev pub ready : Envelope → Envelope
ready env = record blank { type = bytes "upload_ready"; transfer_id = env.transfer_id }

abbrev pub ack : Envelope → Envelope
ack env = record blank {
  type = bytes "chunk_ack";
  transfer_id = env.transfer_id;
  index = env.index;
}

abbrev pub created : SessionCodec → ℕ → Io → Text → Envelope → Store → Store
created codec now io pubkey env s =
    (create_transfer codec.meta io now env.transfer_id pubkey env.to env.total_chunks env.shareable
      s).1

abbrev pub stored : SessionCodec → ℕ → Io → Envelope → Text → Store → Store
stored codec now io env content s =
    (write_chunk codec.meta io now env.transfer_id env.index content s).1

valid_transfer_id-ne : (id : Text) → valid_transfer_id id ≡ true → id ≢ []
unfolding valid_transfer_id
valid_transfer_id-ne [] h e = cc
valid_transfer_id-ne (c ∷ s) h e = cc

module _ (codec : SessionCodec) (now : ℕ) (io : Io) (pubkey : Text) (text : Envelope → Text)
    (env : Envelope) (s : Store) (marshals : IsMarshal codec.envelope text) where
  on_start_upload-online :
      (input out : Text)
      → (text_eq env.transfer_id [] || text_eq env.to [] || leb_ℤ env.total_chunks (pos 0)) ≡ false
      → valid_transfer_id env.transfer_id ≡ true
      → (create_transfer codec.meta io now env.transfer_id pubkey env.to env.total_chunks
          env.shareable s).0
        ≡ ok tt
      → on_start_upload codec now io pubkey env (online s input out) ≡ (
        ok tt,
        online (created codec now io pubkey env s) input (out ++ text_frame text (ready env)),
      )
  on_start_upload-online input out given valid fine =
      let call =
        create_transfer codec.meta io now env.transfer_id pubkey env.to env.total_chunks
          env.shareable in
      unfold on_start_upload in
      rw (given, on_start_upload)
        (rw (valid, on_start_upload)
          (bind-ok (update call) (λ u. reply codec (ready env)) (online s input out)
              (online (created codec now io pubkey env s) input out) tt
              (ap (λ r. (r, online (created codec now io pubkey env s) input out)) fine)
            ∙ reply-online codec text (ready env) (created codec now io pubkey env s) input out
                marshals))

  after_write-online :
      (content input out : Text)
      → (write_chunk codec.meta io now env.transfer_id env.index content s).0 ≡ ok tt
      → on_frame codec now io pubkey env (content, op_binary) (online s input out) ≡ (
        ok tt,
        online (stored codec now io env content s) input (out ++ text_frame text (ack env)),
      )
  unfolding on_frame
  after_write-online content input out fine =
      ap
        (λ (r : Done).
          after_write codec now io pubkey env r
            (online (stored codec now io env content s) input out))
        fine
      ∙ reply-online codec text (ack env) (stored codec now io env content s) input out marshals

  on_chunk-online :
      (content input rest out out' : Text)
      → text_eq env.transfer_id [] ≡ false
      → is_sender pubkey env.transfer_id s ≡ true
      → receive codec.max_message_size (server input out)
        ≡ (ok (content, op_binary), server rest out')
      → (write_chunk codec.meta io now env.transfer_id env.index content s).0 ≡ ok tt
      → on_chunk codec now io pubkey env (online s input out) ≡ (
        ok tt,
        online (stored codec now io env content s) rest (out' ++ text_frame text (ack env)),
      )
  on_chunk-online content input rest out out' given sender came fine =
      unfold on_chunk in
      rw (given, on_chunk)
        (rw (sender, on_chunk)
          (bind-ok (on_ws (receive codec.max_message_size)) (on_frame codec now io pubkey env)
              (online s input out) (online s rest out') (content, op_binary)
              (ap (λ r. (r.0, record { ws = r.1; store = s })) came)
            ∙ after_write-online content rest out' fine))

-- A client that starts an upload under a free and valid identifier, to somebody, with at least one
-- chunk and room under its cap, is answered `upload_ready`, and the transfer is known as from the
-- client. The disk refuses nothing, the connection is up, and control messages can be written.
pub dispatch-creates :
    (codec : SessionCodec) (now : ℕ) (io : Io) (pubkey : Text) (text : Envelope → Text)
    (env : Envelope) (s : Store) (input out : Text)
    → IsMarshal codec.envelope text
    → IsCalm io env.transfer_id
    → env.type ≡ bytes "start_upload"
    → env.to ≢ []
    → pos 1 ≤ℤ env.total_chunks
    → valid_transfer_id env.transfer_id ≡ true
    → lookup env.transfer_id s.meta ≡ none
    → sender_count pubkey s.meta < s.max_transfers_per_sender
    → let s' = created codec now io pubkey env s in
      (dispatch codec now io pubkey env (online s input out)
        ≡ (ok tt, online s' input (out ++ text_frame text (ready env))))
      × (lookup env.transfer_id s'.meta
          ≡ some (direct_meta env.transfer_id pubkey env.to env.total_chunks env.shareable now))
unfolding dispatch on_request
dispatch-creates codec now io pubkey text env s input out m calm type to total valid free room =
    let kind : request_of env.type ≡ start_upload = rw type (unfold request_of text_eq in refl) in
    let named : env.transfer_id ≢ [] = λ e. valid_transfer_id-ne env.transfer_id valid e in
    let given : (text_eq env.transfer_id [] || text_eq env.to [] || leb_ℤ env.total_chunks (pos 0))
        ≡ false =
      ground (arith, named, to, total, text_eq_iff env.transfer_id [], text_eq_iff env.to []) in
    let (fine, entered) =
      create_transfer-calm codec.meta io now env.transfer_id pubkey env.to env.total_chunks
        env.shareable s calm free valid room in
    (
      rw kind (on_start_upload-online codec now io pubkey text env s m input out given valid fine),
      entered,
    )

-- A sender that sends the header of a chunk within range and then its content in binary, in one or
-- more frames with pings and pongs in between, is acknowledged, and the content can be read back. The
-- disk refuses nothing, the connection is up, the content is within the limit of a message, and
-- control messages can be written.
pub dispatch-stores :
    (codec : SessionCodec) (now : ℕ) (io later : Io) (pubkey : Text) (text : Envelope → Text)
    (env : Envelope) (s : Store) (m : TransferMeta) (key : Option Text) (op : ℕ)
    (last rest out : Text) (ps : List (Option Text × Piece))
    → IsMarshal codec.envelope text
    → IsCalm io env.transfer_id
    → IsWellFormed s
    → env.type ≡ bytes "chunk"
    → lookup env.transfer_id s.meta ≡ some m
    → m.from ≡ pubkey
    → out_of_range env.index m ≡ false
    → IsData op
    → IsSent key last
    → All IsPiece ps
    → length (joined ps last) ≤ codec.max_message_size
    → opcode_of none ps op ≡ op_binary
    → later.read_error env.transfer_id (chunk_name env.index) ≡ none
    → let s' = stored codec now io env (joined ps last) s in
      (dispatch codec now io pubkey env (online s (stream ps (write_frame key op last ++ rest)) out)
        ≡ (ok tt, online s' rest (answers out ps ++ text_frame text (ack env))))
      × (read_chunk later env.transfer_id env.index s' ≡ ok (joined ps last))
unfolding dispatch on_request
dispatch-stores codec now io later pubkey text env s m key op last rest out ps marshals calm wf type
      e from fits data_op sent all small binary fine =
    let kind : request_of env.type ≡ chunk = rw type (unfold request_of text_eq in refl) in
    let content = joined ps last in
    let input = stream ps (write_frame key op last ++ rest) in
    let valid = (wf.known env.transfer_id m e).valid in
    let named : env.transfer_id ≢ [] = λ h. valid_transfer_id-ne env.transfer_id valid h in
    let given : text_eq env.transfer_id [] ≡ false =
      ground (arith, named, text_eq_iff env.transfer_id []) in
    let sender : is_sender pubkey env.transfer_id s ≡ true =
      unfold is_sender get_meta in
      rw (e, is_sender) (ground (arith, from, text_eq_iff m.from pubkey)) in
    let came : receive codec.max_message_size (server input out)
        ≡ (ok (content, op_binary), server rest (answers out ps)) =
      unfold receive in
      rw
        (read_message-stream codec.max_message_size key op last rest out ps data_op sent all small
          (inr binary))
        (rw binary refl) in
    let written =
      write_chunk-calm codec.meta io now env.transfer_id env.index content s m wf calm e fits in
    (
      rw kind (
          on_chunk-online codec now io pubkey text env s marshals content input rest out
            (answers out ps) given sender came written),
      (write_chunk-read_chunk codec.meta io later now env.transfer_id env.index content s wf fine
          written).0,
    )
