-- ===== src/Session/Dispatch.antt =====
-- dispatch of server.go: one control message of an authenticated client.
use bitphase_file_share.Prelude.{
  ℕ, Bool, false, not, ◌||◌, List, [], ◌∷◌, ◌++◌, none, some, ◌==◌, if◌then◌else◌, Text, bytes,
  text_eq, ℤ, pos, leb_ℤ, ok, err,
}
use bitphase_file_share.Ws.Frame.{op_binary}
use bitphase_file_share.Ws.Message.{write_message, write_binary, receive}
use bitphase_file_share.Store.Meta.{MetaJson, valid_transfer_id}
use bitphase_file_share.Store.Disk.{Io, Done}
use bitphase_file_share.Store.Ops.{
  Store, get_meta, create_transfer, write_chunk, read_chunk, received_indices, list_for_recipient,
  delete_transfer,
}
use bitphase_file_share.Session.Envelope.{Envelope, EnvelopeJson, blank, error_envelope}
use bitphase_file_share.Session.Action.{
  Action, raise, lift, look, attempt, update, on_ws, done, ◌>>=◌, ◌>>◌,
}

-- encoding/json, and the package variable maxMessageSize.
pub record SessionCodec : Type 0 where
  pub meta : MetaJson
  pub envelope : EnvelopeJson
  pub max_message_size : ℕ

unfoldable pub reply : SessionCodec → Envelope → Action (Unit {0})
reply codec env = do b ← lift (codec.envelope.marshal env); on_ws (write_message b)

abbrev pub refuse : SessionCodec → Text → Action (Unit {0})
refuse codec message = reply codec (error_envelope message)

-- The strings of the switch; any other is ignored.
pub data Request : Type 0 where
  start_upload chunk status list download complete unknown : Request

unfoldable pub request_of : Text → Request
request_of type =
    if text_eq type (bytes "start_upload")
    then start_upload
    else if text_eq type (bytes "chunk")
    then chunk
    else if text_eq type (bytes "status")
    then status
    else if text_eq type (bytes "list")
    then list
    else if text_eq type (bytes "download")
    then download
    else if text_eq type (bytes "complete")
    then complete
    else unknown

-- The tests on the metadata, `ok` included.
unfoldable pub is_sender : Text → Text → Store → Bool
is_sender pubkey id s = elim (get_meta id s) [ none ↦ false | some m ↦ text_eq m.from pubkey ]

unfoldable pub is_recipient : Text → Text → Store → Bool
is_recipient pubkey id s = elim (get_meta id s) [ none ↦ false | some m ↦ text_eq m.to pubkey ]

unfoldable pub is_shareable : Text → Store → Bool
is_shareable id s = elim (get_meta id s) [ none ↦ false | some m ↦ m.shareable ]

abbrev pub no_recipient : Text
no_recipient = bytes "no such transfer for this recipient"

abbrev pub no_sender : Text
no_sender = bytes "no such transfer for this sender"

abbrev pub no_party : Text
no_party = bytes "no such transfer for this identity"

-- json.Marshal with its error dropped
abbrev pub marshal_or_nil : EnvelopeJson → Envelope → Text
marshal_or_nil j env = elim (j.marshal env) [ ok b ↦ b | err e ↦ [] ]

module _ (codec : SessionCodec) (now : ℕ) (io : Io) (pubkey : Text) where
  unfoldable pub on_start_upload : Envelope → Action (Unit {0})
  on_start_upload env =
      if text_eq env.transfer_id [] || text_eq env.to [] || leb_ℤ env.total_chunks (pos 0)
      then refuse codec (bytes "start_upload requires transfer_id, to, total_chunks")
      else if not (valid_transfer_id env.transfer_id)
      then refuse codec
          (bytes "transfer_id must be 1-128 characters, letters/digits/hyphen/underscore only")
      else (do
        update (
            create_transfer codec.meta io now env.transfer_id pubkey env.to env.total_chunks
              env.shareable)
        reply codec (record blank { type = bytes "upload_ready"; transfer_id = env.transfer_id }))

  abbrev pub after_write : Envelope → Done → Action (Unit {0})
  after_write env (err e) = refuse codec (bytes "chunk rejected: " ++ e)
  after_write env (ok _) =
      reply codec (record blank {
        type = bytes "chunk_ack";
        transfer_id = env.transfer_id;
        index = env.index;
      })

  -- What the frame after a chunk's header does.
  unfoldable pub on_frame : Envelope → Text × ℕ → Action (Unit {0})
  on_frame env (raw, opcode) =
      if opcode == op_binary
      then (do
        r ← attempt (write_chunk codec.meta io now env.transfer_id env.index raw)
        after_write env r)
      else raise (bytes "expected a binary frame immediately after a chunk header")

  unfoldable pub on_chunk : Envelope → Action (Unit {0})
  on_chunk env p =
      if text_eq env.transfer_id []
      then refuse codec (bytes "chunk requires transfer_id") p
      else if is_sender pubkey env.transfer_id p.store
      then (do message ← on_ws (receive codec.max_message_size); on_frame env message) p
      else refuse codec no_sender p

  unfoldable pub on_status : Envelope → Action (Unit {0})
  on_status env p =
      if text_eq env.transfer_id []
      then refuse codec (bytes "status requires transfer_id") p
      else if is_sender pubkey env.transfer_id p.store
          || is_recipient pubkey env.transfer_id p.store
      then reply codec
          (record blank {
            type = bytes "status_result";
            transfer_id = env.transfer_id;
            received_indices = received_indices env.transfer_id p.store;
          })
          p
      else refuse codec no_party p

  unfoldable pub on_list : Action (Unit {0})
  on_list p =
      reply codec
        (record blank { type = bytes "list_result"; transfers = list_for_recipient pubkey p.store })
        p

  -- The header of a chunk and its content.
  unfoldable pub send_chunk : Text → ℤ → Action (Unit {0})
  send_chunk id i = do
    content ← look (read_chunk io id i)
    on_ws (
        write_message (
          marshal_or_nil codec.envelope
            (record blank { type = bytes "chunk"; transfer_id = id; index = i })))
    on_ws (write_binary content)

  unfoldable pub send_chunks : Text → List ℤ → Action (Unit {0})
  send_chunks id [] = done
  send_chunks id (i ∷ is) = do send_chunk id i; send_chunks id is

  unfoldable pub on_download : Envelope → Action (Unit {0})
  on_download env p =
      if is_recipient pubkey env.transfer_id p.store
      then (do
        send_chunks env.transfer_id (received_indices env.transfer_id p.store)
        reply codec (record blank { type = bytes "download_done"; transfer_id = env.transfer_id }))
          p
      else refuse codec no_recipient p

  -- A shareable transfer is left for the sweep.
  unfoldable pub on_complete : Envelope → Action (Unit {0})
  on_complete env p =
      if is_recipient pubkey env.transfer_id p.store
      then (if is_shareable env.transfer_id p.store
            then done
            else update (delete_transfer io env.transfer_id))
          p
      else refuse codec no_recipient p

  unfoldable pub on_request : Envelope → Request → Action (Unit {0})
  on_request env start_upload = on_start_upload env
  on_request env chunk = on_chunk env
  on_request env status = on_status env
  on_request env list = on_list
  on_request env download = on_download env
  on_request env complete = on_complete env
  on_request env unknown = done

  unfoldable pub dispatch : Envelope → Action (Unit {0})
  dispatch env = on_request env (request_of env.type)
