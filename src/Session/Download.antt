-- ===== src/Session/Download.antt =====
-- What a recipient is sent.
use bitphase_file_share.Prelude.{
  ℕ, ◌≡◌, refl, ◌∙◌, sym, ap, true, List, [], ◌∷◌, ◌++◌, append_assoc, append-nil, none, Text,
  bytes, text_eq, ℤ, All, ok,
}
use bitphase_file_share.Ws.Frame.{write_frame, op_binary}
use bitphase_file_share.Ws.Message.{write_message}
use bitphase_file_share.Store.Disk.{Io}
use bitphase_file_share.Store.Ops.{Store, read_chunk, received_indices}
use bitphase_file_share.Session.Envelope.{Envelope, blank}
use bitphase_file_share.Session.Action.{look, on_ws}
use bitphase_file_share.Session.Dispatch.{
  SessionCodec, marshal_or_nil, reply, request_of, download, is_recipient, send_chunk, send_chunks,
  on_download, on_request, dispatch,
}
use bitphase_file_share.Session.Healthy.{
  online, IsMarshal, text_frame, bind-ok, marshal_or_nil_lem, write_message-online,
  write_binary-online, reply-online,
}

abbrev header : Text → ℤ → Envelope
header id i = record blank { type = bytes "chunk"; transfer_id = id; index = i }

-- The header and the content of each chunk.
abbrev pub chunk_frames : (Envelope → Text) → Text → (ℤ → Text) → List ℤ → Text
chunk_frames text id content [] = []
chunk_frames text id content (i ∷ is) =
    text_frame text (header id i)
    ++ write_frame none op_binary (content i)
    ++ chunk_frames text id content is

abbrev pub done_frame : (Envelope → Text) → Text → Text
done_frame text id =
    text_frame text (record blank { type = bytes "download_done"; transfer_id = id })

module _ (codec : SessionCodec) (now : ℕ) (io : Io) (pubkey : Text) (text : Envelope → Text)
    (marshals : IsMarshal codec.envelope text) (id : Text) (content : ℤ → Text) (s : Store)
    (input : Text) where
  abbrev pub IsReadable : ℤ → Type 0
  IsReadable i = read_chunk io id i s ≡ ok (content i)

  send_chunk-online :
      (i : ℤ) (out : Text)
      → IsReadable i
      → send_chunk codec now io pubkey id i (online s input out) ≡ (
        ok tt,
        online s input
            (out ++ text_frame text (header id i) ++ write_frame none op_binary (content i)),
      )
  unfolding send_chunk
  send_chunk-online i out readable =
      let p = online s input out in
      bind-ok (look (read_chunk io id i)) _ p p (content i) (ap (λ r. (r, p)) readable)
      ∙ bind-ok (on_ws (write_message (marshal_or_nil codec.envelope (header id i)))) _ p
          (online s input (out ++ text_frame text (header id i))) tt
          (write_message-online s input out (marshal_or_nil codec.envelope (header id i))
            ∙ rw (marshal_or_nil_lem codec.envelope text (header id i) marshals) refl)
      ∙ write_binary-online s input (out ++ text_frame text (header id i)) (content i)

  send_chunks-online :
      (is : List ℤ) (out : Text)
      → All IsReadable is
      → send_chunks codec now io pubkey id is (online s input out)
        ≡ (ok tt, online s input (out ++ chunk_frames text id content is))
  unfolding send_chunks
  send_chunks-online [] out all = rw (append-nil out) refl
  send_chunks-online (i ∷ is) out (one, all) =
      let h = text_frame text (header id i) in
      let b = write_frame none op_binary (content i) in
      let more = chunk_frames text id content is in
      bind-ok (send_chunk codec now io pubkey id i) (λ u. send_chunks codec now io pubkey id is)
        (online s input out) (online s input (out ++ h ++ b)) tt (send_chunk-online i out one)
      ∙ send_chunks-online is (out ++ h ++ b) all
      ∙ ap (λ o. (ok tt, online s input o))
          (append_assoc (out ++ h) b more
            ∙ append_assoc out h (b ++ more)
            ∙ ap (λ t. out ++ t) (sym (append_assoc h b more)))

-- A recipient whose connection is up is sent, for each received index in the reported order, the
-- chunk's header and its content, and then `download_done`; nothing else is done. Control messages
-- can be written as JSON, and the files of the received chunks can be read.
pub dispatch-downloads :
    (codec : SessionCodec) (now : ℕ) (io : Io) (pubkey : Text) (text : Envelope → Text)
    (env : Envelope) (content : ℤ → Text) (s : Store) (input out : Text)
    → IsMarshal codec.envelope text
    → env.type ≡ bytes "download"
    → is_recipient pubkey env.transfer_id s ≡ true
    → All
        (λ i. read_chunk io env.transfer_id i s ≡ ok (content i))
        (received_indices env.transfer_id s)
    → dispatch codec now io pubkey env (online s input out) ≡ (
      ok tt,
      online s input (
          out
          ++ chunk_frames text env.transfer_id content (received_indices env.transfer_id s)
          ++ done_frame text env.transfer_id),
    )
unfolding dispatch on_request
dispatch-downloads codec now io pubkey text env content s input out m type recipient readable =
    let id = env.transfer_id in
    let is = received_indices id s in
    let end : Envelope = record blank { type = bytes "download_done"; transfer_id = id } in
    let kind : request_of env.type ≡ download = rw type (unfold request_of text_eq in refl) in
    rw kind (
      unfold on_download in
      rw (recipient, on_download)
        (bind-ok (send_chunks codec now io pubkey id is) (λ u. reply codec end) (online s input out)
            (online s input (out ++ chunk_frames text id content is)) tt
            (send_chunks-online codec now io pubkey text m id content s input is out readable)
          ∙ reply-online codec text end s input (out ++ chunk_frames text id content is) m))
