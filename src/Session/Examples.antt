-- ===== src/Session/Examples.antt =====
-- The theorems on the WebSocket protocol at a concrete server.
mod Replies
mod Login
use bitphase_file_share.Prelude.{
  ℕ, ◌*◌, ◌^◌, ◌≡◌, ◌≢◌, ◌≤◌, ◌<◌, refl, inl, inr, true, false, List, [], ◌∷◌, ◌++◌, Option, none,
  some, arith, lookup, insert, delete, text_eq, member, add, int_eq, length, All, ok, err, Text,
  bytes, pos, ℤ, ◌<ℤ◌, ◌≤ℤ◌,
}
use bitphase_file_share.Ws.Frame.{write_frame, op_text, op_binary, op_continuation}
use bitphase_file_share.Ws.RoundTrip.{IsByte}
use bitphase_file_share.Ws.Reassembly.{
  Piece, fragment, IsData, IsSent, IsPiece, stream, joined, answers, opcode_of, server,
}
use bitphase_file_share.Store.Meta.{
  TransferMeta, MetaJson, link_mode, direct_meta, valid_transfer_id, all_id_chars,
}
use bitphase_file_share.Store.Disk.{Io, written, removed, chunk_name}
use bitphase_file_share.Store.Ops.{
  Store, set_of, get_meta, read_chunk, received_indices, sort_ints, sender_count, out_of_range,
}
use bitphase_file_share.Store.Load.{empty_store}
use bitphase_file_share.Store.Run.{
  Event, Call, create, create_link, put_chunk, run, run-IsWellFormed, empty-IsWellFormed,
}
use bitphase_file_share.Store.Invariant.{IsWellFormed}
use bitphase_file_share.Store.Apart.{IsApart}
use bitphase_file_share.Store.Success.{IsCalm}
use bitphase_file_share.Session.Envelope.{Envelope, blank}
use bitphase_file_share.Session.Action.{Peer}
use bitphase_file_share.Session.Dispatch.{
  SessionCodec, is_sender, is_recipient, request_of, no_recipient, refuse, dispatch,
}
use bitphase_file_share.Session.Loop.{Tick, serve_session}
use bitphase_file_share.Session.Healthy.{online, text_frame}
use bitphase_file_share.Session.Permitted.{Permits, dispatch-Permits}
use bitphase_file_share.Session.History.{Evolves, serve_session-Evolves}
use bitphase_file_share.Session.Separation.{serve_session-IsApart}
use bitphase_file_share.Session.Expiry.{EvolvesBefore, serve_session-EvolvesBefore}
use bitphase_file_share.Session.Download.{chunk_frames, done_frame, dispatch-downloads}
use bitphase_file_share.Session.Upload.{
  created, stored, ready, ack, dispatch-creates, dispatch-stores,
}

-- A disk on which every call succeeds.
abbrev calm : Io
calm = record {
  mkdir_error = λ dir. none;
  write_outcome = λ dir name. written;
  rename_error = λ dir. none;
  read_error = λ dir name. none;
  list_error = λ dir. none;
  remove_outcome = λ dir. removed;
  root_error = none;
  list_root_error = none;
}

calm-IsCalm : (id : Text) → IsCalm calm id
calm-IsCalm id = record { makes = refl; writes = λ name. refl; renames = refl }

abbrev al : Text
al = bytes "al"

abbrev bo : Text
bo = bytes "bo"

abbrev share : Text
share = bytes "share"

abbrev letter : Text
letter = bytes "letter"

-- A control message is written as its type, and every text is read as `complete` of the letter.
abbrev codec : SessionCodec
codec = record {
  meta = record { marshal = λ m. m.transfer_id; unmarshal = λ t. none };
  envelope = record {
    marshal = λ env. ok env.type;
    unmarshal = λ raw. some (record blank { type = bytes "complete"; transfer_id = letter });
  };
  max_message_size = 100;
}

abbrev type_of : Envelope → Text
type_of env = env.type

-- A share link, and a transfer from al to bo with its only chunk.
abbrev history : List Event
history =
    record { now = 1; io = calm; call = create_link share (bytes "secret") (pos 2) true }
    ∷ record { now = 2; io = calm; call = create letter al bo (pos 1) false }
    ∷ record { now = 3; io = calm; call = put_chunk letter (pos 0) (5 ∷ 6 ∷ []) }
    ∷ []

abbrev filled : Store
filled = run codec.meta history (empty_store 100 3 [])

filled-IsWellFormed : IsWellFormed filled
filled-IsWellFormed =
    run-IsWellFormed codec.meta history (empty_store 100 3 []) (empty-IsWellFormed 100 3)

abbrev share_meta : TransferMeta
share_meta = record {
  transfer_id = share;
  from = [];
  to = [];
  total_chunks = pos 2;
  created_at = 1;
  touched_at = 1;
  shareable = false;
  mode = link_mode;
  manage_token = bytes "secret";
  one_time = true;
}

abbrev letter_meta : TransferMeta
letter_meta = record {
  transfer_id = letter;
  from = al;
  to = bo;
  total_chunks = pos 1;
  created_at = 2;
  touched_at = 3;
  shareable = false;
  mode = [];
  manage_token = [];
  one_time = false;
}

found_share : lookup share filled.meta ≡ some share_meta
unfolding run lookup insert delete text_eq
found_share = refl

found_letter : lookup letter filled.meta ≡ some letter_meta
unfolding run lookup insert delete text_eq
found_letter = refl

-- A client's mask.
abbrev mask : Option Text
mask = some (1 ∷ 2 ∷ 3 ∷ 254 ∷ [])

-- A text message and the rest of the stream.
abbrev talk : Text
talk = write_frame mask op_text (120 ∷ []) ++ write_frame mask op_text (121 ∷ [])

abbrev bo_online : Peer
bo_online = online filled talk []

abbrev world : ℕ → Tick
world k = record { now = 4; io = calm; buffered = 0 }

abbrev complete_letter : Envelope
complete_letter = record blank { type = bytes "complete"; transfer_id = letter }

dispatch-Permits_example :
    Permits codec.meta 4 calm bo filled (dispatch codec 4 calm bo complete_letter bo_online).1.store
dispatch-Permits_example = dispatch-Permits codec 4 calm bo complete_letter bo_online

serve_session-Evolves_example :
    (q : Peer) × (serve_session codec bo world (pos 9) bo_online ≡ some q)
    × Evolves codec.meta bo filled q.store
serve_session-Evolves_example = serve_session-Evolves codec bo world (pos 9) bo_online

-- Twenty seconds pass between two rounds, and so the timer fires before the second message.
abbrev late_world : ℕ → Tick
late_world k = record { now = k * (20 * 10 ^ 9); io = calm; buffered = 0 }

serve_session-EvolvesBefore_example :
    (q : Peer) × (serve_session codec bo late_world (pos 9) bo_online ≡ some q)
    × EvolvesBefore codec.meta bo (pos 9) filled q.store
serve_session-EvolvesBefore_example =
    serve_session-EvolvesBefore codec bo late_world (pos 9) bo_online (λ k. refl)
