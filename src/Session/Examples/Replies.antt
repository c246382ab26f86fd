-- ===== src/Session/Examples/Replies.antt =====
-- What a client is answered, at a concrete server.
use bitphase_file_share.Prelude.{
  ℕ, ◌≡◌, ◌<◌, refl, true, false, inl, text_eq_iff, IsDistinct, List, [], ◌∷◌, ◌++◌, Option, none,
  some, arith, lookup, insert, delete, text_eq, member, add, int_eq, ok, Text, bytes, pos,
}
use bitphase_file_share.Ws.Frame.{write_frame, op_binary, op_continuation}
use bitphase_file_share.Ws.Reassembly.{Piece, fragment, IsSent, stream, joined, answers}
use bitphase_file_share.Store.Meta.{direct_meta, valid_transfer_id, all_id_chars}
use bitphase_file_share.Store.Ops.{get_meta, read_chunk, received_indices, sort_ints, sender_count}
use bitphase_file_share.Store.Run.{run}
use bitphase_file_share.Session.Envelope.{Envelope, blank}
use bitphase_file_share.Session.Dispatch.{is_recipient, dispatch}
use bitphase_file_share.Session.Healthy.{online, text_frame}
use bitphase_file_share.Session.Hidden.Answer.{IsForeign}
use bitphase_file_share.Session.Hidden.{AreAlike, store_without, dispatch-AreAlike}
use bitphase_file_share.Session.Download.{chunk_frames, done_frame, dispatch-downloads}
use bitphase_file_share.Session.Upload.{
  created, stored, ready, ack, dispatch-creates, dispatch-stores,
}
use bitphase_file_share.Session.Examples.{
  calm, calm-IsCalm, al, bo, letter, codec, type_of, filled, filled-IsWellFormed, letter_meta,
  found_letter, mask, talk, bo_online, complete_letter,
}

bo_receives : is_recipient bo letter filled ≡ true
unfolding is_recipient get_meta run lookup insert delete text_eq
bo_receives = refl

filled-IsDistinct : IsDistinct filled.meta
unfolding run lookup insert delete text_eq member add int_eq
filled-IsDistinct = (refl, (refl, tt))

al_other : text_eq al (bytes "cy") ≡ false
unfolding text_eq
al_other = refl

bo_other : text_eq bo (bytes "cy") ≡ false
unfolding text_eq
bo_other = refl

letter-IsForeign : IsForeign (bytes "cy") (some letter_meta)
letter-IsForeign = (
  λ e. ground (arith, al_other, (text_eq_iff al (bytes "cy")).1 e),
  λ e. ground (arith, bo_other, (text_eq_iff bo (bytes "cy")).1 e),
)

dispatch-AreAlike_example :
    AreAlike
      (dispatch codec 4 calm (bytes "cy") complete_letter)
      bo_online
      (store_without calm letter filled)
dispatch-AreAlike_example =
    dispatch-AreAlike codec 4 calm calm (bytes "cy") letter complete_letter bo_online
      filled-IsDistinct (rw found_letter letter-IsForeign) (λ e. cc) (inl refl)

abbrev download_letter : Envelope
download_letter = record blank { type = bytes "download"; transfer_id = letter }

letter_indices : received_indices letter filled ≡ pos 0 ∷ []
unfolding received_indices sort_ints run lookup insert delete text_eq member add int_eq
letter_indices = refl

letter_content : read_chunk calm letter (pos 0) filled ≡ ok (5 ∷ 6 ∷ [])
unfolding read_chunk run lookup insert delete text_eq member add int_eq
letter_content = refl

dispatch-downloads_example : dispatch codec 4 calm bo download_letter (online filled talk []) ≡ (
  ok tt,
  online filled talk (
      chunk_frames type_of letter (λ i. 5 ∷ 6 ∷ []) (received_indices letter filled)
      ++ done_frame type_of letter),
)
dispatch-downloads_example =
    dispatch-downloads codec 4 calm bo type_of download_letter (λ i. 5 ∷ 6 ∷ []) filled talk []
      (λ env. refl) refl bo_receives (rw letter_indices (letter_content, tt))

abbrev start_note : Envelope
start_note = record blank {
  type = bytes "start_upload";
  transfer_id = bytes "note";
  to = bo;
  total_chunks = pos 1;
}

note_valid : valid_transfer_id (bytes "note") ≡ true
unfolding valid_transfer_id all_id_chars
note_valid = refl

note_free : lookup (bytes "note") filled.meta ≡ none
unfolding run lookup insert delete text_eq
note_free = refl

al_has_room : sender_count al filled.meta < filled.max_transfers_per_sender
unfolding sender_count run lookup insert delete text_eq member add int_eq
al_has_room = omega arith

dispatch-creates_example :
    (dispatch codec 4 calm al start_note (online filled talk []) ≡ (
      ok tt,
      online
          (created codec 4 calm al start_note filled)
          talk
          (text_frame type_of (ready start_note)),
    ))
    × (lookup (bytes "note") (created codec 4 calm al start_note filled).meta
        ≡ some (direct_meta (bytes "note") al bo (pos 1) false 4))
dispatch-creates_example =
    dispatch-creates codec 4 calm al type_of start_note filled talk [] (λ env. refl)
      (calm-IsCalm (bytes "note")) refl (λ e. cc) (ground arith) note_valid note_free al_has_room

abbrev letter_chunk : Envelope
letter_chunk = record blank { type = bytes "chunk"; transfer_id = letter; index = pos 0 }

abbrev pieces : List (Option Text × Piece)
pieces = (mask, fragment op_binary (7 ∷ [])) ∷ []

IsSent-mask : (b : ℕ) → b < 256 → IsSent mask (b ∷ [])
IsSent-mask b lt = ((refl, ground arith), (lt, tt), omega arith)

dispatch-stores_example :
    (dispatch codec 4 calm al letter_chunk
        (online filled (stream pieces (write_frame mask op_continuation (8 ∷ []) ++ talk)) [])
      ≡ (
        ok tt,
        online
            (stored codec 4 calm letter_chunk (joined pieces (8 ∷ [])) filled)
            talk
            (answers [] pieces ++ text_frame type_of (ack letter_chunk)),
      ))
    × (read_chunk calm letter
          (pos 0)
          (stored codec 4 calm letter_chunk (joined pieces (8 ∷ [])) filled)
        ≡ ok (joined pieces (8 ∷ [])))
dispatch-stores_example =
    dispatch-stores codec 4 calm calm al type_of letter_chunk filled letter_meta mask
      op_continuation (8 ∷ []) talk [] pieces (λ env. refl) (calm-IsCalm letter) filled-IsWellFormed
      refl found_letter refl (ground arith) (omega arith, ground arith, ground arith, ground arith)
      (IsSent-mask 8 (omega arith))
      ((IsSent-mask 7 (omega arith), (omega arith, ground arith, ground arith, ground arith)), tt)
      (omega arith) refl refl
