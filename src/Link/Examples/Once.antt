-- ===== src/Link/Examples/Once.antt =====
-- The last download of a one-time share link, at a concrete server.
use bitphase_file_share.Prelude.{
  arith, member, add, ◌≡◌, refl, true, false, [], ◌∷◌, none, some, lookup, insert, delete, text_eq,
  ok, bytes, pos, int_eq,
}
use bitphase_file_share.Store.Meta.{TransferMeta, link_mode}
use bitphase_file_share.Store.Ops.{Store, set_of, read_chunk}
use bitphase_file_share.Strconv.{atoi}
use bitphase_file_share.Store.Load.{empty_store}
use bitphase_file_share.Store.Run.{create_link, put_chunk, run}
use bitphase_file_share.Link.{Request, octets, handle_link_chunk_download}
use bitphase_file_share.Link.Once.{handle_link_chunk_download-burns}
use bitphase_file_share.Store.Burn.Cover.{IsCovered}
use bitphase_file_share.Link.Examples.{calm, codec, share}

-- A share link of one chunk.
abbrev single : Store
single =
    run codec.meta
      (record { now = 1; io = calm; call = create_link share (bytes "secret") (pos 1) true }
        ∷ record { now = 2; io = calm; call = put_chunk share (pos 0) (5 ∷ []) }
        ∷ [])
      (empty_store 100 3 [])

abbrev single_meta : TransferMeta
single_meta = record {
  transfer_id = share;
  from = [];
  to = [];
  total_chunks = pos 1;
  created_at = 1;
  touched_at = 2;
  shareable = false;
  mode = link_mode;
  manage_token = bytes "secret";
  one_time = true;
}

found_single : lookup share single.meta ≡ some single_meta
unfolding run lookup insert delete text_eq add member int_eq
found_single = refl

served_single : set_of share single.served ≡ []
unfolding run lookup insert delete text_eq add member int_eq
served_single = refl

read_single : read_chunk calm share (pos 0) single ≡ ok (5 ∷ [])
unfolding run lookup insert delete text_eq add member int_eq read_chunk
read_single = refl

abbrev first_chunk : Request
first_chunk = record {
  id = share;
  index = bytes "0";
  manage_token = [];
  body = record { content = []; error = none };
}

zero_index : atoi first_chunk.index ≡ some (pos 0)
unfolding atoi
zero_index = refl

IsCovered-single : IsCovered 1 (add (pos 0) [])
unfolding add member int_eq
IsCovered-single k lt = ground (arith, lt)

handle_link_chunk_download-burns_example :
    let (response, s') = handle_link_chunk_download codec.meta 3 calm true first_chunk single in
    (response ≡ octets (5 ∷ [])) × (lookup share s'.meta ≡ none)
handle_link_chunk_download-burns_example =
    handle_link_chunk_download-burns codec.meta 3 calm first_chunk single single_meta 0 1 (5 ∷ [])
      found_single refl refl refl zero_index (omega arith) (rw served_single tt)
      (rw served_single IsCovered-single) read_single
