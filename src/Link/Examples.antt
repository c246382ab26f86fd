-- ===== src/Link/Examples.antt =====
-- The theorems on share links at a concrete server.
mod Once
use bitphase_file_share.Prelude.{
  arith, member, add, ◌≡◌, refl, true, false, List, [], ◌∷◌, none, some, lookup, insert, delete,
  text_eq, ok, Text, bytes, pos, int_eq,
}
use bitphase_file_share.Base64.{encode_url}
use bitphase_file_share.Token.{verify_token, cut_dot, check_claims, tier_rank, plan_refused}
use bitphase_file_share.KeySource.{current}
use bitphase_file_share.Store.Meta.{TransferMeta, link_mode}
use bitphase_file_share.Store.Disk.{Io, written, removed}
use bitphase_file_share.Store.Ops.{Store, get_meta, set_of, read_chunk}
use bitphase_file_share.Strconv.{atoi}
use bitphase_file_share.Store.Load.{empty_store}
use bitphase_file_share.Store.Run.{
  Event, create, create_link, put_chunk, run, run-IsWellFormed, empty-IsWellFormed,
}
use bitphase_file_share.Store.Invariant.{IsWellFormed}
use bitphase_file_share.Store.Apart.{IsApart}
use bitphase_file_share.Server.{FileShareServer, gen_random_token, limit_reader}
use bitphase_file_share.Link.{
  LinkCodec, Request, octets, no_content, no_such_transfer, handle_link_start,
  handle_link_chunk_upload, handle_link_chunk_download, handle_link_delete,
  link_transfer_for_manage, link_transfer, upload_chunk, start_link, mint,
}
use bitphase_file_share.Link.Routes.{Visit, upload, handle, serve}
use bitphase_file_share.Link.Separation.{serve-IsApart, handle_hides}
use bitphase_file_share.Link.Manage.{IsGuarded, manage-IsGuarded}
use bitphase_file_share.Link.Opened.{Opens, handle_link_start-Opens}
use bitphase_file_share.Link.Once.{handle_link_chunk_download-burns}
use bitphase_file_share.Store.Burn.Cover.{IsCovered}
use bitphase_file_share.Link.Transfer.{handle_link_chunk_upload-download}

-- A disk on which every call succeeds.
abbrev calm : Io
calm = record {
  mkdir_error = λ dir. none;
  write_outcome = λ dir name. written;
  rename_error = λ dir. none;
  read_error = λ dir name. none;
  list_error = λ dir. none;
  remove_outcome = λ dir. removed;
  root_error = none;
  list_root_error = none;
}

abbrev codec : LinkCodec
codec = record {
  meta = record { marshal = λ m. m.transfer_id; unmarshal = λ t. none };
  token = record {
    decode_base64 = λ s. some s;
    verify = λ broker_pub payload sig. text_eq sig broker_pub;
    unmarshal_token = λ payload. some (record {
      client_id = payload;
      tier = bytes "paid";
      plan = [];
      issued_at = pos 0;
      expires_at = pos 50;
    });
  };
  decode_start = λ b.
      some
        (record { token = b.content; total_chunks = pos 2; one_time = true; secret_only = false });
}

abbrev share : Text
share = bytes "share"

abbrev direct : Text
direct = bytes "direct"

-- A share link and a direct transfer.
abbrev history : List Event
history =
    record { now = 1; io = calm; call = create_link share (bytes "secret") (pos 2) true }
    ∷ record { now = 2; io = calm; call = create direct (bytes "al") (bytes "bo") (pos 2) false }
    ∷ []

abbrev both : Store
both = run codec.meta history (empty_store 100 3 [])

both-IsWellFormed : IsWellFormed both
both-IsWellFormed =
    run-IsWellFormed codec.meta history (empty_store 100 3 []) (empty-IsWellFormed 100 3)

abbrev file_share : FileShareServer
file_share = record {
  store = both;
  broker_pub = record { key = bytes "broker"; expires_at = pos 0 };
  min_tier = bytes "paid";
}

abbrev ask : Text → Text → Text → Request
ask id token content = record {
  id = id;
  index = bytes "1";
  manage_token = token;
  body = record { content = content; error = none };
}

abbrev direct_meta_now : TransferMeta
direct_meta_now = record {
  transfer_id = direct;
  from = bytes "al";
  to = bytes "bo";
  total_chunks = pos 2;
  created_at = 2;
  touched_at = 2;
  shareable = false;
  mode = [];
  manage_token = [];
  one_time = false;
}

found_direct : lookup direct both.meta ≡ some direct_meta_now
unfolding run lookup insert text_eq
found_direct = refl

abbrev visit_direct : Visit
visit_direct = record {
  now = 3;
  io = calm;
  method = bytes "PUT";
  route = upload;
  request = ask direct (bytes "secret") (1 ∷ []);
  unrouted = no_content;
}

serve-IsApart_example : IsApart direct both (serve codec file_share visit_direct).1
serve-IsApart_example =
    serve-IsApart codec file_share visit_direct direct direct_meta_now both-IsWellFormed
      found_direct (λ e. cc)

handle_hides_example : handle codec file_share visit_direct both ≡ (no_such_transfer, both)
handle_hides_example =
    handle_hides codec file_share visit_direct tt (λ m h e. cc (h, e, found_direct))

manage-IsGuarded_example :
    IsGuarded
      (ask share (bytes "guess") [])
      both
      (handle_link_chunk_upload codec.meta 3 calm (ask share (bytes "guess") []) both)
    × IsGuarded
        (ask share (bytes "guess") [])
        both
        (handle_link_delete calm (ask share (bytes "guess") []) both)
manage-IsGuarded_example = manage-IsGuarded codec.meta 3 calm (ask share (bytes "guess") []) both

abbrev bob_start : Request
bob_start = ask [] [] (bytes "bob.broker")

started :
    (handle_link_start codec 3 calm (ok (1 ∷ 2 ∷ []), ok (3 ∷ [])) bob_start file_share).0.status
    ≡ 200
unfolding handle_link_start start_link mint run lookup insert text_eq current int_eq verify_token
    cut_dot limit_reader check_claims tier_rank plan_refused gen_random_token encode_url
started = refl

handle_link_start-Opens_example :
    Opens codec 3
      (ok (1 ∷ 2 ∷ []))
      (ok (3 ∷ []))
      bob_start
      file_share
      (handle_link_start codec 3 calm (ok (1 ∷ 2 ∷ []), ok (3 ∷ [])) bob_start file_share)
handle_link_start-Opens_example =
    handle_link_start-Opens codec 3 (ok (1 ∷ 2 ∷ [])) (ok (3 ∷ [])) bob_start file_share calm
      started

uploaded :
    (handle_link_chunk_upload codec.meta 3 calm
      (ask share (bytes "secret") (7 ∷ 8 ∷ []))
      both).0.status
    ≡ 204
unfolding handle_link_chunk_upload run lookup insert text_eq link_transfer_for_manage link_transfer
    get_meta upload_chunk atoi limit_reader delete
uploaded = refl

handle_link_chunk_upload-download_example :
    (handle_link_chunk_download codec.meta 4 calm true
      (ask share [] [])
      (handle_link_chunk_upload codec.meta 3 calm
        (ask share (bytes "secret") (7 ∷ 8 ∷ []))
        both).1).0
    ≡ octets (7 ∷ 8 ∷ [])
handle_link_chunk_upload-download_example =
    handle_link_chunk_upload-download codec.meta 3 4 calm calm true
      (ask share (bytes "secret") (7 ∷ 8 ∷ [])) (record { content = []; error = none }) both
      both-IsWellFormed (λ i. refl) uploaded
